-- ===== src/Matching/Rematch.antt =====
-- `match_job` and `rematch_all` of backend/resume_matching.py, with the reports of progress.
use opportunity_radar.Prelude.{
  ℕ, ◌+◌, ◌-◌, String, Bool, true, false, not, ◌&&◌, Option, none, some, List, [], ◌∷◌, filter,
  length, if◌then◌else◌, Text, codes, text_eq, str_eq, lookup,
}
use opportunity_radar.Matching.Context.{Context, no_resume, unreadable, usable}
use opportunity_radar.Matching.Service.{
  StoredJob, Repository, MatchContext, Writes, matched_fit, upsert_fit, is_blank, record_failure,
}

-- A row of `list_jobs`.
pub record Listed : Type 0 where
  pub id : String
  pub status_folded : Text
  pub source_url : Text
  pub stored : StoredJob

unfoldable pub is_eligible : Listed → Bool
is_eligible job =
    text_eq job.status_folded (codes "open")
    && not (str_eq job.id "")
    && not (is_blank job.stored.posting.title)
    && not (is_blank job.source_url)

-- What `progress` is called with.
pub record Report : Type 0 where
  pub processed : ℕ
  pub matched : ℕ
  pub failed : ℕ
  pub remaining : ℕ

-- How the loop of `rematch_all` ends: with its counts, with `UtilityCancelled`, or with an exception
-- of `progress`, which is outside the `try`.
pub data Ending : Type 0 where
  finished : (processed matched failed : ℕ) → Ending
  cancelled : Ending
  progress_failed : Ending

-- What is left of it: the reports, the one whose call raised included, the ending and the repository.
pub record Rematched : Type 0 where
  pub reports : List Report
  pub ending : Ending
  pub repository : Repository

module _ (context : MatchContext) (writes : Writes) where
  -- The failure of a job that is no longer there is not stored.
  unfoldable pub record_absent : String → Option StoredJob → Repository → Repository
  unfolding record_failure
  record_absent job_id none r = r
  record_absent job_id (some job) r = record_failure context writes job_id job r

  unfoldable pub rematch_one : Listed → Repository → Bool × Repository
  unfolding matched_fit upsert_fit record_absent
  rematch_one job r =
      if writes.matches job.id
      then (true, upsert_fit job.id (matched_fit context job.stored) r)
      else (false, record_absent job.id (lookup job.id r.jobs) r)

  -- Whether the event is set when a job's turn comes, and whether `progress` raises after it, are
  -- functions of its number.
  module _ (is_cancelled raises : ℕ → Bool) (count : ℕ) where
    -- The loop after a number of jobs.
    unfoldable pub rematch_each :
        List Listed → (processed matched failed : ℕ) → Repository → Rematched
    unfolding rematch_one
    rematch_each [] processed matched failed r = record {
      reports = [];
      ending = finished count matched failed;
      repository = r;
    }
    rematch_each (job ∷ jobs) processed matched failed r =
        let (ok, after) = rematch_one job r in
        let more = if ok then 1 else 0 in
        let less = if ok then 0 else 1 in
        let report : Report = record {
          processed = processed + 1;
          matched = matched + more;
          failed = failed + less;
          remaining = count - (processed + 1);
        } in
        let rest = rematch_each jobs (processed + 1) (matched + more) (failed + less) after in
        if is_cancelled (processed + 1)
        then record { reports = []; ending = cancelled; repository = r }
        else if raises (processed + 1)
        then record { reports = report ∷ []; ending = progress_failed; repository = after }
        else record rest { reports = report ∷ rest.reports }

-- What a call of `rematch_all` comes to: the ValueError without an active resume, that of an active
-- resume that is not readable, or the loop.
pub data RematchAll : Type 0 where
  without_resume : RematchAll
  unreadable_resume : RematchAll
  rematched : Rematched → RematchAll

-- `rematch_all`
unfoldable pub rematch_all :
    Context → Writes → (is_cancelled raises : ℕ → Bool) → List Listed → Repository → RematchAll
unfolding rematch_each is_eligible
rematch_all no_resume writes is_cancelled raises listed r = without_resume
rematch_all unreadable writes is_cancelled raises listed r = unreadable_resume
rematch_all (usable context) writes is_cancelled raises listed r =
    let jobs = filter is_eligible listed in
    rematched (rematch_each context writes is_cancelled raises (length jobs) jobs 0 0 0 r)

-- ===== src/Matching/Service.antt =====
-- The stored matches: `upsert_resume_fit_result` and the match status of `job_row_to_api` in
-- backend/repository.py, and the loop of `match_jobs_if_needed` in backend/resume_matching.py.
use opportunity_radar.Prelude.{
  ℕ, ◌+◌, String, Bool, true, false, not, ◌||◌, Option, none, some, List, [], ◌∷◌, any,
  if◌then◌else◌, Text, codes, length, text_eq, str_eq, Dict, lookup, put,
}
use opportunity_radar.Matching.{Posting, calculate_match}

pub data FitStatus : Type 0 where
  fit_matched fit_failed : FitStatus

-- A row of `resume_fit_results`.
pub record Fit : Type 0 where
  pub status : FitStatus
  pub score : Option ℕ
  pub resume_version : Text
  pub job_fingerprint : Text
  pub algorithm_version : Text

-- A row of `jobs`, with its fingerprint.
pub record StoredJob : Type 0 where
  pub posting : Posting
  pub fingerprint : Text

pub record Repository : Type 0 where
  pub jobs : Dict StoredJob
  pub fits : Dict Fit

pub data MatchStatus : Type 0 where
  not_matched needs_rematch match_failed matched : MatchStatus

abbrev pub algorithm : Text
algorithm = codes "2"

unfoldable pub stored_status : FitStatus → MatchStatus
stored_status fit_matched = matched
stored_status fit_failed = match_failed

-- The text of the active resume's version; there is none without an active resume.
abbrev pub is_blank : Text → Bool
is_blank [] = true
is_blank (c ∷ t) = false

unfoldable pub is_stale : (active_version fingerprint : Text) → Fit → Bool
is_stale active_version fingerprint f =
    not (text_eq f.resume_version active_version)
    || not (text_eq f.algorithm_version algorithm)
    || not (text_eq f.job_fingerprint fingerprint)

unfoldable pub match_status : (active_version fingerprint : Text) → Option Fit → MatchStatus
unfolding is_stale stored_status
match_status active_version fingerprint none = not_matched
match_status active_version fingerprint (some f) =
    if is_blank active_version
    then not_matched
    else if is_stale active_version fingerprint f
    then needs_rematch
    else stored_status f.status

-- `matchScore` and the score that `matchLabel` is of: there is none unless the job is matched.
unfoldable pub shown_score : (active_version fingerprint : Text) → Option Fit → Option ℕ
unfolding match_status
shown_score active_version fingerprint none = none
shown_score active_version fingerprint (some f) =
    elim (match_status active_version fingerprint (some f)) [ matched ↦ f.score | _ ↦ none ]

-- The `MatchContext`, and what `re.search` finds in the resume.
pub record MatchContext : Type 0 where
  pub version : Text
  pub normalized_text : Text
  pub has_years : Bool

-- What `_match_and_persist` stores.
unfoldable pub matched_fit : MatchContext → StoredJob → Fit
unfolding calculate_match
matched_fit context job = record {
  status = fit_matched;
  score = some (calculate_match context.has_years context.normalized_text job.posting);
  resume_version = context.version;
  job_fingerprint = job.fingerprint;
  algorithm_version = algorithm;
}

-- What `_record_failure` stores.
unfoldable pub failed_fit : MatchContext → StoredJob → Fit
failed_fit context job = record {
  status = fit_failed;
  score = none;
  resume_version = context.version;
  job_fingerprint = job.fingerprint;
  algorithm_version = algorithm;
}

-- `upsert_resume_fit_result`
unfoldable pub upsert_fit : String → Fit → Repository → Repository
upsert_fit job_id f r = record r { fits = put job_id f r.fits }

-- The match status that `get_job` gives while the context's resume is the active one. `upsert_resume`
-- writes its version, which is not blank, to the row that both read.
unfoldable pub status_of : MatchContext → String → StoredJob → Repository → MatchStatus
unfolding match_status
status_of context job_id job r = match_status context.version job.fingerprint (lookup job_id r.fits)

abbrev pub is_matched : MatchStatus → Bool
is_matched matched = true
is_matched _ = false

pub record Counts : Type 0 where
  pub matched : ℕ
  pub failed : ℕ
  pub skipped : ℕ

-- Whether the database takes the write of a match, and that of a failure, of a job.
pub record Writes : Type 0 where
  pub matches : String → Bool
  pub failures : String → Bool

module _ (context : MatchContext) (writes : Writes) where
  -- `_record_failure`, whose own exceptions are logged
  unfoldable pub record_failure : String → StoredJob → Repository → Repository
  unfolding upsert_fit failed_fit
  record_failure job_id job r =
      if writes.failures job_id then upsert_fit job_id (failed_fit context job) r else r

  -- The body of the loop, for a job that `get_job` finds.
  unfoldable pub match_found : String → StoredJob → Counts → Repository → Counts × Repository
  unfolding upsert_fit matched_fit record_failure status_of
  match_found job_id job n r =
      if is_matched (status_of context job_id job r)
      then (record n { skipped = n.skipped + 1 }, r)
      else if writes.matches job_id
      then (record n { matched = n.matched + 1 }, upsert_fit job_id (matched_fit context job) r)
      else (record n { failed = n.failed + 1 }, record_failure job_id job r)

  -- A job that is not there counts as failed; its failure cannot be stored either.
  unfoldable pub match_one : String → Option StoredJob → Counts → Repository → Counts × Repository
  unfolding match_found
  match_one job_id none n r = (record n { failed = n.failed + 1 }, r)
  match_one job_id (some job) n r = match_found job_id job n r

  unfoldable pub match_each : List String → Counts → Repository → Counts × Repository
  unfolding match_one
  match_each [] n r = (n, r)
  match_each (job_id ∷ job_ids) n r =
      let step = match_one job_id (lookup job_id r.jobs) n r in match_each job_ids step.0 step.1

-- dict.fromkeys(job_ids)
unfoldable pub unique_ids : (seen job_ids : List String) → List String
unique_ids seen [] = []
unique_ids seen (j ∷ job_ids) =
    let fresh = unique_ids (j ∷ seen) job_ids in
    let again = unique_ids seen job_ids in if any (str_eq j) seen then again else j ∷ fresh

-- `match_jobs_if_needed`, with the context if there is an active resume; it is a ValueError, before
-- the loop, if that is not readable.
unfoldable pub match_jobs_if_needed :
    Option MatchContext → Writes → List String → Repository → Counts × Repository
unfolding match_each unique_ids
match_jobs_if_needed none writes job_ids r =
    (record { matched = 0; failed = 0; skipped = length (unique_ids [] job_ids) }, r)
match_jobs_if_needed (some context) writes job_ids r =
    match_each context writes (unique_ids [] job_ids)
      record { matched = 0; failed = 0; skipped = 0 } r

-- ===== src/Matching/Progress.antt =====
-- The reports of progress of `rematch_all` of backend/resume_matching.py.
use opportunity_radar.Prelude.{
  ℕ, ◌+◌, ◌-◌, ◌≤◌, ◌≡◌, refl, sym, subst, Bool, true, false, not, List, [], ◌∷◌, ◌++◌, filter,
  length, if◌then◌else◌, if_cases, arith, count_if, length-append,
}
use opportunity_radar.Matching.Context.{usable}
use opportunity_radar.Matching.Service.{Repository, MatchContext, Writes}
use opportunity_radar.Matching.Rematch.{
  Listed, is_eligible, Report, Ending, finished, cancelled, progress_failed, Rematched, rematched,
  rematch_one, rematch_each, rematch_all,
}

count_if-snoc :
    {A : Type 0} (p : A → Bool) (xs : List A) (x : A)
    → count_if p (xs ++ x ∷ []) ≡ count_if p xs + (if p x then 1 else 0)
count_if-snoc p [] x = omega arith
count_if-snoc p (y ∷ xs) x = omega (arith, count_if-snoc p xs x)

module _ (writes : Writes) (is_cancelled raises : ℕ → Bool) (count : ℕ) where
  -- The jobs whose match the database took, and the others.
  unfoldable pub stored : List Listed → ℕ
  stored jobs = count_if (λ (j : Listed). writes.matches j.id) jobs

  unfoldable pub unstored : List Listed → ℕ
  unstored jobs = count_if (λ (j : Listed). not (writes.matches j.id)) jobs

  -- How it ends after the jobs `done`, with `left` still to do: all are done, and the counts are theirs;
  -- or the event was set when the turn of the next job came; or the last report raised.
  unfoldable pub IsEnding : (done left : List Listed) → Ending → Type 0
  unfolding stored unstored
  IsEnding done left (finished processed matched failed) =
      (left ≡ []) × (processed ≡ length done) × (matched ≡ stored done) × (failed ≡ unstored done)
  IsEnding done left cancelled = (1 ≤ length left) × (is_cancelled (length done + 1) ≡ true)
  IsEnding done left progress_failed = raises (length done) ≡ true

  -- A report after the jobs `done`, the last of which had its turn before the event was set.
  unfoldable pub IsReport : (done : List Listed) → Report → Type 0
  unfolding stored unstored
  IsReport done report =
      (report.processed ≡ length done)
      × (report.matched ≡ stored done)
      × (report.failed ≡ unstored done)
      × (report.processed + report.remaining ≡ count)
      × (is_cancelled (length done) ≡ false)

  -- The reports after the jobs `done`: one for each of the next jobs, in order, and then the ending;
  -- a report that raises is the last.
  unfoldable pub IsProgress : (done left : List Listed) → Ending → List Report → Type 0
  unfolding IsEnding IsReport
  IsProgress done left ending [] = IsEnding done left ending
  IsProgress done [] ending (report ∷ reports) = ⊥
  IsProgress done (job ∷ left) ending (report ∷ reports) =
      IsReport (done ++ job ∷ []) report
      × (raises (length (done ++ job ∷ [])) ≡ true → (reports ≡ []) × (ending ≡ progress_failed))
      × IsProgress (done ++ job ∷ []) left ending reports

  module _ (context : MatchContext) where
    one-stored :
        (job : Listed) (r : Repository)
        → (rematch_one context writes job r).0 ≡ writes.matches job.id
    unfolding rematch_one
    one-stored job r =
        if_cases (λ (s : Bool × Repository). s.0 ≡ writes.matches job.id) (writes.matches job.id)
          (λ h. sym h) (λ h. sym h)

    more-stored :
        (done : List Listed) (job : Listed) (ok : Bool) (matched : ℕ)
        → ok ≡ writes.matches job.id
        → matched ≡ stored done
        → matched + (if ok then 1 else 0) ≡ stored (done ++ job ∷ [])
    unfolding stored
    more-stored done job ok matched eo em =
        rw eo (omega (arith, em, count_if-snoc (λ (j : Listed). writes.matches j.id) done job))

    less-unstored :
        (done : List Listed) (job : Listed) (ok : Bool) (failed : ℕ)
        → ok ≡ writes.matches job.id
        → failed ≡ unstored done
        → failed + (if ok then 0 else 1) ≡ unstored (done ++ job ∷ [])
    unfolding unstored
    less-unstored done job ok failed eo ef =
        rw eo
          (ground (arith, ef, count_if-snoc (λ (j : Listed). not (writes.matches j.id)) done job))

    each-IsProgress :
        (left done : List Listed) (n matched failed : ℕ) (r : Repository)
        → n ≡ length done
        → matched ≡ stored done
        → failed ≡ unstored done
        → length done + length left ≡ count
        → let result =
            rematch_each context writes is_cancelled raises count left n matched failed r in
          IsProgress done left result.ending result.reports
    unfolding rematch_each IsProgress IsEnding IsReport stored unstored
    each-IsProgress [] done n matched failed r en em ef whole = (refl, omega (arith, whole), em, ef)
    each-IsProgress (job ∷ left) done n matched failed r en em ef whole =
        let step = rematch_one context writes job r in
        let now = done ++ job ∷ [] in
        let more = matched + (if step.0 then 1 else 0) in
        let less = failed + (if step.0 then 0 else 1) in
        let en' : n + 1 ≡ length now = omega (arith, en, length-append done (job ∷ [])) in
        let em' : more ≡ stored now = more-stored done job step.0 matched (one-stored job r) em in
        let ef' : less ≡ unstored now =
          less-unstored done job step.0 failed (one-stored job r) ef in
        if_cases (λ (s : Rematched). IsProgress done (job ∷ left) s.ending s.reports)
          (is_cancelled (n + 1))
          (λ set. (omega arith, subst (λ k. is_cancelled (k + 1) ≡ true) en set))
          (λ unset.
            let report : IsReport now record {
              processed = n + 1;
              matched = more;
              failed = less;
              remaining = count - (n + 1);
            } =
              (
                en',
                em',
                ef',
                omega (arith, whole, en),
                subst (λ k. is_cancelled k ≡ false) en' unset,
              ) in
            if_cases (λ (s : Rematched). IsProgress done (job ∷ left) s.ending s.reports)
              (raises (n + 1))
              (λ up. (report, (λ _. (refl, refl)), subst (λ k. raises k ≡ true) en' up))
              (λ down. (
                report,
                (λ up. absurd (cc (subst (λ k. raises k ≡ false) en' down, up))),
                each-IsProgress left now (n + 1) more less step.1 en' em' ef'
                    (omega (arith, whole, en, en')),
              )))

-- `rematch_all`, with an active resume that is readable, reports after each job, in the order of the
-- eligible jobs, as long as the event was not set when the job's turn came. A report counts the jobs
-- so far, those among them whose match the database took as matched and the others as failed, and
-- the jobs that remain. It ends in one of three ways: all jobs were reported, and the counts that it
-- returns are theirs; or it is cancelled, where the event was set when the turn of the job after the
-- last report came; or the last report raised, after which no other follows.
pub rematch-IsProgress :
    (context : MatchContext) (writes : Writes) (is_cancelled raises : ℕ → Bool)
    (listed : List Listed) (r : Repository)
    → (result : Rematched) × (rematch_all (usable context) writes is_cancelled raises listed r
        ≡ rematched result)
      × IsProgress writes is_cancelled raises
          (length (filter is_eligible listed))
          []
          (filter is_eligible listed)
          result.ending
          result.reports
unfolding rematch_all stored unstored
rematch-IsProgress context writes is_cancelled raises listed r =
    let jobs = filter is_eligible listed in
    (
      rematch_each context writes is_cancelled raises (length jobs) jobs 0 0 0 r,
      refl,
      each-IsProgress writes is_cancelled raises (length jobs) context jobs [] 0 0 0 r refl refl
          refl (omega arith),
    )

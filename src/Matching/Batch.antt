-- ===== src/Matching/Batch.antt =====
-- What a batch of matches of backend/resume_matching.py leaves in the repository.
use mathlib.Core.Option.{some-injective, none-ne-some}
use opportunity_radar.Prelude.{
  ℕ, ◌+◌, ◌≡◌, refl, sym, ap, ◌∙◌, inl, inr, String, true, false, Option, none, some, List, [], ◌∷◌,
  any, if_cases, arith, text_eq_self, length, str_eq, eq_iff, Dict, lookup, lookup-put, Bool-cases,
}
use opportunity_radar.Matching.Service.{
  Fit, StoredJob, Repository, MatchStatus, not_matched, needs_rematch, match_failed, matched,
  is_blank, MatchContext, matched_fit, upsert_fit, status_of, is_matched, Counts, Writes,
  failed_fit, record_failure, match_found, match_one, match_each, unique_ids, match_jobs_if_needed,
}
use opportunity_radar.Matching.Stale.{stored_match-status}
use opportunity_radar.Matching.Unique.{unique_ids-any}

unfoldable pub total : Counts → ℕ
total n = n.matched + n.failed + n.skipped

lookup-same :
    {A : Type 0} (j k : String) (d : Dict A) (o : Option A) (v : A)
    → str_eq j k ≡ true
    → lookup j d ≡ o
    → lookup k d ≡ some v
    → o ≡ some v
lookup-same j k d o v same at_j at_k = sym at_j ∙ ap (λ i. lookup i d) ((eq_iff j k).0 same) ∙ at_k

module _ (context : MatchContext) (writes : Writes) where
  one-total :
      (job_id : String) (o : Option StoredJob) (n : Counts) (r : Repository)
      → total (match_one context writes job_id o n r).0 ≡ total n + 1
  unfolding match_one match_found total
  one-total job_id none n r = omega arith
  one-total job_id (some job) n r =
      if_cases (λ (s : Counts × Repository). total s.0 ≡ total n + 1)
        (is_matched (status_of context job_id job r)) (λ _. omega arith)
        (λ _.
          if_cases (λ (s : Counts × Repository). total s.0 ≡ total n + 1) (writes.matches job_id)
            (λ _. omega arith) (λ _. omega arith))

  each-total :
      (job_ids : List String) (n : Counts) (r : Repository)
      → total (match_each context writes job_ids n r).0 ≡ total n + length job_ids
  unfolding match_each
  each-total [] n r = omega arith
  each-total (j ∷ job_ids) n r =
      let step = match_one context writes j (lookup j r.jobs) n r in
      omega (arith, one-total j (lookup j r.jobs) n r, each-total job_ids step.0 step.1)

  -- A job that is there is matched.
  abbrev pub IsDone : String → Repository → Type 0
  IsDone job_id r =
      (job : StoredJob)
      → lookup job_id r.jobs ≡ some job
      → is_matched (status_of context job_id job r) ≡ true

  one-jobs :
      (j : String) (o : Option StoredJob) (n : Counts) (r : Repository)
      → (match_one context writes j o n r).1.jobs ≡ r.jobs
  unfolding match_one match_found record_failure upsert_fit
  one-jobs j none n r = refl
  one-jobs j (some job) n r =
      if_cases (λ (s : Counts × Repository). s.1.jobs ≡ r.jobs)
        (is_matched (status_of context j job r)) (λ _. refl)
        (λ _.
          if_cases (λ (s : Counts × Repository). s.1.jobs ≡ r.jobs) (writes.matches j) (λ _. refl)
            (λ _.
              if_cases (λ (s : Repository). s.jobs ≡ r.jobs) (writes.failures j) (λ _. refl)
                (λ _. refl)))

  module _ (versioned : is_blank context.version ≡ false) where
    matched_now :
        (j : String) (job : StoredJob) (r : Repository)
        → is_matched (status_of context j job (upsert_fit j (matched_fit context job) r)) ≡ true
    unfolding status_of
    matched_now j job r =
        rw
          (
            stored_match-status context job j r context.version job.fingerprint,
            versioned,
            text_eq_self context.version,
            text_eq_self job.fingerprint,
          )
          refl

    -- A match that is stored for one job leaves the others as they are.
    other_match :
        (j k : String) (f : Fit) (job : StoredJob) (r : Repository)
        → str_eq j k ≡ false
        → status_of context k job (upsert_fit j f r) ≡ status_of context k job r
    unfolding status_of upsert_fit
    other_match j k f job r apart = rw (lookup-put j k f r.fits, apart) refl

    failure_apart :
        (j k : String) (job job' : StoredJob) (r : Repository)
        → str_eq j k ≡ false
        → status_of context k job' (record_failure context writes j job r)
          ≡ status_of context k job' r
    unfolding record_failure
    failure_apart j k job job' r apart =
        if_cases (λ (s : Repository). status_of context k job' s ≡ status_of context k job' r)
          (writes.failures j) (λ _. other_match j k (failed_fit context job) job' r apart)
          (λ _. refl)

    found-IsDone :
        (j k : String) (job : StoredJob) (n : Counts) (r : Repository)
        → writes.matches k ≡ true
        → lookup j r.jobs ≡ some job
        → (str_eq j k ≡ false → IsDone k r)
        → (job' : StoredJob) → lookup k r.jobs ≡ some job'
        → is_matched (status_of context k job' (match_found context writes j job n r).1) ≡ true
    unfolding match_found
    found-IsDone j k job n r ok found h job' there = elim (Bool-cases (str_eq j k)) [
      | inl e ↦
          rw
            (
              ← some-injective job job' (lookup-same j k r.jobs (some job) job' e found there),
              ← (eq_iff j k).0 e,
            )
            (if_cases (λ (s : Counts × Repository). is_matched (status_of context j job s.1) ≡ true)
              (is_matched (status_of context j job r)) (λ already. already)
              (λ _.
                if_cases
                  (λ (s : Counts × Repository). is_matched (status_of context j job s.1) ≡ true)
                  (writes.matches j) (λ _. matched_now j job r)
                  (λ fails.
                    absurd (ground (arith, ap writes.matches ((eq_iff j k).0 e), ok, fails)))))
      | inr e ↦
          if_cases (λ (s : Counts × Repository). is_matched (status_of context k job' s.1) ≡ true)
            (is_matched (status_of context j job r)) (λ _. h e job' there)
            (λ _.
              if_cases
                (λ (s : Counts × Repository). is_matched (status_of context k job' s.1) ≡ true)
                (writes.matches j)
                (λ _. rw (other_match j k (matched_fit context job) job' r e) (h e job' there))
                (λ _. rw (failure_apart j k job job' r e) (h e job' there)))
    ]

    one-IsDone :
        (j k : String) (o : Option StoredJob) (n : Counts) (r : Repository)
        → writes.matches k ≡ true
        → lookup j r.jobs ≡ o
        → (str_eq j k ≡ false → IsDone k r)
        → IsDone k (match_one context writes j o n r).1
    unfolding match_one
    one-IsDone j k none n r ok found h = elim (Bool-cases (str_eq j k)) [
      | inl e ↦
          λ job' there. absurd (none-ne-some job' (lookup-same j k r.jobs none job' e found there))
      | inr e ↦ h e
    ]
    one-IsDone j k (some job) n r ok found h = λ job' there.
        found-IsDone j k job n r ok found h job'
          (ap (lookup k) (sym (one-jobs j (some job) n r)) ∙ there)

    each-IsDone :
        (k : String) (job_ids : List String) (n : Counts) (r : Repository)
        → writes.matches k ≡ true
        → (any (λ j. str_eq j k) job_ids ≡ false → IsDone k r)
        → IsDone k (match_each context writes job_ids n r).1
    unfolding match_each
    each-IsDone k [] n r ok h = h refl
    each-IsDone k (j ∷ job_ids) n r ok h =
        let step = match_one context writes j (lookup j r.jobs) n r in
        each-IsDone k job_ids step.0 step.1 ok (λ apart.
          one-IsDone j k (lookup j r.jobs) n r ok refl (λ e. h (ground (arith, e, apart))))

  each-jobs :
      (job_ids : List String) (n : Counts) (r : Repository)
      → (match_each context writes job_ids n r).1.jobs ≡ r.jobs
  unfolding match_each
  each-jobs [] n r = refl
  each-jobs (j ∷ job_ids) n r =
      let step = match_one context writes j (lookup j r.jobs) n r in
      each-jobs job_ids step.0 step.1 ∙ one-jobs j (lookup j r.jobs) n r

matched_status : (s : MatchStatus) → is_matched s ≡ true → s ≡ matched
matched_status matched h = refl
matched_status not_matched h = absurd (ground (arith, h))
matched_status needs_rematch h = absurd (ground (arith, h))
matched_status match_failed h = absurd (ground (arith, h))

-- A job of the batch whose match the database takes is matched for the active resume afterwards,
-- whatever becomes of the others, and each different id is counted once: as matched, failed or
-- skipped. The version of the resume is not blank.
pub batch_isolated :
    (context : MatchContext) (writes : Writes) (job_ids : List String) (k : String)
    (job : StoredJob) (r : Repository)
    → is_blank context.version ≡ false
    → writes.matches k ≡ true
    → any (λ j. str_eq j k) job_ids ≡ true
    → lookup k r.jobs ≡ some job
    → (status_of context k job (match_jobs_if_needed (some context) writes job_ids r).1 ≡ matched)
      × (total (match_jobs_if_needed (some context) writes job_ids r).0
          ≡ length (unique_ids [] job_ids))
unfolding match_jobs_if_needed total
batch_isolated context writes job_ids k job r versioned ok listed there =
    let zeros : Counts = record { matched = 0; failed = 0; skipped = 0 } in
    let ids = unique_ids [] job_ids in
    (
      matched_status (status_of context k job (match_each context writes ids zeros r).1) (
          each-IsDone context writes versioned k ids zeros r ok
            (λ e. absurd (ground (arith, e, unique_ids-any k [] job_ids refl listed))) job
            (ap (lookup k) (each-jobs context writes ids zeros r) ∙ there)),
      omega (arith, each-total context writes ids zeros r),
    )

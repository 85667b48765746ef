-- ===== src/Schedules/Once.antt =====
-- What one pass of backend/maintenance_scheduler.py over a schedule leaves for the next.
use opportunity_radar.Prelude.{
  ℕ, ◌≢◌, sym, subst, [], ◌∷◌, Bool-cases, ◌≡◌, ◌⊎◌, inl, inr, refl, Bool, true, false, not, Option,
  none, some, List, ◌==◌, if_cases, arith, count_if,
}
use opportunity_radar.Schedules.{
  Schedule, can_claim, claim_occurrence, StartResult, run_started, runtime_error, other_error,
  started_unread, Claim, claimed, update_where, give_back, Definition, Moment, claim_of, is_due,
  Served, passed_over, skipped_disabled, started, skipped_busy, raised, raised_running, launch,
  attempted, serve,
}
use opportunity_radar.Schedules.Claims.{
  IsKeyed, IsTaken, IsMarked, claimed-IsMarked, Marked-Taken, released-IsTaken, taken-count,
  count-can_claim-le,
}

-- Which outcome leaves the date taken, and when: the job was started; the skip of a disabled job was
-- recorded, or could not be; or `start` raised and the occurrence could not be given back.
pub data Keeps (d : Definition) : Served → Type 0 where
  begun : d.enabled ≡ true → d.start ≡ run_started → Keeps d started
  disabled : d.enabled ≡ false → d.records ≡ true → Keeps d skipped_disabled
  unrecorded : d.enabled ≡ false → d.records ≡ false → Keeps d raised
  unreleased :
      d.enabled ≡ true
      → (d.start ≡ runtime_error) ⊎ (d.start ≡ other_error)
      → d.releases ≡ false
      → Keeps d raised
  unreleased_running :
      d.enabled ≡ true → d.start ≡ started_unread → d.releases ≡ false → Keeps d raised_running

-- Which outcome gives the occurrence back: `start` raised, and the release was stored.
pub data Returns (d : Definition) : Served → Type 0 where
  busy : d.start ≡ runtime_error → d.records ≡ true → Returns d skipped_busy
  busy_unrecorded : d.start ≡ runtime_error → d.records ≡ false → Returns d raised
  failed : d.start ≡ other_error → Returns d raised
  running : d.start ≡ started_unread → Returns d raised_running

-- The schedule is due, and the claim changes one row.
unfoldable pub IsClaimable : Moment → Schedule → List Schedule → Type 0
IsClaimable m s rows = (is_due m s ≡ true) × (count_if (can_claim (claim_of m s)) rows ≡ 1)

-- How a pass over the schedule `s` can end, from the rows before it. The rows are as they were, since
-- the job is not in the registry, the schedule is not due, or no row meets the claim. Or the
-- occurrence was claimed, and it stays taken; or the job's row has the former date again.
pub data Pass (job : Option Definition) (m : Moment) (s : Schedule) (before : List Schedule)
    : Served × List Schedule → Type 0 where
  nothing :
      (job ≡ none) ⊎ (is_due m s ≡ false) ⊎ (count_if (can_claim (claim_of m s)) before ≡ 0)
      → Pass job m s before (passed_over, before)
  taken :
      (d : Definition) (o : Served) (rows : List Schedule)
      → job ≡ some d
      → Keeps d o
      → IsClaimable m s before
      → IsTaken s.job_key m.date rows
      → Pass job m s before (o, rows)
  given_back :
      (d : Definition) (o : Served) (rows : List Schedule)
      → job ≡ some d
      → (d.enabled ≡ true) × (d.releases ≡ true) × Returns d o
      → IsClaimable m s before
      → IsTaken s.job_key s.last_scheduled_date rows
      → Pass job m s before (o, rows)

was_due : (b : Bool) → not b ≡ false → b ≡ true
was_due true h = refl
was_due false h = cc h

was_not_due : (b : Bool) → not b ≡ true → b ≡ false
was_not_due true h = cc h
was_not_due false h = refl

not_equal : (n : ℕ) → (n == 1) ≡ false → n ≢ 1
not_equal n h = ground (arith, h)

-- A claim that no row meets changes none.
unclaimed :
    (c : Claim) (rows : List Schedule)
    → count_if (can_claim c) rows ≡ 0
    → update_where (can_claim c) (claimed c) rows ≡ rows
unfolding update_where
unclaimed c [] e = refl
unclaimed c (r ∷ rows) e = elim (Bool-cases (can_claim c r)) [
  | inl h ↦ absurd (ground (arith, h, e))
  | inr h ↦ rw (h, unclaimed c rows (ground (arith, h, e))) refl
]

unmet :
    (c : Claim) (rows : List Schedule)
    → IsKeyed c.job_key rows
    → (count_if (can_claim c) rows == 1) ≡ false
    → count_if (can_claim c) rows ≡ 0
unmet c rows keyed h = omega (arith, keyed, count-can_claim-le c rows, not_equal _ h)

unfoldable a_job : Bool → StartResult → (records releases : Bool) → Definition
a_job enabled start records releases = record {
  enabled = enabled;
  start = start;
  records = records;
  releases = releases;
}

module _ (m : Moment) (s : Schedule) (before : List Schedule) (start : StartResult)
    (records releases : Bool) (claim : IsClaimable m s before) where
  back-Pass :
      (o failing : Served) (rows : List Schedule)
      → Returns (a_job true start records releases) o
      → (releases ≡ false → Keeps (a_job true start records releases) failing)
      → IsMarked (claim_of m s) rows
      → Pass
          (some (a_job true start records releases))
          m
          s
          before
          (give_back releases (claim_of m s) m.stamp o failing rows)
  unfolding give_back claim_of a_job
  back-Pass o failing rows e f h =
      if_cases (Pass (some (a_job true start records releases)) m s before) releases
        (λ r.
          given_back (a_job true start records releases) o _ refl (refl, r, e) claim
            (released-IsTaken (claim_of m s) m.stamp rows h))
        (λ r.
          taken (a_job true start records releases) failing rows refl (f r) claim
            (Marked-Taken (claim_of m s) rows h))

module _ (m : Moment) (s : Schedule) (before : List Schedule) (claim : IsClaimable m s before) where
  start-Pass :
      (d : StartResult) (records releases : Bool) (rows : List Schedule)
      → IsMarked (claim_of m s) rows
      → Pass
          (some (a_job true d records releases))
          m
          s
          before
          (launch (a_job true d records releases) (claim_of m s) m.stamp rows)
  unfolding launch claim_of a_job
  start-Pass run_started records releases rows h =
      taken _ started rows refl (begun refl refl) claim (Marked-Taken (claim_of m s) rows h)
  start-Pass runtime_error true releases rows h =
      back-Pass m s before runtime_error true releases claim skipped_busy raised rows
        (busy refl refl) (unreleased refl (inl refl)) h
  start-Pass runtime_error false releases rows h =
      back-Pass m s before runtime_error false releases claim raised raised rows
        (busy_unrecorded refl refl) (unreleased refl (inl refl)) h
  start-Pass other_error records releases rows h =
      back-Pass m s before other_error records releases claim raised raised rows (failed refl)
        (unreleased refl (inr refl)) h
  start-Pass started_unread records releases rows h =
      back-Pass m s before started_unread records releases claim raised_running raised_running rows
        (running refl) (unreleased_running refl refl) h

  launch-Pass :
      (enabled : Bool) (d : StartResult) (records releases : Bool) (rows : List Schedule)
      → IsMarked (claim_of m s) rows
      → Pass
          (some (a_job enabled d records releases))
          m
          s
          before
          (launch (a_job enabled d records releases) (claim_of m s) m.stamp rows)
  unfolding launch claim_of a_job
  launch-Pass true d records releases rows h = start-Pass d records releases rows h
  launch-Pass false d true releases rows h =
      taken _ skipped_disabled rows refl (disabled refl refl) claim
        (Marked-Taken (claim_of m s) rows h)
  launch-Pass false d false releases rows h =
      taken _ raised rows refl (unrecorded refl refl) claim (Marked-Taken (claim_of m s) rows h)

claim-Pass :
    (d : Definition) (m : Moment) (s : Schedule) (rows : List Schedule)
    → IsKeyed s.job_key rows
    → is_due m s ≡ true
    → Pass (some d) m s rows (attempted d m s rows)
unfolding attempted claim_occurrence claim_of a_job IsClaimable
claim-Pass d m s rows keyed due =
    if_cases (Pass (some d) m s rows) (count_if (can_claim (claim_of m s)) rows == 1)
      (λ h.
        launch-Pass m s rows (due, ground (arith, h)) d.enabled d.start d.records d.releases _
          (claimed-IsMarked (claim_of m s) rows keyed (ground arith)))
      (λ h.
        let none_met = unmet (claim_of m s) rows keyed h in
        subst (λ after. Pass (some d) m s rows (passed_over, after))
          (sym (unclaimed (claim_of m s) rows none_met)) (nothing (inr (inr none_met))))

pub serve-Pass :
    (job : Option Definition) (m : Moment) (s : Schedule) (rows : List Schedule)
    → IsKeyed s.job_key rows
    → Pass job m s rows (serve job m s rows)
unfolding serve
serve-Pass none m s rows keyed = nothing (inl refl)
serve-Pass (some d) m s rows keyed =
    if_cases (Pass (some d) m s rows) (not (is_due m s))
      (λ h. nothing (inr (inl (was_not_due (is_due m s) h))))
      (λ h. claim-Pass d m s rows keyed (was_due (is_due m s) h))

attempted-IsTaken :
    (d : Definition) (m : Moment) (s : Schedule) (rows : List Schedule)
    → IsTaken s.job_key m.date rows
    → (attempted d m s rows).0 ≡ passed_over
unfolding attempted claim_occurrence
attempted-IsTaken d m s rows h =
    let free : IsTaken (claim_of m s).job_key (claim_of m s).local_date rows =
      unfold claim_of in h in
    rw (taken-count (claim_of m s) rows free) refl

-- Once a date is taken for a job, no pass starts the job on that date, nor records a skip,
-- whatever the pass had listed and whatever its marker.
pub serve-IsTaken :
    (job : Option Definition) (m : Moment) (s : Schedule) (rows : List Schedule)
    → IsTaken s.job_key m.date rows
    → (serve job m s rows).0 ≡ passed_over
unfolding serve
serve-IsTaken none m s rows h = refl
serve-IsTaken (some d) m s rows h =
    if_cases (λ (r : Served × List Schedule). r.0 ≡ passed_over) (not (is_due m s)) (λ _. refl)
      (λ _. attempted-IsTaken d m s rows h)

-- ===== src/Schedules/Cycles.antt =====
-- A cycle of backend/maintenance_scheduler.py over all schedules that it has listed.
use opportunity_radar.Prelude.{
  All, All-append, ◌++◌, ap, sym, subst, leb, ℕ, ◌+◌, ◌≤◌, ◌≡◌, inl, inr, refl, ◌∙◌, String, Bool,
  true, false, ◌&&◌, ◌||◌, Option, List, [], ◌∷◌, str_eq, eq_iff, if◌then◌else◌, arith, count_if,
  Bool-cases,
}
use opportunity_radar.Schedules.{
  Schedule, Definition, Moment, Served, passed_over, skipped_disabled, started, skipped_busy,
  raised, raised_running, serve, before_rest, run_due_once,
}
use opportunity_radar.Schedules.Claims.{IsKeyed, IsTaken}
use opportunity_radar.Schedules.Once.{
  Pass, nothing, taken, given_back, Returns, busy, busy_unrecorded, failed, running, serve-Pass,
  serve-IsTaken,
}
use opportunity_radar.Schedules.Passes.{serve-keeps, serve-with_key}

-- A cycle: the registry and the clock as it finds them, and the schedules as it lists them, which
-- may be out of date.
pub record Cycle : Type 0 where
  pub registry : String → Option Definition
  pub moment : String → Moment
  pub listed : List Schedule

-- An outcome that uses the date up: a start, or the skip of a disabled job.
unfoldable pub uses_up : Served → Bool
uses_up started = true
uses_up skipped_disabled = true
uses_up _ = false

-- How often the job's thread was started, and how often `start` raised afterwards.
unfoldable pub begins : Served → Bool
begins started = true
begins raised_running = true
begins _ = false

unfoldable pub is_unread : Served → Bool
is_unread raised_running = true
is_unread _ = false

unfoldable pub begun : String → List (String × Served) → ℕ
unfolding begins
begun key outcomes = count_if (λ (o : String × Served). str_eq o.0 key && begins o.1) outcomes

unfoldable pub unread : String → List (String × Served) → ℕ
unfolding is_unread
unread key outcomes = count_if (λ (o : String × Served). str_eq o.0 key && is_unread o.1) outcomes

-- How often a job's date was used up.
unfoldable pub times : String → List (String × Served) → ℕ
unfolding uses_up
times key outcomes = count_if (λ (o : String × Served). str_eq o.0 key && uses_up o.1) outcomes

begins-le : (o : Served) → begins o ≡ true → uses_up o || is_unread o ≡ true
unfolding begins uses_up is_unread
begins-le started h = refl
begins-le raised_running h = refl
begins-le passed_over h = cc h
begins-le skipped_disabled h = cc h
begins-le skipped_busy h = cc h
begins-le raised h = cc h

-- A thread is started by an outcome that uses the date up, or by one that raises.
pub begun-le :
    (key : String) (outcomes : List (String × Served))
    → begun key outcomes ≤ times key outcomes + unread key outcomes
unfolding begun times unread
begun-le key [] = omega arith
begun-le key (o ∷ outcomes) = ground (arith, begins-le o.1, begun-le key outcomes)

pub before_rest-either :
    (P : List (String × Served) × List Schedule → Type 0) (key : String)
    (step : Served × List Schedule) (rest : List (String × Served) × List Schedule)
    → P ((key, step.0) ∷ [], step.1)
    → P ((key, step.0) ∷ rest.0, rest.1)
    → P (before_rest key step rest)
unfolding before_rest
before_rest-either P key (raised, rows) rest h k = h
before_rest-either P key (raised_running, rows) rest h k = h
before_rest-either P key (passed_over, rows) rest h k = k
before_rest-either P key (skipped_disabled, rows) rest h k = k
before_rest-either P key (started, rows) rest h k = k
before_rest-either P key (skipped_busy, rows) rest h k = k

times_step :
    (key k : String) (o : Served) (outcomes : List (String × Served))
    → times key ((k, o) ∷ outcomes)
      ≡ (if str_eq k key && uses_up o then 1 else 0) + times key outcomes
unfolding times
times_step key k o outcomes = refl

pub not_one : (n : ℕ) → leb 1 n ≡ false → n ≡ 0
not_one n h = ground arith

both : (a b : Bool) → (a && b) ≡ true → (a ≡ true) × (b ≡ true)
both a b h = (ground (arith, h), ground (arith, h))

Returns-uses_up : (d : Definition) (o : Served) → Returns d o → uses_up o ≡ false
unfolding uses_up
Returns-uses_up d o (busy e r) = refl
Returns-uses_up d o (busy_unrecorded e r) = refl
Returns-uses_up d o (failed e) = refl
Returns-uses_up d o (running e) = refl

-- A pass that uses a date up leaves it taken.
Pass-uses_up :
    (job : Option Definition) (m : Moment) (s : Schedule) (rows : List Schedule)
    (r : Served × List Schedule)
    → Pass job m s rows r
    → uses_up r.0 ≡ true
    → IsTaken s.job_key m.date r.1
unfolding uses_up
Pass-uses_up job m s before r (nothing w) u = cc u
Pass-uses_up job m s before r (taken d o rows j e due h) u = h
Pass-uses_up job m s before r (given_back d o rows j e due h) u =
    absurd (cc (Returns-uses_up d o e.2, u))

-- Every pass over the job passed it over.
unfoldable pub IsQuiet : String → List (String × Served) → Type 0
IsQuiet key outcomes =
    All (λ (o : String × Served). str_eq o.0 key ≡ true → o.1 ≡ passed_over) outcomes

pub times-IsQuiet :
    (key : String) (outcomes : List (String × Served))
    → IsQuiet key outcomes
    → times key outcomes ≡ 0
unfolding IsQuiet times uses_up
times-IsQuiet key [] h = refl
times-IsQuiet key (o ∷ outcomes) h = elim (Bool-cases (str_eq o.0 key)) [
  | inl same ↦ rw (same, h.0 same) (omega (arith, times-IsQuiet key outcomes h.1))
  | inr other ↦ rw other (omega (arith, times-IsQuiet key outcomes h.1))
]

pub IsQuiet-append :
    (key : String) (xs ys : List (String × Served))
    → IsQuiet key xs
    → IsQuiet key ys
    → IsQuiet key (xs ++ ys)
unfolding IsQuiet
IsQuiet-append key xs ys h k =
    All-append (λ (o : String × Served). str_eq o.0 key ≡ true → o.1 ≡ passed_over) xs ys h k

module _ (key date : String) where
  -- The date is used up as often as counted, once at most, and then it is taken.
  unfoldable pub IsOnce : List (String × Served) × List Schedule → Type 0
  IsOnce r = (times key r.0 ≤ 1) × (1 ≤ times key r.0 → IsTaken key date r.1)

  -- The date was taken, and every pass over the job passed it over.
  unfoldable pub IsSpent : List (String × Served) × List Schedule → Type 0
  unfolding IsQuiet
  IsSpent r = IsQuiet key r.0 × IsTaken key date r.1

  module _ (moment : String → Moment) (day : (moment key).date ≡ date) where
    day_of : (k : String) → str_eq k key ≡ true → (moment k).date ≡ date
    day_of k same = ap (λ j. (moment j).date) ((eq_iff k key).0 same) ∙ day

    -- One schedule, once the date is taken.
    spent-serve :
        (job : Option Definition) (s : Schedule) (rows : List Schedule)
        → IsTaken key date rows
        → str_eq s.job_key key ≡ true
        → (serve job (moment s.job_key) s rows).0 ≡ passed_over
    spent-serve job s rows h same = serve-IsTaken job (moment s.job_key) s rows (
        subst (λ k. IsTaken k (moment s.job_key).date rows) (sym ((eq_iff s.job_key key).0 same))
          (subst (λ (d : String). IsTaken key d rows) (sym (day_of s.job_key same)) h))

    pub cycle-IsSpent :
        (registry : String → Option Definition) (listed rows : List Schedule)
        → IsTaken key date rows
        → IsSpent (run_due_once registry moment listed rows)
    unfolding run_due_once IsSpent IsQuiet
    cycle-IsSpent registry [] rows h = (tt, h)
    cycle-IsSpent registry (s ∷ listed) rows h =
        let job = registry s.job_key in
        let step = serve job (moment s.job_key) s rows in
        let kept = serve-keeps key date (moment s.job_key) s job rows (day_of s.job_key) h in
        let rest = cycle-IsSpent registry listed step.1 kept in
        before_rest-either IsSpent s.job_key step (run_due_once registry moment listed step.1)
          ((spent-serve job s rows h, tt), kept) ((spent-serve job s rows h, rest.0), rest.1)

    -- One schedule, where the job's row is the only one with its key.
    once-serve :
        (job : Option Definition) (s : Schedule) (rows : List Schedule)
        → IsKeyed key rows
        → (str_eq s.job_key key && uses_up (serve job (moment s.job_key) s rows).0) ≡ true
        → IsTaken key date (serve job (moment s.job_key) s rows).1
    once-serve job s rows keyed u =
        let (same, used) = both _ _ u in
        let e = (eq_iff s.job_key key).0 same in
        let left =
          Pass-uses_up job (moment s.job_key) s rows (serve job (moment s.job_key) s rows)
            (serve-Pass job (moment s.job_key) s rows (subst (λ k. IsKeyed k rows) (sym e) keyed))
            used in
        subst (λ k. IsTaken k date (serve job (moment s.job_key) s rows).1) e
          (subst (λ (d : String). IsTaken s.job_key d (serve job (moment s.job_key) s rows).1)
            (day_of s.job_key same) left)

    pub cycle-IsOnce :
        (registry : String → Option Definition) (listed rows : List Schedule)
        → IsKeyed key rows
        → IsOnce (run_due_once registry moment listed rows)
    unfolding run_due_once IsOnce IsSpent times
    cycle-IsOnce registry [] rows keyed = (omega arith, λ le. absurd (omega (arith, le)))
    cycle-IsOnce registry (s ∷ listed) rows keyed =
        let job = registry s.job_key in
        let step = serve job (moment s.job_key) s rows in
        let later = run_due_once registry moment listed step.1 in
        elim (Bool-cases (str_eq s.job_key key && uses_up step.0)) [
          | inl used ↦
              let left = once-serve job s rows keyed used in
              let rest = cycle-IsSpent registry listed step.1 left in
              before_rest-either IsOnce s.job_key step later (rw used (omega arith), λ _. left)
                (rw used (omega (arith, times-IsQuiet key later.0 rest.0)), λ _. rest.1)
          | inr unused ↦
              let rest = cycle-IsOnce registry listed step.1 (
                subst (λ n. n ≤ 1) (sym (serve-with_key key date (moment s.job_key) s job rows))
                  keyed) in
              before_rest-either IsOnce s.job_key step later
                (rw unused (omega arith), λ le. absurd (omega (arith, (rw unused at le))))
                (rw unused (omega (arith, rest.0)), λ le. rest.1 (omega (arith, (rw unused at le))))
        ]

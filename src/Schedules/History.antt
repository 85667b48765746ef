-- ===== src/Schedules/History.antt =====
-- Many cycles of backend/maintenance_scheduler.py, one after another, as its thread makes them.
use opportunity_radar.Prelude.{
  leb, leb→le, ◌+◌, ◌≤◌, ◌≡◌, inl, inr, refl, ◌∙◌, String, Option, List, [], ◌∷◌, ◌++◌, arith, All,
  Bool-cases,
}
use opportunity_radar.Schedules.{Schedule, Definition, Moment, Served, serve, run_due_once}
use opportunity_radar.Schedules.Claims.{with_key, IsKeyed, IsTaken}
use opportunity_radar.Schedules.Passes.{serve-with_key}
use opportunity_radar.Schedules.Cycles.{
  Cycle, times, begun, unread, begun-le, IsQuiet, times-IsQuiet, IsQuiet-append, IsOnce, IsSpent,
  cycle-IsSpent, cycle-IsOnce, not_one, before_rest-either,
}

unfoldable pub run_cycles : List Cycle → List Schedule → List (String × Served) × List Schedule
unfolding run_due_once
run_cycles [] rows = ([], rows)
run_cycles (c ∷ cycles) rows =
    let step = run_due_once c.registry c.moment c.listed rows in
    let rest = run_cycles cycles step.1 in (step.0 ++ rest.0, rest.1)

module _ (key date : String) where
  cycle-with_key :
      (registry : String → Option Definition) (moment : String → Moment)
      (listed rows : List Schedule)
      → with_key key (run_due_once registry moment listed rows).1 ≡ with_key key rows
  unfolding run_due_once
  cycle-with_key registry moment [] rows = refl
  cycle-with_key registry moment (s ∷ listed) rows =
      let kept = serve-with_key key date (moment s.job_key) s (registry s.job_key) rows in
      before_rest-either
        (λ (r : List (String × Served) × List Schedule). with_key key r.1 ≡ with_key key rows)
        s.job_key (serve (registry s.job_key) (moment s.job_key) s rows) _ kept
        (cycle-with_key registry moment listed _ ∙ kept)

  times-append :
      (xs ys : List (String × Served)) → times key (xs ++ ys) ≡ times key xs + times key ys
  unfolding times
  times-append [] ys = omega arith
  times-append (o ∷ xs) ys = omega (arith, times-append xs ys)

  -- In every cycle the job's local date is this one.
  abbrev pub OnDate : List Cycle → Type 0
  OnDate cycles = All (λ (c : Cycle). (c.moment key).date ≡ date) cycles

  pub cycles-IsSpent :
      (cycles : List Cycle) (rows : List Schedule)
      → OnDate cycles
      → IsTaken key date rows
      → IsSpent key date (run_cycles cycles rows)
  unfolding run_cycles IsSpent IsQuiet
  cycles-IsSpent [] rows day h = (tt, h)
  cycles-IsSpent (c ∷ cycles) rows day h =
      let step = run_due_once c.registry c.moment c.listed rows in
      let one = cycle-IsSpent key date c.moment day.0 c.registry c.listed rows h in
      let rest = cycles-IsSpent cycles step.1 day.1 one.1 in
      (IsQuiet-append key step.0 (run_cycles cycles step.1).0 one.0 rest.0, rest.1)

  cycles-IsOnce :
      (cycles : List Cycle) (rows : List Schedule)
      → OnDate cycles
      → IsKeyed key rows
      → IsOnce key date (run_cycles cycles rows)
  unfolding run_cycles IsOnce IsSpent times
  cycles-IsOnce [] rows day keyed = (omega arith, λ le. absurd (omega (arith, le)))
  cycles-IsOnce (c ∷ cycles) rows day keyed =
      let step = run_due_once c.registry c.moment c.listed rows in
      let one = cycle-IsOnce key date c.moment day.0 c.registry c.listed rows keyed in
      let sum = times-append step.0 (run_cycles cycles step.1).0 in
      elim (Bool-cases (leb 1 (times key step.0))) [
        | inl used ↦
            let rest =
              cycles-IsSpent cycles step.1 day.1 (one.1 (leb→le 1 (times key step.0) used)) in
            (
              omega (arith, sum, one.0, times-IsQuiet key (run_cycles cycles step.1).0 rest.0),
              λ _. rest.1,
            )
        | inr unused ↦
            let rest =
              cycles-IsOnce cycles step.1 day.1
                (omega (arith, cycle-with_key c.registry c.moment c.listed rows, keyed)) in
            (
              omega (arith, sum, rest.0, not_one (times key step.0) unused),
              λ le. rest.1 (omega (arith, sum, le, not_one (times key step.0) unused)),
            )
      ]

-- However many cycles run, one after another, and whatever each of them has listed, finds in the
-- registry and meets at the gate and in the database: if no two rows have the job's key, and its
-- local date is the same in all of them, then at most one `start` of the job that answers, or
-- recorded skip of the job as disabled, uses the date up; and then the date stays taken. And the
-- job's thread is started at most once more than `start` raised after having started it: such a start
-- gives the date back, although the job runs.
pub cycles_once :
    (key date : String) (cycles : List Cycle) (rows : List Schedule)
    → OnDate key date cycles
    → IsKeyed key rows
    → (times key (run_cycles cycles rows).0 ≤ 1)
      × (1 ≤ times key (run_cycles cycles rows).0 → IsTaken key date (run_cycles cycles rows).1)
      × (begun key (run_cycles cycles rows).0 ≤ 1 + unread key (run_cycles cycles rows).0)
unfolding IsOnce
cycles_once key date cycles rows day keyed =
    let once = cycles-IsOnce key date cycles rows day keyed in
    (once.0, once.1, omega (arith, once.0, begun-le key (run_cycles cycles rows).0))

-- ===== src/Runs/Release.antt =====
-- The gate and the keys of a run of backend/utility_runs.py after its thread has ended.
use opportunity_radar.Prelude.{
  ◌≡◌, refl, ap, ◌∙◌, String, false, Option, none, some, List, [], ◌∷◌, arith, eq_iff,
}
use opportunity_radar.Gate.{Gate, ActiveOperation, release}
use opportunity_radar.Runs.{Summary, Row, Manager}
use opportunity_radar.Runs.Verdict.{Ending}
use opportunity_radar.Runs.Lifecycle.{without, is_tracked}
use opportunity_radar.Runs.Execute.{
  Course, Begun, proceed, stopped, broken, begin, record_failure, finalise, Work, execute, body,
  judge,
}

-- The gate is held under the run's id.
abbrev pub HoldsGate : String → Manager → Type 0
HoldsGate run_id m = (a : ActiveOperation) × (m.gate.active ≡ some a) × (a.id ≡ run_id)

not-tracked-without :
    (key : String) (keys : List String) → is_tracked key (without key keys) ≡ false
unfolding is_tracked
not-tracked-without key [] = refl
not-tracked-without key (k ∷ keys) = ground (arith, not-tracked-without key keys)

finalise-frees :
    (run_id : String) (m : Manager)
    → HoldsGate run_id m
    → ((finalise run_id m).gate.active ≡ none)
      × (is_tracked run_id (finalise run_id m).threads ≡ false)
      × (is_tracked run_id (finalise run_id m).cancel_events ≡ false)
unfolding finalise release
finalise-frees run_id m (a, e, i) = (
  ground (arith, eq_iff a.id run_id),
  not-tracked-without run_id m.threads,
  not-tracked-without run_id m.cancel_events,
)

gate-record_failure :
    (c : Course) (run_id : String) (m : Manager) → (record_failure c run_id m).gate ≡ m.gate
unfolding record_failure
gate-record_failure c run_id m = ground arith

gate-begin : (c : Course) (run_id : String) (m : Manager) → (begin c run_id m).1.gate ≡ m.gate
unfolding begin
gate-begin c run_id m = ground arith

-- The worker's part leaves the gate to the run, whose thread it is.
abbrev pub KeepsHold : String → Work → Type 0
KeepsHold run_id work = (m : Manager) → HoldsGate run_id m → HoldsGate run_id (work m).2

-- Equal gates are held alike.
HoldsGate-eq :
    {run_id : String} (m m' : Manager) → m'.gate ≡ m.gate → HoldsGate run_id m → HoldsGate run_id m'
HoldsGate-eq m m' e (a, h, i) = (a, ap (λ (g : Gate). g.active) e ∙ h, i)

module _ (format_summary : Summary → Ending String)
    (after_success : Option (Summary → Ending String)) (c : Course) (run_id : String) (work : Work)
    (keeps : KeepsHold run_id work) where
  gate-judge :
      (r : Row) (end : Ending Summary) (latest : Summary) (m : Manager)
      → (judge format_summary after_success c run_id r (end, latest, m)).gate ≡ m.gate
  unfolding judge
  gate-judge r end latest m = ground (arith, gate-record_failure c run_id m)

  body-HoldsGate :
      (b : Begun) (m : Manager)
      → HoldsGate run_id m
      → HoldsGate run_id (body format_summary after_success c run_id work (b, m))
  unfolding body
  body-HoldsGate (proceed r) m h =
      let (end, latest, m') = work m in
      HoldsGate-eq m' (judge format_summary after_success c run_id r (end, latest, m'))
        (gate-judge r end latest m') (keeps m h)
  body-HoldsGate stopped m h = h
  body-HoldsGate broken m h =
      HoldsGate-eq m (record_failure c run_id m) (gate-record_failure c run_id m) h

  -- However a run's thread goes (cancelled before it started, its worker returning or raising, the
  -- database failing at any of its writes), at its end the gate is free again and the run is in
  -- neither of the manager's two dictionaries.
  pub execute_frees :
      (m : Manager)
      → HoldsGate run_id m
      → let done = execute format_summary after_success c run_id work m in
        (done.gate.active ≡ none)
        × (is_tracked run_id done.threads ≡ false)
        × (is_tracked run_id done.cancel_events ≡ false)
  unfolding execute
  execute_frees m h =
      let (b, m') = begin c run_id m in
      finalise-frees run_id (body format_summary after_success c run_id work (b, m'))
        (body-HoldsGate b m' (HoldsGate-eq m m' (gate-begin c run_id m) h))

-- ===== src/Gate/Admission.antt =====
-- What each call of the gate of backend/operation_gate.py answers and changes.
use opportunity_radar.Prelude.{
  ℕ, ◌≡◌, String, Bool, true, false, not, Option, none, some, List, arith, if◌then◌else◌,
  Bool-cases, Option-cases, inl, inr, eq_refl,
}
use opportunity_radar.Gate.{
  Gate, Outside, ActiveOperation, MutationLease, shutting_down, busy, Result, ok, err, acquire,
  new_operation, release, release_lease, stop_accepting, elapsed_seconds, owner_alive,
}

-- The three ways that `acquire` can end.
pub data Outcome (t : List ℕ) (i : Option String) (now : Outside) (g : Gate)
    (r : Result ActiveOperation × Gate) : Type 0 where
  granted :
      g.accepting ≡ true
      → g.active ≡ none
      → r ≡ (ok (new_operation t i now), record g { active = some (new_operation t i now) })
      → Outcome t i now g r
  refused_busy :
      (a : ActiveOperation)
      → g.accepting ≡ true
      → g.active ≡ some a
      → r
        ≡ (err (busy a.operation_type a.started_at (elapsed_seconds a now) (owner_alive a now)), g)
      → Outcome t i now g r
  refused_shutdown : g.accepting ≡ false → r ≡ (err shutting_down, g) → Outcome t i now g r

-- `acquire` is granted exactly when the gate accepts work and nobody holds it; then it records the
-- new operation and nothing else. A refusal names the shutdown or the holder, and changes nothing.
pub acquire-Outcome :
    (t : List ℕ) (i : Option String) (now : Outside) (g : Gate)
    → Outcome t i now g (acquire t i now g)
unfolding acquire
acquire-Outcome t i now g = elim (Bool-cases g.accepting) [
  | inl on ↦ elim (Option-cases g.active) [
    | inl e ↦ granted on e (rw (on, e, acquire))
    | inr (a, e) ↦ refused_busy a on e (rw (on, e, acquire))
  ]
  | inr off ↦ refused_shutdown off (rw (off, acquire))
]

-- A lease that is released twice frees the gate once: if the gate has been given to another
-- operation in between, even under the same id, the second call leaves it alone.
pub release_twice :
    (l : MutationLease) (g g' : Gate) → (release_lease (release_lease l g).0 g').1 ≡ g'
unfolding release_lease
release_twice l g g' = ground arith

-- A successful acquire followed by the release of its lease frees the gate, and the lease is marked;
-- with `stop_accepting` in between, the gate is free and still shut.
pub acquire-release :
    (t : List ℕ) (i : Option String) (now : Outside) (g : Gate) (op : ActiveOperation) (shut : Bool)
    → (acquire t i now g).0 ≡ ok op
    → let held = (acquire t i now g).1 in
      let r =
        release_lease
          (record { operation = op; released = false })
          (if shut then stop_accepting held else held) in
      (r.1.active ≡ none) × (r.0.released ≡ true) × (r.1.accepting ≡ not shut)
unfolding acquire release_lease release stop_accepting
acquire-release t i now g op shut e = ground (arith, eq_refl op.id)

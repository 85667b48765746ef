-- ===== src/Gate/Hold.antt =====
-- `MutationGate.hold` of backend/operation_gate.py and `api_mutation` of server.py: a block that runs
-- while the gate is held. The block is a function of the operation and the gate; it may raise.
use opportunity_radar.Prelude.{
  ℕ, ◌≡◌, String, true, false, Option, none, some, List, arith, eq_refl, Bool-cases, inl, inr,
}
use opportunity_radar.Gate.{
  Gate, Outside, ActiveOperation, Conflict, shutting_down, busy, Result, ok, err, acquire,
  new_operation, release_lease, release, elapsed_seconds, owner_alive,
}

-- How a block ends: with a value, or by an exception.
pub data Exit {ℓ} (A : Type ℓ) : Type ℓ where
  returned : A → Exit A
  raised : String → Exit A

-- What a caller of the HTTP API sees: the block's exit, or status 409 with the conflict.
pub data Response {ℓ} (A : Type ℓ) : Type ℓ where
  done : Exit A → Response A
  status_409 : Conflict → Response A

module _ {ℓ} {A : Type ℓ} where
  -- The `finally` of the block: the lease is released however the block ended.
  finish : ActiveOperation → Exit A × Gate → Result (Exit A) × Gate
  unfolding release_lease
  finish op (exit, g) = (ok exit, (release_lease (record { operation = op; released = false }) g).1)

  inside :
      (ActiveOperation → Gate → Exit A × Gate)
      → Result ActiveOperation × Gate
      → Result (Exit A) × Gate
  unfolding finish
  inside block (ok op, g) = finish op (block op g)
  inside block (err c, g) = (err c, g)

  unfoldable pub hold :
      List ℕ
      → Option String
      → Outside
      → (ActiveOperation → Gate → Exit A × Gate)
      → Gate
      → Result (Exit A) × Gate
  unfolding inside acquire
  hold operation_type operation_id now block g =
      inside block (acquire operation_type operation_id now g)

  to_response : Result (Exit A) × Gate → Response A × Gate
  to_response (ok exit, g) = (done exit, g)
  to_response (err c, g) = (status_409 c, g)

  unfoldable pub api_mutation :
      List ℕ → Outside → (ActiveOperation → Gate → Exit A × Gate) → Gate → Response A × Gate
  unfolding to_response hold
  api_mutation operation_type now block g = to_response (hold operation_type none now block g)

  -- The block leaves the gate to its holder: it may report progress or stop admission.
  abbrev pub KeepsGate : (ActiveOperation → Gate → Exit A × Gate) → Type 0
  KeepsGate block = (op : ActiveOperation) (g : Gate) → (block op g).1.active ≡ g.active

  -- If the gate is free and accepts work, a block that leaves it to its holder runs, its exit comes
  -- back, by value or by exception, and the gate is free afterwards in both cases.
  pub hold_frees :
      (t : List ℕ) (i : Option String) (now : Outside)
      (block : ActiveOperation → Gate → Exit A × Gate) (g : Gate)
      → KeepsGate block
      → g.accepting ≡ true
      → g.active ≡ none
      → let op = new_operation t i now in
        ((hold t i now block g).0 ≡ ok (block op (record g { active = some op })).0)
        × ((hold t i now block g).1.active ≡ none)
  unfolding hold release
  hold_frees t i now block g keeps on free =
      let op = new_operation t i now in
      ground (arith, keeps op (record g { active = some op }), eq_refl op.id)

  -- While the gate is held the block does not run: the caller gets status 409, and the gate is as
  -- it was, so also still held by the other operation.
  pub api_mutation_busy :
      (t : List ℕ) (now : Outside) (block : ActiveOperation → Gate → Exit A × Gate) (g : Gate)
      (a : ActiveOperation)
      → g.active ≡ some a
      → (c : Conflict) × (api_mutation t now block g ≡ (status_409 c, g))
  unfolding api_mutation
  api_mutation_busy t now block g a e = elim (Bool-cases g.accepting) [
    | inl on ↦ (
      busy a.operation_type a.started_at (elapsed_seconds a now) (owner_alive a now),
      rw (on, e, api_mutation, hold, inside, acquire),
    )
    | inr off ↦ (shutting_down, rw (off, api_mutation))
  ]

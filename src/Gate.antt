-- ===== src/Gate.antt =====
-- backend/operation_gate.py: the gate that serialises writers of the shared database.
-- Threads of one process call its methods; each method body that runs under the gate's lock is one
-- function here. The module-level `_progress` dict is a field of the state, beside the one gate.
-- Clock readings are in milliseconds; what the code rounds to one decimal is in tenths of a second.
pub mod OperationType
pub mod Process
pub mod Exclusion
pub mod Admission
pub mod Hold
pub mod Watcher
mod Tests
use mathlib.Core.Option
use Prim.Native.String.{◌++◌ as ◌++ₜ◌}
use opportunity_radar.Prelude.{
  ℕ, ◌+◌, ◌-◌, ◌/◌, ◌%◌, String, Bool, true, false, Option, none, some, List, any, Dict, lookup,
  put, remove, [], round_to, or_text, first_chars, ◌==◌, str_eq, if◌then◌else◌,
}
use OperationType.{safe_operation_type}

-- What the outside answers to one call: the wall clock as ISO text, the monotonic clock, a fresh
-- UUID, the calling thread, and the threads that are running.
pub record Outside : Type 0 where
  pub stamp : String
  pub monotonic : ℕ
  pub uuid : String
  pub thread_ident : ℕ
  pub thread_name : String
  pub threads : List ℕ

pub record ActiveOperation : Type 0 where
  pub id : String
  pub operation_type : List ℕ
  pub started_at : String
  pub owner_thread_id : ℕ
  pub owner_thread_name : String
  pub started_monotonic : ℕ

pub record Gate : Type 0 where
  pub active : Option ActiveOperation
  pub accepting : Bool
  pub progress : Dict (String × ℕ)

-- `MutationGate()`, with no progress reported yet.
unfoldable pub new_gate : Gate
new_gate = record { active = none; accepting = true; progress = [] }

-- `round(seconds, 1)` of a difference of two clock readings, in tenths of a second; a tie goes to
-- the even tenth.
round_tenths : ℕ → ℕ
round_tenths ms = round_to 100 ms

unfoldable pub elapsed_seconds : ActiveOperation → Outside → ℕ
unfolding round_tenths
elapsed_seconds op now =
    if op.started_monotonic == 0 then 0 else round_tenths (now.monotonic - op.started_monotonic)

unfoldable pub owner_alive : ActiveOperation → Outside → Bool
owner_alive op now =
    if op.owner_thread_id == 0 then true else any (λ t. t == op.owner_thread_id) now.threads

-- `OperationConflictError`, with the values that its message is made of.
pub data Conflict : Type 0 where
  shutting_down : Conflict
  busy : (operation_type : List ℕ) (started_at : String) (elapsed : ℕ) (alive : Bool) → Conflict

pub data Result {ℓ} (A : Type ℓ) : Type ℓ where
  ok : A → Result A
  err : Conflict → Result A

-- `operation_id or f"operation-{uuid4()}"`
operation_id_or : Option String → Outside → String
operation_id_or none now = "operation-" ++ₜ now.uuid
operation_id_or (some given) now = or_text given ("operation-" ++ₜ now.uuid)

unfoldable pub new_operation : List ℕ → Option String → Outside → ActiveOperation
unfolding operation_id_or
new_operation operation_type operation_id now = record {
  id = operation_id_or operation_id now;
  operation_type = safe_operation_type operation_type;
  started_at = now.stamp;
  owner_thread_id = now.thread_ident;
  owner_thread_name = first_chars 60 now.thread_name;
  started_monotonic = now.monotonic;
}

-- The body of `acquire` under the lock, after the active operation has been read.
admit : Option ActiveOperation → ActiveOperation → Outside → Gate → Result ActiveOperation × Gate
unfolding elapsed_seconds owner_alive
admit (some a) op now g =
    (err (busy a.operation_type a.started_at (elapsed_seconds a now) (owner_alive a now)), g)
admit none op now g = (ok op, record g { active = some op })

-- `acquire`. The `MutationLease` that it returns is its operation and a flag, kept by the caller.
unfoldable pub acquire : List ℕ → Option String → Outside → Gate → Result ActiveOperation × Gate
unfolding admit new_operation
acquire operation_type operation_id now g =
    if g.accepting
    then admit g.active (new_operation operation_type operation_id now) now g
    else (err shutting_down, g)

holds : String → Option ActiveOperation → Bool
holds operation_id none = false
holds operation_id (some a) = str_eq a.id operation_id

-- `release` in two parts, since it takes two locks: the gate's, then that of the progress table.
unfoldable pub clear_active : String → Gate → Gate
unfolding holds
clear_active operation_id g = record g {
  active = if holds operation_id g.active then none else g.active;
}

unfoldable pub drop_progress : String → Gate → Gate
drop_progress operation_id g = record g { progress = remove operation_id g.progress }

unfoldable pub release : String → Gate → Gate
unfolding clear_active drop_progress
release operation_id g = drop_progress operation_id (clear_active operation_id g)

unfoldable pub report_progress : String → Outside → Gate → Gate
report_progress operation_id now g = record g {
  progress = put operation_id (now.stamp, now.monotonic) g.progress;
}

unfoldable pub stop_accepting : Gate → Gate
stop_accepting g = record g { accepting = false }

unfoldable pub start_accepting : Gate → Gate
start_accepting g = record g { accepting = true }

-- The lease: its operation, and `_released`.
pub record MutationLease : Type 0 where
  pub operation : ActiveOperation
  pub released : Bool

-- `MutationLease.release`: the flag is tested and set first, so only the first call reaches the gate.
unfoldable pub release_lease : MutationLease → Gate → MutationLease × Gate
unfolding release
release_lease l g =
    if l.released then (l, g) else (record l { released = true }, release l.operation.id g)

pub record PublicStatus : Type 0 where
  pub id : String
  pub operation_type : List ℕ
  pub started_at : String
  pub owner_thread_id : ℕ
  pub owner_thread_name : String
  pub owner_alive : Bool
  pub elapsed_seconds : ℕ
  pub last_progress_at : Option String
  pub seconds_since_progress : Option ℕ

progress_at : Option (String × ℕ) → Option String
progress_at none = none
progress_at (some (stamp, ticks)) = some stamp

since_progress : Option (String × ℕ) → Outside → Option ℕ
unfolding round_tenths
since_progress none now = none
since_progress (some (stamp, ticks)) now = some (round_tenths (now.monotonic - ticks))

unfoldable pub public_status : ActiveOperation → Outside → Gate → PublicStatus
unfolding progress_at since_progress elapsed_seconds owner_alive
public_status op now g =
    let progress = lookup op.id g.progress in
    record {
      id = op.id;
      operation_type = op.operation_type;
      started_at = op.started_at;
      owner_thread_id = op.owner_thread_id;
      owner_thread_name = op.owner_thread_name;
      owner_alive = owner_alive op now;
      elapsed_seconds = elapsed_seconds op now;
      last_progress_at = progress_at progress;
      seconds_since_progress = since_progress progress now;
    }

unfoldable pub active_status : Outside → Gate → Option PublicStatus
unfolding public_status
active_status now g = Option.map (λ op. public_status op now g) g.active

-- `diagnostics`: what `active_status` shows, and whether new work is accepted.
unfoldable pub diagnostics : Outside → Gate → Bool × Option PublicStatus
unfolding active_status
diagnostics now g = (g.accepting, active_status now g)

-- ===== src/Gate/Process.antt =====
-- Threads that acquire and release the gate of backend/operation_gate.py in any order. A lease is
-- released in parts that other threads may come between: `MutationLease.release` sets `_released`
-- under the lease's lock, then `MutationGate.release` clears the gate, then the progress entry.
use opportunity_radar.Prelude.{
  ℕ, zero, suc, String, Bool, true, false, Option, none, some, List, [], ◌∷◌, ◌++◌,
}
use opportunity_radar.Gate.{
  Gate, Outside, ActiveOperation, Result, ok, err, new_gate, acquire, clear_active, drop_progress,
  report_progress, stop_accepting, start_accepting,
}

pub data Phase : Type 0 where
  held marked cleared : Phase

pub record Handle : Type 0 where
  pub operation_id : String
  pub phase : Phase

pub record Process : Type 0 where
  pub gate : Gate
  pub handles : List Handle

pub data Event : Type 0 where
  acquires : List ℕ → Option String → Outside → Event
  marks clears : ℕ → Event
  drops : String → Event
  reports : String → Outside → Event
  stops starts : Event

unfoldable pub handle_at : ℕ → List Handle → Option Handle
handle_at i [] = none
handle_at zero (h ∷ hs) = some h
handle_at (suc i) (h ∷ hs) = handle_at i hs

unfoldable pub set_phase : ℕ → Phase → List Handle → List Handle
set_phase i p [] = []
set_phase zero p (h ∷ hs) = record h { phase = p } ∷ hs
set_phase (suc i) p (h ∷ hs) = h ∷ set_phase i p hs

-- A new lease is kept by its thread; a refused call gives none.
after_acquire : List Handle → Result ActiveOperation × Gate → Process
after_acquire hs (ok op, g) = record {
  gate = g;
  handles = hs ++ record { operation_id = op.id; phase = held } ∷ [];
}
after_acquire hs (err c, g) = record { gate = g; handles = hs }

after_mark : ℕ → Process → Option Handle → Process
after_mark i w none = w
after_mark i w (some h) = elim h.phase [
  | held ↦ record w { handles = set_phase i marked w.handles }
  | marked ↦ w
  | cleared ↦ w
]

after_clear : ℕ → Process → Option Handle → Process
after_clear i w none = w
after_clear i w (some h) = elim h.phase [
  | held ↦ w
  | marked ↦ record {
    gate = clear_active h.operation_id w.gate;
    handles = set_phase i cleared w.handles;
  }
  | cleared ↦ w
]

unfoldable pub step : Process → Event → Process
unfolding after_acquire after_mark after_clear
step w (acquires operation_type operation_id now) =
    after_acquire w.handles (acquire operation_type operation_id now w.gate)
step w (marks i) = after_mark i w (handle_at i w.handles)
step w (clears i) = after_clear i w (handle_at i w.handles)
step w (drops operation_id) = record w { gate = drop_progress operation_id w.gate }
step w (reports operation_id now) = record w { gate = report_progress operation_id now w.gate }
step w stops = record w { gate = stop_accepting w.gate }
step w starts = record w { gate = start_accepting w.gate }

unfoldable pub run : Process → List Event → Process
run w [] = w
run w (e ∷ es) = run (step w e) es

abbrev pub new_process : Process
new_process = record { gate = new_gate; handles = [] }

-- A lease that still stands for the gate: it has not been released, or its release is under way.
abbrev pub is_live : Handle → Bool
is_live h = elim h.phase [ held ↦ true | marked ↦ true | cleared ↦ false ]

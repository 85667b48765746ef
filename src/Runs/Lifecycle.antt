-- ===== src/Runs/Lifecycle.antt =====
-- The methods of `UtilityRunManager` in backend/utility_runs.py. Each runs under the manager's lock
-- or is one section of `_execute` between two of its lock sections.
use Prim.Native.String.{◌++◌ as ◌++ₜ◌}
use opportunity_radar.Prelude.{
  ℕ, String, Bool, true, false, not, Option, none, some, List, [], ◌∷◌, Dict, lookup, put, str_eq,
  codes, any, filter, if◌then◌else◌,
}
use opportunity_radar.Gate.{
  Gate, Outside, ActiveOperation, Conflict, Result, ok, err, acquire, release, stop_accepting,
}
use opportunity_radar.Gate
use opportunity_radar.Runs.{
  Status, queued, running, cancelling, failed, skipped, Row, Manager, find_row, insert_row, Updates,
  no_updates, update_run,
}

-- The arguments of `start` that reach the row.
pub record Request : Type 0 where
  pub action : String
  pub task_name : String
  pub trigger_type : String
  pub progress_verb : String
  pub progress_unit : String

-- What the outside answers to a call: clocks, a fresh UUID, and which steps succeed.
pub record Weather : Type 0 where
  pub outside : Outside
  pub now : Option ℕ
  pub uuid : String
  pub writes : Bool
  pub inserts : Bool
  pub spawns : Bool
  -- whether `get`, after the thread was started, finds the row
  pub reads : Bool

-- f"maintenance-{uuid4()}"
abbrev pub run_id_of : Weather → String
run_id_of w = "maintenance-" ++ₜ w.uuid

-- The exceptions of `start`, `cancel` and `record_skipped`.
pub data RunError : Type 0 where
  refused : Conflict → RunError
  already_running : RunError
  could_not_start : RunError
  database_failed : RunError
  unknown_run : RunError
  -- an exception of `get` in `start`
  unread : RunError

pub data Answer {ℓ} (A : Type ℓ) : Type ℓ where
  answer : A → Answer A
  error : RunError → Answer A

-- The row that `start` inserts; the columns that it leaves out have the defaults of backend/db.py.
unfoldable pub queued_row : Request → Weather → Row
queued_row q w = record {
  id = run_id_of w;
  job_key = q.action;
  task_name = q.task_name;
  trigger_type = q.trigger_type;
  progress_verb = q.progress_verb;
  progress_unit = q.progress_unit;
  status = queued;
  progress_current = 0;
  progress_total = 0;
  current_item = "";
  current_message = "Waiting to start.";
  started_at = none;
  completed_at = none;
  runtime_seconds = none;
  result_summary = [];
  error = [];
  created_at = w.now;
  updated_at = w.now;
}

abbrev pub without : String → List String → List String
without key keys = filter (λ k. not (str_eq k key)) keys

unfoldable pub is_tracked : String → List String → Bool
is_tracked key keys = any (λ k. str_eq k key) keys

abbrev pub spawn_failed : Request → Option ℕ → Updates
spawn_failed q now = record no_updates {
  status = some failed;
  completed_at = some now;
  runtime_seconds = some (some 0);
  error = some (codes "The background worker could not be started.");
  current_message = some (q.task_name ++ₜ " could not be started.");
}

-- `Thread.start`, and the `get` at the end of `start`, whose exceptions nothing catches: the thread
-- runs by then. The `except` clause around `Thread.start`: the keys are dropped again, the row is
-- marked, and the lease is released also if that write fails.
unfoldable pub spawn : Request → Weather → Manager → Answer String × Manager
spawn q w m =
    if w.spawns
    then (
      (if w.reads then answer (run_id_of w) else error unread),
      record m { threads = run_id_of w ∷ m.threads },
    )
    else elim (update_run w.writes w.now (run_id_of w) (spawn_failed q w.now) m.table) [
      | none ↦ (
        error database_failed,
        record m {
          cancel_events = without (run_id_of w) m.cancel_events;
          gate = release (run_id_of w) m.gate;
        },
      )
      | some rows ↦ (
        error could_not_start,
        record m {
          table = rows;
          cancel_events = without (run_id_of w) m.cancel_events;
          gate = release (run_id_of w) m.gate;
        },
      )
    ]

-- After the insert: its exceptions release the lease.
unfoldable pub inserted : Request → Weather → Option (List Row) → Manager → Answer String × Manager
unfolding spawn
inserted q w none m = (error already_running, record m { gate = release (run_id_of w) m.gate })
inserted q w (some rows) m = spawn q w (record m {
  table = rows;
  cancel_events = run_id_of w ∷ m.cancel_events;
  signals = put (run_id_of w) false m.signals;
})

unfoldable pub leased :
    Request → Weather → Result ActiveOperation × Gate → Manager → Answer String × Manager
unfolding inserted
leased q w (err c, g) m = (error (refused c), m)
leased q w (ok op, g) m =
    if w.inserts
    then inserted q w (insert_row (queued_row q w) m.table) (record m { gate = g })
    else (error database_failed, record m { gate = release (run_id_of w) g })

-- `start`: the answer is the id under which `get` found the new row.
unfoldable pub start : Request → Weather → Manager → Answer String × Manager
unfolding leased
start q w m =
    if m.accepting
    then leased q w (acquire (codes q.action) (some (run_id_of w)) w.outside m.gate) m
    else (error (refused Gate.shutting_down), m)

-- `record_skipped`
skipped_row : Request → String → Weather → Row
unfolding queued_row
skipped_row q reason w = record (queued_row q w) {
  progress_verb = "";
  progress_unit = "";
  status = skipped;
  current_message = reason;
  error = codes reason;
  started_at = w.now;
  completed_at = w.now;
  runtime_seconds = some 0;
}

after_skip : Weather → Option (List Row) → Manager → Answer String × Manager
after_skip w none m = (error database_failed, m)
after_skip w (some rows) m =
    if w.inserts
    then (answer (run_id_of w), record m { table = rows })
    else (error database_failed, m)

unfoldable pub record_skipped : Request → String → Weather → Manager → Answer String × Manager
unfolding after_skip skipped_row
record_skipped q reason w m = after_skip w (insert_row (skipped_row q reason w) m.table) m

-- Event.set for one run.
abbrev pub signal : String → Manager → Manager
signal run_id m = record m { signals = put run_id true m.signals }

abbrev pub is_set : String → Dict Bool → Bool
is_set run_id signals = elim (lookup run_id signals) [ none ↦ false | some b ↦ b ]

abbrev stopping : Updates
stopping = record no_updates {
  status = some cancelling;
  current_message = some "Stopping after the current item finishes.";
}

can_cancel : Status → Bool
can_cancel queued = true
can_cancel running = true
can_cancel _ = false

-- The event is set before the row is written, so it stays set if the write fails.
mark_cancelling : Weather → String → Manager → Answer String × Manager
mark_cancelling w run_id m = elim (update_run w.writes w.now run_id stopping m.table) [
  | none ↦ (error database_failed, m)
  | some rows ↦ (answer run_id, record m { table = rows })
]

cancel_row : Weather → String → Option Row → Manager → Answer String × Manager
unfolding can_cancel mark_cancelling
cancel_row w run_id none m = (error unknown_run, m)
cancel_row w run_id (some r) m =
    if can_cancel r.status
    then mark_cancelling w run_id (if is_tracked run_id m.cancel_events then signal run_id m else m)
    else (answer run_id, m)

-- `cancel`
unfoldable pub cancel : Weather → String → Manager → Answer String × Manager
unfolding cancel_row
cancel w run_id m = cancel_row w run_id (find_row run_id m.table) m

unfoldable pub set_all : List String → Dict Bool → Dict Bool
set_all [] signals = signals
set_all (k ∷ ks) signals = set_all ks (put k true signals)

-- `shutdown`. What follows in the code waits for the threads up to a deadline.
unfoldable pub shutdown : Manager → Manager
unfolding set_all
shutdown m = record m {
  gate = stop_accepting m.gate;
  accepting = false;
  signals = set_all m.cancel_events m.signals;
}

unfoldable pub start_accepting : Manager → Manager
start_accepting m = record m { accepting = true; gate = Gate.start_accepting m.gate }

-- ===== src/Runs/Execute.antt =====
-- `_execute` of backend/utility_runs.py: the body of a run's thread. Its sections are functions of
-- the manager, so that other threads can come between them; `execute` is the whole body, where the
-- worker is a function of the manager too: it reports progress, and meanwhile others may cancel.
use Prim.Native.String.{◌++◌ as ◌++ₜ◌}
use opportunity_radar.Prelude.{
  ℕ, ◌-◌, String, codes, [], Bool, Option, none, some, List, ◌==◌, if◌then◌else◌, show, round_to,
}
use opportunity_radar.Gate.{release}
use opportunity_radar.Runs.{
  running, failed, cancelled, Summary, Row, Manager, find_row, Updates, no_updates, update_run,
}
use opportunity_radar.Runs.ErrorText.{safe_error_summary}
use opportunity_radar.Runs.Verdict.{Failure, Ending, Verdict, verdict}
use opportunity_radar.Runs.Lifecycle.{is_set, without}

-- Which database calls of one run succeed, and the clock readings that it takes.
pub record Course : Type 0 where
  pub reads : Bool
  pub starts : Bool
  pub concludes : Bool
  pub records : Bool
  pub started_at : Option ℕ
  pub completed_at : Option ℕ
  pub started_clock : ℕ
  pub completed_clock : ℕ

abbrev pub runtime : Course → ℕ
runtime c = round_to 10 (c.completed_clock - c.started_clock)

-- How the first section ends: the worker is to run, the run was cancelled before, or an exception.
pub data Begun : Type 0 where
  proceed : Row → Begun
  stopped : Begun
  broken : Begun

abbrev pub cancelled_before : Course → Row → Updates
cancelled_before c r = record no_updates {
  status = some cancelled;
  started_at = some c.started_at;
  completed_at = some c.started_at;
  runtime_seconds = some (some 0);
  current_message = some (r.task_name ++ₜ " was cancelled before it started.");
}

abbrev pub now_running : Course → Row → Updates
now_running c r = record no_updates {
  status = some running;
  started_at = some c.started_at;
  current_message = some (r.task_name ++ₜ " is running.");
}

unfoldable pub written : Begun → Manager → Option (List Row) → Begun × Manager
written next m none = (broken, m)
written next m (some rows) = (next, record m { table = rows })

unfoldable pub begin_row : Course → String → Option Row → Manager → Begun × Manager
unfolding written
begin_row c run_id none m = (broken, m)
begin_row c run_id (some r) m =
    if is_set run_id m.signals
    then written stopped m (update_run c.starts c.started_at run_id (cancelled_before c r) m.table)
    else written (proceed r) m (update_run c.starts c.started_at run_id (now_running c r) m.table)

-- From the start of `_execute` to the end of its first lock section.
unfoldable pub begin : Course → String → Manager → Begun × Manager
unfolding begin_row
begin c run_id m = if c.reads then begin_row c run_id (find_row run_id m.table) m else (broken, m)

-- `progress`, which the worker calls: `row` is what `get` returned before, and counts are ℕ, so
-- `max(0, …)` keeps them. `none` is an exception in the worker.
unfoldable pub progress :
    (writes : Bool)
    → Option ℕ
    → Row
    → (current total : ℕ) → String
    → Option Summary
    → List Row
    → Option (List Row)
progress writes now row current total item details rows =
    update_run writes now row.id
      (record no_updates {
        progress_current = some current;
        progress_total = some total;
        current_item = some item;
        current_message = some (
            if total == 0
            then "Running..."
            else row.progress_verb
              ++ₜ " "
              ++ₜ show current
              ++ₜ " of "
              ++ₜ show total
              ++ₜ " "
              ++ₜ row.progress_unit);
        result_summary = details;
      })
      rows

error_text : Option Failure → List ℕ
unfolding safe_error_summary
error_text none = []
error_text (some f) = safe_error_summary f

unfoldable pub conclusion : Course → Verdict → Updates
unfolding error_text
conclusion c v = record no_updates {
  status = some v.status;
  completed_at = some c.completed_at;
  runtime_seconds = some (some (runtime c));
  result_summary = some v.summary;
  error = some (error_text v.error);
  current_message = some v.message;
}

-- The last `_update_run` of the worker's section. `none` is an exception.
unfoldable pub conclude : Course → String → Verdict → List Row → Option (List Row)
conclude c run_id v rows = update_run c.concludes c.completed_at run_id (conclusion c v) rows

abbrev pub unrecorded : Course → Updates
unrecorded c = record no_updates {
  status = some failed;
  completed_at = some c.completed_at;
  runtime_seconds = some (some (runtime c));
  error = some (codes "The maintenance lifecycle could not be completed.");
  current_message =
      some "The maintenance operation stopped because its state could not be recorded.";
}

unfoldable pub recorded : Manager → Option (List Row) → Manager
recorded m none = m
recorded m (some rows) = record m { table = rows }

-- The outer `except`: one more attempt to record a failure; its own exception is only logged.
unfoldable pub record_failure : Course → String → Manager → Manager
unfolding recorded
record_failure c run_id m =
    recorded m (update_run c.records c.completed_at run_id (unrecorded c) m.table)

-- The `finally`: whatever `after_finish` does or raises, the keys go and the lease is released.
unfoldable pub finalise : String → Manager → Manager
finalise run_id m = record m {
  cancel_events = without run_id m.cancel_events;
  threads = without run_id m.threads;
  gate = release run_id m.gate;
}

unfoldable pub concluded : Course → String → Option (List Row) → Manager → Manager
unfolding record_failure
concluded c run_id none m = record_failure c run_id m
concluded c run_id (some rows) m = record m { table = rows }

-- The worker's part: how it ends, the details of its last progress call, and the manager then.
abbrev pub Work : Type 0
Work = Manager → Ending Summary × Summary × Manager

module _ (format_summary : Summary → Ending String)
    (after_success : Option (Summary → Ending String)) where
  unfoldable pub judge : Course → String → Row → Ending Summary × Summary × Manager → Manager
  unfolding concluded conclude
  judge c run_id r (end, latest, m) =
      concluded c run_id
        (conclude c run_id
          (verdict r.task_name (is_set run_id m.signals) latest format_summary after_success end)
          m.table)
        m

  unfoldable pub body : Course → String → Work → Begun × Manager → Manager
  unfolding judge record_failure
  body c run_id work (proceed r, m) = judge c run_id r (work m)
  body c run_id work (stopped, m) = m
  body c run_id work (broken, m) = record_failure c run_id m

  unfoldable pub execute : Course → String → Work → Manager → Manager
  unfolding body finalise begin
  execute c run_id work m = finalise run_id (body c run_id work (begin c run_id m))

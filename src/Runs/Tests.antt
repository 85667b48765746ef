-- ===== src/Runs/Tests.antt =====
-- Runs of backend/utility_runs.py on concrete inputs, and the theorems at such inputs.
use opportunity_radar.Prelude.{
  ◌≡◌, refl, String, true, false, none, some, [], ◌∷◌, codes, join, split, put,
}
use opportunity_radar.Gate.{
  Gate, Outside, ActiveOperation, new_gate, acquire, release, clear_active,
}
use opportunity_radar.Gate
use opportunity_radar.Runs.{queued, Summary, Manager, find_row, insert_row}
use opportunity_radar.Runs.Verdict.{value_error, Ending, returned, raised}
use opportunity_radar.Runs.ErrorText.{safe_error_summary}
use opportunity_radar.Runs.Lifecycle.{Request, Weather, answer, start, queued_row, is_tracked}
use opportunity_radar.Runs.Starting.{Started, start-Started}
use opportunity_radar.Runs.Execute.{Course, Work, execute}
use opportunity_radar.Runs.Release.{execute_frees}
use opportunity_radar.Runs.Outcome.{Ends, execute-Ends}
use opportunity_radar.Runs.Recovery.{Database}

abbrev outside : Outside
outside = record {
  stamp = "2026-01-01T12:00:00+00:00";
  monotonic = 1000;
  uuid = "u";
  thread_ident = 7;
  thread_name = "worker";
  threads = 7 ∷ [];
}

abbrev weather : Weather
weather = record {
  outside = outside;
  now = some 100;
  uuid = "1";
  writes = true;
  inserts = true;
  spawns = true;
  reads = true;
}

abbrev refresh : Request
refresh = record {
  action = "refresh";
  task_name = "Refresh";
  trigger_type = "manual";
  progress_verb = "Checked";
  progress_unit = "companies";
}

abbrev idle : Manager
idle = record {
  table = [];
  gate = record { active = none; accepting = true; progress = [] };
  accepting = true;
  cancel_events = [];
  threads = [];
  signals = [];
}

-- The manager after a successful start.
abbrev started : Manager
started = record {
  table =
      record {
        id = "maintenance-1";
        job_key = "refresh";
        task_name = "Refresh";
        trigger_type = "manual";
        progress_verb = "Checked";
        progress_unit = "companies";
        status = queued;
        progress_current = 0;
        progress_total = 0;
        current_item = "";
        current_message = "Waiting to start.";
        started_at = none;
        completed_at = none;
        runtime_seconds = none;
        result_summary = [];
        error = [];
        created_at = some 100;
        updated_at = some 100;
      }
      ∷ [];
  gate = record {
    active = some (record {
      id = "maintenance-1";
      operation_type = codes "refresh";
      started_at = outside.stamp;
      owner_thread_id = 7;
      owner_thread_name = "worker";
      started_monotonic = 1000;
    });
    accepting = true;
    progress = [];
  };
  accepting = true;
  cancel_events = "maintenance-1" ∷ [];
  threads = "maintenance-1" ∷ [];
  signals = ("maintenance-1", false) ∷ [];
}

start_runs : start refresh weather idle ≡ (answer "maintenance-1", started)
unfolding start acquire queued_row insert_row Gate.new_operation
    Gate.OperationType.safe_operation_type put
start_runs = refl

start-Started_example : Started refresh weather idle (start refresh weather idle)
start-Started_example = start-Started refresh weather idle

abbrev course : Course
course = record {
  reads = true;
  starts = true;
  concludes = false;
  records = true;
  started_at = some 101;
  completed_at = some 160;
  started_clock = 1000;
  completed_clock = 60_126;
}

-- The worker fails with a path in its message.
abbrev work : Work
work m = (raised (value_error (codes "bad /etc/x")), [], m)

abbrev summarise : Summary → Ending String
summarise s = returned "Done."

execute_frees_example :
    let done = execute summarise none course "maintenance-1" work started in
    (done.gate.active ≡ none)
    × (is_tracked "maintenance-1" done.threads ≡ false)
    × (is_tracked "maintenance-1" done.cancel_events ≡ false)
execute_frees_example =
    execute_frees summarise none course "maintenance-1" work (λ m h. h) started (_, refl, refl)

execute-Ends_example :
    Ends "maintenance-1" (execute summarise none course "maintenance-1" work started).table
unfolding find_row
execute-Ends_example =
    execute-Ends summarise none course "maintenance-1" work refl (λ m h. h) started (_, refl)

-- White space is joined, and a message with a path is not shown.
error_texts :
    (safe_error_summary (value_error (codes " bad\tinput ")) ≡ codes "bad input")
    × (safe_error_summary (value_error (codes "bad /etc/x"))
        ≡ codes "The operation failed. Review server logs for details.")
unfolding safe_error_summary join split
error_texts = (refl, refl)

abbrev store : Database
store = record { is_file = true; has_table = true; raises = false; rows = started.table }

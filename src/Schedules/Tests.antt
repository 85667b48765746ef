-- ===== src/Schedules/Tests.antt =====
-- Passes of backend/maintenance_scheduler.py over concrete schedules.
use opportunity_radar.Prelude.{
  ◌+◌, ◌≤◌, List, ◌≡◌, refl, true, some, [], ◌∷◌, codes, arith, text_eq,
}
use opportunity_radar.Schedules.{
  Schedule, run_started, started_unread, runtime_error, Definition, Moment, started, skipped_busy,
  serve, run_due_once,
}
use opportunity_radar.Schedules.Claims.{IsTaken}
use opportunity_radar.Schedules.Cycles.{Cycle, times, begun, unread}
use opportunity_radar.Schedules.History.{run_cycles, cycles_once}
use opportunity_radar.Schedules.Edits.{Edit, Local, edited, update_schedule}

abbrev nightly : Schedule
nightly = record {
  job_key = "refresh";
  enabled = true;
  run_time = codes "02:00";
  timezone = "America/Denver";
  last_scheduled_date = "2026-01-01";
  updated_at = "t0";
}

abbrev moment : Moment
moment = record { time = codes "02:01"; date = "2026-01-02"; marker = "t1"; stamp = "t2" }

abbrev job : Definition
job = record { enabled = true; start = run_started; records = true; releases = true }

abbrev busy : Definition
busy = record { enabled = true; start = runtime_error; records = true; releases = true }

starts_it :
    serve (some job) moment nightly (nightly ∷ [])
    ≡ (started, record nightly { last_scheduled_date = "2026-01-02"; updated_at = "t1" } ∷ [])
unfolding serve text_eq
starts_it = refl

gives_it_back :
    serve (some busy) moment nightly (nightly ∷ [])
    ≡ (skipped_busy, record nightly { updated_at = "t2" } ∷ [])
unfolding serve text_eq
gives_it_back = refl

abbrev every_minute : List Cycle
every_minute =
    record { registry = λ k. some job; moment = λ k. moment; listed = nightly ∷ [] }
    ∷ record { registry = λ k. some job; moment = λ k. moment; listed = nightly ∷ [] }
    ∷ []

starts_once : times "refresh" (run_cycles every_minute (nightly ∷ [])).0 ≡ 1
unfolding run_cycles run_due_once serve text_eq times
starts_once = refl

cycles_once_example :
    (times "refresh" (run_cycles every_minute (nightly ∷ [])).0 ≤ 1)
    × (1 ≤ times "refresh" (run_cycles every_minute (nightly ∷ [])).0
        → IsTaken "refresh" "2026-01-02" (run_cycles every_minute (nightly ∷ [])).1)
    × (begun "refresh" (run_cycles every_minute (nightly ∷ [])).0
        ≤ 1 + unread "refresh" (run_cycles every_minute (nightly ∷ [])).0)
cycles_once_example =
    cycles_once "refresh" "2026-01-02" every_minute (nightly ∷ []) (refl, (refl, tt)) (omega arith)

abbrev edit : Edit
edit = record {
  job_key = "refresh";
  enabled = true;
  run_time = codes "01:30";
  timezone = "America/Denver";
}

abbrev two_o_clock : Local
two_o_clock = record { time = codes "02:00"; date = "2026-01-02" }

-- A start that raises with its thread running gives the date back: a later cycle starts the job again.
abbrev unread_job : Definition
unread_job = record { enabled = true; start = started_unread; records = true; releases = true }

starts_twice :
    begun "refresh"
      (run_cycles
        (record { registry = λ k. some unread_job; moment = λ k. moment; listed = nightly ∷ [] }
          ∷ record {
            registry = λ k. some job;
            moment = λ k. moment;
            listed = record nightly { updated_at = "t2" } ∷ [];
          }
          ∷ [])
        (nightly ∷ [])).0
    ≡ 2
unfolding run_cycles run_due_once serve text_eq begun
starts_twice = refl

saves_it :
    update_schedule
      (("refresh", true) ∷ [])
      (λ t. some t)
      (λ z. some two_o_clock)
      edit
      "t3"
      (nightly ∷ [])
    ≡ edited (
        record nightly {
          run_time = codes "01:30";
          last_scheduled_date = "2026-01-02";
          updated_at = "t3";
        }
        ∷ [])
unfolding update_schedule text_eq
saves_it = refl

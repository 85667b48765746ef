-- ===== src/Gate/Tests.antt =====
-- Runs of the gate of backend/operation_gate.py on concrete inputs, and the theorems at such inputs.
use opportunity_radar.Prelude.{ℕ, ◌≤◌, ◌≡◌, refl, true, some, List, [], ◌∷◌, codes, count_if}
use opportunity_radar.Gate.{
  Gate, Outside, ActiveOperation, new_gate, acquire, clear_active, drop_progress, elapsed_seconds,
}
use opportunity_radar.Gate.OperationType.{safe_operation_type}
use opportunity_radar.Gate.Process.{
  Event, acquires, marks, clears, drops, stops, run, step, new_process, is_live, handle_at,
  set_phase,
}
use opportunity_radar.Gate.Exclusion.{mutual_exclusion, owners}
use opportunity_radar.Gate.Hold.{Exit, raised}
use opportunity_radar.Gate.Watcher.{Watcher}

abbrev noon : Outside
noon = record {
  stamp = "2026-01-01T12:00:00+00:00";
  monotonic = 1_000_000;
  uuid = "u1";
  thread_ident = 7;
  thread_name = "worker";
  threads = 7 ∷ [];
}

abbrev later : Outside
later = record noon { monotonic = 1_950_050; threads = 8 ∷ [] }

safe_type : safe_operation_type (codes "  Refresh ALL: jobs/2 ") ≡ codes "refresh-all-jobs2"
unfolding safe_operation_type
safe_type = refl

abbrev holder : ActiveOperation
holder = record {
  id = "run-1";
  operation_type = codes "refresh";
  started_at = "2026-01-01T12:00:00+00:00";
  owner_thread_id = 7;
  owner_thread_name = "worker";
  started_monotonic = 1_000_000;
}

abbrev held_gate : Gate
held_gate = record { active = some holder; accepting = true; progress = [] }

-- 950.05 seconds: the tie goes to the even tenth.
elapsed_later : elapsed_seconds holder later ≡ 9500
unfolding elapsed_seconds
elapsed_later = refl

-- A second thread is refused until the first lease is cleared.
abbrev interleaving : List Event
interleaving =
    acquires (codes "refresh") (some "run-1") noon
    ∷ marks 0
    ∷ acquires (codes "import") (some "run-2") noon
    ∷ clears 0
    ∷ drops "run-1"
    ∷ acquires (codes "import") (some "run-2") noon
    ∷ clears 0
    ∷ stops
    ∷ []

interleaving_live : count_if is_live (run new_process interleaving).handles ≡ 1
unfolding run step acquire new_gate handle_at set_phase clear_active drop_progress
interleaving_live = refl

mutual_exclusion_example :
    (count_if is_live (run new_process interleaving).handles
      ≡ owners (run new_process interleaving).gate.active)
    × (count_if is_live (run new_process interleaving).handles ≤ 1)
mutual_exclusion_example = mutual_exclusion interleaving

abbrev failing_block : ActiveOperation → Gate → Exit ℕ × Gate
failing_block op g = (raised "boom", g)

abbrev fresh_watcher : Watcher
fresh_watcher = record { warn_after = 9000; warned = []; log = [] }

-- ===== src/Schedules.antt =====
-- backend/maintenance_scheduler.py: the table `maintenance_schedules`, and which scheduled jobs a
-- cycle starts. A time of day and a date are the texts that `strftime` and `isoformat` give; an
-- `updated_at` is any text.
pub mod Claims
pub mod Once
pub mod Passes
pub mod Cycles
pub mod History
pub mod Edits
pub mod Waiting
mod Tests
use opportunity_radar.Prelude.{
  ℕ, String, Bool, true, false, not, ◌&&◌, ◌||◌, Option, none, some, List, [], ◌∷◌, ltb, ◌==◌,
  str_eq, if◌then◌else◌, Text, text_eq, map, count_if,
}

pub record Schedule : Type 0 where
  pub job_key : String
  pub enabled : Bool
  pub run_time : Text
  pub timezone : String
  pub last_scheduled_date : String
  pub updated_at : String

-- What a cycle observed of a schedule, and what it writes.
pub record Claim : Type 0 where
  pub job_key : String
  pub local_date : String
  pub previous_scheduled_date : String
  pub claim_marker : String
  pub observed_run_time : Text
  pub observed_timezone : String
  pub observed_updated_at : String

-- The condition of the claim's UPDATE.
unfoldable pub can_claim : Claim → Schedule → Bool
can_claim c r =
    str_eq r.job_key c.job_key
    && r.enabled
    && str_eq r.last_scheduled_date c.previous_scheduled_date
    && not (str_eq r.last_scheduled_date c.local_date)
    && text_eq r.run_time c.observed_run_time
    && str_eq r.timezone c.observed_timezone
    && str_eq r.updated_at c.observed_updated_at

unfoldable pub claimed : Claim → Schedule → Schedule
claimed c r = record r { last_scheduled_date = c.local_date; updated_at = c.claim_marker }

-- An UPDATE: the rows after it, and the number of rows that it changed.
unfoldable pub update_where :
    (Schedule → Bool) → (Schedule → Schedule) → List Schedule → List Schedule
update_where test change rows = map (λ r. if test r then change r else r) rows

-- `_claim_occurrence`
unfoldable pub claim_occurrence : Claim → List Schedule → Bool × List Schedule
unfolding update_where can_claim claimed
claim_occurrence c rows =
    (count_if (can_claim c) rows == 1, update_where (can_claim c) (claimed c) rows)

unfoldable pub can_release : Claim → Schedule → Bool
can_release c r =
    str_eq r.job_key c.job_key
    && r.enabled
    && str_eq r.last_scheduled_date c.local_date
    && str_eq r.updated_at c.claim_marker

unfoldable pub released : Claim → (now : String) → Schedule → Schedule
released c now r = record r { last_scheduled_date = c.previous_scheduled_date; updated_at = now }

-- `_release_occurrence`, whose result is not looked at.
unfoldable pub release_occurrence : Claim → (now : String) → List Schedule → List Schedule
unfolding update_where can_release released
release_occurrence c now rows = update_where (can_release c) (released c now) rows

-- a < b, for texts
unfoldable pub text_lt : Text → Text → Bool
text_lt [] [] = false
text_lt [] (b ∷ t) = true
text_lt (a ∷ s) [] = false
text_lt (a ∷ s) (b ∷ t) = ltb a b || ((a == b) && text_lt s t)

-- How `start` of the run manager ends: it answers; it raises a `RuntimeError`, as it does where
-- another operation is active; it raises another exception before its thread runs; or `get` raises
-- one afterwards, with the job running.
pub data StartResult : Type 0 where
  run_started : StartResult
  runtime_error : StartResult
  other_error : StartResult
  started_unread : StartResult

-- A job of the registry, and what a cycle meets for it: how `start` ends, and whether the database
-- takes the row of `record_skipped` and the release of the occurrence.
pub record Definition : Type 0 where
  pub enabled : Bool
  pub start : StartResult
  pub records : Bool
  pub releases : Bool

-- What a cycle reads for one schedule: the local time and date of its zone, the claim's marker, and
-- the time stamp of a release.
pub record Moment : Type 0 where
  pub time : Text
  pub date : String
  pub marker : String
  pub stamp : String

unfoldable pub claim_of : Moment → Schedule → Claim
claim_of m s = record {
  job_key = s.job_key;
  local_date = m.date;
  previous_scheduled_date = s.last_scheduled_date;
  claim_marker = m.marker;
  observed_run_time = s.run_time;
  observed_timezone = s.timezone;
  observed_updated_at = s.updated_at;
}

unfoldable pub is_due : Moment → Schedule → Bool
unfolding text_lt
is_due m s =
    s.enabled && not (text_lt m.time s.run_time) && not (str_eq s.last_scheduled_date m.date)

-- What a cycle does for one schedule: nothing; a recorded skip of a disabled job; a start; a recorded
-- skip after a `RuntimeError`; or it raises, with the job running or not.
pub data Served : Type 0 where
  passed_over : Served
  skipped_disabled : Served
  started : Served
  skipped_busy : Served
  raised : Served
  raised_running : Served

-- `_release_occurrence`, and what follows in its `except` clause; it raises if the database does.
unfoldable pub give_back :
    (releases : Bool)
    → Claim
    → (stamp : String) → (after failing : Served) → List Schedule
    → Served × List Schedule
unfolding release_occurrence
give_back releases c stamp after failing rows =
    if releases then (after, release_occurrence c stamp rows) else (failing, rows)

-- After the claim.
unfoldable pub launch :
    Definition → Claim → (stamp : String) → List Schedule → Served × List Schedule
unfolding give_back
launch d c stamp rows =
    if not d.enabled
    then ((if d.records then skipped_disabled else raised), rows)
    else elim d.start [
      | run_started ↦ (started, rows)
      | runtime_error ↦
          give_back d.releases c stamp (if d.records then skipped_busy else raised) raised rows
      | other_error ↦ give_back d.releases c stamp raised raised rows
      | started_unread ↦ give_back d.releases c stamp raised_running raised_running rows
    ]

-- The claim, and what follows if it succeeds.
unfoldable pub attempted : Definition → Moment → Schedule → List Schedule → Served × List Schedule
unfolding claim_of claim_occurrence launch
attempted d m s rows =
    let attempt = claim_occurrence (claim_of m s) rows in
    if attempt.0 then launch d (claim_of m s) m.stamp attempt.1 else (passed_over, attempt.1)

-- The body of the loop of `_run_due_once_locked`, for the schedule `s` as it was listed.
unfoldable pub serve :
    Option Definition → Moment → Schedule → List Schedule → Served × List Schedule
unfolding is_due attempted
serve none m s rows = (passed_over, rows)
serve (some d) m s rows = if not (is_due m s) then (passed_over, rows) else attempted d m s rows

-- An exception ends the cycle; any other outcome goes before those of the rest.
unfoldable pub before_rest :
    String
    → Served × List Schedule
    → List (String × Served) × List Schedule
    → List (String × Served) × List Schedule
before_rest key (raised, rows) rest = ((key, raised) ∷ [], rows)
before_rest key (raised_running, rows) rest = ((key, raised_running) ∷ [], rows)
before_rest key (passed_over, rows) rest = ((key, passed_over) ∷ rest.0, rest.1)
before_rest key (skipped_disabled, rows) rest = ((key, skipped_disabled) ∷ rest.0, rest.1)
before_rest key (started, rows) rest = ((key, started) ∷ rest.0, rest.1)
before_rest key (skipped_busy, rows) rest = ((key, skipped_busy) ∷ rest.0, rest.1)

-- `_run_due_once_locked`: the jobs in the order in which they were listed.
unfoldable pub run_due_once :
    (registry : String → Option Definition)
    → (moment : String → Moment) → (listed rows : List Schedule)
    → List (String × Served) × List Schedule
unfolding serve before_rest
run_due_once registry moment [] rows = ([], rows)
run_due_once registry moment (s ∷ listed) rows =
    let step = serve (registry s.job_key) (moment s.job_key) s rows in
    before_rest s.job_key step (run_due_once registry moment listed step.1)

-- ===== src/Schedules/Edits.antt =====
-- The edits of backend/maintenance_scheduler.py: the rows that are missing, the list of schedules,
-- and `update_schedule`. What strptime, zoneinfo and the clock answer is an argument.
use opportunity_radar.Prelude.{
  String, Bool, false, not, ◌&&◌, Option, none, some, List, [], ◌∷◌, ◌++◌, str_eq, if◌then◌else◌,
  Text, codes, text_eq, any,
}
use opportunity_radar.Schedules.{Schedule, update_where, text_lt}

-- The registry's keys, each with `supports_scheduling`.
abbrev pub Registry : Type 0
Registry = List (String × Bool)

unfoldable pub new_row : String → (timezone stamp : String) → Schedule
new_row key timezone stamp = record {
  job_key = key;
  enabled = false;
  run_time = codes "02:00";
  timezone = timezone;
  last_scheduled_date = "";
  updated_at = stamp;
}

unfoldable pub has_row : String → List Schedule → Bool
has_row key rows = any (λ (r : Schedule). str_eq r.job_key key) rows

-- `ensure_schedule_rows`: INSERT OR IGNORE for each job that can be scheduled.
unfoldable pub ensure_schedule_rows :
    (timezone now : String) → Registry → List Schedule → List Schedule
unfolding new_row has_row
ensure_schedule_rows timezone now [] rows = rows
ensure_schedule_rows timezone now ((key, supports) ∷ registry) rows =
    ensure_schedule_rows timezone now registry
      (if supports && not (has_row key rows) then rows ++ new_row key timezone now ∷ [] else rows)

-- `sorted`, by the key
unfoldable pub insert_schedule :
    (less : String → String → Bool) → Schedule → List Schedule → List Schedule
insert_schedule less s [] = s ∷ []
insert_schedule less s (r ∷ rows) =
    let rest = insert_schedule less s rows in
    if less r.job_key s.job_key then r ∷ rest else s ∷ r ∷ rows

unfoldable pub sorted_schedules : (less : String → String → Bool) → List Schedule → List Schedule
unfolding insert_schedule
sorted_schedules less [] = []
sorted_schedules less (s ∷ rows) = insert_schedule less s (sorted_schedules less rows)

-- `list_schedules`: the rows, and a disabled schedule for each job that can be scheduled and has
-- none, without a time stamp.
unfoldable pub list_schedules :
    (less : String → String → Bool) → (timezone : String) → Registry → List Schedule → List Schedule
unfolding sorted_schedules ensure_schedule_rows
list_schedules less timezone registry rows =
    sorted_schedules less (ensure_schedule_rows timezone "" registry rows)

pub record Edit : Type 0 where
  pub job_key : String
  pub enabled : Bool
  pub run_time : Text
  pub timezone : String

-- The local time and date of a zone.
pub record Local : Type 0 where
  pub time : Text
  pub date : String

pub data Edited : Type 0 where
  key_error value_error : Edited
  edited : List Schedule → Edited

unfoldable pub supports_scheduling : String → Registry → Bool
supports_scheduling key [] = false
supports_scheduling key ((k, supports) ∷ registry) =
    let rest = supports_scheduling key registry in if str_eq k key then supports else rest

-- `validate_run_time`; `reformat` is the time that strptime reads, as strftime writes it.
unfoldable pub is_run_time : (reformat : Text → Option Text) → Text → Bool
is_run_time reformat value = elim (reformat value) [ none ↦ false | some t ↦ text_eq t value ]

-- A job that is enabled after its time has passed waits for the next day.
unfoldable pub date_of_edit : Edit → Local → String
unfolding text_lt
date_of_edit e now = if e.enabled && not (text_lt now.time e.run_time) then now.date else ""

unfoldable pub changed : Edit → (date stamp : String) → Schedule → Schedule
changed e date stamp r = record {
  job_key = r.job_key;
  enabled = e.enabled;
  run_time = e.run_time;
  timezone = e.timezone;
  last_scheduled_date = if e.enabled then date else r.last_scheduled_date;
  updated_at = stamp;
}

-- INSERT … ON CONFLICT(job_key) DO UPDATE
unfoldable pub upsert : Edit → (date stamp : String) → List Schedule → List Schedule
unfolding changed
upsert e date stamp [] =
    record {
      job_key = e.job_key;
      enabled = e.enabled;
      run_time = e.run_time;
      timezone = e.timezone;
      last_scheduled_date = date;
      updated_at = stamp;
    }
    ∷ []
upsert e date stamp (r ∷ rows) =
    let rest = upsert e date stamp rows in
    if str_eq r.job_key e.job_key then changed e date stamp r ∷ rows else r ∷ rest

unfoldable pub move_timezone : (timezone stamp : String) → List Schedule → List Schedule
unfolding update_where
move_timezone timezone stamp rows =
    update_where (λ (r : Schedule). not (str_eq r.timezone timezone))
      (λ (r : Schedule). record r { timezone = timezone; updated_at = stamp }) rows

unfoldable pub edit_rows : Edit → Local → (stamp : String) → List Schedule → List Schedule
unfolding upsert move_timezone date_of_edit
edit_rows e now stamp rows =
    upsert e (date_of_edit e now) stamp (move_timezone e.timezone stamp rows)

-- `update_schedule`, up to the list that it returns; `zone` is the present time in a zone, if there
-- is one of that name.
unfoldable pub update_schedule :
    Registry
    → (reformat : Text → Option Text) → (zone : String → Option Local) → Edit
    → (stamp : String) → List Schedule
    → Edited
unfolding supports_scheduling is_run_time edit_rows
update_schedule registry reformat zone e stamp rows =
    if not (supports_scheduling e.job_key registry)
    then key_error
    else if not (is_run_time reformat e.run_time)
    then value_error
    else elim (zone e.timezone) [
      | none ↦ value_error
      | some now ↦ edited (edit_rows e now stamp rows)
    ]

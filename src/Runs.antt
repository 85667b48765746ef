-- ===== src/Runs.antt =====
-- backend/utility_runs.py: maintenance runs, their rows in the table `maintenance_job_runs`, the
-- threads that work on them, and the mutation gate that each run holds.
-- A time stamp is the instant that its ISO text denotes, in seconds; `none` is the empty text.
-- Monotonic readings are in milliseconds, and what is rounded to two decimals is in hundredths.
pub mod Verdict
pub mod ErrorText
pub mod Lifecycle
pub mod Rows
pub mod Execute
pub mod Release
pub mod Outcome
pub mod Starting
pub mod Recovery
pub mod Cancelling
mod Tests
use opportunity_radar.Prelude.{
  Text, ℕ, ◌+◌, String, ◌≡◌, Bool, true, false, not, ◌&&◌, ◌||◌, Option, none, some, List, [], ◌∷◌,
  ◌++◌, Dict, lookup, put, str_eq, any, if◌then◌else◌,
}
use opportunity_radar.Gate.{Gate}

-- The column `status`.
pub data Status : Type 0 where
  queued running cancelling completed failed cancelled skipped : Status

-- `ACTIVE_STATUSES`, and the condition of the partial unique index of backend/db.py.
abbrev pub is_active : Status → Bool
is_active queued = true
is_active running = true
is_active cancelling = true
is_active _ = false

-- `result_summary_json`: the dictionary that the column's JSON text denotes.
abbrev pub Summary : Type 0
Summary = Dict String

pub record Row : Type 0 where
  pub id : String
  pub job_key : String
  pub task_name : String
  pub trigger_type : String
  pub progress_verb : String
  pub progress_unit : String
  pub status : Status
  pub progress_current : ℕ
  pub progress_total : ℕ
  pub current_item : String
  pub current_message : String
  pub started_at : Option ℕ
  pub completed_at : Option ℕ
  pub runtime_seconds : Option ℕ
  pub result_summary : Summary
  pub error : Text
  pub created_at : Option ℕ
  pub updated_at : Option ℕ

-- `UtilityRunManager`, with the table that it writes. `_cancel_events` and `_threads` are given by
-- their keys; `signals` says which events have been set, and a worker keeps its event when the
-- manager has dropped the key.
pub record Manager : Type 0 where
  pub table : List Row
  pub gate : Gate
  pub accepting : Bool
  pub cancel_events : List String
  pub threads : List String
  pub signals : Dict Bool

-- SELECT * FROM maintenance_job_runs WHERE id = ?
unfoldable pub find_row : String → List Row → Option Row
find_row run_id [] = none
find_row run_id (r ∷ rows) = if str_eq r.id run_id then some r else find_row run_id rows

-- UPDATE maintenance_job_runs SET … WHERE id = ?
unfoldable pub change_row : String → (Row → Row) → List Row → List Row
change_row run_id f [] = []
change_row run_id f (r ∷ rows) =
    if str_eq r.id run_id then f r ∷ rows else r ∷ change_row run_id f rows

-- The two unique indexes: the primary key, and one active row for each job key.
unfoldable pub violates_unique : Row → List Row → Bool
violates_unique r rows =
    any (λ x. str_eq x.id r.id) rows
    || (is_active r.status && any (λ x. is_active x.status && str_eq x.job_key r.job_key) rows)

-- INSERT INTO maintenance_job_runs …: `none` is `sqlite3.IntegrityError`.
unfoldable pub insert_row : Row → List Row → Option (List Row)
unfolding violates_unique
insert_row r rows = if violates_unique r rows then none else some (rows ++ r ∷ [])

-- The keyword arguments of `_update_run`, each of which may be left out.
pub record Updates : Type 0 where
  pub status : Option Status
  pub progress_current : Option ℕ
  pub progress_total : Option ℕ
  pub current_item : Option String
  pub current_message : Option String
  pub started_at : Option (Option ℕ)
  pub completed_at : Option (Option ℕ)
  pub runtime_seconds : Option (Option ℕ)
  pub result_summary : Option Summary
  pub error : Option Text

abbrev pub no_updates : Updates
no_updates = record {
  status = none;
  progress_current = none;
  progress_total = none;
  current_item = none;
  current_message = none;
  started_at = none;
  completed_at = none;
  runtime_seconds = none;
  result_summary = none;
  error = none;
}

abbrev pub given {ℓ} : {A : Type ℓ} → Option A → A → A
given none old = old
given (some new) old = new

unfoldable pub patch : Updates → Option ℕ → Row → Row
patch u now r = record r {
  status = given u.status r.status;
  progress_current = given u.progress_current r.progress_current;
  progress_total = given u.progress_total r.progress_total;
  current_item = given u.current_item r.current_item;
  current_message = given u.current_message r.current_message;
  started_at = given u.started_at r.started_at;
  completed_at = given u.completed_at r.completed_at;
  runtime_seconds = given u.runtime_seconds r.runtime_seconds;
  result_summary = given u.result_summary r.result_summary;
  error = given u.error r.error;
  updated_at = now;
}

-- `_update_run`, whose callers all give a column. `none` is an exception: the database failed
-- (`writes` is false), or no row has the id (`KeyError`). It is the same to every caller.
unfoldable pub update_run :
    (writes : Bool) → Option ℕ → String → Updates → List Row → Option (List Row)
unfolding patch
update_run writes now run_id u rows = elim (find_row run_id rows) [
  | none ↦ none
  | some r ↦ if writes then some (change_row run_id (patch u now) rows) else none
]

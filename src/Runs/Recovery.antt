-- ===== src/Runs/Recovery.antt =====
-- Startup: `_mark_interrupted_runs` and `reconcile_interrupted_runs` of backend/utility_runs.py.
use Prim.Native.String.{◌++◌ as ◌++ₜ◌}
use opportunity_radar.Prelude.{
  ℕ, ◌-◌, ◌*◌, ◌≡◌, ◌⊎◌, Bool, true, false, not, Option, none, some, List, [], ◌∷◌, map, codes,
  count_if, if◌then◌else◌,
}
use opportunity_radar.Runs.{failed, is_active, Row}

-- elapsed_between(start, end): whole seconds, in hundredths; 0 if a text is no time stamp, or if the
-- end lies before the start.
unfoldable pub elapsed_between : Option ℕ → Option ℕ → ℕ
elapsed_between none end = 0
elapsed_between (some start) none = 0
elapsed_between (some start) (some end) = (end - start) * 100

-- row["started_at"] or row["created_at"]
started_or_created : Option ℕ → Option ℕ → Option ℕ
started_or_created none created = created
started_or_created (some started) created = some started

unfoldable pub interrupted : Option ℕ → Row → Row
unfolding elapsed_between started_or_created
interrupted now r = record r {
  status = failed;
  completed_at = now;
  runtime_seconds = some (elapsed_between (started_or_created r.started_at r.created_at) now);
  current_message = r.task_name ++ₜ " was interrupted because the backend restarted.";
  error = codes "Backend restarted while this maintenance job was running.";
  updated_at = now;
}

-- One UPDATE for each row that the SELECT of the active rows returned; ids are unique.
unfoldable pub mark_interrupted_runs : Option ℕ → List Row → List Row
unfolding interrupted
mark_interrupted_runs now rows = map (λ r. if is_active r.status then interrupted now r else r) rows

-- `reconcile_interrupted_runs`: the file, its table, and whether SQLite raises. The count is taken
-- before the update; an error rolls the transaction back and counts as 0.
pub record Database : Type 0 where
  pub is_file : Bool
  pub has_table : Bool
  pub raises : Bool
  pub rows : List Row

unfoldable pub reconcile_interrupted_runs : Option ℕ → Database → ℕ × Database
unfolding mark_interrupted_runs
reconcile_interrupted_runs now d =
    if not d.is_file
    then (0, d)
    else if d.raises
    then (0, d)
    else if not d.has_table
    then (0, d)
    else (
      count_if (λ r. is_active r.status) d.rows,
      record d { rows = mark_interrupted_runs now d.rows },
    )

-- The whole seconds from a run's start, or else its creation, until now, in hundredths.
abbrev pub RanFor : (now started created runtime : Option ℕ) → Type 0
RanFor none started created runtime = runtime ≡ some 0
RanFor (some now) (some started) created runtime = runtime ≡ some ((now - started) * 100)
RanFor (some now) none (some created) runtime = runtime ≡ some ((now - created) * 100)
RanFor (some now) none none runtime = runtime ≡ some 0

-- A row that was failed at startup, of a run that was active.
pub record Failed (now : Option ℕ) (r r' : Row) : Type 0 where
  pub was_active : is_active r.status ≡ true
  pub status : r'.status ≡ failed
  pub completed_at : r'.completed_at ≡ now
  pub updated_at : r'.updated_at ≡ now
  pub runtime : RanFor now r.started_at r.created_at r'.runtime_seconds
  pub error : r'.error ≡ codes "Backend restarted while this maintenance job was running."
  -- what the UPDATE does not name
  pub id : r'.id ≡ r.id
  pub job_key : r'.job_key ≡ r.job_key
  pub task_name : r'.task_name ≡ r.task_name
  pub trigger_type : r'.trigger_type ≡ r.trigger_type
  pub progress : (r'.progress_current ≡ r.progress_current) × (r'.progress_total ≡ r.progress_total)
  pub started_at : r'.started_at ≡ r.started_at
  pub created_at : r'.created_at ≡ r.created_at
  pub result_summary : r'.result_summary ≡ r.result_summary

-- What became of one row: an active one failed, any other is as it was.
abbrev pub Reconciled : Option ℕ → Row → Row → Type 0
Reconciled now r r' = Failed now r r' ⊎ ((is_active r.status ≡ false) × (r' ≡ r))

abbrev pub AllReconciled : Option ℕ → List Row → List Row → Type 0
AllReconciled now [] [] = Unit
AllReconciled now [] (y ∷ ys) = ⊥
AllReconciled now (x ∷ xs) [] = ⊥
AllReconciled now (x ∷ xs) (y ∷ ys) = Reconciled now x y × AllReconciled now xs ys

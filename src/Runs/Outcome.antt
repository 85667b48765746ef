-- ===== src/Runs/Outcome.antt =====
-- The row of a run of backend/utility_runs.py after its thread has ended.
use opportunity_radar.Prelude.{
  ℕ, ◌≡◌, refl, sym, ◌⊎◌, inl, inr, String, Bool, true, false, Option, some, List, arith,
  Bool-cases,
}
use opportunity_radar.Runs.{Summary, Row, Manager, find_row, update_run, Updates, patch}
use opportunity_radar.Runs.Verdict.{Ending, Verdict, verdict, IsFinal, verdict-IsFinal}
use opportunity_radar.Runs.Lifecycle.{is_set}
use opportunity_radar.Runs.Rows.{update_run-ok, update_run-refused}
use opportunity_radar.Runs.Execute.{
  Course, Begun, proceed, stopped, broken, begin, conclude, record_failure, Work, execute, body,
  written, begin_row, concluded, cancelled_before, now_running, unrecorded, recorded, conclusion,
}

abbrev pub Has : String → List Row → Type 0
Has run_id rows = (r : Row) × (find_row run_id rows ≡ some r)

-- The run's row is there and has a final status.
abbrev pub Ends : String → List Row → Type 0
Ends run_id rows = (r : Row) × (find_row run_id rows ≡ some r) × IsFinal r.status

record_failure-Ends :
    (c : Course) (run_id : String) (m : Manager)
    → c.records ≡ true
    → Has run_id m.table
    → Ends run_id (record_failure c run_id m).table
unfolding record_failure
record_failure-Ends c run_id m w (r, e) =
    let (rows, u, f) = update_run-ok c.records c.completed_at run_id (unrecorded c) m.table r w e in
    rw (u, recorded) (patch (unrecorded c) c.completed_at r, f, (unfold patch in ground arith))

-- A write is made as a whole or not at all.
written_cases :
    (writes : Bool) (now : Option ℕ) (run_id : String) (u : Updates) (next : Begun) (m : Manager)
    (r : Row)
    → find_row run_id m.table ≡ some r
    → let res = written next m (update_run writes now run_id u m.table) in
      ((res.0 ≡ next) × (find_row run_id res.1.table ≡ some (patch u now r)))
      ⊎ ((res.0 ≡ broken) × (find_row run_id res.1.table ≡ some r))
unfolding written
written_cases true now run_id u next m r e =
    let (rows, w, f) = update_run-ok true now run_id u m.table r refl e in rw w (inl (refl, f))
written_cases false now run_id u next m r e =
    rw (update_run-refused false now run_id u m.table refl) (inr (refl, e))

-- How the first section leaves a run whose row is there.
abbrev Begins : String → Begun × Manager → Type 0
Begins run_id (proceed r, m) = Has run_id m.table
Begins run_id (stopped, m) = Ends run_id m.table
Begins run_id (broken, m) = Has run_id m.table

Begins-intro :
    (run_id : String) (res : Begun × Manager) (next : Begun) (r' r : Row)
    → ((res.0 ≡ next) × (find_row run_id res.1.table ≡ some r'))
      ⊎ ((res.0 ≡ broken) × (find_row run_id res.1.table ≡ some r))
    → (next ≡ stopped → IsFinal r'.status)
    → Begins run_id res
Begins-intro run_id (proceed x, m) next r' r (inl (e, f)) final = (r', f)
Begins-intro run_id (proceed x, m) next r' r (inr (e, f)) final = (r, f)
Begins-intro run_id (stopped, m) next r' r (inl (e, f)) final = (r', f, final (sym e))
Begins-intro run_id (stopped, m) next r' r (inr (e, f)) final = cc
Begins-intro run_id (broken, m) next r' r (inl (e, f)) final = (r', f)
Begins-intro run_id (broken, m) next r' r (inr (e, f)) final = (r, f)

begin_row-Begins :
    (c : Course) (run_id : String) (r : Row) (m : Manager)
    → find_row run_id m.table ≡ some r
    → Begins run_id (begin_row c run_id (some r) m)
unfolding begin_row
begin_row-Begins c run_id r m e = elim (Bool-cases (is_set run_id m.signals)) [
  | inl h ↦ rw h (
      Begins-intro run_id
        (written stopped m (update_run c.starts c.started_at run_id (cancelled_before c r) m.table))
        stopped (patch (cancelled_before c r) c.started_at r) r
        (written_cases c.starts c.started_at run_id (cancelled_before c r) stopped m r e)
        (λ _. unfold patch in ground arith))
  | inr h ↦ rw h (
      Begins-intro run_id
        (written (proceed r) m (update_run c.starts c.started_at run_id (now_running c r) m.table))
        (proceed r) (patch (now_running c r) c.started_at r) r
        (written_cases c.starts c.started_at run_id (now_running c r) (proceed r) m r e) (λ x. cc))
]

begin-Begins :
    (c : Course) (run_id : String) (m : Manager)
    → Has run_id m.table
    → Begins run_id (begin c run_id m)
unfolding begin
begin-Begins c run_id m (r, e) = elim (Bool-cases c.reads) [
  | inl h ↦ rw (h, e) (begin_row-Begins c run_id r m e)
  | inr h ↦ rw h (r, e)
]

module _ (format_summary : Summary → Ending String)
    (after_success : Option (Summary → Ending String)) (c : Course) (run_id : String) (work : Work)
    (records : c.records ≡ true)
    (keeps : (m : Manager) → Has run_id m.table → Has run_id (work m).2.table) where
  concluded-Ends :
      (v : Verdict) (m : Manager)
      → IsFinal v.status
      → Has run_id m.table
      → Ends run_id (concluded c run_id (conclude c run_id v m.table) m).table
  unfolding concluded conclude
  concluded-Ends v m final (r, e) = elim (Bool-cases c.concludes) [
    | inl h ↦
        let (rows, w, f) =
          update_run-ok c.concludes c.completed_at run_id (conclusion c v) m.table r h e in
        rw w (patch (conclusion c v) c.completed_at r, f, (unfold patch conclusion in final))
    | inr h ↦
        rw (update_run-refused c.concludes c.completed_at run_id (conclusion c v) m.table h)
          (record_failure-Ends c run_id m records (r, e))
  ]

  body-Ends :
      (b : Begun) (m : Manager)
      → Begins run_id (b, m)
      → Ends run_id (body format_summary after_success c run_id work (b, m)).table
  unfolding body
  body-Ends (proceed r) m h =
      let (end, latest, m') = work m in
      concluded-Ends
        (verdict r.task_name (is_set run_id m'.signals) latest format_summary after_success end) m'
        (verdict-IsFinal r.task_name (is_set run_id m'.signals) latest format_summary after_success
          end)
        (keeps m h)
  body-Ends stopped m h = h
  body-Ends broken m h = record_failure-Ends c run_id m records h

  -- If the row of the run is there, the worker's part leaves it there, and the database accepts the
  -- write that records a failure, then the run's row ends completed, failed or cancelled, whichever
  -- of the other reads and writes fail and however the worker ends.
  pub execute-Ends :
      (m : Manager)
      → Has run_id m.table
      → Ends run_id (execute format_summary after_success c run_id work m).table
  unfolding execute
  execute-Ends m h = let (b, m') = begin c run_id m in body-Ends b m' (begin-Begins c run_id m h)

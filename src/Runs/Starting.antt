-- ===== src/Runs/Starting.antt =====
-- What `start` of backend/utility_runs.py leaves behind, when it answers and when it raises.
use text.Mathlib.TextLemmas.{append-eq-nil_iff}
use opportunity_radar.Prelude.{
  ◌≡◌, ◌≢◌, if◌then◌else◌, refl, sym, ap, subst, ◌∙◌, inl, inr, String, true, false, Option, none,
  some, List, [], ◌∷◌, ◌++◌, arith, str_eq, eq_iff, eq_refl, if_cases, Bool-cases, Option-cases,
  any, codes,
}
use opportunity_radar.Gate.{
  Gate, Outside, ActiveOperation, Conflict, Result, ok, err, acquire, release, new_operation,
}
use opportunity_radar.Gate
use opportunity_radar.Gate.Admission.{acquire-Outcome, granted, refused_busy, refused_shutdown}
use opportunity_radar.Runs.{Row, Manager, find_row, insert_row, update_run}
use opportunity_radar.Runs.Release.{HoldsGate}
use opportunity_radar.Runs.Lifecycle.{
  Request, Weather, run_id_of, RunError, Answer, answer, error, queued_row, start, spawn, inserted,
  leased, is_tracked, could_not_start, database_failed, unread, already_running,
  refused as gate_refused, spawn_failed,
}

-- A run's id is no empty text, so the gate takes it as the operation's id.
run_id-ne : (w : Weather) → str_eq (run_id_of w) "" ≡ false
run_id-ne w = elim (Bool-cases (str_eq (run_id_of w) "")) [
  | inl h ↦
      cc ((eq_iff "maintenance-" "").1 (append-eq-nil_iff.0 ((eq_iff (run_id_of w) "").0 h)).0)
  | inr h ↦ h
]

find_row-append :
    (rows : List Row) (r : Row)
    → any (λ x. str_eq x.id r.id) rows ≡ false
    → find_row r.id (rows ++ r ∷ []) ≡ some r
unfolding find_row
find_row-append [] r h = rw (eq_refl r.id)
find_row-append (x ∷ rows) r h = ground (arith, find_row-append rows r)

find_row-insert_row :
    (rows rows' : List Row) (r : Row)
    → insert_row r rows ≡ some rows'
    → find_row r.id rows' ≡ some r
unfolding insert_row
find_row-insert_row rows rows' r e = ground (arith, find_row-append rows r)

-- The run began: the gate was free and is held under the run's id, the run's thread is tracked with an
-- event to cancel it, and its row was queued.
pub record Began (q : Request) (w : Weather) (before after : Manager) : Type 0 where
  pub was_free : before.gate.active ≡ none
  pub holds : HoldsGate (run_id_of w) after
  pub thread : is_tracked (run_id_of w) after.threads ≡ true
  pub cancel_event : is_tracked (run_id_of w) after.cancel_events ≡ true
  pub row : find_row (run_id_of w) after.table ≡ some (queued_row q w)

-- What a call of `start` can leave. An answer: the run began, and its row was read again. The
-- exception of that reading: the run began. Any other exception: the gate's holder and the threads
-- are those from before.
pub data Started (q : Request) (w : Weather) (m : Manager) (res : Answer String × Manager)
    : Type 0 where
  began : w.reads ≡ true → res.0 ≡ answer (run_id_of w) → Began q w m res.1 → Started q w m res
  began_unread : w.reads ≡ false → res.0 ≡ error unread → Began q w m res.1 → Started q w m res
  refused :
      (e : RunError)
      → e ≢ unread
      → res.0 ≡ error e
      → res.1.gate.active ≡ m.gate.active
      → res.1.threads ≡ m.threads
      → Started q w m res

not_unread : (c : Conflict) → gate_refused c ≢ unread
not_unread c e = cc e

is_tracked_self : (key : String) (keys : List String) → is_tracked key (key ∷ keys) ≡ true
unfolding is_tracked
is_tracked_self key keys = rw (eq_refl key)

release-frees :
    (key : String) (g : Gate) (a : ActiveOperation)
    → g.active ≡ some a
    → a.id ≡ key
    → (release key g).active ≡ none
unfolding release
release-frees key g a e i = ground (arith, eq_iff a.id key)

spawn-ok :
    (q : Request) (w : Weather) (n : Manager)
    → w.spawns ≡ true
    → spawn q w n ≡ (
      (if w.reads then answer (run_id_of w) else error unread),
      record n { threads = run_id_of w ∷ n.threads },
    )
unfolding spawn
spawn-ok q w n h = ground arith

spawn-failed :
    (q : Request) (w : Weather) (n : Manager)
    → w.spawns ≡ false
    → (e : RunError) × (e ≢ unread)
      × ((spawn q w n).0 ≡ error e)
      × ((spawn q w n).1.gate ≡ release (run_id_of w) n.gate)
      × ((spawn q w n).1.threads ≡ n.threads)
unfolding spawn
spawn-failed q w n h =
    elim (Option-cases (update_run w.writes w.now (run_id_of w) (spawn_failed q w.now) n.table)) [
      | inl u ↦ (database_failed, (λ x. cc x), ground arith, ground arith, ground arith)
      | inr (rows, u) ↦ (could_not_start, (λ x. cc x), ground arith, ground arith, ground arith)
    ]

-- From here on the gate has been granted: `a` is the run's operation, `m` the manager before.
module _ (q : Request) (w : Weather) (m : Manager) (free : m.gate.active ≡ none) where
  spawned-Started :
      (n : Manager)
      → Began q w m n
      → Started q w m ((if w.reads then answer (run_id_of w) else error unread), n)
  spawned-Started n b = elim (Bool-cases w.reads) [
    | inl r ↦ began r (rw r refl) b
    | inr r ↦ began_unread r (rw r refl) b
  ]

  spawn-Started :
      (n : Manager) (a : ActiveOperation)
      → n.gate.active ≡ some a
      → a.id ≡ run_id_of w
      → n.threads ≡ m.threads
      → is_tracked (run_id_of w) n.cancel_events ≡ true
      → find_row (run_id_of w) n.table ≡ some (queued_row q w)
      → Started q w m (spawn q w n)
  unfolding spawn is_tracked
  spawn-Started n a e i t k f = elim (Bool-cases w.spawns) [
    | inl h ↦ subst (Started q w m) (sym (spawn-ok q w n h)) (
        spawned-Started _ record {
          was_free = free;
          holds = (a, e, i);
          thread = is_tracked_self (run_id_of w) n.threads;
          cancel_event = k;
          row = f;
        })
    | inr h ↦
        let (x, ne, e', g', t') = spawn-failed q w n h in
        refused x ne e'
          (ap (λ (g : Gate). g.active) g' ∙ release-frees (run_id_of w) n.gate a e i ∙ sym free)
          (t' ∙ t)
  ]

  inserted-Started :
      (rows : Option (List Row)) (n : Manager) (a : ActiveOperation)
      → n.gate.active ≡ some a
      → a.id ≡ run_id_of w
      → n.threads ≡ m.threads
      → insert_row (queued_row q w) n.table ≡ rows
      → Started q w m (inserted q w rows n)
  unfolding inserted
  inserted-Started none n a e i t r =
      refused already_running (λ x. cc x) refl (release-frees (run_id_of w) n.gate a e i ∙ sym free)
        t
  inserted-Started (some rows) n a e i t r =
      spawn-Started _ a e i t (is_tracked_self (run_id_of w) n.cancel_events)
        (unfold queued_row in find_row-insert_row n.table rows (queued_row q w) r)

  granted-Started :
      (a : ActiveOperation) (g : Gate)
      → g.active ≡ some a
      → a.id ≡ run_id_of w
      → Started q w m (leased q w (ok a, g) m)
  unfolding leased
  granted-Started a g e i =
      if_cases (Started q w m) w.inserts
        (λ _.
          inserted-Started (insert_row (queued_row q w) m.table) (record m { gate = g }) a e i refl
            refl)
        (λ _.
          refused database_failed (λ x. cc x) refl (release-frees (run_id_of w) g a e i ∙ sym free)
            refl)

leased-Started :
    (q : Request) (w : Weather) (m : Manager)
    → Started q w m (leased q w (acquire (codes q.action) (some (run_id_of w)) w.outside m.gate) m)
leased-Started q w m =
    elim (acquire-Outcome (codes q.action) (some (run_id_of w)) w.outside m.gate) [
      | granted on free e ↦
          subst (λ r. Started q w m (leased q w r m)) (sym e)
            (granted-Started q w m free
              (new_operation (codes q.action) (some (run_id_of w)) w.outside)
              (record m.gate {
                active = some (new_operation (codes q.action) (some (run_id_of w)) w.outside);
              })
              refl (unfold new_operation in rw (run_id-ne w)))
      | refused_busy a on busy e ↦
          subst (λ r. Started q w m (leased q w r m)) (sym e)
            (unfold leased in refused (gate_refused _) (not_unread _) refl refl refl)
      | refused_shutdown off e ↦
          subst (λ r. Started q w m (leased q w r m)) (sym e)
            (unfold leased in refused (gate_refused _) (not_unread _) refl refl refl)
    ]

-- Every call of `start`, whatever the gate, the database and the thread do, ends in one of three ways.
-- It answers: then the gate was free and is held under the run's id, the thread is tracked with an
-- event to cancel it, and the row was queued. Or it raises since `get` fails after the thread was
-- started: then all the same holds, so the run goes on. Or it raises otherwise: then the gate's
-- holder and the threads are those from before, so the gate is not left held.
pub start-Started : (q : Request) (w : Weather) (m : Manager) → Started q w m (start q w m)
unfolding start
start-Started q w m =
    if_cases (Started q w m) m.accepting (λ _. leased-Started q w m)
      (λ _.
        refused (gate_refused Gate.shutting_down) (not_unread Gate.shutting_down) refl refl refl)

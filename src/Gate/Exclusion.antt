-- ===== src/Gate/Exclusion.antt =====
-- Mutual exclusion of the gate of backend/operation_gate.py, over every order of the threads' steps.
use opportunity_radar.Prelude.{
  ℕ, zero, suc, ◌≤◌, ◌≡◌, refl, sym, String, true, false, Option, none, some, List, [], ◌∷◌, ◌++◌,
  arith, ◌⊎◌, inl, inr, count_if, All, eq_iff, Option-cases, Bool-cases,
}
use opportunity_radar.Gate.{
  Gate, Outside, ActiveOperation, new_gate, acquire, clear_active, drop_progress, report_progress,
  stop_accepting, start_accepting,
}
use opportunity_radar.Gate.Process.{
  Phase, held, marked, cleared, Handle, Process, Event, acquires, marks, clears, drops, reports,
  stops, starts, handle_at, set_phase, step, run, new_process, is_live,
}

-- The handles that the gate's state allows: none is live while it is free, and while it is held
-- exactly one is live, and that one has the operation's id.
abbrev Idle : List Handle → Type 0
Idle = All (λ h. is_live h ≡ false)

abbrev Owned : String → List Handle → Type 0
Owned owner [] = ⊥
Owned owner (h ∷ hs) =
    ((is_live h ≡ true) × (h.operation_id ≡ owner) × Idle hs)
    ⊎ ((is_live h ≡ false) × Owned owner hs)

abbrev Matches : Option ActiveOperation → List Handle → Type 0
Matches none hs = Idle hs
Matches (some a) hs = Owned a.id hs

Owned-snoc :
    (hs : List Handle) (owner : String)
    → Idle hs
    → Owned owner (hs ++ record { operation_id = owner; phase = held } ∷ [])
Owned-snoc [] owner h = inl (refl, refl, tt)
Owned-snoc (x ∷ hs) owner h = inr (h.0, Owned-snoc hs owner h.1)

Idle-not_live :
    (i : ℕ) (hs : List Handle) (h : Handle) → Idle hs → handle_at i hs ≡ some h → is_live h ≡ false
unfolding handle_at
Idle-not_live i [] h idle e = cc
Idle-not_live zero (x ∷ hs) h idle e = ground arith
Idle-not_live (suc i) (x ∷ hs) h idle e = Idle-not_live i hs h idle.1 e

-- The live handle is the owner's.
Owned-id :
    (i : ℕ) (hs : List Handle) (owner : String) (h : Handle)
    → Owned owner hs
    → handle_at i hs ≡ some h
    → is_live h ≡ true
    → h.operation_id ≡ owner
unfolding handle_at
Owned-id i [] owner h o e l = absurd o
Owned-id zero (x ∷ hs) owner h o e l = ground arith
Owned-id (suc i) (x ∷ hs) owner h (inl o) e l = cc (Idle-not_live i hs h o.2 e)
Owned-id (suc i) (x ∷ hs) owner h (inr o) e l = Owned-id i hs owner h o.1 e l

live-held : (h : Handle) → h.phase ≡ held → is_live h ≡ true
live-held h e = ground arith

live-marked : (h : Handle) → h.phase ≡ marked → is_live h ≡ true
live-marked h e = ground arith

Owned-mark :
    (i : ℕ) (hs : List Handle) (owner : String) (h : Handle)
    → Owned owner hs
    → handle_at i hs ≡ some h
    → h.phase ≡ held
    → Owned owner (set_phase i marked hs)
unfolding handle_at set_phase
Owned-mark i [] owner h o e l = absurd o
Owned-mark zero (x ∷ hs) owner h o e l = ground arith
Owned-mark (suc i) (x ∷ hs) owner h (inl o) e l = cc (Idle-not_live i hs h o.2 e, live-held h l)
Owned-mark (suc i) (x ∷ hs) owner h (inr o) e l = inr (o.0, Owned-mark i hs owner h o.1 e l)

Owned-clear :
    (i : ℕ) (hs : List Handle) (owner : String) (h : Handle)
    → Owned owner hs
    → handle_at i hs ≡ some h
    → is_live h ≡ true
    → Idle (set_phase i cleared hs)
unfolding handle_at set_phase
Owned-clear i [] owner h o e l = absurd o
Owned-clear zero (x ∷ hs) owner h (inl o) e l = (refl, o.2)
Owned-clear zero (x ∷ hs) owner h (inr o) e l = ground arith
Owned-clear (suc i) (x ∷ hs) owner h (inl o) e l = cc (Idle-not_live i hs h o.2 e)
Owned-clear (suc i) (x ∷ hs) owner h (inr o) e l = (o.0, Owned-clear i hs owner h o.1 e l)

-- The invariant of the process.
abbrev Exclusive : Process → Type 0
Exclusive w = Matches w.gate.active w.handles

acquire-Exclusive :
    (t : List ℕ) (i : Option String) (now : Outside) (w : Process) (a : Option ActiveOperation)
    → w.gate.active ≡ a
    → Matches a w.handles
    → Exclusive (step w (acquires t i now))
unfolding step acquire
acquire-Exclusive t i now w none e x = elim (Bool-cases w.gate.accepting) [
  | inl on ↦ rw (on, e, step, acquire) (Owned-snoc w.handles _ x)
  | inr off ↦ rw (off, step, acquire) (rw e x)
]
acquire-Exclusive t i now w (some a) e x = elim (Bool-cases w.gate.accepting) [
  | inl on ↦ rw (on, e, step, acquire) x
  | inr off ↦ rw (off, step, acquire) (rw e x)
]

Matches-mark :
    (i : ℕ) (hs : List Handle) (h : Handle) (a : Option ActiveOperation)
    → handle_at i hs ≡ some h
    → h.phase ≡ held
    → Matches a hs
    → Matches a (set_phase i marked hs)
Matches-mark i hs h none f q x = cc (Idle-not_live i hs h x f, live-held h q)
Matches-mark i hs h (some a) f q x = Owned-mark i hs a.id h x f q

mark-Exclusive :
    (i : ℕ) (w : Process) (h : Handle) (p : Phase)
    → handle_at i w.handles ≡ some h
    → h.phase ≡ p
    → Exclusive w
    → Exclusive (step w (marks i))
unfolding step
mark-Exclusive i w h held f q x =
    rw (f, step) (rw (q, step) (Matches-mark i w.handles h w.gate.active f q x))
mark-Exclusive i w h marked f q x = rw (f, step) (rw (q, step) x)
mark-Exclusive i w h cleared f q x = rw (f, step) (rw (q, step) x)

Matches-clear :
    (i : ℕ) (hs : List Handle) (h : Handle) (a : Option ActiveOperation) (g : Gate)
    → g.active ≡ a
    → handle_at i hs ≡ some h
    → h.phase ≡ marked
    → Matches a hs
    → Matches (clear_active h.operation_id g).active (set_phase i cleared hs)
unfolding clear_active
Matches-clear i hs h none g e f q x = cc (Idle-not_live i hs h x f, live-marked h q)
Matches-clear i hs h (some a) g e f q x =
    rw (e, clear_active)
      (rw ((eq_iff a.id h.operation_id).1 (sym (Owned-id i hs a.id h x f (live-marked h q))))
        (Owned-clear i hs a.id h x f (live-marked h q)))

clear-Exclusive :
    (i : ℕ) (w : Process) (h : Handle) (p : Phase)
    → handle_at i w.handles ≡ some h
    → h.phase ≡ p
    → Exclusive w
    → Exclusive (step w (clears i))
unfolding step
clear-Exclusive i w h held f q x = rw (f, step) (rw (q, step) x)
clear-Exclusive i w h marked f q x =
    rw (f, step) (rw (q, step) (Matches-clear i w.handles h w.gate.active w.gate refl f q x))
clear-Exclusive i w h cleared f q x = rw (f, step) (rw (q, step) x)

-- Every event keeps the invariant.
step-Exclusive : (w : Process) (e : Event) → Exclusive w → Exclusive (step w e)
unfolding step drop_progress report_progress stop_accepting start_accepting
step-Exclusive w (acquires t i now) x = acquire-Exclusive t i now w w.gate.active refl x
step-Exclusive w (marks i) x = elim (Option-cases (handle_at i w.handles)) [
  | inl f ↦ rw (f, step) x
  | inr (h, f) ↦ mark-Exclusive i w h h.phase f refl x
]
step-Exclusive w (clears i) x = elim (Option-cases (handle_at i w.handles)) [
  | inl f ↦ rw (f, step) x
  | inr (h, f) ↦ clear-Exclusive i w h h.phase f refl x
]
step-Exclusive w (drops id) x = x
step-Exclusive w (reports id now) x = x
step-Exclusive w stops x = x
step-Exclusive w starts x = x

run-Exclusive : (w : Process) (es : List Event) → Exclusive w → Exclusive (run w es)
unfolding run
run-Exclusive w [] x = x
run-Exclusive w (e ∷ es) x = run-Exclusive (step w e) es (step-Exclusive w e x)

count-Idle : (hs : List Handle) → Idle hs → count_if is_live hs ≡ 0
count-Idle [] x = refl
count-Idle (h ∷ hs) x = rw (x.0) (omega (arith, count-Idle hs x.1))

count-Owned : (hs : List Handle) (owner : String) → Owned owner hs → count_if is_live hs ≡ 1
count-Owned [] owner x = absurd x
count-Owned (h ∷ hs) owner (inl x) = rw (x.0) (omega (arith, count-Idle hs x.2))
count-Owned (h ∷ hs) owner (inr x) = rw (x.0) (omega (arith, count-Owned hs owner x.1))

-- How many leases the gate's state accounts for.
abbrev pub owners : Option ActiveOperation → ℕ
owners none = 0
owners (some a) = 1

count-Matches :
    (a : Option ActiveOperation) (hs : List Handle) → Matches a hs → count_if is_live hs ≡ owners a
count-Matches none hs x = count-Idle hs x
count-Matches (some a) hs x = count-Owned hs a.id x

owners-le : (a : Option ActiveOperation) → owners a ≤ 1
owners-le none = omega arith
owners-le (some a) = omega arith

new_Exclusive : Exclusive new_process
unfolding new_gate
new_Exclusive = tt

-- In whatever order threads acquire, release, report progress, and stop or start admission: a lease
-- is live exactly while the gate is held, and then it is the only one. So two threads never hold
-- the gate together, not even while a release is under way.
pub mutual_exclusion :
    (events : List Event)
    → let w = run new_process events in
      (count_if is_live w.handles ≡ owners w.gate.active) × (count_if is_live w.handles ≤ 1)
mutual_exclusion events =
    let w = run new_process events in
    let live =
      count-Matches w.gate.active w.handles (run-Exclusive new_process events new_Exclusive) in
    (live, omega (arith, live, owners-le w.gate.active))

-- ===== src/Runs/Cancelling.antt =====
-- `cancel` and `shutdown` of backend/utility_runs.py, and what a cancelled run's thread then does.
use opportunity_radar.Prelude.{
  ◌≡◌, ◌≢◌, refl, ◌⊎◌, inl, inr, String, Bool, true, false, some, List, [], ◌∷◌, arith, str_eq,
  eq_iff, eq_refl, Bool-cases, Dict, put, lookup-put,
}
use opportunity_radar.Gate.{Gate}
use opportunity_radar.Gate
use opportunity_radar.Runs.{Status, queued, running, Row, Manager, find_row}
use opportunity_radar.Runs.Lifecycle.{
  Weather, answer, error, cancel, shutdown, start, Request, is_tracked, is_set, refused, set_all,
}
use opportunity_radar.Runs.Execute.{Course, proceed, begin}

cancel-settled :
    (w : Weather) (run_id : String) (m : Manager) (r : Row)
    → find_row run_id m.table ≡ some r
    → r.status ≢ queued
    → r.status ≢ running
    → cancel w run_id m ≡ (answer run_id, m)
unfolding cancel
cancel-settled w run_id m r e nq nr = ground arith

set_not-proceed :
    (c : Course) (run_id : String) (m : Manager) (x : Row)
    → is_set run_id m.signals ≡ true
    → (begin c run_id m).0 ≢ proceed x
unfolding begin
set_not-proceed c run_id m x s e = ground arith

is_set-put :
    (run_id : String) (signals : Dict Bool) → is_set run_id (put run_id true signals) ≡ true
is_set-put run_id signals = ground (arith, lookup-put run_id run_id true signals, eq_refl run_id)

cancel-sets :
    (w : Weather) (run_id : String) (m : Manager) (r : Row)
    → find_row run_id m.table ≡ some r
    → (r.status ≡ queued) ⊎ (r.status ≡ running)
    → is_tracked run_id m.cancel_events ≡ true
    → is_set run_id (cancel w run_id m).1.signals ≡ true
unfolding cancel
cancel-sets w run_id m r e s t = ground (arith, is_set-put run_id m.signals)

set_all-keeps :
    (key : String) (keys : List String) (signals : Dict Bool)
    → is_set key signals ≡ true
    → is_set key (set_all keys signals) ≡ true
unfolding set_all
set_all-keeps key [] signals h = h
set_all-keeps key (k ∷ keys) signals h =
    set_all-keeps key keys (put k true signals) (ground (arith, lookup-put k key true signals))

set_all-sets :
    (key : String) (keys : List String) (signals : Dict Bool)
    → is_tracked key keys ≡ true
    → is_set key (set_all keys signals) ≡ true
unfolding set_all is_tracked
set_all-sets key [] signals h = cc
set_all-sets key (k ∷ keys) signals h = elim (Bool-cases (str_eq k key)) [
  | inl e ↦
      set_all-keeps key keys (put k true signals) (rw ((eq_iff k key).0 e) (is_set-put key signals))
  | inr n ↦ set_all-sets key keys (put k true signals) (ground arith)
]

cancellable : (s : Status) → ((s ≡ queued) ⊎ (s ≡ running)) ⊎ ((s ≢ queued) × (s ≢ running))
cancellable queued = inl (inl refl)
cancellable running = inl (inr refl)
cancellable _ = inr (λ e. cc, λ e. cc)

-- A run that is cancelled before its thread has begun never reaches its worker, also if the write
-- of the status `Cancelling` fails; and a run whose status is neither queued nor running is left
-- alone by `cancel`, as is everything else.
pub cancel_before_begin :
    (w : Weather) (c : Course) (run_id : String) (m : Manager) (r : Row)
    → find_row run_id m.table ≡ some r
    → is_tracked run_id m.cancel_events ≡ true
    → (((r.status ≡ queued) ⊎ (r.status ≡ running))
        × ((x : Row) → (begin c run_id (cancel w run_id m).1).0 ≢ proceed x))
      ⊎ (cancel w run_id m ≡ (answer run_id, m))
cancel_before_begin w c run_id m r e t = elim (cancellable r.status) [
  | inl s ↦
      inl
        (s, λ x. set_not-proceed c run_id (cancel w run_id m).1 x (cancel-sets w run_id m r e s t))
  | inr n ↦ inr (cancel-settled w run_id m r e n.0 n.1)
]

-- `shutdown` closes the manager and the gate to new work, and no tracked run whose thread has not
-- begun reaches its worker after it.
pub shutdown_stops :
    (q : Request) (w : Weather) (c : Course) (run_id : String) (m : Manager)
    → is_tracked run_id m.cancel_events ≡ true
    → ((start q w (shutdown m)).0 ≡ error (refused Gate.shutting_down))
      × ((shutdown m).gate.accepting ≡ false)
      × ((x : Row) → (begin c run_id (shutdown m)).0 ≢ proceed x)
shutdown_stops q w c run_id m t = (
  unfold start shutdown in refl,
  unfold shutdown Gate.stop_accepting in refl,
  λ x.
      set_not-proceed c run_id (shutdown m) x
        (unfold shutdown in set_all-sets run_id m.cancel_events m.signals t),
)

-- ===== src/Gate/Watcher.antt =====
-- `StalledOperationWatcher.check_once` of backend/operation_gate.py, run at each interval of its
-- loop. Times are in tenths of a second, as `public_status` rounds them.
use opportunity_radar.Prelude.{
  ℕ, ◌+◌, ◌≡◌, refl, ◌⊎◌, String, Bool, true, false, not, ◌&&◌, ap, ◌∙◌, Option, none, some, List,
  [], ◌∷◌, arith, eq_refl, str_eq, any, ltb, if◌then◌else◌, Bool-cases, inl, inr, length,
}
use opportunity_radar.Gate.{
  Gate, Outside, ActiveOperation, PublicStatus, active_status, public_status, elapsed_seconds,
}

pub record Watcher : Type 0 where
  pub warn_after : ℕ
  pub warned : List String
  -- The critical lines logged so far, newest first.
  pub log : List PublicStatus

unfoldable pub is_warned : String → List String → Bool
is_warned id warned = any (λ w. str_eq w id) warned

warn : PublicStatus → Watcher → Watcher
unfolding is_warned
warn status w =
    if is_warned status.id w.warned
    then w
    else record w { warned = status.id ∷ w.warned; log = status ∷ w.log }

check_status : Option PublicStatus → Watcher → Option PublicStatus × Watcher
unfolding warn
check_status none w = (none, record w { warned = [] })
check_status (some status) w =
    (some status, if ltb status.elapsed_seconds w.warn_after then w else warn status w)

-- The gate is read, and is no part of the result.
unfoldable pub check_once : Outside → Gate → Watcher → Option PublicStatus × Watcher
unfolding check_status active_status
check_once now g w = check_status (active_status now g) w

-- The loop: a check at each reading of the outside, while the gate stays as it is.
unfoldable pub watch : List Outside → Gate → Watcher → Watcher
watch [] g w = w
watch (now ∷ later) g w = watch later g (check_once now g w).1

-- A reading at which the operation has held the gate for the watcher's limit or longer.
unfoldable pub overdue : ActiveOperation → ℕ → Outside → Bool
overdue op after now = not (ltb (elapsed_seconds op now) after)

-- One check of a held gate.
checked : Outside → Gate → ActiveOperation → Watcher → Watcher
checked now g op w =
    if overdue op w.warn_after now && not (is_warned op.id w.warned)
    then record w { warned = op.id ∷ w.warned; log = public_status op now g ∷ w.log }
    else w

check_once-held :
    (now : Outside) (g : Gate) (w : Watcher) (op : ActiveOperation)
    → g.active ≡ some op
    → (check_once now g w).1 ≡ checked now g op w
unfolding check_once checked public_status overdue
check_once-held now g w op e = rw (e, check_once, active_status) (ground arith)

-- What the watcher is after a check that finds the operation overdue for the first time.
abbrev alarmed : Outside → Gate → ActiveOperation → Watcher → Watcher
alarmed now g op w = record w { warned = op.id ∷ w.warned; log = public_status op now g ∷ w.log }

module _ (later : List Outside) (now : Outside) (g : Gate) (w : Watcher) (op : ActiveOperation)
    (e : g.active ≡ some op) where
  watch-quiet :
      (overdue op w.warn_after now ≡ false) ⊎ (is_warned op.id w.warned ≡ true)
      → watch (now ∷ later) g w ≡ watch later g w
  unfolding watch checked
  watch-quiet q = ap (watch later g) (check_once-held now g w op e ∙ ground arith)

  watch-alarm :
      overdue op w.warn_after now ≡ true
      → is_warned op.id w.warned ≡ false
      → watch (now ∷ later) g w ≡ watch later g (alarmed now g op w)
  unfolding watch checked
  watch-alarm late fresh = ap (watch later g) (check_once-held now g w op e ∙ ground arith)

watch_warned :
    (readings : List Outside) (g : Gate) (w : Watcher) (op : ActiveOperation)
    → g.active ≡ some op
    → is_warned op.id w.warned ≡ true
    → (watch readings g w).log ≡ w.log
unfolding watch
watch_warned [] g w op e known = refl
watch_warned (now ∷ later) g w op e known =
    ap (λ v. v.log) (watch-quiet later now g w op e (inr known)) ∙ watch_warned later g w op e known

is_warned_self :
    (now : Outside) (g : Gate) (op : ActiveOperation) (w : Watcher)
    → is_warned op.id (alarmed now g op w).warned ≡ true
unfolding is_warned
is_warned_self now g op w = rw (eq_refl op.id)

-- While one operation holds the gate, the watcher logs it at most once, and does so exactly if one
-- of the readings finds it overdue.
pub watch_logs_once :
    (readings : List Outside) (g : Gate) (w : Watcher) (op : ActiveOperation)
    → g.active ≡ some op
    → is_warned op.id w.warned ≡ false
    → length (watch readings g w).log
      ≡ length w.log + (if any (overdue op w.warn_after) readings then 1 else 0)
unfolding watch
watch_logs_once [] g w op e fresh = omega arith
watch_logs_once (now ∷ later) g w op e fresh = elim (Bool-cases (overdue op w.warn_after now)) [
  | inl late ↦ rw late (
      omega (
        arith,
        ap (λ v. length v.log) (watch-alarm later now g w op e late fresh),
        ap length (watch_warned later g (alarmed now g op w) op e (is_warned_self now g op w)),
      ))
  | inr early ↦ rw early (
      ap (λ v. length v.log) (watch-quiet later now g w op e (inl early))
      ∙ watch_logs_once later g w op e fresh)
]

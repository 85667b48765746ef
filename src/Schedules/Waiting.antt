-- ===== src/Schedules/Waiting.antt =====
-- A schedule of backend/maintenance_scheduler.py after an edit, as the next cycles find it.
use opportunity_radar.Prelude.{
  ◌+◌, ◌≤◌, ◌≡◌, refl, sym, subst, inl, inr, String, false, not, List, [], ◌∷◌, str_eq, eq_refl,
  eq_iff, arith, Bool-cases,
}
use opportunity_radar.Schedules.{Schedule}
use opportunity_radar.Schedules.Claims.{with_key, IsKeyed}
use opportunity_radar.Schedules.Passes.{with_key-update_where}
use opportunity_radar.Schedules.Edits.{
  Edit, Local, date_of_edit, changed, upsert, move_timezone, edit_rows,
}

module _ (e : Edit) (date stamp : String) where
  with_key-upsert_ne :
      (key : String) (rows : List Schedule)
      → str_eq e.job_key key ≡ false
      → with_key key (upsert e date stamp rows) ≡ with_key key rows
  unfolding upsert changed
  with_key-upsert_ne key [] other = rw other refl
  with_key-upsert_ne key (r ∷ rows) other = elim (Bool-cases (str_eq r.job_key e.job_key)) [
    | inl h ↦ rw (h, upsert) refl
    | inr h ↦ rw (h, upsert, with_key-upsert_ne key rows other) refl
  ]

  upsert-IsKeyed_self :
      (rows : List Schedule) → IsKeyed e.job_key rows → IsKeyed e.job_key (upsert e date stamp rows)
  unfolding upsert changed
  upsert-IsKeyed_self [] keyed = rw (eq_refl e.job_key) (omega arith)
  upsert-IsKeyed_self (r ∷ rows) keyed = elim (Bool-cases (str_eq r.job_key e.job_key)) [
    | inl h ↦ rw (h, upsert) keyed
    | inr h ↦
        let others : 0 + with_key e.job_key rows ≤ 1 = rw h at keyed in
        rw (h, upsert) (rw h (omega (arith, upsert-IsKeyed_self rows (omega (arith, others)))))
  ]

-- `update_schedule` keeps the primary key, whatever job's.
pub edit-IsKeyed :
    (e : Edit) (now : Local) (stamp key : String) (rows : List Schedule)
    → IsKeyed key rows
    → IsKeyed key (edit_rows e now stamp rows)
unfolding edit_rows move_timezone
edit-IsKeyed e now stamp key rows keyed =
    let moved =
      with_key-update_where key (λ (r : Schedule). not (str_eq r.timezone e.timezone))
        (λ (r : Schedule). record r { timezone = e.timezone; updated_at = stamp }) (λ r. refl)
        rows in
    elim (Bool-cases (str_eq e.job_key key)) [
      | inl same ↦
          subst (λ k. IsKeyed k (edit_rows e now stamp rows)) ((eq_iff e.job_key key).0 same)
            (upsert-IsKeyed_self e (date_of_edit e now) stamp (move_timezone e.timezone stamp rows)
              (subst (λ k. IsKeyed k (move_timezone e.timezone stamp rows))
                (sym ((eq_iff e.job_key key).0 same)) (omega (arith, moved, keyed))))
      | inr other ↦ omega (
        arith,
        with_key-upsert_ne e (date_of_edit e now) stamp key (move_timezone e.timezone stamp rows)
            other,
        moved,
        keyed,
      )
    ]

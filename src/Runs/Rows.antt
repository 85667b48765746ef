-- ===== src/Runs/Rows.antt =====
-- Facts about the table `maintenance_job_runs` and `_update_run` of backend/utility_runs.py.
use mathlib.Core.Option
use opportunity_radar.Prelude.{
  ℕ, ◌≡◌, ◌≢◌, refl, ap, ◌∙◌, inl, inr, String, Bool, true, false, Option, none, some, List, [],
  ◌∷◌, arith, str_eq, eq_iff, Bool-cases,
}
use opportunity_radar.Runs.{Row, find_row, change_row, Updates, patch, update_run}

pub find_row-id : (id : String) (rows : List Row) (r : Row) → find_row id rows ≡ some r → r.id ≡ id
unfolding find_row
find_row-id id [] r e = cc
find_row-id id (x ∷ rows) r e = ground (arith, find_row-id id rows r, eq_iff x.id id)

module _ (f : Row → Row) (keeps : (r : Row) → (f r).id ≡ r.id) where
  pub find_row-change_row :
      (id : String) (rows : List Row)
      → find_row id (change_row id f rows) ≡ Option.map f (find_row id rows)
  unfolding find_row change_row
  find_row-change_row id [] = refl
  find_row-change_row id (x ∷ rows) = elim (Bool-cases (str_eq x.id id)) [
    | inl h ↦ rw h (rw (keeps x, h) refl)
    | inr h ↦ rw h (rw h (find_row-change_row id rows))
  ]

  pub find_row-change_row_ne :
      (id j : String) (rows : List Row)
      → id ≢ j
      → find_row j (change_row id f rows) ≡ find_row j rows
  unfolding find_row change_row
  find_row-change_row_ne id j [] ne = refl
  find_row-change_row_ne id j (x ∷ rows) ne = ground (
    arith,
    find_row-change_row_ne id j rows ne,
    keeps x,
    eq_iff x.id id,
    eq_iff x.id j,
    eq_iff (f x).id j,
  )

-- A write that the database accepts, to a row that is there.
pub update_run-ok :
    (writes : Bool) (now : Option ℕ) (id : String) (u : Updates) (rows : List Row) (r : Row)
    → writes ≡ true
    → find_row id rows ≡ some r
    → (rows' : List Row) × (update_run writes now id u rows ≡ some rows')
      × (find_row id rows' ≡ some (patch u now r))
unfolding update_run
update_run-ok writes now id u rows r w e = (
  change_row id (patch u now) rows,
  rw (e, update_run) (rw w refl),
  find_row-change_row (patch u now) (λ x. unfold patch in refl) id rows
      ∙ ap (Option.map (patch u now)) e,
)

-- A write that the database refuses.
pub update_run-refused :
    (writes : Bool) (now : Option ℕ) (id : String) (u : Updates) (rows : List Row)
    → writes ≡ false
    → update_run writes now id u rows ≡ none
unfolding update_run
update_run-refused writes now id u rows w = ground arith

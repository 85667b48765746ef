-- ===== src/Imports.antt =====
-- backend/import_security.py: the checks of an uploaded import, and its staging. A refusal is the
-- constructor `refused` with the kind of its `ValueError`; an exception that no clause of the code
-- catches is `unexpected`.
pub mod Nesting
pub mod Archive
pub mod Shape
pub mod Upload
pub mod Importable
pub mod Staging
mod Tests

pub data Refusal : Type 0 where
  not_supported no_contents too_large wrong_signature malformed : Refusal
  missing_content too_many_files too_many_sheets expands_too_far unsafe_ratio corrupted : Refusal
  too_many_columns too_many_cells too_many_records not_lists not_objects no_records : Refusal

pub data Result {ℓ} (A : Type ℓ) : Type ℓ where
  passed : A → Result A
  refused : Refusal → Result A
  unexpected : Result A

module _ {ℓ κ} {A : Type ℓ} {B : Type κ} where
  infixl 5 ◌>>=◌
  abbrev pub ◌>>=◌ : Result A → (A → Result B) → Result B
  passed a >>= f = f a
  refused r >>= f = refused r
  unexpected >>= f = unexpected

-- ===== src/Imports/Shape.antt =====
-- `_enforce_xlsx_shape_limits` of backend/import_security.py: the rows of a workbook as they are
-- streamed. A row is its cells, each with or without a value.
pub mod Counts
use opportunity_radar.Prelude.{
  ℕ, ◌+◌, ◌*◌, ◌-◌, ◌≤◌, ◌≡◌, inl, inr, refl, Bool, true, false, not, ◌&&◌, Option, none, some,
  List, [], ◌∷◌, ltb, leb, if◌then◌else◌, arith, length, count_if, all, Bool-cases,
}
use opportunity_radar.Imports.{
  Refusal, too_many_columns, too_many_cells, too_many_records, Result, passed, refused, ◌>>=◌,
}

abbrev pub Cells : Type 0
Cells = List Bool

abbrev pub Sheet : Type 0
Sheet = List Cells

abbrev pub max_import_rows : ℕ
max_import_rows = 50_000

abbrev pub max_import_worksheets : ℕ
max_import_worksheets = 10

-- The length of OUTPUT_COLUMNS.
abbrev pub max_import_columns : ℕ
max_import_columns = 27

abbrev pub max_import_cells : ℕ
max_import_cells = max_import_columns * (max_import_rows + max_import_worksheets)

pub record Totals : Type 0 where
  pub total_rows : ℕ
  pub populated_cells : ℕ

-- How many cells of a row have a value.
unfoldable pub populated : Cells → ℕ
populated row = count_if (λ v. v) row

-- A row that is not a sheet's first counts as a record.
unfoldable pub count_record : (is_first : Bool) → Totals → Result Totals
count_record true n = passed n
count_record false n =
    if ltb max_import_rows (n.total_rows + 1)
    then refused too_many_records
    else passed record n { total_rows = n.total_rows + 1 }

unfoldable pub check_row : (is_first : Bool) → Cells → Totals → Result Totals
unfolding populated count_record
check_row is_first row n =
    if ltb max_import_columns (length row)
    then refused too_many_columns
    else if ltb max_import_cells (n.populated_cells + populated row)
    then refused too_many_cells
    else count_record is_first record n { populated_cells = n.populated_cells + populated row }

unfoldable pub check_rows : (is_first : Bool) → Sheet → Totals → Result Totals
unfolding check_row
check_rows is_first [] n = passed n
check_rows is_first (row ∷ rows) n = check_row is_first row n >>= check_rows false rows

unfoldable pub check_sheets : List Sheet → Totals → Result Totals
unfolding check_rows
check_sheets [] n = passed n
check_sheets (sheet ∷ sheets) n = check_rows true sheet n >>= check_sheets sheets

unfoldable pub enforce_xlsx_shape_limits : List Sheet → Result Totals
unfolding check_sheets
enforce_xlsx_shape_limits sheets =
    check_sheets sheets record { total_rows = 0; populated_cells = 0 }

-- Totals of a whole workbook, for comparison with what the loop counts.
unfoldable pub records : List Sheet → ℕ
records [] = 0
records (sheet ∷ sheets) = length sheet - 1 + records sheets

unfoldable pub is_narrow : Cells → Bool
is_narrow row = leb (length row) max_import_columns

unfoldable pub is_passed {ℓ} : {A : Type ℓ} → Result A → Bool
is_passed (passed a) = true
is_passed _ = false

-- ===== src/Imports/Shape/Counts.antt =====
-- The limits of `_enforce_xlsx_shape_limits` of backend/import_security.py, compared with the totals
-- of the whole workbook.
use opportunity_radar.Prelude.{
  ℕ, ◌+◌, ◌*◌, ◌-◌, ◌≤◌, ◌≡◌, sym, refl, Bool, true, false, ◌&&◌, List, [], ◌∷◌, ltb, leb, if_cases,
  arith, length, all,
}
use opportunity_radar.Imports.{
  too_many_columns, too_many_cells, too_many_records, Refusal, Result, passed, refused, unexpected,
  ◌>>=◌,
}
use opportunity_radar.Imports.Shape.{
  Cells, Sheet, Totals, populated, count_record, check_row, check_rows, check_sheets,
  enforce_xlsx_shape_limits, records, is_narrow, is_passed,
}

-- How a part of the loop ends: the part fits, and the totals are as counted, with at most 27 cells
-- for each record and each of the `h` first rows; or it does not fit, and it is refused.
data Counted (fits : Bool) (rows h : ℕ) : Result Totals → Type 0 where
  counted :
      (n : Totals)
      → fits ≡ true
      → n.total_rows ≡ rows
      → rows ≤ 50_000
      → n.populated_cells ≤ 27 * (rows + h)
      → Counted fits rows h (passed n)
  too_much : (e : Refusal) → fits ≡ false → Counted fits rows h (refused e)

-- One part after another: `fits` and `total` say of the second what it needs of the first's rows.
Counted-bind :
    (f : Bool) (fits : ℕ → Bool) (total : ℕ → ℕ) (r h i : ℕ) (x : Result Totals)
    (k : Totals → Result Totals) {g : Bool} {s j : ℕ}
    → g ≡ (f && fits r)
    → s ≡ total r
    → j ≡ i
    → Counted f r h x
    → ((n : Totals)
        → n.total_rows ≤ 50_000
        → n.populated_cells ≤ 27 * (n.total_rows + h)
        → Counted (fits n.total_rows) (total n.total_rows) i (k n))
    → Counted g s j (x >>= k)
Counted-bind f fits total r h i (passed n) k whole sum last (counted m on e le p) next =
    rw (whole, sum, last, on, sym e) (next n (omega (arith, e, le)) (omega (arith, e, p)))
Counted-bind f fits total r h i (refused e) k whole sum last (too_much d off) next =
    too_much d (rw (whole, off) refl)
Counted-bind f fits total r h i unexpected k whole sum last c next = elim c [ ]

populated-le : (row : Cells) → populated row ≤ length row
unfolding populated
populated-le [] = omega arith
populated-le (v ∷ row) = ground (arith, populated-le row)

other_row-Counted :
    (h : ℕ) (row : Cells) (n : Totals)
    → h ≤ 10
    → n.populated_cells ≤ 27 * (n.total_rows + h)
    → Counted
        (is_narrow row && leb (n.total_rows + 1) 50_000)
        (n.total_rows + 1)
        h
        (check_row false row n)
unfolding check_row count_record is_narrow
other_row-Counted h row n few p =
    if_cases (Counted _ (n.total_rows + 1) h) (ltb 27 (length row))
      (λ wide. too_much too_many_columns (ground arith))
      (λ narrow.
        if_cases (Counted _ (n.total_rows + 1) h)
          (ltb 1_350_270 (n.populated_cells + populated row))
          (λ full. too_much too_many_cells (ground (arith, populated-le row)))
          (λ room.
            if_cases (Counted _ (n.total_rows + 1) h) (ltb 50_000 (n.total_rows + 1))
              (λ over. too_much too_many_records (ground arith))
              (λ under.
                counted _ (ground arith) refl (ground arith) (ground (arith, populated-le row)))))

first_row-Counted :
    (h : ℕ) (row : Cells) (n : Totals)
    → h + 1 ≤ 10
    → n.total_rows ≤ 50_000
    → n.populated_cells ≤ 27 * (n.total_rows + h)
    → Counted (is_narrow row) n.total_rows (h + 1) (check_row true row n)
unfolding check_row count_record is_narrow
first_row-Counted h row n few le p =
    if_cases (Counted _ n.total_rows (h + 1)) (ltb 27 (length row))
      (λ wide. too_much too_many_columns (ground arith))
      (λ narrow.
        if_cases (Counted _ n.total_rows (h + 1))
          (ltb 1_350_270 (n.populated_cells + populated row))
          (λ full. absurd (ground (arith, populated-le row)))
          (λ room. counted _ (ground arith) refl le (ground (arith, populated-le row))))

rows-Counted :
    (h : ℕ) (rows : Sheet) (n : Totals)
    → h ≤ 10
    → n.total_rows ≤ 50_000
    → n.populated_cells ≤ 27 * (n.total_rows + h)
    → Counted
        (all is_narrow rows && leb (n.total_rows + length rows) 50_000)
        (n.total_rows + length rows)
        h
        (check_rows false rows n)
unfolding check_rows
rows-Counted h [] n few le p =
    counted n (ground arith) (omega arith) (omega (arith, le)) (omega (arith, p))
rows-Counted h (row ∷ rows) n few le p =
    Counted-bind _ (λ k. all is_narrow rows && leb (k + length rows) 50_000) (λ k. k + length rows)
      (n.total_rows + 1) h h (check_row false row n) (check_rows false rows) (ground arith)
      (omega arith) refl (other_row-Counted h row n few p)
      (λ m under q. rows-Counted h rows m few under q)

sheet-Counted :
    (h : ℕ) (sheet : Sheet) (n : Totals)
    → h + 1 ≤ 10
    → n.total_rows ≤ 50_000
    → n.populated_cells ≤ 27 * (n.total_rows + h)
    → Counted
        (all is_narrow sheet && leb (n.total_rows + (length sheet - 1)) 50_000)
        (n.total_rows + (length sheet - 1))
        (h + 1)
        (check_rows true sheet n)
unfolding check_rows
sheet-Counted h [] n few le p =
    counted n (ground arith) (omega arith) (omega (arith, le)) (omega (arith, p))
sheet-Counted h (row ∷ rows) n few le p =
    Counted-bind _ (λ k. all is_narrow rows && leb (k + length rows) 50_000) (λ k. k + length rows)
      n.total_rows (h + 1) (h + 1) (check_row true row n) (check_rows false rows) (ground arith)
      (omega arith) refl (first_row-Counted h row n few le p)
      (λ m under q. rows-Counted (h + 1) rows m few under q)

sheets-Counted :
    (h : ℕ) (sheets : List Sheet) (n : Totals)
    → h + length sheets ≤ 10
    → n.total_rows ≤ 50_000
    → n.populated_cells ≤ 27 * (n.total_rows + h)
    → Counted
        (all (all is_narrow) sheets && leb (n.total_rows + records sheets) 50_000)
        (n.total_rows + records sheets)
        (h + length sheets)
        (check_sheets sheets n)
unfolding check_sheets records
sheets-Counted h [] n few le p =
    counted n (ground arith) (omega arith) (omega (arith, le)) (omega (arith, p))
sheets-Counted h (sheet ∷ sheets) n few le p =
    Counted-bind _ (λ k. all (all is_narrow) sheets && leb (k + records sheets) 50_000)
      (λ k. k + records sheets) (n.total_rows + (length sheet - 1)) (h + 1) (h + 1 + length sheets)
      (check_rows true sheet n) (check_sheets sheets) (ground arith) (omega arith) (omega arith)
      (sheet-Counted h sheet n (omega (arith, few)) le p)
      (λ m under q. sheets-Counted (h + 1) sheets m (omega (arith, few)) under q)

Counted-passed : (f : Bool) (r h : ℕ) (x : Result Totals) → Counted f r h x → is_passed x ≡ f
unfolding is_passed
Counted-passed f r h (passed n) (counted m on e le p) = sym on
Counted-passed f r h (refused e) (too_much d off) = sym off
Counted-passed f r h unexpected c = elim c [ ]

-- A workbook of at most 10 sheets passes the limits, which are tested row by row with running
-- totals, exactly if no row has more than 27 cells, and the sheets without their first rows have at
-- most 50,000 rows together: the limit on cells refuses nothing more.
pub shape_limits-totals :
    (sheets : List Sheet)
    → length sheets ≤ 10
    → is_passed (enforce_xlsx_shape_limits sheets)
      ≡ (all (all is_narrow) sheets && leb (records sheets) 50_000)
unfolding enforce_xlsx_shape_limits
shape_limits-totals sheets few =
    let start : Totals = record { total_rows = 0; populated_cells = 0 } in
    let all_counted =
      sheets-Counted 0 sheets start (omega (arith, few)) (omega arith) (omega arith) in
    ground (arith, Counted-passed _ _ _ _ all_counted)

-- ===== src/Imports/Archive.antt =====
-- `_validate_xlsx_archive` of backend/import_security.py. What `zipfile` reads is an argument: the
-- members of the archive, and how `testzip` ends. Sizes are in bytes and natural, as a header's are.
use opportunity_radar.Prelude.{
  ℕ, ◌+◌, ◌*◌, ◌≤◌, ◌≡◌, refl, Bool, true, false, not, ◌&&◌, ◌||◌, List, [], ◌∷◌, ltb, max, All,
  sym, subst, if_cases, ◌↔◌, if◌then◌else◌, arith, length, filter, any, Text, codes, text_eq,
  starts_with,
}
use opportunity_radar.Imports.{
  malformed, missing_content, too_many_files, too_many_sheets, expands_too_far, unsafe_ratio,
  corrupted, Result, passed, refused, unexpected,
}

pub record Entry : Type 0 where
  pub filename : Text
  pub file_size : ℕ
  pub compress_size : ℕ

-- `testzip`: no bad member; the name of one; an exception of the `except` clause; another one.
pub data TestResult : Type 0 where
  intact bad_member read_error other_error : TestResult

pub data Archive : Type 0 where
  bad_zip_file : Archive
  opened : (infolist : List Entry) → (testzip : TestResult) → Archive

abbrev pub max_import_archive_files : ℕ
max_import_archive_files = 5_000

abbrev pub max_import_worksheets : ℕ
max_import_worksheets = 10

-- 100 * 1024 * 1024
abbrev pub max_import_uncompressed_bytes : ℕ
max_import_uncompressed_bytes = 104_857_600

-- The set of the names: each is kept where it occurs last.
unfoldable pub names : List Entry → List Text
names [] = []
names (e ∷ entries) =
    let rest = names entries in if any (text_eq e.filename) rest then rest else e.filename ∷ rest

unfoldable pub has_name : Text → List Entry → Bool
has_name name entries = any (λ e. text_eq e.filename name) entries

ends_with : Text → Text → Bool
ends_with [] tail = text_eq [] tail
ends_with (c ∷ t) tail = text_eq (c ∷ t) tail || ends_with t tail

unfoldable pub is_worksheet : Text → Bool
unfolding ends_with
is_worksheet name = starts_with name (codes "xl/worksheets/") && ends_with name (codes ".xml")

unfoldable pub expanded_size : List Entry → ℕ
expanded_size [] = 0
expanded_size (e ∷ entries) = max 0 e.file_size + expanded_size entries

unfoldable pub is_bomb : Entry → Bool
is_bomb e = ltb 1_048_576 e.file_size && ltb (max 1 e.compress_size * 200) e.file_size

-- `testzip` is called after the other checks.
unfoldable pub tested : TestResult → Result {0} Unit
tested intact = passed tt
tested bad_member = refused corrupted
tested read_error = refused malformed
tested other_error = unexpected

unfoldable pub has_content : List Entry → Bool
unfolding has_name
has_content entries =
    has_name (codes "[Content_Types].xml") entries && has_name (codes "xl/workbook.xml") entries

unfoldable pub worksheets : List Entry → List Text
unfolding names is_worksheet
worksheets entries = filter is_worksheet (names entries)

unfoldable pub check_entries : List Entry → TestResult → Result {0} Unit
unfolding has_content worksheets expanded_size is_bomb tested
check_entries entries test =
    if not (has_content entries)
    then refused missing_content
    else if ltb max_import_archive_files (length entries)
    then refused too_many_files
    else if ltb max_import_worksheets (length (worksheets entries))
    then refused too_many_sheets
    else if ltb max_import_uncompressed_bytes (expanded_size entries)
    then refused expands_too_far
    else if any is_bomb entries
    then refused unsafe_ratio
    else tested test

-- `_validate_xlsx_archive`
unfoldable pub validate_xlsx_archive : Archive → Result {0} Unit
unfolding check_entries
validate_xlsx_archive bad_zip_file = refused malformed
validate_xlsx_archive (opened entries test) = check_entries entries test

-- What an archive of these members may do to the program that expands it: it has the content of a
-- workbook; it has at most 5,000 members, 10 of which, at most, are worksheets; together they expand
-- to 100 mebibytes at most; and each expands to a mebibyte, or to 200 times its size, at most.
pub record IsSafe (entries : List Entry) : Type 0 where
  pub content : has_content entries ≡ true
  pub few_files : length entries ≤ 5_000
  pub few_sheets : length (worksheets entries) ≤ 10
  pub size : expanded_size entries ≤ 104_857_600
  pub ratios : All (λ e. e.file_size ≤ max 1_048_576 (max 1 e.compress_size * 200)) entries

pub data IsSafeArchive : Archive → Type 0 where
  safe_archive : (entries : List Entry) → IsSafe entries → IsSafeArchive (opened entries intact)

bombs→ratios :
    (entries : List Entry)
    → any is_bomb entries ≡ false
    → All (λ e. e.file_size ≤ max 1_048_576 (max 1 e.compress_size * 200)) entries
unfolding is_bomb
bombs→ratios [] h = tt
bombs→ratios (e ∷ entries) h = (ground arith, bombs→ratios entries (ground arith))

ratios→bombs :
    (entries : List Entry)
    → All (λ e. e.file_size ≤ max 1_048_576 (max 1 e.compress_size * 200)) entries
    → any is_bomb entries ≡ false
unfolding is_bomb
ratios→bombs [] h = refl
ratios→bombs (e ∷ entries) h = ground (arith, ratios→bombs entries h.1)

Sound : List Entry → TestResult → Result {0} Unit → Type 0
Sound entries test (passed _) = IsSafe entries × (test ≡ intact)
Sound entries test _ = Unit

tested-Sound :
    (entries : List Entry) (test : TestResult) → IsSafe entries → Sound entries test (tested test)
unfolding tested Sound
tested-Sound entries intact h = (h, refl)
tested-Sound entries bad_member h = tt
tested-Sound entries read_error h = tt
tested-Sound entries other_error h = tt

check-Sound :
    (entries : List Entry) (test : TestResult) → Sound entries test (check_entries entries test)
unfolding check_entries Sound
check-Sound entries test =
    if_cases (Sound entries test) (not (has_content entries)) (λ _. tt)
      (λ content.
        if_cases (Sound entries test) (ltb max_import_archive_files (length entries)) (λ _. tt)
          (λ few.
            if_cases (Sound entries test) (ltb max_import_worksheets (length (worksheets entries)))
              (λ _. tt)
              (λ sheets.
                if_cases (Sound entries test)
                  (ltb max_import_uncompressed_bytes (expanded_size entries)) (λ _. tt)
                  (λ size.
                    if_cases (Sound entries test) (any is_bomb entries) (λ _. tt)
                      (λ no_bomb. tested-Sound entries test record {
                        content = ground arith;
                        few_files = ground arith;
                        few_sheets = ground arith;
                        size = ground arith;
                        ratios = bombs→ratios entries no_bomb;
                      })))))

IsSafe-check : (entries : List Entry) → IsSafe entries → check_entries entries intact ≡ passed tt
unfolding check_entries tested
IsSafe-check entries h = ground (arith, h, ratios→bombs entries h.ratios)

passed-IsSafe : (a : Archive) → validate_xlsx_archive a ≡ passed tt → IsSafeArchive a
unfolding validate_xlsx_archive Sound
passed-IsSafe bad_zip_file h = cc
passed-IsSafe (opened entries test) h =
    let (safe, whole) : IsSafe entries × (test ≡ intact) =
      subst (Sound entries test) h (check-Sound entries test) in
    subst (λ t. IsSafeArchive (opened entries t)) (sym whole) (safe_archive entries safe)

IsSafe-passed : (a : Archive) → IsSafeArchive a → validate_xlsx_archive a ≡ passed tt
unfolding validate_xlsx_archive
IsSafe-passed bad_zip_file h = elim h [ ]
IsSafe-passed (opened members test) (safe_archive entries h) = IsSafe-check entries h

-- An archive passes exactly if `testzip` finds it intact and its members are those of a safe one:
-- the content of a workbook, at most 5,000 members and 10 worksheets (by distinct names), 100
-- mebibytes when expanded, and no member that expands to more than a mebibyte and also to more than
-- 200 times what it takes up.
pub archive-IsSafeArchive : (a : Archive) → (validate_xlsx_archive a ≡ passed tt) ↔ IsSafeArchive a
archive-IsSafeArchive a = (passed-IsSafe a, IsSafe-passed a)

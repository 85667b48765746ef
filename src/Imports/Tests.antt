-- ===== src/Imports/Tests.antt =====
-- The checks of backend/import_security.py at concrete inputs.
use opportunity_radar.Prelude.{
  ◌≡◌, ◌↔◌, ◌≤◌, List, text_eq, starts_with, lookup, refl, true, false, none, some, [], ◌∷◌, ◌&&◌,
  Text, codes, all, leb, arith,
}
use opportunity_radar.Files.{Directory, Disk}
use opportunity_radar.Imports.{passed, refused, unsafe_ratio}
use opportunity_radar.Imports.Nesting.{enforce_json_nesting_limit, nesting, nesting_limit-nesting}
use opportunity_radar.Imports.Archive.{
  Entry, opened, intact, validate_xlsx_archive, IsSafeArchive, archive-IsSafeArchive,
}
use opportunity_radar.Imports.Shape.{
  Sheet, is_passed, is_narrow, records, enforce_xlsx_shape_limits,
}
use opportunity_radar.Imports.Shape.Counts.{shape_limits-totals}
use opportunity_radar.Imports.Upload.{xlsx_suffix, Contents, workbook, validate_staged_import}
use opportunity_radar.Imports.Importable.{Importable, staged-Importable}
use opportunity_radar.Imports.Staging.{
  no_header, too_long, read_limited_request_body, Staging, stage_import_upload, stage-Staging,
}

-- A bracket in a string does not count, nor does one behind an escaped quote.
strings_are_skipped : nesting (codes "[{\"a\\\"[[\": []}]") ≡ 3
unfolding nesting
strings_are_skipped = refl

nesting_limit-nesting_example :
    enforce_json_nesting_limit (codes "{\"jobs\": [[]]}")
    ≡ leb (nesting (codes "{\"jobs\": [[]]}")) 64
nesting_limit-nesting_example = nesting_limit-nesting (codes "{\"jobs\": [[]]}")

abbrev types : Entry
types = record { filename = codes "[Content_Types].xml"; file_size = 100; compress_size = 50 }

abbrev book : Entry
book = record { filename = codes "xl/workbook.xml"; file_size = 200; compress_size = 90 }

abbrev bomb : Entry
bomb = record { filename = codes "xl/media/a"; file_size = 2_000_000; compress_size = 100 }

refuses_bombs :
    validate_xlsx_archive (opened (types ∷ book ∷ bomb ∷ []) intact) ≡ refused unsafe_ratio
unfolding validate_xlsx_archive text_eq starts_with
refuses_bombs = refl

archive-IsSafeArchive_example :
    (validate_xlsx_archive (opened (types ∷ book ∷ []) intact) ≡ passed tt)
    ↔ IsSafeArchive (opened (types ∷ book ∷ []) intact)
archive-IsSafeArchive_example = archive-IsSafeArchive (opened (types ∷ book ∷ []) intact)

abbrev sheet : Sheet
sheet = (true ∷ true ∷ []) ∷ (true ∷ false ∷ []) ∷ []

shape_limits-totals_example :
    is_passed (enforce_xlsx_shape_limits (sheet ∷ sheet ∷ []))
    ≡ (all (all is_narrow) (sheet ∷ sheet ∷ []) && leb (records (sheet ∷ sheet ∷ [])) 50_000)
shape_limits-totals_example = shape_limits-totals (sheet ∷ sheet ∷ []) (omega arith)

abbrev excel : Contents
excel = record {
  size = 3;
  decoded = none;
  loads = λ _. none;
  has_signature = true;
  archive = opened (types ∷ book ∷ []) intact;
}

excel_passes : validate_staged_import xlsx_suffix excel (workbook (sheet ∷ [])) ≡ passed tt
unfolding validate_staged_import validate_xlsx_archive enforce_xlsx_shape_limits text_eq starts_with
excel_passes = refl

staged-Importable_example : (3 ≤ 26_214_400) × Importable excel xlsx_suffix (workbook (sheet ∷ []))
staged-Importable_example = staged-Importable xlsx_suffix excel (workbook (sheet ∷ [])) excel_passes

abbrev chunks : List Text
chunks = codes "{\"jobs\"" ∷ codes ": []}" ∷ []

too_much : read_limited_request_body 8 no_header chunks ≡ too_long
unfolding read_limited_request_body
too_much = refl

abbrev disk : Disk
disk = record {
  makes_directory = true;
  temporary = some ".opportunity-radar-import-x.xlsx";
  closes = true;
  written = [];
  writes = true;
  syncs = true;
  replaces = true;
  unlinks = true;
}

abbrev empty : Directory
empty = []

stage-Staging_example :
    Staging xlsx_suffix excel disk
      (codes "PK.")
      empty
      (stage_import_upload xlsx_suffix excel disk (codes "PK.") empty)
unfolding lookup
stage-Staging_example = stage-Staging xlsx_suffix excel disk (codes "PK.") empty refl

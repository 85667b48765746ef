-- ===== src/Imports/Upload.antt =====
-- `validate_import_upload`, `validate_staged_import` and `stage_import_upload` of
-- backend/import_security.py, and the reader of the request's body in server.py that feeds them.
-- What pathlib, json, zipfile and openpyxl make of a file is an argument: a record of their answers.
use opportunity_radar.Prelude.{
  ℕ, ◌+◌, Bool, true, false, not, ◌||◌, Option, none, some, List, ltb, leb, if◌then◌else◌, length,
  all, Text, ◌++◌,
}
use opportunity_radar.Imports.{
  not_supported, no_contents, too_large, wrong_signature, malformed, too_many_records, not_lists,
  not_objects, no_records, too_many_sheets, Result, passed, refused, ◌>>=◌,
}
use opportunity_radar.Imports.Nesting.{enforce_json_nesting_limit}
use opportunity_radar.Imports.Archive.{Archive, validate_xlsx_archive, max_import_worksheets}
use opportunity_radar.Imports.Shape.{Sheet, max_import_rows, enforce_xlsx_shape_limits}

abbrev pub max_import_upload_bytes : ℕ
max_import_upload_bytes = 26_214_400

-- The suffix in lower case, as far as the code looks at it.
pub data Suffix : Type 0 where
  json_suffix xlsx_suffix other_suffix : Suffix

-- A value of an import's collection: a list, of which only matters which items are objects; or
-- something else.
pub data Collection : Type 0 where
  list_of : List Bool → Collection
  not_list : Collection

-- What `json.loads` returns: an object, with its `companies` and `jobs`, each `[]` where missing.
pub data Payload : Type 0 where
  object : (companies jobs : Collection) → Payload
  array : List Bool → Payload
  scalar : Payload

-- A file as it is read: its size, its decoding as UTF-8, what `json.loads` makes of the text, whether
-- it begins with the ZIP signature, and the archive in it.
pub record Contents : Type 0 where
  pub size : ℕ
  pub decoded : Option Text
  pub loads : Text → Option Payload
  pub has_signature : Bool
  pub archive : Archive

unfoldable pub enforce_record_limit : Collection → Collection → Result (List Bool × List Bool)
enforce_record_limit (list_of companies) (list_of jobs) =
    if ltb max_import_rows (length companies + length jobs)
    then refused too_many_records
    else if not (all (λ o. o) (companies ++ jobs))
    then refused not_objects
    else passed (companies, jobs)
enforce_record_limit (list_of companies) not_list = refused not_lists
enforce_record_limit not_list jobs = refused not_lists

-- `none`: undecodable, too deep, or not JSON.
unfoldable pub load_document : (Text → Option Payload) → Option Text → Option Payload
load_document loads none = none
load_document loads (some document) =
    if enforce_json_nesting_limit document then loads document else none

unfoldable pub read_payload : Contents → Option Payload
unfolding load_document
read_payload c = load_document c.loads c.decoded

unfoldable pub check_payload : Payload → Result {0} Unit
unfolding enforce_record_limit
check_payload (object companies jobs) = enforce_record_limit companies jobs >>= λ _. passed tt
check_payload (array items) =
    if ltb max_import_rows (length items) || not (all (λ o. o) items)
    then refused too_many_records
    else passed tt
check_payload scalar = refused no_records

unfoldable pub check_read : Option Payload → Result {0} Unit
unfolding check_payload
check_read none = refused malformed
check_read (some payload) = check_payload payload

-- `_validate_json_bytes`
unfoldable pub validate_json_bytes : Contents → Result {0} Unit
unfolding read_payload check_read
validate_json_bytes c = check_read (read_payload c)

unfoldable pub check_contents : Suffix → Contents → Result Suffix
unfolding validate_json_bytes
check_contents json_suffix c = validate_json_bytes c >>= λ _. passed json_suffix
check_contents xlsx_suffix c =
    if not c.has_signature
    then refused wrong_signature
    else (validate_xlsx_archive c.archive >>= λ _. passed xlsx_suffix)
check_contents other_suffix c = refused not_supported

is_supported : Suffix → Bool
is_supported other_suffix = false
is_supported _ = true

unfoldable pub validate_import_upload : Suffix → Contents → Result Suffix
unfolding is_supported check_contents
validate_import_upload suffix c =
    if not (is_supported suffix)
    then refused not_supported
    else if leb c.size 0
    then refused no_contents
    else if ltb max_import_upload_bytes c.size
    then refused too_large
    else check_contents suffix c

-- What `load_workbook` gives: the worksheets; a `ValueError`; or another exception.
pub data Loaded : Type 0 where
  workbook : List Sheet → Loaded
  value_error other_error : Loaded

unfoldable pub check_workbook : Loaded → Result {0} Unit
check_workbook (workbook sheets) =
    if ltb max_import_worksheets (length sheets)
    then refused too_many_sheets
    else (enforce_xlsx_shape_limits sheets >>= λ _. passed tt)
check_workbook value_error = refused malformed
check_workbook other_error = refused malformed

unfoldable pub check_staged : Suffix → Contents → Loaded → Result {0} Unit
unfolding validate_json_bytes check_workbook
check_staged json_suffix c loaded = validate_json_bytes c
check_staged xlsx_suffix c loaded = validate_xlsx_archive c.archive >>= λ _. check_workbook loaded
check_staged other_suffix c loaded = refused not_supported

-- `validate_staged_import`
unfoldable pub validate_staged_import : Suffix → Contents → Loaded → Result {0} Unit
unfolding check_staged
validate_staged_import suffix c loaded =
    if ltb max_import_upload_bytes c.size then refused too_large else check_staged suffix c loaded

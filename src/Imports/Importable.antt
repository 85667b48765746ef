-- ===== src/Imports/Importable.antt =====
-- What a file is that passed the checks of backend/import_security.py.
use opportunity_radar.Prelude.{
  ◌+◌, ◌≤◌, ◌≡◌, inl, inr, refl, subst, Bool, true, not, ◌||◌, Option, none, some, List, ltb,
  if_cases, arith, length, all, Text, ◌++◌, Bool-cases, length-append,
}
use opportunity_radar.Imports.{Result, passed, refused, unexpected, ◌>>=◌}
use opportunity_radar.Imports.Nesting.{enforce_json_nesting_limit, nesting, nesting_limit-nesting}
use opportunity_radar.Imports.Archive.{validate_xlsx_archive, IsSafeArchive, archive-IsSafeArchive}
use opportunity_radar.Imports.Shape.{
  Sheet, is_passed, is_narrow, records, enforce_xlsx_shape_limits,
}
use opportunity_radar.Imports.Shape.Counts.{shape_limits-totals}
use opportunity_radar.Imports.Upload.{
  Suffix, json_suffix, xlsx_suffix, other_suffix, Collection, list_of, not_list, Payload, object,
  array, scalar, Contents, enforce_record_limit, read_payload, check_payload, check_read,
  load_document, validate_json_bytes, Loaded, workbook, value_error, other_error, check_workbook,
  check_staged, validate_staged_import,
}

-- The records of a payload: at most 50,000, all of them objects.
abbrev pub IsRecords : List Bool → Type 0
IsRecords items = (length items ≤ 50_000) × (all (λ o. o) items ≡ true)

pub data IsImport : Payload → Type 0 where
  two_lists :
      (companies jobs : List Bool)
      → IsRecords (companies ++ jobs)
      → IsImport (object (list_of companies) (list_of jobs))
  one_list : (items : List Bool) → IsRecords items → IsImport (array items)

-- A file that may be imported, by its suffix.
pub data Importable (c : Contents) : Suffix → Loaded → Type 0 where
  json_file :
      (document : Text) (payload : Payload) (loaded : Loaded)
      → c.decoded ≡ some document
      → nesting document ≤ 64
      → c.loads document ≡ some payload
      → IsImport payload
      → Importable c json_suffix loaded
  excel_file :
      (sheets : List Sheet)
      → IsSafeArchive c.archive
      → length sheets ≤ 10
      → all (all is_narrow) sheets ≡ true
      → records sheets ≤ 50_000
      → Importable c xlsx_suffix (workbook sheets)

-- What holds of a result that passed.
abbrev Sound {ℓ} : {A : Type ℓ} → Type 0 → Result A → Type 0
Sound P (passed _) = P
Sound P _ = Unit

Sound-bind {ℓ κ} :
    {A : Type ℓ} {B : Type κ} (Q : Type 0) (x : Result A) (k : A → Result B)
    → ((a : A) → x ≡ passed a → Sound Q (k a))
    → Sound Q (x >>= k)
Sound-bind Q (passed a) k next = next a refl
Sound-bind Q (refused r) k next = tt
Sound-bind Q unexpected k next = tt

-- A result that is not looked at.
Sound-dropped {ℓ κ} :
    {A : Type ℓ} {B : Type κ} (Q : Type 0) (b : B) (x : Result A)
    → Sound Q x
    → Sound Q (x >>= λ _. passed b)
Sound-dropped Q b (passed a) h = h
Sound-dropped Q b (refused r) h = tt
Sound-dropped Q b unexpected h = tt

Sound-passed {ℓ} : {A : Type ℓ} (Q : Type 0) (x : Result A) (a : A) → x ≡ passed a → Sound Q x → Q
Sound-passed Q x a e h = subst (Sound Q) e h

Sound-map {ℓ} : {A : Type ℓ} {P Q : Type 0} → (P → Q) → (x : Result A) → Sound P x → Sound Q x
Sound-map f (passed a) h = f h
Sound-map f (refused r) h = tt
Sound-map f unexpected h = tt

limit-IsImport :
    (companies jobs : Collection)
    → Sound (IsImport (object companies jobs)) (enforce_record_limit companies jobs)
unfolding enforce_record_limit
limit-IsImport (list_of companies) (list_of jobs) =
    if_cases (Sound (IsImport (object (list_of companies) (list_of jobs))))
      (ltb 50_000 (length companies + length jobs)) (λ _. tt)
      (λ few.
        if_cases (Sound (IsImport (object (list_of companies) (list_of jobs))))
          (not (all (λ o. o) (companies ++ jobs))) (λ _. tt)
          (λ objects.
            two_lists companies jobs
              (ground (arith, length-append companies jobs, few), ground (arith, objects))))
limit-IsImport (list_of companies) not_list = tt
limit-IsImport not_list jobs = tt

payload-IsImport : (p : Payload) → Sound (IsImport p) (check_payload p)
unfolding check_payload
payload-IsImport (object companies jobs) =
    Sound-dropped _ tt (enforce_record_limit companies jobs) (limit-IsImport companies jobs)
payload-IsImport (array items) =
    if_cases (Sound (IsImport (array items)))
      (ltb 50_000 (length items) || not (all (λ o. o) items)) (λ _. tt)
      (λ h. one_list items (ground arith, ground arith))
payload-IsImport scalar = tt

-- A document that was read.
Loads : (Text → Option Payload) → Option Text → Payload → Type 0
Loads loads decoded p =
    (document : Text) × (decoded ≡ some document)
    × (nesting document ≤ 64)
    × (loads document ≡ some p)

load-Loads :
    (loads : Text → Option Payload) (decoded : Option Text) (p : Payload)
    → load_document loads decoded ≡ some p
    → Loads loads decoded p
unfolding load_document Loads
load-Loads loads none p e = cc
load-Loads loads (some document) p e = elim (Bool-cases (enforce_json_nesting_limit document)) [
  | inl h ↦ (document, refl, ground (arith, nesting_limit-nesting document, h), rw h at e)
  | inr h ↦ cc (rw h at e)
]

read-Importable :
    (c : Contents) (loaded : Loaded) (o : Option Payload)
    → read_payload c ≡ o
    → Sound (Importable c json_suffix loaded) (check_read o)
unfolding check_read read_payload Loads
read-Importable c loaded none e = tt
read-Importable c loaded (some p) e =
    let (document, text, shallow, loads) : Loads c.loads c.decoded p =
      load-Loads c.loads c.decoded p e in
    Sound-map (json_file document p loaded text shallow loads) (check_payload p)
      (payload-IsImport p)

json-Importable :
    (c : Contents) (loaded : Loaded)
    → Sound (Importable c json_suffix loaded) (validate_json_bytes c)
unfolding validate_json_bytes
json-Importable c loaded = read-Importable c loaded (read_payload c) refl

workbook-Importable :
    (c : Contents) (loaded : Loaded)
    → IsSafeArchive c.archive
    → Sound (Importable c xlsx_suffix loaded) (check_workbook loaded)
unfolding check_workbook is_passed
workbook-Importable c (workbook sheets) safe =
    if_cases (Sound (Importable c xlsx_suffix (workbook sheets))) (ltb 10 (length sheets)) (λ _. tt)
      (λ few.
        Sound-bind (Importable c xlsx_suffix (workbook sheets)) (enforce_xlsx_shape_limits sheets) _
          (λ n e.
            let totals = shape_limits-totals sheets (ground (arith, few)) in
            excel_file sheets safe (ground (arith, few)) (ground (arith, totals, e))
              (ground (arith, totals, e))))
workbook-Importable c value_error safe = tt
workbook-Importable c other_error safe = tt

suffix-Importable :
    (s : Suffix) (c : Contents) (loaded : Loaded)
    → Sound (Importable c s loaded) (check_staged s c loaded)
unfolding check_staged
suffix-Importable json_suffix c loaded = json-Importable c loaded
suffix-Importable xlsx_suffix c loaded =
    Sound-bind (Importable c xlsx_suffix loaded) (validate_xlsx_archive c.archive) _
      (λ u e. workbook-Importable c loaded ((archive-IsSafeArchive c.archive).0 e))
suffix-Importable other_suffix c loaded = tt

-- A staged file that passes has at most 25 mebibytes. If it is a JSON file, its text was decoded,
-- nests at most 64 deep outside strings, and loads as one list or two lists of at most 50,000
-- objects together. If it is an Excel file, its archive is a safe one, and its workbook has at most
-- 10 sheets, rows of at most 27 cells, and at most 50,000 rows without the first ones. Nothing else
-- passes.
pub staged-Importable :
    (s : Suffix) (c : Contents) (loaded : Loaded)
    → validate_staged_import s c loaded ≡ passed tt
    → (c.size ≤ 26_214_400) × Importable c s loaded
unfolding validate_staged_import
staged-Importable s c loaded h = Sound-passed _ (validate_staged_import s c loaded) tt h (
    if_cases (Sound ((c.size ≤ 26_214_400) × Importable c s loaded)) (ltb 26_214_400 c.size)
      (λ _. tt)
      (λ small.
        Sound-map {P = Importable c s loaded} (λ i. (ground (arith, small), i))
          (check_staged s c loaded) (suffix-Importable s c loaded)))

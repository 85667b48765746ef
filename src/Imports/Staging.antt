-- ===== src/Imports/Staging.antt =====
-- An upload on its way to a staged file: `read_limited_request_body` of server.py, and
-- `stage_import_upload` of backend/import_security.py. The directory and the operating system's
-- answers are those of Files.
use mathlib.Core.List.{append-nil, append_assoc}
use opportunity_radar.Prelude.{
  ℕ, ◌-◌, ◌≤◌, ◌≡◌, refl, sym, inl, inr, String, Bool, true, false, not, Option, none, some, List,
  [], ◌∷◌, ◌++◌, ltb, leb, if◌then◌else◌, if_cases, arith, length, length-append, Text, put, lookup,
  Bool-cases, le→leb,
}
use opportunity_radar.Files.{Directory, Disk, unlink}
use opportunity_radar.Files.Atomic.{view, update, IsFresh, view-put, unlink-put}
use opportunity_radar.Imports.{Refusal, Result, passed, refused, unexpected}
use opportunity_radar.Imports.Upload.{Suffix, Contents, validate_import_upload}

-- The Content-Length header, and what `int` makes of it.
pub data ContentLength : Type 0 where
  no_header not_a_number negative : ContentLength
  number : ℕ → ContentLength

pub data Body : Type 0 where
  complete : Text → Body
  too_long : Body  -- status 413
  bad_header : Body  -- status 400

-- The loop over the stream's chunks; the difference is never negative.
unfoldable pub read_chunks : (maximum_bytes : ℕ) → (contents : Text) → (chunks : List Text) → Body
read_chunks maximum_bytes contents [] = complete contents
read_chunks maximum_bytes contents (chunk ∷ chunks) =
    let rest = read_chunks maximum_bytes (contents ++ chunk) chunks in
    if ltb (maximum_bytes - length contents) (length chunk) then too_long else rest

-- Is the request refused by its header, and how?
unfoldable pub check_header : (maximum_bytes : ℕ) → ContentLength → Option Body
check_header maximum_bytes no_header = none
check_header maximum_bytes not_a_number = some bad_header
check_header maximum_bytes negative = none
check_header maximum_bytes (number n) = if ltb maximum_bytes n then some too_long else none

-- `read_limited_request_body`
unfoldable pub read_limited_request_body : (maximum_bytes : ℕ) → ContentLength → List Text → Body
unfolding check_header read_chunks
read_limited_request_body maximum_bytes header chunks = elim (check_header maximum_bytes header) [
  | some refusal ↦ refusal
  | none ↦ read_chunks maximum_bytes [] chunks
]

-- The stream as one text.
unfoldable pub concat : List Text → Text
concat [] = []
concat (chunk ∷ chunks) = chunk ++ concat chunks

-- The two branches of the staging after `mkstemp`.
unfoldable pub stage_through :
    Disk → Option String → (contents : Text) → Directory → Result String × Directory
unfolding unlink
stage_through d none contents files = (unexpected, files)
stage_through d (some staged) contents files =
    if not d.writes
    then (unexpected, unlink d staged (put staged d.written files))
    else if not d.syncs
    then (unexpected, unlink d staged (put staged contents files))
    else (passed staged, put staged contents files)

unfoldable pub staged_after :
    Result Suffix → Disk → (contents : Text) → Directory → Result String × Directory
unfolding stage_through
staged_after (refused r) d contents files = (refused r, files)
staged_after unexpected d contents files = (unexpected, files)
staged_after (passed suffix) d contents files =
    if not d.makes_directory
    then (unexpected, files)
    else stage_through d d.temporary contents files

-- `stage_import_upload`, for the bytes `contents` that read as `c`.
unfoldable pub stage_import_upload :
    Suffix → Contents → Disk → (contents : Text) → Directory → Result String × Directory
unfolding staged_after
stage_import_upload suffix c d contents files =
    staged_after (validate_import_upload suffix c) d contents files

read_chunks-concat :
    (maximum_bytes : ℕ) (contents : Text) (chunks : List Text)
    → length contents ≤ maximum_bytes
    → read_chunks maximum_bytes contents chunks ≡ (
        if leb (length (contents ++ concat chunks)) maximum_bytes
        then complete (contents ++ concat chunks)
        else too_long)
unfolding read_chunks concat
read_chunks-concat maximum_bytes contents [] le =
    rw (append-nil contents, le→leb (length contents) maximum_bytes le) refl
read_chunks-concat maximum_bytes contents (chunk ∷ chunks) le =
    elim (Bool-cases (ltb (maximum_bytes - length contents) (length chunk))) [
      | inl h ↦
          rw
            (
              h,
              length-append contents (chunk ++ concat chunks),
              length-append chunk (concat chunks),
            )
            (ground (arith, h, le))
      | inr h ↦
          rw (h, sym (append_assoc contents chunk (concat chunks)))
            (read_chunks-concat maximum_bytes (contents ++ chunk) chunks
              (rw (length-append contents chunk) (ground (arith, h, le))))
    ]

-- Whether a header lets a request in: there is none, or it is a number within the maximum.
unfoldable pub admits : (maximum_bytes : ℕ) → ContentLength → Bool
admits maximum_bytes no_header = true
admits maximum_bytes not_a_number = false
admits maximum_bytes negative = true
admits maximum_bytes (number n) = leb n maximum_bytes

-- Whatever the chunks that the stream is cut into: behind a header that declares nothing above the
-- maximum, the body is the whole stream if that is within the maximum, and else the request is
-- refused as too long.
pub body-concat :
    (maximum_bytes : ℕ) (header : ContentLength) (chunks : List Text)
    → admits maximum_bytes header ≡ true
    → read_limited_request_body maximum_bytes header chunks
      ≡ (if leb (length (concat chunks)) maximum_bytes then complete (concat chunks) else too_long)
unfolding read_limited_request_body check_header admits
body-concat maximum_bytes no_header chunks h =
    read_chunks-concat maximum_bytes [] chunks (omega arith)
body-concat maximum_bytes not_a_number chunks h = cc
body-concat maximum_bytes negative chunks h =
    read_chunks-concat maximum_bytes [] chunks (omega arith)
body-concat maximum_bytes (number n) chunks h =
    let fits : ltb maximum_bytes n ≡ false = ground (arith, h) in
    rw (fits, read_limited_request_body) (read_chunks-concat maximum_bytes [] chunks (omega arith))

-- How a staging can end.
pub data Staging (suffix : Suffix) (c : Contents) (d : Disk) (contents : Text) (files : Directory)
    : Result String × Directory → Type 0 where
  staged :
      (name : String) (after : Directory) (s : Suffix)
      → validate_import_upload suffix c ≡ passed s
      → d.temporary ≡ some name
      → view after ≡ update (view files) name (some contents)
      → Staging suffix c d contents files (passed name, after)
  turned_down : (r : Refusal) → Staging suffix c d contents files (refused r, files)
  nothing_left :
      (after : Directory)
      → view after ≡ view files
      → Staging suffix c d contents files (unexpected, after)
  left_behind :
      (after : Directory) (name : String) (rest : Text)
      → d.temporary ≡ some name
      → d.unlinks ≡ false
      → view after ≡ update (view files) name (some rest)
      → Staging suffix c d contents files (unexpected, after)

module _ (suffix : Suffix) (c : Contents) (d : Disk) (contents : Text) (files : Directory)
    (s : Suffix) (valid : validate_import_upload suffix c ≡ passed s) where
  unlinked-Staging :
      (name : String) (rest : Text)
      → d.temporary ≡ some name
      → lookup name files ≡ none
      → Staging suffix c d contents files (unexpected, unlink d name (put name rest files))
  unfolding unlink
  unlinked-Staging name rest e fresh =
      if_cases (λ (after : Directory). Staging suffix c d contents files (unexpected, after))
        d.unlinks (λ _. nothing_left _ (unlink-put name rest files fresh))
        (λ h. left_behind _ name rest e h (view-put name rest files))

  through-Staging :
      (o : Option String)
      → d.temporary ≡ o
      → IsFresh files o
      → Staging suffix c d contents files (stage_through d o contents files)
  unfolding stage_through
  through-Staging none e fresh = nothing_left files refl
  through-Staging (some name) e fresh =
      if_cases (Staging suffix c d contents files) (not d.writes)
        (λ _. unlinked-Staging name d.written e fresh)
        (λ _.
          if_cases (Staging suffix c d contents files) (not d.syncs)
            (λ _. unlinked-Staging name contents e fresh)
            (λ _. staged name _ s valid e (view-put name contents files)))

after-Staging :
    (suffix : Suffix) (c : Contents) (d : Disk) (contents : Text) (files : Directory)
    (r : Result Suffix)
    → validate_import_upload suffix c ≡ r
    → IsFresh files d.temporary
    → Staging suffix c d contents files (staged_after r d contents files)
unfolding staged_after
after-Staging suffix c d contents files (passed s) e fresh =
    if_cases (Staging suffix c d contents files) (not d.makes_directory)
      (λ _. nothing_left files refl)
      (λ _. through-Staging suffix c d contents files s e d.temporary refl fresh)
after-Staging suffix c d contents files (refused r) e fresh = turned_down r
after-Staging suffix c d contents files unexpected e fresh = nothing_left files refl

-- Whichever calls of the operating system fail, if the staged file's name is a new one: the path
-- comes back only for an upload that passed the checks, with exactly its bytes in a file of that
-- name, and nothing else changed; a refused upload changes nothing; and an error leaves nothing
-- behind but the staged file where it could not be unlinked.
pub stage-Staging :
    (suffix : Suffix) (c : Contents) (d : Disk) (contents : Text) (files : Directory)
    → IsFresh files d.temporary
    → Staging suffix c d contents files (stage_import_upload suffix c d contents files)
unfolding stage_import_upload
stage-Staging suffix c d contents files fresh =
    after-Staging suffix c d contents files (validate_import_upload suffix c) refl fresh

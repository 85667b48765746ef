-- ===== src/Files.antt =====
-- Files that the program writes: backend/file_security.py, and the staging of an upload in
-- backend/import_security.py. A directory is a dictionary of contents. How the operating system
-- answers is an argument: a record with one field for each call that can raise.
pub mod Atomic
pub mod Sanitize
mod Tests
use opportunity_radar.Prelude.{
  ℕ, String, Bool, true, false, not, Option, none, some, if◌then◌else◌, Text, Dict, put, remove, [],
}

abbrev pub Directory : Type 0
Directory = Dict Text

pub record Disk : Type 0 where
  pub makes_directory : Bool
  pub temporary : Option String  -- the name that `mkstemp` chooses; `none` is its exception
  pub closes : Bool
  pub written : Text  -- what a write that raises has left in the file
  pub writes : Bool
  pub syncs : Bool
  pub replaces : Bool
  pub unlinks : Bool

pub data Exit : Type 0 where
  saved raised : Exit

-- temporary_path.unlink(missing_ok=True)
unfoldable pub unlink : Disk → String → Directory → Directory
unlink d name files = if d.unlinks then remove name files else files

-- os.replace(temporary, target)
unfoldable pub replace : (temporary target : String) → Text → Directory → Directory
replace temporary target contents files = put target contents (remove temporary files)

-- The writes to the temporary file, and the `finally` that unlinks it unless it was renamed.
unfoldable pub through_temporary :
    Disk → (temporary target : String) → Text → Directory → Exit × Directory
unfolding unlink replace
through_temporary d temporary target contents files =
    if not d.writes
    then (raised, unlink d temporary (put temporary d.written files))
    else if not d.syncs
    then (raised, unlink d temporary (put temporary contents files))
    else if not d.replaces
    then (raised, unlink d temporary (put temporary contents files))
    else (saved, replace temporary target contents (put temporary contents files))

unfoldable pub text_through :
    Disk → Option String → (target : String) → Text → Directory → Exit × Directory
unfolding through_temporary
text_through d none target contents files = (raised, files)
text_through d (some temporary) target contents files =
    through_temporary d temporary target contents files

-- `atomic_write_text`
unfoldable pub atomic_write_text : Disk → (target : String) → Text → Directory → Exit × Directory
unfolding text_through
atomic_write_text d target contents files =
    if not d.makes_directory
    then (raised, files)
    else text_through d d.temporary target contents files

-- The file is there, and empty, before its path is kept.
unfoldable pub workbook_through :
    Disk → Option String → (target : String) → Text → Directory → Exit × Directory
unfolding through_temporary
workbook_through d none target workbook files = (raised, files)
workbook_through d (some temporary) target workbook files =
    if not d.closes
    then (raised, put temporary [] files)
    else through_temporary d temporary target workbook files

-- `atomic_save_workbook`
unfoldable pub atomic_save_workbook :
    Disk → (target : String) → (workbook : Text) → Directory → Exit × Directory
unfolding workbook_through
atomic_save_workbook d target workbook files =
    if not d.makes_directory
    then (raised, files)
    else workbook_through d d.temporary target workbook files

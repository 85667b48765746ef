-- ===== src/Health/Probe.antt =====
-- `_check_directory` of backend/health.py: a directory is probed by a file that is written and
-- unlinked. The directory and the operating system's answers are those of Files.
use opportunity_radar.Prelude.{
  ◌≡◌, ◌⊎◌, refl, inl, inr, String, Bool, false, not, ◌&&◌, Option, none, some, if◌then◌else◌,
  if_cases, arith, codes, lookup, put, Bool-cases,
}
use opportunity_radar.Files.{Directory, Disk, unlink}
use opportunity_radar.Files.Atomic.{view, IsFresh, unlink-put}
use opportunity_radar.Health.{Status, healthy, degraded, unhealthy, not_checked, is_healthy}

pub record Checks : Type 0 where
  pub status : Status
  pub required : Bool
  pub exists : Status
  pub writable : Status
  pub cleanup : Status

unfoldable pub failed_status : Bool → Status
failed_status required = if required then unhealthy else degraded

-- After `mkstemp`: the checks of the file that was written and unlinked.
unfoldable pub check_file : (required : Bool) → Disk → Checks
unfolding failed_status
check_file required d =
    let writable = (if d.writes && d.syncs then healthy else failed_status required) in
    let cleanup = (if d.unlinks then healthy else failed_status required) in
    record {
      status = if d.writes && d.syncs && d.unlinks then healthy else failed_status required;
      required = required;
      exists = healthy;
      writable = writable;
      cleanup = cleanup;
    }

unfoldable pub probe_file : Disk → String → Directory → Directory
unfolding unlink
probe_file d name files =
    unlink d name
      (put name (if d.writes then codes "opportunity-radar-health\n" else d.written) files)

unfoldable pub check_entries :
    (required : Bool) → Disk → Option String → Directory → Checks × Directory
unfolding check_file probe_file failed_status
check_entries required d none files = (
  record {
    status = failed_status required;
    required = required;
    exists = healthy;
    writable = failed_status required;
    cleanup = not_checked;
  },
  files,
)
check_entries required d (some name) files = (check_file required d, probe_file d name files)

-- `_check_directory`
unfoldable pub check_directory : (required is_dir : Bool) → Disk → Directory → Checks × Directory
unfolding check_entries failed_status
check_directory required is_dir d files =
    if not is_dir
    then (
      record {
        status = failed_status required;
        required = required;
        exists = failed_status required;
        writable = not_checked;
        cleanup = not_checked;
      },
      files,
    )
    else check_entries required d d.temporary files

-- A check leaves the directory as it was, or it says that it could not clean up.
abbrev pub IsClean : (required : Bool) → Directory → Checks × Directory → Type 0
IsClean required files r =
    (view r.1 ≡ view files)
    ⊎ ((r.0.cleanup ≡ failed_status required) × (is_healthy r.0.status ≡ false))

file-IsClean :
    (required : Bool) (d : Disk) (name : String) (files : Directory)
    → lookup name files ≡ none
    → IsClean required files (check_file required d, probe_file d name files)
unfolding check_file probe_file unlink is_healthy failed_status
file-IsClean required d name files fresh = elim (Bool-cases d.unlinks) [
  | inl h ↦ inl (rw h (unlink-put name _ files fresh))
  | inr h ↦ inr (ground (arith, h), ground (arith, h))
]

entries-IsClean :
    (required : Bool) (d : Disk) (o : Option String) (files : Directory)
    → IsFresh files o
    → IsClean required files (check_entries required d o files)
unfolding check_entries
entries-IsClean required d none files fresh = inl refl
entries-IsClean required d (some name) files fresh = file-IsClean required d name files fresh

-- If the probe's file has a new name: a check of a directory changes nothing in it, or it reports
-- that the clean-up failed, and then the directory does not count as healthy.
pub directory-IsClean :
    (required is_dir : Bool) (d : Disk) (files : Directory)
    → IsFresh files d.temporary
    → IsClean required files (check_directory required is_dir d files)
unfolding check_directory
directory-IsClean required is_dir d files fresh =
    if_cases (IsClean required files) (not is_dir) (λ _. inl refl)
      (λ _. entries-IsClean required d d.temporary files fresh)

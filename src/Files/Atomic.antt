-- ===== src/Files/Atomic.antt =====
-- The writers of backend/file_security.py against their specification: the directory as a function
-- from names to contents, which a write changes at the target alone, or not at all.
use mathlib.Core.Path.{fun_ext}
use opportunity_radar.Prelude.{
  ◌≡◌, String, false, Option, none, some, [], if◌then◌else◌, arith, Text, lookup, put, remove,
  lookup-put, lookup-remove, str_eq, eq_iff,
}
use opportunity_radar.Files.{Directory, Disk, Exit, saved, raised}

-- What is under each name.
abbrev pub view : Directory → String → Option Text
view files name = lookup name files

-- A function, changed at one name.
abbrev pub update : (String → Option Text) → String → Option Text → String → Option Text
update f name w other = if str_eq name other then w else f other

-- How a write can end: it returns, and the target alone has changed, to the whole new contents; or it
-- raises, and nothing has changed; or it raises, and a temporary file is left, since it could not be
-- unlinked or not even be closed.
pub data Written (d : Disk) (target : String) (contents : Text) (files : Directory)
    : Exit × Directory → Type 0 where
  written_whole :
      (after : Directory)
      → view after ≡ update (view files) target (some contents)
      → Written d target contents files (saved, after)
  unchanged :
      (after : Directory)
      → view after ≡ view files
      → Written d target contents files (raised, after)
  left_over :
      (after : Directory) (temporary : String) (rest : Text)
      → d.temporary ≡ some temporary
      → d.unlinks ≡ false
      → view after ≡ update (view files) temporary (some rest)
      → Written d target contents files (raised, after)
  left_open :
      (after : Directory) (temporary : String)
      → d.temporary ≡ some temporary
      → d.closes ≡ false
      → view after ≡ update (view files) temporary (some [])
      → Written d target contents files (raised, after)

-- `mkstemp` chooses a name that is not there.
abbrev pub IsFresh : Directory → Option String → Type 0
IsFresh files none = Unit
IsFresh files (some temporary) = lookup temporary files ≡ none

pub view-put :
    (name : String) (contents : Text) (files : Directory)
    → view (put name contents files) ≡ update (view files) name (some contents)
view-put name contents files = fun_ext λ k. lookup-put name k contents files

pub unlink-put :
    (name : String) (contents : Text) (files : Directory)
    → lookup name files ≡ none
    → view (remove name (put name contents files)) ≡ view files
unlink-put name contents files fresh = fun_ext λ k. ground (
  arith,
  lookup-remove name k (put name contents files),
  lookup-put name k contents files,
  eq_iff name k,
  fresh,
)

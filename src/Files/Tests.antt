-- ===== src/Files/Tests.antt =====
-- The writers and the sanitiser of backend/file_security.py at concrete inputs.
use opportunity_radar.Prelude.{
  ◌≡◌, refl, Bool, true, false, Option, some, [], ◌∷◌, Text, codes, lstrip, starts_with, put,
  remove, text_eq, if◌then◌else◌,
}
use opportunity_radar.Files.{Directory, Disk, saved, raised, atomic_write_text}
use opportunity_radar.Files.Sanitize.{
  text, sanitize_spreadsheet_value, IsInertValue, sanitize-IsInertValue,
}

abbrev disk : Disk
disk = record {
  makes_directory = true;
  temporary = some ".jobs.json.x.tmp";
  closes = true;
  written = codes "{";
  writes = true;
  syncs = true;
  replaces = true;
  unlinks = true;
}

abbrev exports : Directory
exports = ("jobs.json", codes "[]") ∷ []

abbrev full_disk : Disk
full_disk = record disk { writes = false }

replaces_it :
    atomic_write_text disk "jobs.json" (codes "{}") exports
    ≡ (saved, ("jobs.json", codes "{}") ∷ [])
unfolding atomic_write_text put remove
replaces_it = refl

keeps_the_old_one : atomic_write_text full_disk "jobs.json" (codes "{}") exports ≡ (raised, exports)
unfolding atomic_write_text put remove
keeps_the_old_one = refl

-- A split that knows the schemes of two texts.
abbrev schemes : Text → Option Text
schemes t =
    if starts_with t (codes "javascript:")
    then some (codes "javascript")
    else if starts_with t (codes "https:")
    then some (codes "https")
    else some []

quotes_formulas :
    sanitize_spreadsheet_value {A = Bool} schemes (text (codes " =1+1")) ≡ text (codes "' =1+1")
unfolding sanitize_spreadsheet_value lstrip starts_with text_eq
quotes_formulas = refl

quotes_schemes :
    sanitize_spreadsheet_value {A = Bool} schemes (text (codes "javascript:x"))
    ≡ text (codes "'javascript:x")
unfolding sanitize_spreadsheet_value lstrip starts_with text_eq
quotes_schemes = refl

sanitize-IsInertValue_example :
    IsInertValue schemes (sanitize_spreadsheet_value {A = Bool} schemes (text (codes "=A1")))
    × (sanitize_spreadsheet_value schemes
          (sanitize_spreadsheet_value {A = Bool} schemes (text (codes "=A1")))
        ≡ sanitize_spreadsheet_value schemes (text (codes "=A1")))
unfolding starts_with
sanitize-IsInertValue_example = sanitize-IsInertValue schemes (λ v. refl) (text (codes "=A1"))

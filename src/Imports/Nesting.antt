-- ===== src/Imports/Nesting.antt =====
-- `_enforce_json_nesting_limit` of backend/import_security.py: one pass over a document, and what
-- it finds out of the brackets outside strings.
use opportunity_radar.Prelude.{
  ℕ, ◌+◌, ◌-◌, ◌≤◌, ◌≡◌, inl, inr, Bool, true, false, ◌||◌, Option, none, some, [], ◌∷◌, ltb, leb,
  max, ◌==◌, ◌>>=◌, if◌then◌else◌, arith, Text, Bool-cases,
}

abbrev pub max_import_json_nesting : ℕ
max_import_json_nesting = 64

-- The three variables of the loop.
pub record Scan : Type 0 where
  pub depth : ℕ
  pub in_string : Bool
  pub escaped : Bool

unfoldable pub opens : ℕ → Bool
opens c = (c == b'[') || (c == b'{')

unfoldable pub closes : ℕ → Bool
closes c = (c == b']') || (c == b'}')

-- A character of a string.
unfoldable pub string_char : ℕ → Scan → Scan
string_char c s =
    if s.escaped
    then record s { escaped = false }
    else if c == b'\\'
    then record s { escaped = true }
    else if c == b'"'
    then record s { in_string = false }
    else s

-- A character outside strings; `none` is the `RecursionError`.
unfoldable pub plain_char : ℕ → Scan → Option Scan
unfolding opens closes
plain_char c s =
    if c == b'"'
    then some record s { in_string = true }
    else if opens c
    then (if ltb max_import_json_nesting (s.depth + 1)
        then none
        else some record s { depth = s.depth + 1 })
    else if closes c
    then some record s { depth = s.depth - 1 }
    else some s

unfoldable pub scan : Text → Scan → Option Scan
unfolding string_char plain_char
scan [] s = some s
scan (c ∷ document) s =
    (if s.in_string then some (string_char c s) else plain_char c s) >>= scan document

unfoldable pub is_shallow : Option Scan → Bool
is_shallow none = false
is_shallow (some s) = true

-- `_enforce_json_nesting_limit` returns, that is, it does not raise.
unfoldable pub enforce_json_nesting_limit : Text → Bool
unfolding scan is_shallow
enforce_json_nesting_limit document =
    is_shallow (scan document record { depth = 0; in_string = false; escaped = false })

-- The reference: first the brackets outside strings, then how deep they nest.
pub data Place : Type 0 where
  outside within after_backslash : Place

-- The place after a character, by the grammar of a JSON string.
next_place : Place → ℕ → Place
next_place outside c = if c == b'"' then within else outside
next_place within c = if c == b'\\' then after_backslash else if c == b'"' then outside else within
next_place after_backslash c = within

is_bracket : Place → ℕ → Bool
unfolding opens closes
is_bracket outside c = opens c || closes c
is_bracket within c = false
is_bracket after_backslash c = false

brackets : Place → Text → Text
unfolding next_place is_bracket
brackets p [] = []
brackets p (c ∷ t) =
    let rest = brackets (next_place p c) t in if is_bracket p c then c ∷ rest else rest

-- The greatest depth on the way, from a depth; a closing bracket too many is ignored.
deepest : ℕ → Text → ℕ
unfolding opens
deepest d [] = d
deepest d (c ∷ t) = max d (deepest (if opens c then d + 1 else d - 1) t)

-- How deep a document nests.
unfoldable pub nesting : Text → ℕ
unfolding deepest brackets
nesting document = deepest 0 (brackets outside document)

deepest-ge : (d : ℕ) (t : Text) → d ≤ deepest d t
unfolding deepest
deepest-ge d [] = omega arith
deepest-ge d (c ∷ t) = omega arith

-- The variables of the loop at a place.
abbrev at_place : Place → ℕ → Scan
at_place outside d = record { depth = d; in_string = false; escaped = false }
at_place within d = record { depth = d; in_string = true; escaped = false }
at_place after_backslash d = record { depth = d; in_string = true; escaped = true }

quote_opens : (c : ℕ) → (c == b'"') ≡ true → opens c ≡ false
unfolding opens
quote_opens c h = ground arith

quote_closes : (c : ℕ) → (c == b'"') ≡ true → closes c ≡ false
unfolding closes
quote_closes c h = ground arith

scan-nesting :
    (p : Place) (d : ℕ) (t : Text)
    → d ≤ 64
    → is_shallow (scan t (at_place p d)) ≡ leb (deepest d (brackets p t)) 64
unfolding scan is_shallow brackets deepest next_place is_bracket string_char plain_char
scan-nesting outside d [] le = ground arith
scan-nesting within d [] le = ground arith
scan-nesting after_backslash d [] le = ground arith
scan-nesting outside d (c ∷ t) le = elim (Bool-cases (c == b'"')) [
  | inl quote ↦ rw (quote, quote_opens c quote, quote_closes c quote) (scan-nesting within d t le)
  | inr plain ↦ elim (Bool-cases (opens c)) [
    | inl h ↦ elim (Bool-cases (ltb 64 (d + 1))) [
      | inl deep ↦
          rw (plain, h, deep) (rw h (ground (arith, deepest-ge (d + 1) (brackets outside t))))
      | inr room ↦
          rw (plain, h, room)
            (rw h (
              ground (
                arith,
                deepest-ge (d + 1) (brackets outside t),
                scan-nesting outside (d + 1) t (ground arith),
              )))
    ]
    | inr no_open ↦ elim (Bool-cases (closes c)) [
      | inl h ↦
          rw (plain, no_open, h)
            (rw no_open (ground (arith, scan-nesting outside (d - 1) t (omega (arith, le)))))
      | inr no_close ↦ rw (plain, no_open, no_close) (scan-nesting outside d t le)
    ]
  ]
]
scan-nesting within d (c ∷ t) le = ground (
  arith,
  scan-nesting after_backslash d t le,
  scan-nesting within d t le,
  scan-nesting outside d t le,
)
scan-nesting after_backslash d (c ∷ t) le = scan-nesting within d t le

-- A document passes exactly if its brackets outside strings nest at most 64 deep.
pub nesting_limit-nesting :
    (document : Text) → enforce_json_nesting_limit document ≡ leb (nesting document) 64
unfolding enforce_json_nesting_limit nesting
nesting_limit-nesting document = scan-nesting outside 0 document (omega arith)

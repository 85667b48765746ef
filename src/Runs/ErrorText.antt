-- ===== src/Runs/ErrorText.antt =====
-- `safe_error_summary` of backend/utility_runs.py: what of an exception's text is shown.
use opportunity_radar.Prelude.{
  ℕ, ◌≤◌, ◌≡◌, ◌≢◌, refl, inl, inr, Bool, false, ◌||◌, if◌then◌else◌, [], ◌∷◌, arith, any, ◌==◌,
  Text, codes, split, join, take, length, All, Bool-cases, length-take-le, All-take,
}
use opportunity_radar.Runs.Verdict.{Failure, was_cancelled, timed_out, conflict, value_error, other}

abbrev generic : Text
generic = codes "The operation failed. Review server logs for details."

-- One of the markers `\`, `/` and `:\`; the last holds the first.
is_marker : ℕ → Bool
is_marker c = (c == b'\\') || (c == b'/')

shown : Text → Text
unfolding is_marker
shown [] = generic
shown (c ∷ cs) = if any is_marker (c ∷ cs) then generic else take 240 (c ∷ cs)

unfoldable pub safe_error_summary : Failure → Text
unfolding shown
safe_error_summary timed_out = codes "The operation timed out."
safe_error_summary (conflict message) = take 240 message
safe_error_summary (value_error message) = shown (join 32 (split message))
safe_error_summary was_cancelled = generic
safe_error_summary other = generic

-- Neither a slash nor a backslash, so no path.
abbrev pub IsNoSlash : ℕ → Type 0
IsNoSlash c = (c ≢ b'/') × (c ≢ b'\\')

generic-IsNoSlash : All IsNoSlash generic
generic-IsNoSlash = omega arith

no_marker-IsNoSlash : (t : Text) → any is_marker t ≡ false → All IsNoSlash t
unfolding is_marker
no_marker-IsNoSlash [] h = tt
no_marker-IsNoSlash (c ∷ t) h = (ground arith, no_marker-IsNoSlash t (ground arith))

-- What may be shown to a client: at most 240 characters, none of them a slash or a backslash.
abbrev pub IsShowable : Text → Type 0
IsShowable t = (length t ≤ 240) × All IsNoSlash t

generic-IsShowable : IsShowable generic
generic-IsShowable = omega arith

shown-IsShowable : (t : Text) → IsShowable (shown t)
unfolding shown
shown-IsShowable [] = generic-IsShowable
shown-IsShowable (c ∷ t) = elim (Bool-cases (any is_marker (c ∷ t))) [
  | inl h ↦ rw (h, shown) generic-IsShowable
  | inr h ↦
      rw (h, shown)
        (length-take-le 240 (c ∷ t), All-take IsNoSlash 240 (c ∷ t) (no_marker-IsNoSlash (c ∷ t) h))
]

-- For every exception but a gate conflict, whose message the program writes itself, the stored
-- error has at most 240 characters and holds no path separator.
pub safe_error_summary-IsShowable :
    (f : Failure) → ((message : Text) → f ≢ conflict message) → IsShowable (safe_error_summary f)
unfolding safe_error_summary
safe_error_summary-IsShowable timed_out h = omega arith
safe_error_summary-IsShowable (conflict message) h = absurd (h message refl)
safe_error_summary-IsShowable (value_error message) h = shown-IsShowable (join 32 (split message))
safe_error_summary-IsShowable was_cancelled h = generic-IsShowable
safe_error_summary-IsShowable other h = generic-IsShowable

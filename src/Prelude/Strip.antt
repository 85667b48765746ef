-- ===== src/Prelude/Strip.antt =====
-- Comparison of texts, `in`, `startswith` and `strip`, over code points.
use Prim.Native.Nat.{ℕ}
use mathlib.Core.Path.{◌≡◌, refl}
use mathlib.Core.Bool.{Bool, true, false, ◌&&◌, ◌||◌}
use mathlib.Core.Logic.{inl, inr}
use mathlib.Core.List.{[], ◌∷◌}
use native.Mathlib.Omega.{arith}
use opportunity_radar.Prelude.Tests.{◌==◌, if◌then◌else◌, Bool-cases}
use opportunity_radar.Prelude.Words.{Text, is_space}

unfoldable pub text_eq : Text → Text → Bool
text_eq [] [] = true
text_eq [] (b ∷ t) = false
text_eq (a ∷ s) [] = false
text_eq (a ∷ s) (b ∷ t) = (a == b) && text_eq s t

pub text_eq→eq : (s t : Text) → text_eq s t ≡ true → s ≡ t
unfolding text_eq
text_eq→eq [] [] h = refl
text_eq→eq [] (b ∷ t) h = cc
text_eq→eq (a ∷ s) [] h = cc
text_eq→eq (a ∷ s) (b ∷ t) h = ground (arith, text_eq→eq s t)

pub text_eq_self : (s : Text) → text_eq s s ≡ true
unfolding text_eq
text_eq_self [] = refl
text_eq_self (a ∷ s) = ground (arith, text_eq_self s)

-- text.startswith(head)
unfoldable pub starts_with : Text → Text → Bool
starts_with t [] = true
starts_with [] (h ∷ hs) = false
starts_with (c ∷ t) (h ∷ hs) = (c == h) && starts_with t hs

-- piece in text
unfoldable pub contains : Text → Text → Bool
unfolding starts_with
contains [] piece = starts_with [] piece
contains (c ∷ t) piece = starts_with (c ∷ t) piece || contains t piece

unfoldable pub lstrip : Text → Text
unfolding is_space
lstrip [] = []
lstrip (c ∷ t) = let rest = lstrip t in if is_space c then rest else c ∷ t

-- A trailing space is dropped if nothing but spaces follows it.
drop_if_space : ℕ → Text → Text
drop_if_space c [] = if is_space c then [] else c ∷ []
drop_if_space c (d ∷ t) = c ∷ d ∷ t

unfoldable pub rstrip : Text → Text
unfolding drop_if_space is_space
rstrip [] = []
rstrip (c ∷ t) = drop_if_space c (rstrip t)

unfoldable pub strip : Text → Text
unfolding lstrip rstrip
strip t = rstrip (lstrip t)

-- A text that begins with no space.
abbrev NoLeading : Text → Type 0
NoLeading [] = Unit
NoLeading (c ∷ t) = is_space c ≡ false

lstrip-NoLeading : (t : Text) → NoLeading (lstrip t)
unfolding lstrip
lstrip-NoLeading [] = tt
lstrip-NoLeading (c ∷ t) = elim (Bool-cases (is_space c)) [
  | inl h ↦ rw (h, lstrip) (lstrip-NoLeading t)
  | inr h ↦ rw (h, lstrip) h
]

NoLeading-lstrip : (t : Text) → NoLeading t → lstrip t ≡ t
unfolding lstrip
NoLeading-lstrip [] h = refl
NoLeading-lstrip (c ∷ t) h = rw (h, lstrip) refl

drop_if_space-NoLeading : (c : ℕ) (t : Text) → is_space c ≡ false → NoLeading (drop_if_space c t)
unfolding drop_if_space
drop_if_space-NoLeading c [] h = rw (h, drop_if_space) h
drop_if_space-NoLeading c (d ∷ t) h = h

rstrip-NoLeading : (t : Text) → NoLeading t → NoLeading (rstrip t)
unfolding rstrip
rstrip-NoLeading [] h = tt
rstrip-NoLeading (c ∷ t) h = drop_if_space-NoLeading c (rstrip t) h

drop_if_space-rstrip :
    (c : ℕ) (t : Text) → rstrip t ≡ t → rstrip (drop_if_space c t) ≡ drop_if_space c t
unfolding rstrip drop_if_space
drop_if_space-rstrip c [] e = elim (Bool-cases (is_space c)) [
  | inl h ↦ rw (h, drop_if_space) refl
  | inr h ↦ rw (h, drop_if_space) (rw (h, drop_if_space) refl)
]
drop_if_space-rstrip c (d ∷ t) e = rw e refl

rstrip_idem : (t : Text) → rstrip (rstrip t) ≡ rstrip t
unfolding rstrip
rstrip_idem [] = refl
rstrip_idem (c ∷ t) = drop_if_space-rstrip c (rstrip t) (rstrip_idem t)

pub strip_idem : (t : Text) → strip (strip t) ≡ strip t
unfolding strip
strip_idem t =
    rw (NoLeading-lstrip (rstrip (lstrip t)) (rstrip-NoLeading (lstrip t) (lstrip-NoLeading t)))
      (rstrip_idem (lstrip t))

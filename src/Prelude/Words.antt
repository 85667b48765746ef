-- ===== src/Prelude/Words.antt =====
-- Texts as lists of code points, with `str.split` and `str.join`. White space is that of ASCII.
use Prim.Native.Nat.{ℕ}
use Prim.Native.Char.{code}
use Prim.Native.String.{String}
use mathlib.Core.Bool.{Bool, ◌&&◌, ◌||◌}
use mathlib.Core.Logic.{inl, inr}
use mathlib.Core.List.{List, [], ◌∷◌, ◌++◌}
use opportunity_radar.Prelude.Tests.{leb, ◌==◌, if◌then◌else◌, Bool-cases}
use opportunity_radar.Prelude.Lists.{All, All-append}

-- A text as its code points.
abbrev pub Text : Type 0
Text = List ℕ

abbrev pub codes : String → Text
codes String.[] = []
codes (String.◌∷◌ c s) = code c ∷ codes s

unfoldable pub is_space : ℕ → Bool
is_space c = (c == 32) || (leb 9 c && leb c 13) || (leb 28 c && leb c 31)

-- `value.split()`: the runs of characters that are no space. `word` is the run read so far.
close : Text → List Text → List Text
close [] words = words
close (c ∷ word) words = (c ∷ word) ∷ words

split_from : Text → Text → List Text
unfolding close is_space
split_from word [] = close word []
split_from word (c ∷ cs) =
    let fresh = split_from [] cs in
    let longer = split_from (word ++ c ∷ []) cs in if is_space c then close word fresh else longer

unfoldable pub split : Text → List Text
unfolding split_from
split value = split_from [] value

-- separator.join(words), for a separator of one character
unfoldable pub join : ℕ → List Text → Text
join separator [] = []
join separator (w ∷ []) = w
join separator (w ∷ v ∷ ws) = w ++ separator ∷ join separator (v ∷ ws)

close-All :
    (P : ℕ → Type 0) (w : Text) (ws : List Text)
    → All P w
    → All (All P) ws
    → All (All P) (close w ws)
unfolding close
close-All P [] ws h hs = hs
close-All P (c ∷ w) ws h hs = (h, hs)

split_from-All : (P : ℕ → Type 0) (w t : Text) → All P w → All P t → All (All P) (split_from w t)
unfolding split_from
split_from-All P w [] hw ht = close-All P w [] hw tt
split_from-All P w (c ∷ t) hw ht = elim (Bool-cases (is_space c)) [
  | inl e ↦ rw (e, split_from) (close-All P w _ hw (split_from-All P [] t tt ht.1))
  | inr e ↦
      rw (e, split_from)
        (split_from-All P (w ++ c ∷ []) t (All-append P w (c ∷ []) hw (ht.0, tt)) ht.1)
]

pub join-All :
    (P : ℕ → Type 0) (dash : ℕ) (ws : List Text) → P dash → All (All P) ws → All P (join dash ws)
unfolding join
join-All P dash [] sep h = tt
join-All P dash (w ∷ []) sep h = h.0
join-All P dash (w ∷ v ∷ ws) sep h =
    All-append P w (dash ∷ join dash (v ∷ ws)) h.0 (sep, join-All P dash (v ∷ ws) sep h.1)

pub split-All : (P : ℕ → Type 0) (t : Text) → All P t → All (All P) (split t)
unfolding split
split-All P t h = split_from-All P [] t tt h

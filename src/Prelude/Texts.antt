-- ===== src/Prelude/Texts.antt =====
-- Python operations on `str` that the components share, over the native texts.
use Prim.Native.Nat.{ℕ, zero, suc, ◌+◌, ◌/◌, ◌%◌}
use Prim.Native.Char.{code}
use Prim.Native.String.append
use Prim.Native.String.{String, ◌++◌ as ◌++ₜ◌}
use text.Mathlib.Text.{◌==◌ as str_eq}
use mathlib.Core.Path.{◌≡◌, refl}
use mathlib.Core.Bool.{Bool, true, false, ◌&&◌, ◌||◌, not}
use opportunity_radar.Prelude.Words.{codes}
use opportunity_radar.Prelude.Lists.{All}
use opportunity_radar.Prelude.Tests.{ltb, leb, ◌==◌, if◌then◌else◌, if_cases}

-- s[:n]
abbrev pub first_chars : ℕ → String → String
first_chars zero s = String.[]
first_chars (suc n) String.[] = String.[]
first_chars (suc n) (String.◌∷◌ c s) = String.◌∷◌ c (first_chars n s)

-- any(p(ord(c)) for c in s)
abbrev pub any_char : (ℕ → Bool) → String → Bool
any_char p String.[] = false
any_char p (String.◌∷◌ c s) = p (code c) || any_char p s

-- A text that a Boolean context takes for true.
abbrev pub is_truthy : String → Bool
is_truthy s = not (str_eq s "")

-- `a or b`
abbrev pub or_text : String → String → String
or_text a b = if str_eq a "" then b else a

-- str(n)
digit : ℕ → String
digit d =
    if d == 0
    then "0"
    else if d == 1
    then "1"
    else if d == 2
    then "2"
    else if d == 3
    then "3"
    else if d == 4
    then "4"
    else if d == 5
    then "5"
    else if d == 6
    then "6"
    else if d == 7
    then "7"
    else if d == 8
    then "8"
    else "9"

-- A number has at most as many digits as its value plus one.
show_from : ℕ → ℕ → String → String
unfolding digit
show_from zero n rest = rest
show_from (suc fuel) n rest =
    let more = show_from fuel (n / 10) (digit (n % 10) ++ₜ rest) in
    if ltb n 10 then digit n ++ₜ rest else more

unfoldable pub show : ℕ → String
unfolding show_from
show n = show_from (n + 1) n ""

-- A digit as its code point.
unfoldable pub is_digit_code : ℕ → Bool
is_digit_code c = leb 48 c && leb c 57

append-All :
    (s rest : String)
    → All (λ c. is_digit_code c ≡ true) (codes s)
    → All (λ c. is_digit_code c ≡ true) (codes rest)
    → All (λ c. is_digit_code c ≡ true) (codes (s ++ₜ rest))
append-All String.[] rest hs h = let e : "" ++ₜ rest ≡ rest = λ i. append.nil rest i in rw (e) h
append-All (String.◌∷◌ c s) rest hs h =
    let e : String.◌∷◌ c s ++ₜ rest ≡ String.◌∷◌ c (s ++ₜ rest) = λ i. append.cons c s rest i in
    rw (e) (hs.0, append-All s rest hs.1 h)

digit-All : (d : ℕ) → All (λ c. is_digit_code c ≡ true) (codes (digit d))
unfolding digit is_digit_code
digit-All d =
    let P : String → Type 0 = λ s. All (λ c. is_digit_code c ≡ true) (codes s) in
    if_cases P (d == 0) (λ _. (refl, tt))
      (λ _.
        if_cases P (d == 1) (λ _. (refl, tt))
          (λ _.
            if_cases P (d == 2) (λ _. (refl, tt))
              (λ _.
                if_cases P (d == 3) (λ _. (refl, tt))
                  (λ _.
                    if_cases P (d == 4) (λ _. (refl, tt))
                      (λ _.
                        if_cases P (d == 5) (λ _. (refl, tt))
                          (λ _.
                            if_cases P (d == 6) (λ _. (refl, tt))
                              (λ _.
                                if_cases P (d == 7) (λ _. (refl, tt))
                                  (λ _.
                                    if_cases P (d == 8) (λ _. (refl, tt)) (λ _. (refl, tt))))))))))

show_from-All :
    (fuel n : ℕ) (rest : String)
    → All (λ c. is_digit_code c ≡ true) (codes rest)
    → All (λ c. is_digit_code c ≡ true) (codes (show_from fuel n rest))
unfolding show_from
show_from-All zero n rest h = h
show_from-All (suc fuel) n rest h =
    if_cases (λ s. All (λ c. is_digit_code c ≡ true) (codes s)) (ltb n 10)
      (λ _. append-All (digit n) rest (digit-All n) h)
      (λ _.
        show_from-All fuel (n / 10) (digit (n % 10) ++ₜ rest)
          (append-All (digit (n % 10)) rest (digit-All (n % 10)) h))

pub show-All : (n : ℕ) → All (λ c. is_digit_code c ≡ true) (codes (show n))
unfolding show
show-All n = show_from-All (n + 1) n "" tt

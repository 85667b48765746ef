-- ===== src/Matching/Score.antt =====
-- The range of the score of backend/resume_matching.py.
use native.Mathlib.Nat.{mod-lt, div-add-mod'}
use opportunity_radar.Prelude.{
  ℕ, zero, suc, ◌+◌, ◌*◌, ◌/◌, ◌%◌, ◌≤◌, ◌<◌, ◌≡◌, inl, inr, Bool-cases, Bool, filter, length, leb,
  ltb, min, max, if◌then◌else◌, arith, Text, contains, round_to, length-filter-le,
}
use opportunity_radar.Matching.{
  Posting, experience_score, location_score, weighted, rounded, job_keywords, title_terms,
  raw_score, calculate_match,
}

scaled-le : (a b c : ℕ) → a ≤ b → a * c ≤ b * c
scaled-le a b zero le = omega arith
scaled-le a b (suc c) le = omega (arith, le, scaled-le a b c le)

-- A multiple of the unit, and what is over.
rounding-le :
    (unit q r n : ℕ)
    → r < unit
    → q * unit + r ≤ n * unit
    → (if ltb (2 * r) unit then q else if ltb unit (2 * r) then q + 1 else q + q % 2) ≤ n
rounding-le unit q r n small le = elim (Bool-cases (leb (q + 1) n)) [
  | inl h ↦ ground (arith, h)
  | inr h ↦ ground (arith, h, scaled-le n q unit (ground (arith, h)), scaled-le (n + 1) q unit)
]

rounding-ge :
    (unit q r n : ℕ)
    → r < unit
    → n * unit ≤ q * unit + r
    → n ≤ (if ltb (2 * r) unit then q else if ltb unit (2 * r) then q + 1 else q + q % 2)
rounding-ge unit q r n small le = elim (Bool-cases (leb n q)) [
  | inl h ↦ ground (arith, h)
  | inr h ↦ absurd (omega (arith, small, le, scaled-le (q + 1) n unit (ground (arith, h))))
]

product_comm : (a b : ℕ) → a * b ≡ b * a
product_comm a b = omega arith

weighted-le :
    (matched keywords found terms rest : ℕ)
    → matched ≤ keywords
    → found ≤ terms
    → rest ≤ 15
    → weighted matched keywords found terms rest ≤ 100 * (max 1 keywords * max 1 terms)
unfolding weighted
weighted-le matched keywords found terms rest km ft r =
    let k = max 1 keywords in
    let t = max 1 terms in
    omega (
      arith,
      scaled-le matched k t (omega (arith, km)),
      scaled-le found t k (omega (arith, ft)),
      product_comm k t,
      scaled-le rest 15 (k * t) r,
    )

weighted-ge :
    (matched keywords found terms rest : ℕ)
    → 2 ≤ rest
    → 2 * (max 1 keywords * max 1 terms) ≤ weighted matched keywords found terms rest
unfolding weighted
weighted-ge matched keywords found terms rest r =
    omega (arith, scaled-le 2 rest (max 1 keywords * max 1 terms) r)

unit-pos : (k t : ℕ) → 0 < max 1 k * max 1 t
unit-pos k t = omega (arith, scaled-le 1 (max 1 k) (max 1 t) (omega arith))

round-within :
    (unit x low high : ℕ)
    → 0 < unit
    → low * unit ≤ x
    → x ≤ high * unit
    → (low ≤ round_to unit x) × (round_to unit x ≤ high)
round-within unit x low high pos ge le =
    let whole : x / unit * unit + x % unit ≡ x = div-add-mod' x unit in
    (
      rounding-ge unit (x / unit) (x % unit) low (mod-lt x pos) (omega (arith, whole, ge)),
      rounding-le unit (x / unit) (x % unit) high (mod-lt x pos) (omega (arith, whole, le)),
    )

capped : (n : ℕ) → 2 ≤ n → n ≤ 100 → (2 ≤ min 100 n) × (min 100 n ≤ 100) × (min 100 n ≡ n)
capped n low high = (omega (arith, low), omega arith, omega (arith, high))

rest-range :
    (has_years : Bool) (resume : Text) (job : Posting)
    → (2 ≤ experience_score has_years + location_score job resume)
      × (experience_score has_years + location_score job resume ≤ 15)
unfolding experience_score location_score
rest-range has_years resume job = ground arith

-- Whatever the resume and the job: the score is between 2 and 100, and the cap at 100 changes
-- nothing, also after rounding.
pub score_range :
    (has_years : Bool) (resume : Text) (job : Posting)
    → (2 ≤ calculate_match has_years resume job)
      × (calculate_match has_years resume job ≤ 100)
      × (calculate_match has_years resume job ≡ raw_score has_years resume job)
unfolding calculate_match raw_score rounded
score_range has_years resume job =
    let keywords = job_keywords job in
    let terms = title_terms job in
    let matched = filter (contains resume) keywords in
    let found = filter (contains resume) terms in
    let rest = experience_score has_years + location_score job resume in
    let (low, high) = rest-range has_years resume job in
    let within =
      round-within (max 1 (length keywords) * max 1 (length terms))
        (weighted (length matched) (length keywords) (length found) (length terms) rest) 2 100
        (unit-pos (length keywords) (length terms))
        (weighted-ge (length matched) (length keywords) (length found) (length terms) rest low)
        (weighted-le (length matched) (length keywords) (length found) (length terms) rest
          (length-filter-le (contains resume) keywords) (length-filter-le (contains resume) terms)
          high) in
    capped (rounded (length matched) (length keywords) (length found) (length terms) rest) within.0
      within.1

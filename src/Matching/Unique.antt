-- ===== src/Matching/Unique.antt =====
-- The different ids of a batch of backend/resume_matching.py.
use opportunity_radar.Prelude.{
  ◌≡◌, inl, inr, String, true, false, List, [], ◌∷◌, any, if_cases, arith, str_eq, eq_iff,
  Bool-cases,
}
use opportunity_radar.Matching.Service.{unique_ids}

seen-same :
    (j k : String) (seen : List String)
    → str_eq j k ≡ true
    → any (str_eq j) seen ≡ true
    → any (λ i. str_eq i k) seen ≡ true
seen-same j k [] same h = h
seen-same j k (i ∷ seen) same h = elim (Bool-cases (str_eq j i)) [
  | inl e ↦ ground (arith, eq_iff j k, eq_iff j i, eq_iff i k, same, e)
  | inr e ↦ ground (arith, seen-same j k seen same (ground (arith, h, e)))
]

pub unique_ids-any :
    (k : String) (seen job_ids : List String)
    → any (λ j. str_eq j k) seen ≡ false
    → any (λ j. str_eq j k) job_ids ≡ true
    → any (λ j. str_eq j k) (unique_ids seen job_ids) ≡ true
unfolding unique_ids
unique_ids-any k seen [] new h = h
unique_ids-any k seen (j ∷ job_ids) new h =
    if_cases (λ u. any (λ i. str_eq i k) u ≡ true) (any (str_eq j) seen)
      (λ again. elim (Bool-cases (str_eq j k)) [
        | inl e ↦ absurd (ground (arith, seen-same j k seen e again, new))
        | inr e ↦ unique_ids-any k seen job_ids new (ground (arith, h, e))
      ])
      (λ _. elim (Bool-cases (str_eq j k)) [
        | inl e ↦ ground (arith, e)
        | inr e ↦ ground (
          arith,
          e,
          unique_ids-any k (j ∷ seen) job_ids (ground (arith, e, new)) (ground (arith, h, e)),
        )
      ])

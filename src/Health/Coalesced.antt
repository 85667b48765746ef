-- ===== src/Health/Coalesced.antt =====
-- Concurrent probes in the cache of backend/health.py.
use opportunity_radar.Prelude.{
  ℕ, ◌≤◌, ◌≡◌, refl, sym, subst, ap, ◌∙◌, inl, inr, String, Bool, false, not, Option, none, some,
  List, [], ◌∷◌, if_cases, arith, any, count_if, str_eq, eq_iff, Bool-cases,
}
use opportunity_radar.Health.Cache.{
  discard, leave, new_cache, is_in_flight, look_up, arrive, store, abandon, clear, Event, arrival,
  returned, failure, clearing, World, looked, step, run, idle,
}

-- No key is twice in a list.
abbrev pub IsUnique : List String → Type 0
IsUnique [] = Unit
IsUnique (k ∷ keys) = (any (λ j. str_eq j k) keys ≡ false) × IsUnique keys

any-discard :
    (key : String) (p : String → Bool) (keys : List String)
    → any p keys ≡ false
    → any p (discard key keys) ≡ false
unfolding discard
any-discard key p [] h = refl
any-discard key p (k ∷ keys) h = ground (arith, any-discard key p keys)

discard-IsUnique : (key : String) (keys : List String) → IsUnique keys → IsUnique (discard key keys)
unfolding discard
discard-IsUnique key [] h = tt
discard-IsUnique key (k ∷ keys) h =
    if_cases IsUnique (not (str_eq k key))
      (λ _. (any-discard key (λ j. str_eq j k) keys h.0, discard-IsUnique key keys h.1))
      (λ _. discard-IsUnique key keys h.1)

discard-absent :
    (key : String) (keys : List String)
    → any (λ j. str_eq j key) keys ≡ false
    → discard key keys ≡ keys
unfolding discard
discard-absent key [] h = refl
discard-absent key (k ∷ keys) h = ground (arith, discard-absent key keys)

-- Where each key is once at most, to discard a key and to drop one of it is the same.
discard-leave :
    (key : String) (keys : List String) → IsUnique keys → discard key keys ≡ leave key keys
unfolding discard leave
discard-leave key [] h = refl
discard-leave key (k ∷ keys) h = elim (Bool-cases (str_eq k key)) [
  | inl same ↦ rw same (
      discard-absent key keys
        (subst (λ j. any (λ i. str_eq i j) keys ≡ false) ((eq_iff k key).0 same) h.0))
  | inr other ↦ rw other (ap (λ (r : List String). k ∷ r) (discard-leave key keys h.1))
]

none-count {ℓ} : {A : Type ℓ} (p : A → Bool) (xs : List A) → any p xs ≡ false → count_if p xs ≡ 0
none-count p [] h = refl
none-count p (x ∷ xs) h = ground (arith, none-count p xs)

unique-count :
    (key : String) (keys : List String) → IsUnique keys → count_if (λ k. str_eq k key) keys ≤ 1
unique-count key [] h = omega arith
unique-count key (k ∷ keys) h = elim (Bool-cases (str_eq k key)) [
  | inl same ↦
      let alone =
        none-count (λ j. str_eq j key) keys
          (subst (λ j. any (λ i. str_eq i j) keys ≡ false) ((eq_iff k key).0 same) h.0) in
      rw same (omega (arith, alone))
  | inr other ↦ rw other (omega (arith, unique-count key keys h.1))
]

module _ {R : Type 0} (ttl : ℕ) where
  -- The threads in the checker are those that the cache knows of, one for each key.
  pub record IsCoalesced (w : World R) : Type 0 where
    pub known : w.probing ≡ w.cache.in_flight
    pub unique : IsUnique w.cache.in_flight

  look-IsCoalesced :
      (key : String) (o : Option R) (w : World R)
      → IsCoalesced w
      → IsCoalesced (looked ttl key (look_up key o w.cache) w)
  unfolding look_up looked is_in_flight
  look-IsCoalesced key (some r) w h = record { known = h.known; unique = h.unique }
  look-IsCoalesced key none w h = elim (Bool-cases (is_in_flight key w.cache)) [
    | inl busy ↦ rw (busy, looked) record { known = h.known; unique = h.unique }
    | inr free ↦
        rw (free, looked)
          record { known = ap (λ (k : List String). key ∷ k) h.known; unique = (free, h.unique) }
  ]

  step-IsCoalesced : (e : Event R) (w : World R) → IsCoalesced w → IsCoalesced (step ttl e w)
  unfolding step arrive store abandon clear
  step-IsCoalesced (arrival key now) w h = look-IsCoalesced key _ w h
  step-IsCoalesced (returned key now r) w h =
      if_cases IsCoalesced (any (λ k. str_eq k key) w.probing)
        (λ _. record {
          known = ap (leave key) h.known ∙ sym (discard-leave key w.cache.in_flight h.unique);
          unique = discard-IsUnique key w.cache.in_flight h.unique;
        })
        (λ _. h)
  step-IsCoalesced (failure key) w h =
      if_cases IsCoalesced (any (λ k. str_eq k key) w.probing)
        (λ _. record {
          known = ap (leave key) h.known ∙ sym (discard-leave key w.cache.in_flight h.unique);
          unique = discard-IsUnique key w.cache.in_flight h.unique;
        })
        (λ _. h)
  step-IsCoalesced clearing w h = record { known = h.known; unique = h.unique }

  run-IsCoalesced :
      (events : List (Event R)) (w : World R) → IsCoalesced w → IsCoalesced (run ttl events w)
  unfolding run
  run-IsCoalesced [] w h = h
  run-IsCoalesced (e ∷ events) w h = run-IsCoalesced events (step ttl e w) (step-IsCoalesced e w h)

  -- In whatever order threads ask, probe, return, raise and clear: at any time at most one thread
  -- probes for a key, and the cache knows which keys are probed for.
  pub one_probe :
      (events : List (Event R)) (key : String)
      → (count_if (λ k. str_eq k key) (run ttl events idle).probing ≤ 1)
        × ((run ttl events idle).probing ≡ (run ttl events idle).cache.in_flight)
  unfolding idle new_cache
  one_probe events key =
      let h = run-IsCoalesced events idle record { known = refl; unique = tt } in
      (
        subst (λ keys. count_if (λ k. str_eq k key) keys ≤ 1) (sym h.known)
            (unique-count key (run ttl events idle).cache.in_flight h.unique),
        h.known,
      )

-- ===== src/Health/Fresh.antt =====
-- What the cache of backend/health.py serves, in whatever order threads use it.
use opportunity_radar.Prelude.{
  ℕ, ◌+◌, ◌<◌, ◌≡◌, refl, sym, subst, ap, inl, inr, String, Option, none, some, List, [], ◌∷◌, ltb,
  if_cases, arith, any, All, Dict, lookup, put, remove, lookup-put, lookup-remove, str_eq, eq_iff,
  Bool-cases,
}
use opportunity_radar.Health.Cache.{
  ReadinessCache, Look, served, new_cache, is_in_flight, current, look_up, arrive, store, abandon,
  clear, Event, arrival, returned, failure, clearing, World, looked, step, run, idle,
}

or_else {ℓ} : {A : Type ℓ} → A → Option A → A
or_else d none = d
or_else d (some a) = a

served_result : {R : Type 0} → Look R → Option R
served_result (served r) = some r
served_result _ = none

look_up-served :
    {R : Type 0} (key : String) (o : Option R) (c : ReadinessCache R) (r : R)
    → (look_up key o c).0 ≡ served r
    → o ≡ some r
unfolding look_up served_result
look_up-served key (some s) c r e = ap served_result e
look_up-served key none c r e = elim (Bool-cases (is_in_flight key c)) [
  | inl busy ↦ cc (rw busy at e)
  | inr free ↦ cc (rw free at e)
]

module _ {R : Type 0} (ttl : ℕ) where
  module _ (Probed : String → ℕ → R → Type 0) where
    -- A probe that returns has the result that it was meant to have.
    abbrev pub IsHonest : Event R → Type 0
    IsHonest (arrival key now) = Unit
    IsHonest (returned key now r) = Probed key now r
    IsHonest (failure key) = Unit
    IsHonest clearing = Unit

    -- An entry is the result of a probe, and expires a lifetime after it.
    abbrev pub IsProbed : String → Option (ℕ × R) → Type 0
    IsProbed key none = Unit
    IsProbed key (some (expires_at, r)) = (t : ℕ) × (expires_at ≡ t + ttl) × Probed key t r

    AllProbed : Dict (ℕ × R) → Type 0
    AllProbed entries = (key : String) → IsProbed key (lookup key entries)

    remove-AllProbed : (key : String) (d : Dict (ℕ × R)) → AllProbed d → AllProbed (remove key d)
    unfolding AllProbed
    remove-AllProbed key d h j =
        subst (IsProbed j) (sym (lookup-remove key j d))
          (if_cases (IsProbed j) (str_eq key j) (λ _. tt) (λ _. h j))

    put-AllProbed :
        (key : String) (now : ℕ) (r : R) (d : Dict (ℕ × R))
        → Probed key now r
        → AllProbed d
        → AllProbed (put key (now + ttl, r) d)
    unfolding AllProbed
    put-AllProbed key now r d new h j =
        subst (IsProbed j) (sym (lookup-put key j (now + ttl, r) d)) (
          if_cases (IsProbed j) (str_eq key j)
            (λ same. (now, refl, subst (λ k. Probed k now r) ((eq_iff key j).0 same) new))
            (λ _. h j))

    look-AllProbed :
        (key : String) (o : Option R) (w : World R)
        → AllProbed w.cache.entries
        → AllProbed (looked ttl key (look_up key o w.cache) w).cache.entries
    unfolding look_up looked
    look-AllProbed key (some r) w h = h
    look-AllProbed key none w h = elim (Bool-cases (is_in_flight key w.cache)) [
      | inl busy ↦ rw (busy, looked) (remove-AllProbed key w.cache.entries h)
      | inr free ↦ rw (free, looked) (remove-AllProbed key w.cache.entries h)
    ]

    step-AllProbed :
        (e : Event R) (w : World R)
        → IsHonest e
        → AllProbed w.cache.entries
        → AllProbed (step ttl e w).cache.entries
    unfolding step arrive store abandon clear AllProbed lookup
    step-AllProbed (arrival key now) w ok h = look-AllProbed key _ w h
    step-AllProbed (returned key now r) w ok h =
        if_cases (λ (v : World R). AllProbed v.cache.entries) (any (λ k. str_eq k key) w.probing)
          (λ _. put-AllProbed key now r w.cache.entries ok h) (λ _. h)
    step-AllProbed (failure key) w ok h =
        if_cases (λ (v : World R). AllProbed v.cache.entries) (any (λ k. str_eq k key) w.probing)
          (λ _. h) (λ _. h)
    step-AllProbed clearing w ok h = λ j. tt

    run-AllProbed :
        (events : List (Event R)) (w : World R)
        → All IsHonest events
        → AllProbed w.cache.entries
        → AllProbed (run ttl events w).cache.entries
    unfolding run
    run-AllProbed [] w ok h = h
    run-AllProbed (e ∷ events) w ok h =
        run-AllProbed events (step ttl e w) ok.1 (step-AllProbed e w ok.0 h)

    current-fresh :
        (key : String) (now : ℕ) (o : Option (ℕ × R)) (r : R)
        → IsProbed key o
        → current now o ≡ some r
        → (t : ℕ) × (now < t + ttl) × Probed key t r
    unfolding current or_else
    current-fresh key now none r h e = cc
    current-fresh key now (some (expires_at, x)) r (t, at_ttl, probed) e =
        elim (Bool-cases (ltb now expires_at)) [
          | inl fresh ↦
              let same : some x ≡ some r = rw fresh at e in
              (t, ground (arith, fresh, at_ttl), subst (Probed key t) (ap (or_else x) same) probed)
          | inr old ↦ cc (rw old at e)
        ]

    -- In whatever order threads use the cache: a result that is served without a probe is one that a
    -- probe for the same key has returned, less than the lifetime ago.
    pub served_fresh :
        (events : List (Event R)) (key : String) (now : ℕ) (r : R)
        → All IsHonest events
        → (arrive key now (run ttl events idle).cache).0 ≡ served r
        → (t : ℕ) × (now < t + ttl) × Probed key t r
    unfolding arrive idle new_cache AllProbed lookup
    served_fresh events key now r ok e =
        let c = (run ttl events idle).cache in
        current-fresh key now (lookup key c.entries) r (run-AllProbed events idle ok (λ j. tt) key)
          (look_up-served key (current now (lookup key c.entries)) c r e)

-- ===== src/Auth/Cached.antt =====
-- The identity cache of backend/blueash_auth.py: its size, what it gives out, and what it forgets.
use opportunity_radar.Prelude.{
  ℕ, ◌+◌, ◌≤◌, ◌≡◌, inl, inr, subst, refl, String, true, false, not, Option, none, some, [], ◌∷◌,
  ltb, leb, str_eq, eq_refl, if_cases, arith, Text, length, Dict, lookup, put, remove,
  length-remove-le, length-put-le, Bool-cases, Option-cases,
}
use opportunity_radar.Auth.{
  Result, done, unauthenticated, unauthorized, unavailable, misconfigured, unexpected,
}
use opportunity_radar.Auth.Portal.{
  Python, PortalSettings, PortalResponse, valid_opaque_value, is_portal,
}
use opportunity_radar.Auth.Identity.{Identity, Session}
use opportunity_radar.Auth.Session.{
  CachedIdentity, Cache, Clocks, found, look, earlier, oldest, drop_oldest, has_key, keep,
  success_ttl, ask, remember, looked, is_local, introspect,
}

-- Sizes.
length-put-present {ℓ} :
    {V : Type ℓ} (k : String) (v : V) (d : Dict V)
    → (w : V) → lookup k d ≡ some w
    → length (put k v d) ≡ length d
unfolding lookup put
length-put-present k v [] w e = cc
length-put-present k v ((j, x) ∷ d) w e = elim (Bool-cases (str_eq j k)) [
  | inl h ↦ rw (h, put) refl
  | inr h ↦ rw (h, put) (omega (arith, length-put-present k v d w (rw (h, lookup) at e)))
]

length-remove-present {ℓ} :
    {V : Type ℓ} (k : String) (d : Dict V)
    → (w : V) → lookup k d ≡ some w
    → length (remove k d) + 1 ≤ length d
unfolding lookup remove
length-remove-present k [] w e = cc
length-remove-present k ((j, x) ∷ d) w e = elim (Bool-cases (str_eq j k)) [
  | inl h ↦ rw (h, remove) (omega (arith, length-remove-le k d))
  | inr h ↦ rw (h, remove) (omega (arith, length-remove-present k d w (rw (h, lookup) at e)))
]

-- The oldest key is a key.
abbrev IsKey : Option (String × ℕ) → Cache → Type 0
IsKey none d = d ≡ []
IsKey (some (k, e)) d = (c : CachedIdentity) × (lookup k d ≡ some c)

earlier-IsKey :
    (k : String) (c : CachedIdentity) (d : Cache) (o : Option (String × ℕ))
    → IsKey o d
    → IsKey (some (earlier k c o)) ((k, c) ∷ d)
unfolding earlier lookup
earlier-IsKey k c d none h = (c, rw (eq_refl k, lookup) refl)
earlier-IsKey k c d (some (j, e)) (x, h) =
    if_cases (λ p. IsKey (some p) ((k, c) ∷ d)) (leb c.expires_at_monotonic e)
      (λ _. (c, rw (eq_refl k, lookup) refl))
      (λ _. elim (Bool-cases (str_eq k j)) [
        | inl same ↦ (c, rw (same, lookup) refl)
        | inr other ↦ (x, rw (other, lookup) h)
      ])

oldest-IsKey : (d : Cache) → IsKey (oldest d) d
unfolding oldest
oldest-IsKey [] = refl
oldest-IsKey ((k, c) ∷ d) = earlier-IsKey k c d (oldest d) (oldest-IsKey d)

drop_oldest-shorter :
    (d : Cache) (o : Option (String × ℕ))
    → IsKey o d
    → 1 ≤ length d
    → length (drop_oldest o d) + 1 ≤ length d
unfolding drop_oldest
drop_oldest-shorter d none h le =
    let none_left : 1 ≤ 0 = subst (λ x. 1 ≤ length x) h le in omega (arith, none_left)
drop_oldest-shorter d (some (k, e)) (c, h) le = length-remove-present k d c h

room-le : (n : ℕ) → leb 2_048 n ≡ false → n + 1 ≤ 2_048
room-le n h = ground arith

full-le : (n : ℕ) → leb 2_048 n ≡ true → 1 ≤ n
full-le n h = ground arith

keep-bounded :
    (key : String) (c : CachedIdentity) (d : Cache)
    → length d ≤ 2_048
    → length (keep key c d) ≤ 2_048
unfolding keep has_key
keep-bounded key c d le = elim (Option-cases (lookup key d)) [
  | inr (x, h) ↦ rw (h, keep) (omega (arith, length-put-present key c d x h, le))
  | inl h ↦
      rw (h, keep)
        (if_cases (λ r. length (put key c r) ≤ 2_048) (leb 2_048 (length d))
          (λ full. omega (
            arith,
            length-put-le key c (drop_oldest (oldest d) d),
            drop_oldest-shorter d (oldest d) (oldest-IsKey d) (full-le (length d) full),
            le,
          ))
          (λ room. omega (arith, length-put-le key c d, room-le (length d) room)))
]

abbrev Small : Cache → Type 0
Small d = length d ≤ 2_048

remember-bounded :
    (settings : PortalSettings) (key : String) (w : Clocks) (r : Result Session) (d : Cache)
    → length d ≤ 2_048
    → length (remember settings key w r d).1 ≤ 2_048
unfolding remember
remember-bounded settings key w (done (i, idle, absolute)) d le =
    if_cases Small (ltb 0 (success_ttl settings w.wall_after idle absolute))
      (λ _. keep-bounded key _ d le) (λ _. le)
remember-bounded settings key w unauthenticated d le = le
remember-bounded settings key w unauthorized d le = le
remember-bounded settings key w unavailable d le = le
remember-bounded settings key w misconfigured d le = le
remember-bounded settings key w unexpected d le = le

abbrev SmallIn : {A : Type 0} → A × Cache → Type 0
SmallIn r = length r.1 ≤ 2_048

module _ (py : Python) (settings : PortalSettings) (token : Text) (w : Clocks)
    (answer : Option PortalResponse) (others : Cache → Cache) where
  looked-bounded :
      (o : Option Identity) (d : Cache)
      → length d ≤ 2_048
      → ((d : Cache) → length d ≤ 2_048 → length (others d) ≤ 2_048)
      → length (looked py settings (py.sha256 token) w answer others (o, d)).1 ≤ 2_048
  unfolding looked
  looked-bounded none d le keeps =
      remember-bounded settings (py.sha256 token) w (ask py settings w.wall answer) (others d)
        (keeps d le)
  looked-bounded (some i) d le keeps = le

  found-le :
      (o : Option CachedIdentity) (d : Cache)
      → length d ≤ 2_048
      → length (found (py.sha256 token) w.monotonic_before o d).1 ≤ 2_048
  unfolding found
  found-le none d le = omega (arith, length-remove-le (py.sha256 token) d, le)
  found-le (some c) d le =
      if_cases SmallIn (ltb w.monotonic_before c.expires_at_monotonic) (λ _. le)
        (λ _. omega (arith, length-remove-le (py.sha256 token) d, le))

  -- Whatever the portal answers, `introspect` leaves at most 2,048 entries in a cache that has no
  -- more, if that is so for what other threads do to it meanwhile.
  pub introspect-bounded :
      (d : Cache)
      → length d ≤ 2_048
      → ((d : Cache) → length d ≤ 2_048 → length (others d) ≤ 2_048)
      → length (introspect py settings token w answer others d).1 ≤ 2_048
  unfolding introspect look
  introspect-bounded d le keeps =
      let start = look (py.sha256 token) w.monotonic_before d in
      if_cases SmallIn (not settings.is_valid) (λ _. le)
        (λ _.
          if_cases SmallIn (is_local settings.mode) (λ _. le)
            (λ _.
              if_cases SmallIn (not (is_portal settings.mode)) (λ _. le)
                (λ _.
                  if_cases SmallIn (not (valid_opaque_value token)) (λ _. le)
                    (λ _.
                      looked-bounded start.0 start.1 (found-le (lookup (py.sha256 token) d) d le)
                        keeps))))

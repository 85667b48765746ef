-- ===== src/Auth/Vouched.antt =====
-- What `_identity_from_introspection` of backend/blueash_auth.py lets pass.
-- Points in time are in milliseconds.
use mathlib.Core.Option
use opportunity_radar.Prelude.{
  ℕ, suc, refl, Bool-cases, ◌+◌, ◌*◌, ◌≤◌, ◌<◌, ◌≡◌, ◌⊎◌, inl, inr, true, false, not, ◌||◌, Option,
  none, some, List, [], ◌∷◌, ltb, if_cases, arith, Text, codes, text_eq, text_eq→eq, length, Dict,
}
use opportunity_radar.Auth.{Result, done, Value, texts}
use opportunity_radar.Auth.ReturnPath.{is_empty}
use opportunity_radar.Auth.Portal.{Python, PortalSettings}
use opportunity_radar.Auth.Identity.{
  Claims, Session, permission_texts, read_permissions, is_role, is_malformed, is_expired,
  identity_of, check_claims, identity_of_claims, read_claims, identity_from_introspection,
}

-- What an identity must be, to be returned.
pub record Vouched (settings : PortalSettings) (now : ℕ) (s : Session) : Type 0 where
  pub known_role : (s.0.role ≡ codes "ADMINISTRATOR") ⊎ (s.0.role ≡ codes "USER")
  pub named : is_empty s.0.username ≡ false
  pub with_id : is_empty s.0.id ≡ false
  pub few_permissions : length s.0.permissions ≤ 256
  pub not_bypassed : s.0.development_bypass ≡ false
  pub unexpired : now < s.1
  pub ordered : s.1 ≤ s.2
  pub idle_bound : s.1 ≤ now + 1_000 * (settings.session_idle_seconds + 60)
  pub absolute_bound : s.2 ≤ now + 1_000 * (settings.session_absolute_max_seconds + 60)

abbrev FewTexts : ℕ → Option (List Text) → Type 0
FewTexts n none = Unit
FewTexts n (some ts) = length ts ≤ n

FewTexts-cons :
    (t : Text) (n : ℕ) (o : Option (List Text))
    → FewTexts n o
    → FewTexts (suc n) (Option.map (λ ts. t ∷ ts) o)
FewTexts-cons t n none h = tt
FewTexts-cons t n (some ts) h = omega (arith, h)

permission_texts-FewTexts : (vs : List (Option Text)) → FewTexts (length vs) (permission_texts vs)
unfolding permission_texts
permission_texts-FewTexts [] = omega arith
permission_texts-FewTexts (none ∷ vs) = tt
permission_texts-FewTexts (some t ∷ vs) =
    if_cases (FewTexts (suc (length vs))) (is_empty t || ltb 256 (length t)) (λ _. tt)
      (λ _. FewTexts-cons t (length vs) (permission_texts vs) (permission_texts-FewTexts vs))

FewTexts-le : (n m : ℕ) (o : Option (List Text)) → n ≤ m → FewTexts n o → FewTexts m o
FewTexts-le n m none le h = tt
FewTexts-le n m (some ts) le h = omega (arith, le, h)

read_permissions-FewTexts : (v : Value) → FewTexts 256 (read_permissions v)
unfolding read_permissions
read_permissions-FewTexts (texts vs) =
    if_cases (FewTexts 256) (ltb 256 (length vs)) (λ _. tt)
      (λ h.
        FewTexts-le (length vs) 256 (permission_texts vs) (ground arith)
          (permission_texts-FewTexts vs))
read_permissions-FewTexts v = tt

is_role-lem :
    (role : Text) → is_role role ≡ true → (role ≡ codes "ADMINISTRATOR") ⊎ (role ≡ codes "USER")
unfolding is_role
is_role-lem role h = elim (Bool-cases (text_eq role (codes "ADMINISTRATOR"))) [
  | inl e ↦ inl (text_eq→eq role (codes "ADMINISTRATOR") e)
  | inr e ↦ inr (text_eq→eq role (codes "USER") (ground (arith, e)))
]

module _ (py : Python) (settings : PortalSettings) (now : ℕ) where
  abbrev pub SoundSession : Result Session → Type 0
  SoundSession (done s) = Vouched settings now s
  SoundSession r = Unit

  identity_of-Vouched :
      (c : Claims) (permissions : List Text)
      → length permissions ≤ 256
      → is_role c.role ≡ true
      → is_malformed py c ≡ false
      → is_expired settings now c ≡ false
      → Vouched settings now
          (identity_of py c permissions, c.idle_expires_at, c.absolute_expires_at)
  unfolding identity_of is_malformed is_expired
  identity_of-Vouched c permissions few role whole live = record {
    known_role = is_role-lem c.role role;
    named = ground arith;
    with_id = ground arith;
    few_permissions = few;
    not_bypassed = refl;
    unexpired = ground arith;
    ordered = ground arith;
    idle_bound = ground arith;
    absolute_bound = ground arith;
  }

  check_claims-SoundSession :
      (c : Claims) (o : Option (List Text))
      → FewTexts 256 o
      → SoundSession (check_claims py settings now c o)
  unfolding check_claims
  check_claims-SoundSession c none few = tt
  check_claims-SoundSession c (some permissions) few =
      if_cases SoundSession (not (text_eq c.application_slug settings.client_id)) (λ _. tt)
        (λ _.
          if_cases SoundSession (not (is_role c.role)) (λ _. tt)
            (λ role.
              if_cases SoundSession (is_malformed py c) (λ _. tt)
                (λ whole.
                  if_cases SoundSession (is_expired settings now c)
                    {y = done
                      (identity_of py c permissions, c.idle_expires_at, c.absolute_expires_at)}
                    (λ _. tt)
                    (λ live. identity_of-Vouched c permissions few (ground arith) whole live))))

  identity_of_claims-SoundSession :
      (o : Option Claims) → SoundSession (identity_of_claims py settings now o)
  unfolding identity_of_claims
  identity_of_claims-SoundSession none = tt
  identity_of_claims-SoundSession (some c) =
      check_claims-SoundSession c (read_permissions c.permissions)
        (read_permissions-FewTexts c.permissions)

  pub identity_from_introspection-SoundSession :
      (payload : Dict Value) → SoundSession (identity_from_introspection py settings now payload)
  unfolding identity_from_introspection
  identity_from_introspection-SoundSession payload =
      identity_of_claims-SoundSession (read_claims py payload)

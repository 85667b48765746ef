-- ===== src/Server.antt =====
-- server.py: which requests reach a handler, and the end of a sign-in. The portal's answers, the
-- configuration and what `_auth_state_location` makes of an URL are arguments.
pub mod Callback
pub mod SignIn
mod Tests
use opportunity_radar.Prelude.{
  ℕ, ◌≡◌, ◌⊎◌, inl, inr, refl, sym, String, Bool, true, false, not, ◌&&◌, ◌||◌, Option, none, some,
  List, [], ◌∷◌, str_eq, if◌then◌else◌, if_cases, arith, Text, codes, text_eq, starts_with, any,
  eq_iff,
}
use opportunity_radar.Auth.{
  Result, done, unauthenticated, unauthorized, unavailable, misconfigured, unexpected,
}
use opportunity_radar.Auth.Portal.{Python}
use opportunity_radar.Auth.Identity.{Identity, is_administrator, is_trusted_initial_administrator}

-- What the middleware reads of a request; `origin` has no trailing slash.
pub record HttpRequest : Type 0 where
  pub path : Text
  pub method : String
  pub origin : Text

-- A response of the middleware itself, an exception that it does not handle, or the handler's turn,
-- with `request.state.identity`. `clears_session` is `clear_session_cookie`.
pub data Passage : Type 0 where
  answered : (status : ℕ) → (clears_session : Bool) → Passage
  crashed : Passage
  handled : (identity : Option Identity) → Passage

-- _PUBLIC_API_PATHS
is_public : Text → Bool
is_public path = any (text_eq path) (
    codes "/api/health"
    ∷ codes "/api/auth/start"
    ∷ codes "/api/auth/callback"
    ∷ codes "/api/auth/session"
    ∷ codes "/api/auth/logout"
    ∷ [])

unfoldable pub is_guarded : Text → Bool
unfolding is_public
is_guarded path = starts_with path (codes "/api") && not (is_public path)

unfoldable pub is_mutating : String → Bool
is_mutating method =
    str_eq method "POST" || str_eq method "PUT" || str_eq method "PATCH" || str_eq method "DELETE"

-- The test of the origin, and the handler.
unfoldable pub check_origin :
    (is_handoff : Bool) → (public_origin : Text) → HttpRequest → Option Identity → Passage
unfolding is_mutating
check_origin is_handoff public_origin r identity =
    if is_handoff && is_mutating r.method && not (text_eq r.origin public_origin)
    then answered 403 false
    else handled identity

-- What `authenticate` comes to, on a guarded path.
unfoldable pub admit_identity :
    (is_handoff : Bool) → (public_origin : Text) → HttpRequest → Result Identity → Passage
unfolding check_origin
admit_identity is_handoff public_origin r (done identity) =
    check_origin is_handoff public_origin r (some identity)
admit_identity is_handoff public_origin r unauthenticated = answered 401 true
admit_identity is_handoff public_origin r unauthorized = answered 403 false
admit_identity is_handoff public_origin r unavailable = answered 503 false
admit_identity is_handoff public_origin r misconfigured = answered 503 false
admit_identity is_handoff public_origin r unexpected = crashed

-- `production_security`; `outcome` is what `authenticate` returns for the session cookie.
unfoldable pub production_security :
    (is_handoff : Bool)
    → (public_origin : Text) → (outcome : Result Identity) → HttpRequest
    → Passage
unfolding is_guarded admit_identity check_origin
production_security is_handoff public_origin outcome r =
    if is_guarded r.path
    then admit_identity is_handoff public_origin r outcome
    else check_origin is_handoff public_origin r none

-- `require_administrator`: the identity, or a status.
pub data Guarded : Type 0 where
  allowed : Identity → Guarded
  refused : (status : ℕ) → Guarded

unfoldable pub require_administrator :
    Python
    → (is_production is_development_local : Bool) → (trusted_id : Text) → Option Identity
    → Guarded
unfolding is_administrator is_trusted_initial_administrator
require_administrator py is_production is_development_local trusted_id none = refused 401
require_administrator py is_production is_development_local trusted_id (some i) =
    if (if is_production
      then is_trusted_initial_administrator py is_development_local trusted_id i
      else is_administrator is_development_local i)
    then allowed i
    else refused 403

-- A handler that runs: its path is not guarded, or its identity is the one that `authenticate`
-- returned; and it is not a mutating method from elsewhere in the portal mode.
pub record IsAdmitted (is_handoff : Bool) (public_origin : Text) (outcome : Result Identity)
    (r : HttpRequest) (identity : Option Identity) : Type 0 where
  pub known :
      (is_guarded r.path ≡ false) ⊎ ((i : Identity) × (outcome ≡ done i) × (identity ≡ some i))
  pub same_origin :
      (is_handoff && is_mutating r.method && not (text_eq r.origin public_origin)) ≡ false

handled_injective : (a b : Option Identity) → handled a ≡ handled b → a ≡ b
handled_injective a b e = cc e

check_origin-handled :
    (is_handoff : Bool) (public_origin : Text) (r : HttpRequest) (o identity : Option Identity)
    → check_origin is_handoff public_origin r o ≡ handled identity
    → (o ≡ identity)
      × ((is_handoff && is_mutating r.method && not (text_eq r.origin public_origin)) ≡ false)
unfolding check_origin
check_origin-handled is_handoff public_origin r o identity =
    let refuses = is_handoff && is_mutating r.method && not (text_eq r.origin public_origin) in
    if_cases (λ x. x ≡ handled identity → (o ≡ identity) × (refuses ≡ false)) refuses (λ _ e. cc e)
      (λ ok e. (handled_injective o identity e, ok))

guarded-IsAdmitted :
    (is_handoff : Bool) (public_origin : Text) (outcome : Result Identity) (r : HttpRequest)
    (identity : Option Identity)
    → admit_identity is_handoff public_origin r outcome ≡ handled identity
    → IsAdmitted is_handoff public_origin outcome r identity
unfolding admit_identity
guarded-IsAdmitted is_handoff public_origin (done i) r identity e =
    let (same, origin) = check_origin-handled is_handoff public_origin r (some i) identity e in
    record { known = inr (i, refl, sym same); same_origin = origin }
guarded-IsAdmitted is_handoff public_origin unauthenticated r identity e = cc e
guarded-IsAdmitted is_handoff public_origin unauthorized r identity e = cc e
guarded-IsAdmitted is_handoff public_origin unavailable r identity e = cc e
guarded-IsAdmitted is_handoff public_origin misconfigured r identity e = cc e
guarded-IsAdmitted is_handoff public_origin unexpected r identity e = cc e

open-IsAdmitted :
    (is_handoff : Bool) (public_origin : Text) (outcome : Result Identity) (r : HttpRequest)
    (identity : Option Identity)
    → is_guarded r.path ≡ false
    → check_origin is_handoff public_origin r none ≡ handled identity
    → IsAdmitted is_handoff public_origin outcome r identity
open-IsAdmitted is_handoff public_origin outcome r identity public e = record {
  known = inl public;
  same_origin = (check_origin-handled is_handoff public_origin r none identity e).1;
}

-- A handler runs only in these cases: its path is not under /api, or is one of the five public
-- ones, or `authenticate` returned an identity, which is then the request's. And in the portal mode
-- a POST, PUT, PATCH or DELETE reaches a handler only from the public origin.
pub production_security-IsAdmitted :
    (is_handoff : Bool) (public_origin : Text) (outcome : Result Identity) (r : HttpRequest)
    (identity : Option Identity)
    → production_security is_handoff public_origin outcome r ≡ handled identity
    → IsAdmitted is_handoff public_origin outcome r identity
unfolding production_security
production_security-IsAdmitted is_handoff public_origin outcome r identity =
    if_cases (λ x. x ≡ handled identity → IsAdmitted is_handoff public_origin outcome r identity)
      (is_guarded r.path) (λ _. guarded-IsAdmitted is_handoff public_origin outcome r identity)
      (λ public. open-IsAdmitted is_handoff public_origin outcome r identity public)

-- ===== src/Auth.antt =====
-- backend/blueash_auth.py: sign-in through the Blue Ash portal. Texts are lists of code points.
-- What Python's urllib, uuid, datetime, json, base64, hmac and hashlib answer enters by records,
-- as arguments; so do the portal's answers and the clocks.
pub mod ReturnPath
pub mod LocalPath
pub mod Handoff
pub mod Signed
pub mod Accepted
pub mod RoundTrip
pub mod NonAscii
pub mod Portal
pub mod Exchange
pub mod Identity
pub mod Vouched
pub mod Session
pub mod Cached
pub mod Source
mod Tests
mod PortalTests
use opportunity_radar.Prelude.{ℕ, Bool, Option, List, Text, Dict}

-- urlsplit
pub record UrlParts : Type 0 where
  pub scheme : Text
  pub netloc : Text
  pub path : Text
  pub query : Text
  pub fragment : Text

-- urllib.parse: `unquote`, and `urlsplit`, which may raise `ValueError`.
pub record Urllib : Type 0 where
  pub unquote : Text → Text
  pub urlsplit : Text → Option UrlParts

-- What an operation returns or raises: a `BlueAshAuthenticationError`, a
-- `BlueAshAuthorizationError`, a `BlueAshUnavailableError`, a `BlueAshConfigurationError`, or an
-- exception of another class, which no caller expects.
pub data Result (A : Type 0) : Type 0 where
  done : A → Result A
  unauthenticated : Result A
  unauthorized : Result A
  unavailable : Result A
  misconfigured : Result A
  unexpected : Result A

-- The next statement, after one that did not raise.
unfoldable pub and_then : {A B : Type 0} → Result A → (A → Result B) → Result B
and_then (done a) next = next a
and_then unauthenticated next = unauthenticated
and_then unauthorized next = unauthorized
and_then unavailable next = unavailable
and_then misconfigured next = misconfigured
and_then unexpected next = unexpected

-- A JSON value, as far as the code looks into it: a float by its `repr`, a list's entries that are
-- no text as `none`, no contents of an object inside another.
pub data Value : Type 0 where
  null : Value
  boolean : Bool → Value
  number : ℕ → Value
  negative : ℕ → Value
  float : Text → Value
  text : Text → Value
  texts : List (Option Text) → Value
  nested : Value

-- json.loads: it raises, it returns an object, or another value.
pub data Loaded : Type 0 where
  malformed : Loaded
  object : Dict Value → Loaded
  bare : Loaded

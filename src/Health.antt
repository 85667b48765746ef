-- ===== src/Health.antt =====
-- backend/health.py: the status of the program from that of its parts, and the probe of a directory.
pub mod Probe
pub mod Cache
pub mod Coalesced
pub mod Fresh
mod Tests
use opportunity_radar.Prelude.{
  ℕ, String, Bool, true, false, not, ◌&&◌, ◌||◌, ◌≡◌, ◌↔◌, ◌≢◌, refl, inl, inr, Option, none, some,
  List, [], ◌∷◌, any, all, All, if◌then◌else◌, if_cases, arith, Bool-cases,
}

pub data Status : Type 0 where
  healthy degraded unhealthy not_checked : Status

unfoldable pub is_healthy : Status → Bool
is_healthy healthy = true
is_healthy _ = false

-- A component, as far as the status of the whole depends on it.
pub record Component : Type 0 where
  pub status : Status
  pub required : Bool

unfoldable pub required_failed : List Component → Bool
unfolding is_healthy
required_failed components =
    any (λ (c : Component). c.required && not (is_healthy c.status)) components

unfoldable pub optional_failed : List Component → Bool
unfolding is_healthy
optional_failed components =
    any (λ (c : Component). not c.required && not (is_healthy c.status)) components

unfoldable pub overall : List Component → Status
unfolding required_failed optional_failed
overall components =
    if required_failed components
    then unhealthy
    else if optional_failed components
    then degraded
    else healthy

unfoldable pub status_code : Status → ℕ
status_code unhealthy = 503
status_code _ = 200

unfoldable pub process : Component
process = record { status = healthy; required = true }

-- Without a directory for exports that component is degraded.
unfoldable pub export_storage : Option Component → Component
export_storage none = record { status = degraded; required = false }
export_storage (some c) = c

-- `check_readiness`: the status and the HTTP status code.
unfoldable pub check_readiness :
    (database data_storage : Component) → (exports : Option Component) → Status × ℕ
unfolding overall status_code process export_storage
check_readiness database data_storage exports =
    let status = overall (process ∷ database ∷ data_storage ∷ export_storage exports ∷ []) in
    (status, status_code status)

-- The readiness code depends on the required components alone: it is 200 exactly if the database and
-- the data directory are healthy, whatever the exports' state; and then the status is `healthy` only
-- if the exports are healthy too.
pub readiness_code :
    (database data_storage : Component) (exports : Option Component)
    → database.required ≡ true
    → data_storage.required ≡ true
    → (export_storage exports).required ≡ false
    → ((check_readiness database data_storage exports).1
        ≡ (if is_healthy database.status && is_healthy data_storage.status then 200 else 503))
      × (is_healthy (check_readiness database data_storage exports).0 ≡ (
          is_healthy database.status
          && is_healthy data_storage.status
          && is_healthy (export_storage exports).status))
unfolding check_readiness overall required_failed optional_failed status_code process is_healthy
readiness_code database data_storage exports d s e = ground (arith, d, s, e)

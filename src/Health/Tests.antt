-- ===== src/Health/Tests.antt =====
-- Readiness of backend/health.py at concrete states.
use opportunity_radar.Prelude.{
  ℕ, ◌+◌, ◌≤◌, ◌<◌, ◌≡◌, refl, String, true, false, some, List, [], ◌∷◌, codes, count_if, str_eq,
  lookup, put, remove,
}
use opportunity_radar.Files.{Directory, Disk}
use opportunity_radar.Health.{Component, healthy, degraded, check_readiness}
use opportunity_radar.Health.Cache.{Event, arrival, returned, served, arrive, run, idle}
use opportunity_radar.Health.Coalesced.{one_probe}
use opportunity_radar.Health.Fresh.{served_fresh}

abbrev database : Component
database = record { status = healthy; required = true }

abbrev exports : Component
exports = record { status = degraded; required = false }

stays_ready : check_readiness database database (some exports) ≡ (degraded, 200)
unfolding check_readiness
stays_ready = refl

-- Two threads ask; the first one probes, and its result is there for the third.
abbrev asked : List (Event ℕ)
asked = arrival "a" 0 ∷ arrival "a" 1 ∷ returned "a" 5 200 ∷ []

serves_it : (arrive "a" 1_000 (run 2_000 asked idle).cache).0 ≡ served 200
unfolding arrive run idle lookup put remove
serves_it = refl

one_probe_example :
    (count_if (λ k. str_eq k "a") (run 2_000 asked idle).probing ≤ 1)
    × ((run 2_000 asked idle).probing ≡ (run 2_000 asked idle).cache.in_flight)
one_probe_example = one_probe 2_000 asked "a"

-- The probe that returned.
abbrev Probed : String → ℕ → ℕ → Type 0
Probed key t r = (t ≡ 5) × (r ≡ 200)

served_fresh_example : (t : ℕ) × (1_000 < t + 2_000) × Probed "a" t 200
served_fresh_example =
    served_fresh 2_000 Probed asked "a" 1_000 200 (tt, (tt, ((refl, refl), tt))) serves_it

abbrev disk : Disk
disk = record {
  makes_directory = true;
  temporary = some ".opportunity-radar-health-x";
  closes = true;
  written = [];
  writes = false;
  syncs = true;
  replaces = true;
  unlinks = true;
}

abbrev exported : Directory
exported = ("jobs.json", codes "[]") ∷ []

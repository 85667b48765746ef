-- ===== src/Health/Cache.antt =====
-- `ReadinessCache` of backend/health.py. A probe runs between two lock sections, so the cache is
-- stepped by events; a thread that waits looks again when it is notified, which is another event.
use opportunity_radar.Prelude.{
  ℕ, ◌+◌, String, Bool, not, Option, none, some, List, [], ◌∷◌, ltb, if◌then◌else◌, any, filter,
  Dict, lookup, put, remove, str_eq,
}

-- `_entries`, with the time at which each expires, and `_in_flight`. A key is the text of its parts.
pub record ReadinessCache (R : Type 0) : Type 0 where
  pub entries : Dict (ℕ × R)
  pub in_flight : List String

-- What a thread does after the first lock section of `get`.
pub data Look (R : Type 0) : Type 0 where
  served : R → Look R
  probes : Look R
  waits : Look R

unfoldable pub discard : String → List String → List String
discard key keys = filter (λ k. not (str_eq k key)) keys

-- One thread less with this key.
unfoldable pub leave : String → List String → List String
leave key [] = []
leave key (k ∷ keys) = let rest = leave key keys in if str_eq k key then keys else k ∷ rest

module _ {R : Type 0} where
  unfoldable pub new_cache : ReadinessCache R
  new_cache = record { entries = []; in_flight = [] }

  unfoldable pub is_in_flight : String → ReadinessCache R → Bool
  is_in_flight key c = any (λ k. str_eq k key) c.in_flight

  -- An entry that has not expired.
  unfoldable pub current : (now : ℕ) → Option (ℕ × R) → Option R
  current now none = none
  current now (some (expires_at, r)) = if ltb now expires_at then some r else none

  -- The first lock section, up to where the thread returns, leaves it to probe, or waits.
  unfoldable pub look_up : String → Option R → ReadinessCache R → Look R × ReadinessCache R
  unfolding is_in_flight
  look_up key (some r) c = (served r, c)
  look_up key none c =
      let dropped : ReadinessCache R = record c { entries = remove key c.entries } in
      if is_in_flight key c
      then (waits, dropped)
      else (probes, record dropped { in_flight = key ∷ c.in_flight })

  unfoldable pub arrive : String → (now : ℕ) → ReadinessCache R → Look R × ReadinessCache R
  unfolding look_up current
  arrive key now c = look_up key (current now (lookup key c.entries)) c

  -- The second lock section, after a probe that returned.
  unfoldable pub store : (ttl : ℕ) → String → (now : ℕ) → R → ReadinessCache R → ReadinessCache R
  unfolding discard
  store ttl key now r c = record {
    entries = put key (now + ttl, r) c.entries;
    in_flight = discard key c.in_flight;
  }

  -- The same, after one that raised.
  unfoldable pub abandon : String → ReadinessCache R → ReadinessCache R
  unfolding discard
  abandon key c = record c { in_flight = discard key c.in_flight }

  -- `clear`
  unfoldable pub clear : ReadinessCache R → ReadinessCache R
  clear c = record c { entries = [] }

-- An event: a thread reaches the first lock section; one returns from the checker, or raises; or the
-- cache is cleared.
pub data Event (R : Type 0) : Type 0 where
  arrival : (key : String) → (now : ℕ) → Event R
  returned : (key : String) → (now : ℕ) → R → Event R
  failure : (key : String) → Event R
  clearing : Event R

-- The cache, and the keys of the threads that are in the checker.
pub record World (R : Type 0) : Type 0 where
  pub cache : ReadinessCache R
  pub probing : List String

module _ {R : Type 0} (ttl : ℕ) where
  unfoldable pub looked : String → Look R × ReadinessCache R → World R → World R
  looked key (served r, c) w = record w { cache = c }
  looked key (waits, c) w = record w { cache = c }
  looked key (probes, c) w = record { cache = c; probing = key ∷ w.probing }

  -- A thread leaves the checker only if it is in it.
  unfoldable pub step : Event R → World R → World R
  unfolding arrive store abandon clear leave looked
  step (arrival key now) w = looked key (arrive key now w.cache) w
  step (returned key now r) w =
      if any (λ k. str_eq k key) w.probing
      then record { cache = store ttl key now r w.cache; probing = leave key w.probing }
      else w
  step (failure key) w =
      if any (λ k. str_eq k key) w.probing
      then record { cache = abandon key w.cache; probing = leave key w.probing }
      else w
  step clearing w = record w { cache = clear w.cache }

  unfoldable pub run : List (Event R) → World R → World R
  unfolding step
  run [] w = w
  run (e ∷ events) w = run events (step e w)

-- No thread has asked yet.
unfoldable pub idle : {R : Type 0} → World R
unfolding new_cache
idle = record { cache = new_cache; probing = [] }

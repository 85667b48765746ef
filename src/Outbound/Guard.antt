-- ===== src/Outbound/Guard.antt =====
-- `install_playwright_url_guard` and `_settle_route` of backend/outbound_security.py: what happens
-- to a request of the browser.
use opportunity_radar.Prelude.{
  ℕ, ◌≤◌, ◌+◌, ◌≡◌, refl, List, [], ◌∷◌, All, filter, count_if, Bool-cases, inl, inr, Bool, true,
  false, Option, none, some, ltb, if◌then◌else◌, arith,
}

-- An intercepted request: whether it was marked as settled, whether it can be marked, and whether
-- its two commands succeed; they fail if the page is gone.
pub record Route : Type 0 where
  pub settled : Bool
  pub can_mark : Bool
  pub continues : Bool
  pub aborts : Bool

pub data Settlement : Type 0 where
  duplicate : Settlement
  continued : Settlement
  aborted : Settlement
  unsettled : Settlement

mark : Route → Route
mark r = record r { settled = r.can_mark }

-- `_settle_route`
unfoldable pub settle_route : (allow : Bool) → Route → Settlement × Route
unfolding mark
settle_route allow r =
    if r.settled
    then (duplicate, r)
    else if allow
    then ((if r.continues then continued else unsettled), mark r)
    else ((if r.aborts then aborted else unsettled), mark r)

-- How `validate_outbound_url` ends: it passes, refuses, or raises something else.
pub data Validation : Type 0 where
  passed : Validation
  refused : Validation
  crashed : Validation

-- What the `try` of the guard leaves in `allow`, and whether `on_blocked` is called; `depth` is the
-- number of redirects before the request, unless counting them raises.
unfoldable pub judge_request : (redirect_limit : ℕ) → (depth : Option ℕ) → Validation → Bool × Bool
judge_request redirect_limit none v = (false, true)
judge_request redirect_limit (some depth) passed =
    if ltb redirect_limit depth then (false, true) else (true, false)
judge_request redirect_limit (some depth) v = (false, true)

-- `guard`: how the request is settled, the route after it, and whether it was reported.
unfoldable pub guard :
    (redirect_limit : ℕ) → (depth : Option ℕ) → Validation → Route → Settlement × Route × Bool
unfolding settle_route judge_request
guard redirect_limit depth v r =
    let verdict = judge_request redirect_limit depth v in
    let s = settle_route verdict.0 r in (s.0, s.1, verdict.1)

-- What the guard finds of a request: the redirects before it, and how its validation ends.
pub record Finding : Type 0 where
  pub depth : Option ℕ
  pub validation : Validation

-- A request that may go on.
pub record IsAllowed (redirect_limit : ℕ) (f : Finding) : Type 0 where
  pub within : (n : ℕ) × (f.depth ≡ some n) × (n ≤ redirect_limit)
  pub validated : f.validation ≡ passed

judge-allowed :
    (redirect_limit : ℕ) (depth : Option ℕ) (v : Validation)
    → (judge_request redirect_limit depth v).0 ≡ true
    → ((n : ℕ) × (depth ≡ some n) × (n ≤ redirect_limit)) × (v ≡ passed)
unfolding judge_request
judge-allowed redirect_limit none v h = cc h
judge-allowed redirect_limit (some n) passed h = ((n, refl, ground arith), refl)
judge-allowed redirect_limit (some n) refused h = cc h
judge-allowed redirect_limit (some n) crashed h = cc h

settle-continued :
    (allow : Bool) (r : Route)
    → (settle_route allow r).0 ≡ continued
    → (allow ≡ true) × (r.settled ≡ false)
unfolding settle_route
settle-continued allow r h = ground (arith, h)

-- A route that can be marked is settled at most once: whatever the second call finds out, it is a
-- duplicate and leaves the route alone.
pub guard_twice :
    (limit1 limit2 : ℕ) (depth1 depth2 : Option ℕ) (v1 v2 : Validation) (r : Route)
    → r.can_mark ≡ true
    → let after = (guard limit1 depth1 v1 r).1 in
      ((guard limit2 depth2 v2 after).0 ≡ duplicate) × ((guard limit2 depth2 v2 after).1 ≡ after)
unfolding guard settle_route
guard_twice limit1 limit2 depth1 depth2 v1 v2 r can_mark = ground (arith, can_mark)

-- The guard called again and again for one route: what it finds and does each time.
unfoldable pub guard_each :
    (redirect_limit : ℕ) → List Finding → Route → List (Finding × Settlement)
unfolding guard
guard_each redirect_limit [] r = []
guard_each redirect_limit (f ∷ findings) r =
    let (settlement, after, _) = guard redirect_limit f.depth f.validation r in
    (f, settlement) ∷ guard_each redirect_limit findings after

abbrev pub is_continued : Finding × Settlement → Bool
is_continued (f, continued) = true
is_continued (f, s) = false

abbrev Allowed : ℕ → Finding × Settlement → Type 0
Allowed redirect_limit x = IsAllowed redirect_limit x.0

settled-guard :
    (limit : ℕ) (depth : Option ℕ) (v : Validation) (r : Route)
    → r.settled ≡ true
    → ((guard limit depth v r).0 ≡ duplicate) × ((guard limit depth v r).1 ≡ r)
unfolding guard settle_route
settled-guard limit depth v r h = ground (arith, h)

marked-guard :
    (limit : ℕ) (depth : Option ℕ) (v : Validation) (r : Route)
    → r.can_mark ≡ true
    → r.settled ≡ false
    → (guard limit depth v r).1.settled ≡ true
unfolding guard settle_route mark
marked-guard limit depth v r m h = ground (arith, m, h)

one_at_most : (b : Bool) (n : ℕ) → n ≡ 0 → (if b then 1 else 0) + n ≤ 1
one_at_most b n e = ground (arith, e)

module _ (redirect_limit : ℕ) where
  settled_stays :
      (findings : List Finding) (r : Route)
      → r.settled ≡ true
      → count_if is_continued (guard_each redirect_limit findings r) ≡ 0
  unfolding guard_each
  settled_stays [] r h = refl
  settled_stays (f ∷ findings) r h =
      let again = settled-guard redirect_limit f.depth f.validation r h in
      rw (again.0, again.1) (omega (arith, settled_stays findings r h))

  each_once :
      (findings : List Finding) (r : Route)
      → r.can_mark ≡ true
      → count_if is_continued (guard_each redirect_limit findings r) ≤ 1
  unfolding guard_each
  each_once [] r h = omega arith
  each_once (f ∷ findings) r h = elim (Bool-cases r.settled) [
    | inl e ↦ omega (arith, settled_stays (f ∷ findings) r e)
    | inr e ↦
        let g = guard redirect_limit f.depth f.validation r in
        one_at_most (is_continued (f, g.0)) _
          (settled_stays findings g.1 (marked-guard redirect_limit f.depth f.validation r h e))
  ]

  one-Allowed :
      (f : Finding) (r : Route) (rest : List (Finding × Settlement))
      → All (Allowed redirect_limit) rest
      → (s : Settlement) → (guard redirect_limit f.depth f.validation r).0 ≡ s
      → All (Allowed redirect_limit) (if is_continued (f, s) then (f, s) ∷ rest else rest)
  unfolding guard
  one-Allowed f r rest h continued e =
      let (allow, _) = settle-continued (judge_request redirect_limit f.depth f.validation).0 r e in
      let (within, validated) = judge-allowed redirect_limit f.depth f.validation allow in
      (record { within = within; validated = validated }, h)
  one-Allowed f r rest h duplicate e = h
  one-Allowed f r rest h aborted e = h
  one-Allowed f r rest h unsettled e = h

  each-Allowed :
      (findings : List Finding) (r : Route)
      → All (Allowed redirect_limit) (filter is_continued (guard_each redirect_limit findings r))
  unfolding guard_each
  each-Allowed [] r = tt
  each-Allowed (f ∷ findings) r =
      let g = guard redirect_limit f.depth f.validation r in
      one-Allowed f r (filter is_continued (guard_each redirect_limit findings g.1))
        (each-Allowed findings g.1) g.0 refl

  -- However often the guard is called for one route that can be marked as settled, and whatever it
  -- finds each time: the route is continued at most once. And wherever it is continued, the request
  -- has no more redirects behind it than the limit and its URL passed; so a validator that raises,
  -- and redirects that cannot be counted, let nothing by.
  pub guard-IsAllowed :
      (findings : List Finding) (r : Route)
      → r.can_mark ≡ true
      → (count_if is_continued (guard_each redirect_limit findings r) ≤ 1)
        × All
            (λ x. IsAllowed redirect_limit x.0)
            (filter is_continued (guard_each redirect_limit findings r))
  guard-IsAllowed findings r h = (each_once findings r h, each-Allowed findings r)

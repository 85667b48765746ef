-- ===== src/Schedules/Claims.antt =====
-- How often a scheduled job of backend/maintenance_scheduler.py is started.
use opportunity_radar.Prelude.{
  ℕ, ◌+◌, ◌≤◌, ◌≡◌, inl, inr, refl, String, Bool, true, false, List, [], ◌∷◌, str_eq, eq_refl,
  if◌then◌else◌, if_cases, arith, count_if, All, Bool-cases,
}
use opportunity_radar.Schedules.{
  Schedule, Claim, can_claim, claimed, update_where, can_release, released, release_occurrence,
}

abbrev pub with_key : String → List Schedule → ℕ
with_key key rows = count_if (λ r. str_eq r.job_key key) rows

-- The primary key: at most one row has it.
abbrev pub IsKeyed : String → List Schedule → Type 0
IsKeyed key rows = count_if (λ r. str_eq r.job_key key) rows ≤ 1

-- Every row of a job was scheduled for the date.
abbrev pub IsTaken : String → String → List Schedule → Type 0
IsTaken key date rows = All (λ r. str_eq r.job_key key ≡ true → r.last_scheduled_date ≡ date) rows

-- The rows of a claim's job, after the claim.
abbrev pub IsMarkedRow : Claim → Schedule → Type 0
IsMarkedRow c r =
    (r.last_scheduled_date ≡ c.local_date) × (r.updated_at ≡ c.claim_marker) × (r.enabled ≡ true)

abbrev pub IsMarked : Claim → List Schedule → Type 0
IsMarked c rows = All (λ r. str_eq r.job_key c.job_key ≡ true → IsMarkedRow c r) rows

pub no_key-All :
    (P : Schedule → Type 0) (key : String) (rows : List Schedule)
    → with_key key rows ≡ 0
    → All (λ r. str_eq r.job_key key ≡ true → P r) rows
no_key-All P key [] e = tt
no_key-All P key (r ∷ rows) e = elim (Bool-cases (str_eq r.job_key key)) [
  | inl h ↦
      let none_left : 1 + with_key key rows ≡ 0 = rw h at e in
      (λ _. absurd (omega (arith, none_left)), no_key-All P key rows (omega (arith, none_left)))
  | inr h ↦
      let none_left : 0 + with_key key rows ≡ 0 = rw h at e in
      (λ k. cc, no_key-All P key rows (omega (arith, none_left)))
]

pub can_claim-key :
    (c : Claim) (r : Schedule) → can_claim c r ≡ true → str_eq r.job_key c.job_key ≡ true
unfolding can_claim
can_claim-key c r h = ground (arith, h)

can_claim-enabled : (c : Claim) (r : Schedule) → can_claim c r ≡ true → r.enabled ≡ true
unfolding can_claim
can_claim-enabled c r h = ground (arith, h)

pub count-can_claim-le :
    (c : Claim) (rows : List Schedule) → count_if (can_claim c) rows ≤ with_key c.job_key rows
count-can_claim-le c [] = omega arith
count-can_claim-le c (r ∷ rows) = ground (arith, can_claim-key c r, count-can_claim-le c rows)

with_key-update :
    (c : Claim) (test : Schedule → Bool) (rows : List Schedule)
    → with_key c.job_key (update_where test (claimed c) rows) ≡ with_key c.job_key rows
unfolding update_where claimed
with_key-update c test [] = refl
with_key-update c test (r ∷ rows) = elim (Bool-cases (test r)) [
  | inl h ↦ rw (h, update_where, with_key-update c test rows) refl
  | inr h ↦ rw (h, update_where, with_key-update c test rows) refl
]

-- A successful claim marks the job's row.
pub claimed-IsMarked :
    (c : Claim) (rows : List Schedule)
    → with_key c.job_key rows ≤ 1
    → count_if (can_claim c) rows ≡ 1
    → IsMarked c (update_where (can_claim c) (claimed c) rows)
unfolding update_where claimed
claimed-IsMarked c [] keyed e = omega (arith, e)
claimed-IsMarked c (r ∷ rows) keyed e = elim (Bool-cases (can_claim c r)) [
  | inl h ↦
      let key = can_claim-key c r h in
      let alone : 1 + with_key c.job_key rows ≤ 1 = rw key at keyed in
      (
        rw h (λ _. (refl, refl, can_claim-enabled c r h)),
        no_key-All (IsMarkedRow c) c.job_key (update_where (can_claim c) (claimed c) rows)
            (rw (with_key-update c (can_claim c) rows) (omega (arith, alone))),
      )
  | inr h ↦
      let shifted : 0 + count_if (can_claim c) rows ≡ 1 = rw h at e in
      let later : count_if (can_claim c) rows ≡ 1 = omega (arith, shifted) in
      elim (Bool-cases (str_eq r.job_key c.job_key)) [
        | inl key ↦
            let alone : 1 + with_key c.job_key rows ≤ 1 = rw key at keyed in
            absurd (omega (arith, alone, later, count-can_claim-le c rows))
        | inr other ↦
            let others : 0 + with_key c.job_key rows ≤ 1 = rw other at keyed in
            (rw h (λ k. cc), claimed-IsMarked c rows (omega (arith, others)) later)
      ]
]

pub Marked-Taken :
    (c : Claim) (rows : List Schedule) → IsMarked c rows → IsTaken c.job_key c.local_date rows
Marked-Taken c [] h = tt
Marked-Taken c (r ∷ rows) h = (λ k. (h.0 k).0, Marked-Taken c rows h.1)

restored :
    (c : Claim) (now : String) (r : Schedule)
    → (str_eq r.job_key c.job_key ≡ true → IsMarkedRow c r)
    → (let x = (if can_release c r then released c now r else r) in
        str_eq x.job_key c.job_key ≡ true → x.last_scheduled_date ≡ c.previous_scheduled_date)
unfolding can_release released
restored c now r h =
    if_cases
      (λ (x : Schedule).
        str_eq x.job_key c.job_key ≡ true → x.last_scheduled_date ≡ c.previous_scheduled_date)
      (can_release c r) (λ _ k. refl)
      (λ no k.
        let (date, stamp, on) = h k in
        absurd (cc (rw (k, date, stamp, on, eq_refl c.local_date, eq_refl c.claim_marker) at no)))

taken-can_claim :
    (c : Claim) (r : Schedule)
    → (str_eq r.job_key c.job_key ≡ true → r.last_scheduled_date ≡ c.local_date)
    → can_claim c r ≡ false
unfolding can_claim
taken-can_claim c r h = elim (Bool-cases (str_eq r.job_key c.job_key)) [
  | inl key ↦ rw (h key, eq_refl c.local_date) (ground arith)
  | inr other ↦ ground (arith, other)
]

-- A release by the claim's own marker gives the row its former date back.
pub released-IsTaken :
    (c : Claim) (now : String) (rows : List Schedule)
    → IsMarked c rows
    → IsTaken c.job_key c.previous_scheduled_date (release_occurrence c now rows)
unfolding release_occurrence update_where released
released-IsTaken c now [] h = tt
released-IsTaken c now (r ∷ rows) h = (restored c now r h.0, released-IsTaken c now rows h.1)

-- Nothing can be claimed for a date that is taken.
pub taken-count :
    (c : Claim) (rows : List Schedule)
    → IsTaken c.job_key c.local_date rows
    → count_if (can_claim c) rows ≡ 0
taken-count c [] h = refl
taken-count c (r ∷ rows) h = ground (arith, taken-count c rows h.1, taken-can_claim c r h.0)

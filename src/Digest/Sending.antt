-- ===== src/Digest/Sending.antt =====
-- When a cycle of backend/email_scheduler.py sends the digest, and what it leaves of the gate.
use opportunity_radar.Prelude.{
  ◌≡◌, refl, inl, inr, true, Option, none, some, arith, codes, Text, eq_refl, Bool-cases,
}
use opportunity_radar.Gate.{
  Gate, Outside, ActiveOperation, acquire, release_lease, release, new_operation,
}
use opportunity_radar.Digest.{
  EmailSettings, LocalTime, Due, due_occurrence, Service, Cycle, not_due, waiting, sent, failed,
  leased_cycle, due_cycle, run_digest_once,
}

module _ {R : Type 0} (service : Service R) (zoned : Text → Option LocalTime) where
  -- A cycle that neither sent nor tried anything.
  abbrev pub Idle : Cycle R → Type 0
  Idle not_due = Unit
  Idle (waiting t) = Unit
  Idle (sent r) = ⊥
  Idle failed = ⊥

  due-waits :
      (now : Outside) (g : Gate) (a : ActiveOperation) (due : Option Due)
      → g.active ≡ some a
      → Idle (due_cycle service zoned now g due).0 × ((due_cycle service zoned now g due).1 ≡ g)
  unfolding due_cycle leased_cycle acquire
  due-waits now g a none e = (tt, refl)
  due-waits now g a (some due) e = elim (Bool-cases g.accepting) [
    | inl on ↦ rw (on, e) (tt, refl)
    | inr off ↦ rw off (tt, refl)
  ]

  -- While another operation holds the gate, a cycle sends nothing, claims nothing and leaves the
  -- gate as it is.
  pub digest_waits :
      (now : Outside) (g : Gate) (a : ActiveOperation)
      → g.active ≡ some a
      → Idle (run_digest_once service zoned now g).0 × ((run_digest_once service zoned now g).1 ≡ g)
  unfolding run_digest_once
  digest_waits now g a e = due-waits now g a (due_occurrence zoned service.settings) e

  due-frees :
      (now : Outside) (g : Gate) (due : Option Due)
      → g.active ≡ none
      → (due_cycle service zoned now g due).1.active ≡ none
  unfolding due_cycle leased_cycle acquire release_lease release
  due-frees now g none e = e
  due-frees now g (some due) e = elim (Bool-cases g.accepting) [
    | inl on ↦ ground (arith, eq_refl (new_operation (codes "scheduled-email-digest") none now).id)
    | inr off ↦ rw off e
  ]

  -- However the settings, the claim and the digest turn out, exceptions included: a gate that was
  -- free is free after the cycle.
  pub digest_frees :
      (now : Outside) (g : Gate)
      → g.active ≡ none
      → (run_digest_once service zoned now g).1.active ≡ none
  unfolding run_digest_once
  digest_frees now g e = due-frees now g (due_occurrence zoned service.settings) e

  -- What was behind a digest.
  pub record Dispatched (r : R) : Type 0 where
    pub settings : EmailSettings
    pub due : Due
    pub read_again : service.settings_again ≡ some settings
    pub still_due : due_occurrence zoned settings ≡ some due
    pub claimed : service.claims settings due.local_date ≡ some true
    pub result : service.send_digest due.scheduled_for ≡ some r

  abbrev Backed : Cycle R → Type 0
  Backed (sent r) = Dispatched r
  Backed c = Unit

  IsOpen : Gate → Type 0
  IsOpen g = (g.active ≡ none) × (g.accepting ≡ true)

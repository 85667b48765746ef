-- ===== src/Digest.antt =====
-- backend/email_scheduler.py: when the job digest is sent. The settings come from the email
-- service, whose methods are arguments; a time of day and a date are texts, as the code compares them.
pub mod Sending
mod Tests
use opportunity_radar.Prelude.{
  ℕ, String, Bool, true, false, not, ◌&&◌, ◌||◌, Option, none, some, List, [], ◌∷◌, ◌++◌, codes,
  str_eq, if◌then◌else◌, Text, text_eq, any,
}
use opportunity_radar.Gate.{
  Gate, Outside, ActiveOperation, Conflict, Result, ok, err, acquire, release_lease, MutationLease,
}
use opportunity_radar.Schedules.{text_lt}

pub record EmailSettings : Type 0 where
  pub enabled : Bool
  pub schedule_timezone : Text
  pub schedule_time : Text
  pub schedule_days : List Text
  pub last_scheduled_date : Text

-- The local time in a zone, unless the zone is not found: "%H:%M", the date, and the day's name.
pub record LocalTime : Type 0 where
  pub time : Text
  pub date : Text
  pub weekday : Text

pub record Due : Type 0 where
  pub local_date : Text
  pub scheduled_for : Text

due_at : EmailSettings → Option LocalTime → Option Due
unfolding text_lt
due_at s none = none
due_at s (some now) =
    if not (any (text_eq now.weekday) s.schedule_days)
    then none
    else if text_lt now.time s.schedule_time
    then none
    else if text_eq s.last_scheduled_date now.date
    then none
    else some record {
      local_date = now.date;
      scheduled_for =
          now.date
          ++ codes "T"
          ++ s.schedule_time
          ++ codes ":00["
          ++ s.schedule_timezone
          ++ codes "]";
    }

-- `due_occurrence`; `zoned` is the present time in a zone.
unfoldable pub due_occurrence : (zoned : Text → Option LocalTime) → EmailSettings → Option Due
unfolding due_at
due_occurrence zoned s = if s.enabled then due_at s (zoned s.schedule_timezone) else none

-- What the email service answers in a cycle: the settings before and after the lease was acquired,
-- whether the claim succeeds, and how the digest ends. `none` is an exception.
pub record Service (R : Type 0) : Type 0 where
  pub settings : EmailSettings
  pub settings_again : Option EmailSettings
  pub claims : EmailSettings → (local_date : Text) → Option Bool
  pub send_digest : (scheduled_for : Text) → Option R

-- What a cycle returns or raises.
pub data Cycle (R : Type 0) : Type 0 where
  not_due : Cycle R
  waiting : (scheduled_for : Text) → Cycle R
  sent : R → Cycle R
  failed : Cycle R

module _ {R : Type 0} (service : Service R) (zoned : Text → Option LocalTime) where
  unfoldable pub digest : Option R → Cycle R
  digest none = failed
  digest (some r) = sent r

  unfoldable pub after_claim : Due → Option Bool → Cycle R
  unfolding digest
  after_claim due none = failed
  after_claim due (some false) = not_due
  after_claim due (some true) = digest (service.send_digest due.scheduled_for)

  unfoldable pub claim_due : EmailSettings → Option Due → Cycle R
  unfolding after_claim
  claim_due s none = not_due
  claim_due s (some due) = after_claim due (service.claims s due.local_date)

  -- The body of the inner `try`, under the lease.
  unfoldable pub under_lease : Option EmailSettings → Cycle R
  unfolding claim_due due_occurrence
  under_lease none = failed
  under_lease (some s) = claim_due s (due_occurrence zoned s)

  -- The `finally` releases the lease, however the body ended.
  unfoldable pub leased_cycle : Due → Result ActiveOperation × Gate → Cycle R × Gate
  unfolding under_lease release_lease
  leased_cycle due (err c, g) = (waiting due.scheduled_for, g)
  leased_cycle due (ok op, g) = (
    under_lease service.settings_again,
    (release_lease record { operation = op; released = false } g).1,
  )

  unfoldable pub due_cycle : Outside → Gate → Option Due → Cycle R × Gate
  unfolding leased_cycle acquire
  due_cycle now g none = (not_due, g)
  due_cycle now g (some due) =
      leased_cycle due (acquire (codes "scheduled-email-digest") none now g)

  -- `run_due_once`
  unfoldable pub run_digest_once : Outside → Gate → Cycle R × Gate
  unfolding due_cycle due_occurrence
  run_digest_once now g = due_cycle now g (due_occurrence zoned service.settings)

-- ===== src/Email/Claim.antt =====
-- `claim_scheduled_occurrence` of backend/email_service.py: the UPDATE by which the digest of a date
-- is claimed.
use opportunity_radar.Prelude.{
  ◌≡◌, refl, inl, inr, Bool, true, false, not, ◌&&◌, Option, none, some, if◌then◌else◌, arith, Text,
  text_eq, text_eq_self, Bool-cases,
}
use opportunity_radar.Email.Digests.{MailSettings}

-- What `claim_scheduled_occurrence` compares, of the settings that its caller has read.
pub record Observed : Type 0 where
  pub schedule_time : Text
  pub schedule_timezone : Text
  pub updated_at : Text

unfoldable pub is_claimable : Observed → (local_date : Text) → MailSettings → Bool
is_claimable o local_date s =
    s.daily_enabled
    && not (text_eq s.last_scheduled_date local_date)
    && text_eq s.schedule_time o.schedule_time
    && text_eq s.schedule_timezone o.schedule_timezone
    && text_eq s.updated_at o.updated_at

-- `claim_scheduled_occurrence`, on the row of `email_settings`
unfoldable pub claim_scheduled_occurrence :
    Observed → (local_date now : Text) → Option MailSettings → Bool × Option MailSettings
unfolding is_claimable
claim_scheduled_occurrence o local_date now none = (false, none)
claim_scheduled_occurrence o local_date now (some s) =
    if is_claimable o local_date s
    then (true, some record s { last_scheduled_date = local_date; updated_at = now })
    else (false, some s)

-- Is the date the last one that was claimed?
abbrev pub is_claimed : (local_date : Text) → Option MailSettings → Bool
is_claimed local_date none = false
is_claimed local_date (some s) = text_eq s.last_scheduled_date local_date

claim-is_claimed :
    (o : Observed) (local_date now : Text) (s : Option MailSettings)
    → (claim_scheduled_occurrence o local_date now s).0 ≡ true
    → is_claimed local_date (claim_scheduled_occurrence o local_date now s).1 ≡ true
unfolding claim_scheduled_occurrence
claim-is_claimed o local_date now none h = cc
claim-is_claimed o local_date now (some s) h = elim (Bool-cases (is_claimable o local_date s)) [
  | inl free ↦ rw (free, claim_scheduled_occurrence) (text_eq_self local_date)
  | inr taken ↦ cc (rw (taken, claim_scheduled_occurrence) at h)
]

is_claimed-refused :
    (o : Observed) (local_date now : Text) (s : Option MailSettings)
    → is_claimed local_date s ≡ true
    → claim_scheduled_occurrence o local_date now s ≡ (false, s)
unfolding claim_scheduled_occurrence is_claimable
is_claimed-refused o local_date now none h = refl
is_claimed-refused o local_date now (some s) h = ground (arith, h)

-- A local date is claimed at most once: after a claim that succeeded, another one for the same date
-- fails and changes nothing, whatever settings its caller has read, as long as they are not saved
-- anew.
pub claim_twice :
    (first second : Observed) (local_date now later : Text) (s : Option MailSettings)
    → (claim_scheduled_occurrence first local_date now s).0 ≡ true
    → claim_scheduled_occurrence second local_date later
        (claim_scheduled_occurrence first local_date now s).1
      ≡ (false, (claim_scheduled_occurrence first local_date now s).1)
claim_twice first second local_date now later s h =
    is_claimed-refused second local_date later (claim_scheduled_occurrence first local_date now s).1
      (claim-is_claimed first local_date now s h)

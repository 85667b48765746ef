-- ===== src/Email/Digests.antt =====
-- `send_job_digest` of backend/email_service.py, with the writes of its tables. What the SMTP server
-- and the database answer is an argument.
use opportunity_radar.Prelude.{
  ℕ, ◌==◌, String, Bool, false, not, ◌&&◌, Option, none, some, List, [], length, if◌then◌else◌,
  Text, codes,
}
use opportunity_radar.Email.{Job, is_blank}

-- The row of `email_settings`.
pub record MailSettings : Type 0 where
  pub smtp_host : Text
  pub smtp_port : ℕ
  pub smtp_username : Text
  pub smtp_password_ciphertext : Text
  pub from_email : Text
  pub daily_enabled : Bool
  pub recipients : List Text
  pub schedule_time : Text
  pub schedule_timezone : Text
  pub last_scheduled_date : Text
  pub checkpoint_established_at : Text
  pub last_successful_at : Text
  pub updated_at : Text

pub data DigestStatus : Type 0 where
  disabled failed baseline_established no_changes sending sent : DigestStatus

-- The keyword arguments of `send_job_digest`.
pub record Trigger : Type 0 where
  pub trigger_type : Text
  pub scheduled_for : Text

-- A row of `email_digests`.
pub record Digest : Type 0 where
  pub id : String
  pub started_at : Text
  pub completed_at : Text
  pub recipients : List Text
  pub added_count : ℕ
  pub removed_count : ℕ
  pub status : DigestStatus
  pub error : Text
  pub trigger_type : Text
  pub scheduled_for : Text

-- A row of `email_digest_job_changes`.
pub record Change : Type 0 where
  pub digest_id : String
  pub is_added : Bool
  pub job : Job

pub record Store : Type 0 where
  pub settings : Option MailSettings
  pub digests : List Digest
  pub snapshot : List Job
  pub changes : List Change

-- How `send_email` ends: an `EmailConfigurationError` or `EmailDeliveryError`, or another exception.
pub data Delivery : Type 0 where
  accepted other_error : Delivery
  delivery_error : Text → Delivery

-- What comes from outside: the id and the clock; the settings as they are read the second time; what
-- the cipher reads; how the delivery ends; and whether each transaction is committed.
pub record World : Type 0 where
  pub digest_id : String
  pub started : Text
  pub completed : Text
  pub settings_again : Option MailSettings
  pub decrypt : Text → Option Text
  pub delivery : Delivery
  pub records : Bool
  pub finishes : Bool
  pub stores_baseline : Bool
  pub advances : Bool

-- A message that was given to the SMTP server: whom it is for, and the jobs that it lists.
pub record Mail : Type 0 where
  pub recipients : List Text
  pub added : List Job
  pub removed : List Job

pub data DigestAnswer : Type 0 where
  result : DigestStatus → (added_count removed_count : ℕ) → (error : Text) → DigestAnswer
  raised : DigestAnswer

pub record Run : Type 0 where
  pub answer : DigestAnswer
  pub mails : List Mail
  pub store : Store

-- `_delivery_settings(require_recipients=True)`: the recipients, or the `EmailConfigurationError`.
pub data Delivered : Type 0 where
  configured : (recipients : List Text) → Delivered
  configuration_error : Text → Delivered

unfoldable pub is_complete : MailSettings → Bool
is_complete s =
    not (is_blank s.smtp_host)
    && not (s.smtp_port == 0)
    && not (is_blank s.smtp_username)
    && not (is_blank s.from_email)
    && not (is_blank s.smtp_password_ciphertext)

unfoldable pub with_password : List Text → Option Text → Delivered
with_password recipients none =
    configuration_error (codes "The saved SMTP password cannot be read. Enter and save it again.")
with_password recipients (some password) = configured recipients

unfoldable pub delivery_settings : (decrypt : Text → Option Text) → Option MailSettings → Delivered
unfolding is_complete with_password
delivery_settings decrypt none =
    configuration_error (codes "Save the email provider settings first.")
delivery_settings decrypt (some s) =
    if not (is_complete s)
    then configuration_error
        (codes "Complete the SMTP host, port, username, password, and From Email settings.")
    else if length s.recipients == 0
    then configuration_error (codes "Add at least one recipient for the job digest.")
    else with_password s.recipients (decrypt s.smtp_password_ciphertext)

-- `get_settings`, as far as a digest reads it; without a row, the defaults.
unfoldable pub is_enabled : Option MailSettings → Bool
is_enabled none = false
is_enabled (some s) = s.daily_enabled

unfoldable pub checkpoint_of : Option MailSettings → Text
checkpoint_of none = []
checkpoint_of (some s) = s.checkpoint_established_at

unfoldable pub recipients_of : Option MailSettings → List Text
recipients_of none = []
recipients_of (some s) = s.recipients

unfoldable pub set_settings :
    (MailSettings → MailSettings) → Option MailSettings → Option MailSettings
set_settings f none = none
set_settings f (some s) = some (f s)

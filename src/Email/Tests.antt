-- ===== src/Email/Tests.antt =====
-- Digests, the cipher and the recipients of backend/email_service.py at concrete inputs.
use opportunity_radar.Prelude.{
  false, ℕ, zero, suc, ◌≡◌, refl, String, true, none, some, List, [], ◌∷◌, codes, arith, lookup,
  strip, lstrip, rstrip, text_eq, starts_with, contains, is_space,
}
use opportunity_radar.Email.{
  JobRow, Job, digest_job, current_active_jobs, added_jobs, removed_jobs, snapshot_jobs,
}
use opportunity_radar.Email.Digests.{MailSettings, Trigger, Store, accepted, World, result, sent}
use opportunity_radar.Email.Sending.{send_job_digest}
use opportunity_radar.Email.Endings.{Told}
use opportunity_radar.Email.Once.{send_all, told_once}
use opportunity_radar.Email.Claim.{Observed}
use opportunity_radar.Email.Cipher.{Bytes, Cipher, IsStandard, encrypt, decrypt}
use opportunity_radar.Email.Sealed.{decrypt-encrypt, IsSealed, decrypt-IsSealed}
use opportunity_radar.Email.Recipients.{
  text, several, duplicate, normalize_recipients, IsStorable, recipients-IsStorable,
}

abbrev row : String → JobRow
row id = record {
  id = id;
  company_name = codes "Acme";
  title = [];
  pay_min = some (codes "100");
  pay_max = none;
  pay_text = codes " N/A ";
  pay_text_folded = codes " n/a ";
  pay_period_folded = codes "hour";
  pay_currency_upper = codes "EUR";
  source_url = codes "https://example.com/1 ";
  status_lower = codes "open";
}

shows_pay : (digest_job (row "1")).pay_display ≡ codes "From EUR 100 per hour"
unfolding digest_job strip lstrip rstrip text_eq is_space
shows_pay = refl

abbrev settings : MailSettings
settings = record {
  smtp_host = codes "smtp.example.com";
  smtp_port = 465;
  smtp_username = codes "radar";
  smtp_password_ciphertext = codes "x";
  from_email = codes "radar@example.com";
  daily_enabled = true;
  recipients = codes "a@example.com" ∷ [];
  schedule_time = codes "07:00";
  schedule_timezone = codes "America/Denver";
  last_scheduled_date = codes "2026-01-01";
  checkpoint_established_at = codes "t0";
  last_successful_at = [];
  updated_at = codes "t0";
}

abbrev world : World
world = record {
  digest_id = "digest-1";
  started = codes "t1";
  completed = codes "t2";
  settings_again = some settings;
  decrypt = λ c. some c;
  delivery = accepted;
  records = true;
  finishes = true;
  stores_baseline = true;
  advances = true;
}

abbrev trigger : Trigger
trigger = record { trigger_type = codes "scheduled"; scheduled_for = codes "2026-01-02T07:00" }

abbrev gone : Job
gone = digest_job (row "0")

abbrev store : Store
store = record { settings = some settings; digests = []; snapshot = gone ∷ []; changes = [] }

abbrev rows : List JobRow
rows = row "1" ∷ row "2" ∷ []

sends_it : (send_job_digest world trigger rows store).answer ≡ result sent 2 1 []
unfolding send_job_digest current_active_jobs lookup strip lstrip rstrip text_eq is_space digest_job
    added_jobs removed_jobs snapshot_jobs
sends_it = refl

-- Two later digests, one by hand, the other with a database that takes nothing.
abbrev later : List (World × Trigger)
later =
    (world, record { trigger_type = codes "manual"; scheduled_for = [] })
    ∷ (record world { records = false; advances = false }, trigger)
    ∷ []

told_once_example : send_all later rows (send_job_digest world trigger rows store).store ≡ []
unfolding send_job_digest current_active_jobs lookup strip lstrip rstrip text_eq is_space digest_job
    added_jobs removed_jobs snapshot_jobs
told_once_example = told_once world trigger later rows store tt

abbrev observed : Observed
observed = record {
  schedule_time = codes "07:00";
  schedule_timezone = codes "America/Denver";
  updated_at = codes "t0";
}

-- A cipher whose codes are all zeros.
abbrev zeros : ℕ → Bytes
zeros zero = []
zeros (suc n) = 0 ∷ zeros n

abbrev cipher : Cipher
cipher = record {
  encryption_key = [];
  authentication_key = [];
  hmac = λ k m. zeros 32;
  counter_bytes = λ n. [];
  encode_base64 = λ b. b;
  decode_base64 = λ t. some t;
  encode_utf8 = λ t. t;
  decode_utf8 = λ b. some b;
}

cipher-IsStandard : IsStandard cipher (codes "secret")
cipher-IsStandard = record {
  code_size = λ k m. refl;
  base64 = λ b. refl;
  utf8 = refl;
  is_byte = omega arith;
}

decrypt-encrypt_example :
    decrypt cipher (encrypt cipher (zeros 16) (codes "secret")) ≡ some (codes "secret")
decrypt-encrypt_example = decrypt-encrypt cipher (codes "secret") cipher-IsStandard (zeros 16) refl

decrypt-IsSealed_example :
    (payload : Bytes) × (cipher.decode_base64 (encrypt cipher (zeros 16) (codes "secret"))
      ≡ some payload)
    × IsSealed cipher payload
decrypt-IsSealed_example =
    decrypt-IsSealed cipher (encrypt cipher (zeros 16) (codes "secret")) (codes "secret")
      (decrypt-encrypt cipher (codes "secret") cipher-IsStandard (zeros 16) refl)

rejects_doubles :
    normalize_recipients (λ a. a) (several (text (codes " A@b.org") ∷ text (codes "a@b.org ") ∷ []))
    ≡ duplicate
unfolding normalize_recipients strip lstrip rstrip text_eq is_space starts_with contains
rejects_doubles = refl

recipients-IsStorable_example :
    IsStorable (λ a. a) (normalize_recipients (λ a. a) (several (text (codes "A@b.org") ∷ [])))
recipients-IsStorable_example =
    recipients-IsStorable (λ a. a) (several (text (codes "A@b.org") ∷ []))

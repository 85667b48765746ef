-- ===== src/Email/Endings.antt =====
-- The ways in which a call of `send_job_digest` of backend/email_service.py can end.
use opportunity_radar.Prelude.{
  Bool, false, ◌≡◌, ◌⊎◌, true, Option, none, some, List, [], ◌∷◌, length, Text, codes, text_eq,
  String,
}
use opportunity_radar.Email.{JobRow, Job, is_blank, by_identity, current_active_jobs, snapshot_jobs}
use opportunity_radar.Email.Checkpoint.{minus, view}
use opportunity_radar.Email.Digests.{
  MailSettings, Trigger, disabled, failed, baseline_established, no_changes, sent, Store, accepted,
  other_error, delivery_error, World, Mail, DigestAnswer, result, raised, Run, Delivered,
  configured, configuration_error, delivery_settings, is_enabled, checkpoint_of,
}
use opportunity_radar.Email.Sending.{is_unchanged}

-- The jobs that the readers know of, and those that are open, as functions from identities.
abbrev pub known : Store → String → Option Job
known store = view (snapshot_jobs store.snapshot)

abbrev pub open_jobs : List JobRow → String → Option Job
open_jobs rows = view (current_active_jobs rows)

abbrev pub listed : List Job → String → Option Job
listed jobs = view (by_identity jobs)

-- A message lists what is new, and what is gone, with the job as it was known.
abbrev pub IsNews : (before now : String → Option Job) → Mail → Type 0
IsNews before now mail =
    (listed mail.added ≡ minus now before) × (listed mail.removed ≡ minus before now)

-- The settings under which a digest is sent, read again: the recipients, or an error.
abbrev pub configuration : World → Delivered
configuration w = delivery_settings w.decrypt w.settings_again

-- No baseline was stored yet.
abbrev pub is_new : Store → Bool
is_new store = is_blank (checkpoint_of store.settings)

-- The checkpoint of the settings, if there are any, once the baseline was stored.
abbrev pub stamped : World → Option MailSettings → Text
stamped w none = []
stamped w (some s) = w.completed

-- An answer that tells of no message, and why.
abbrev pub IsQuiet : World → Trigger → Store → DigestAnswer → Type 0
IsQuiet w trigger store a =
    ((a ≡ result disabled 0 0 [])
      × (text_eq trigger.trigger_type (codes "scheduled") ≡ true)
      × (is_enabled store.settings ≡ false))
    ⊎ ((a ≡ raised) × ((w.records ≡ false) ⊎ ((is_new store ≡ true) × (w.stores_baseline ≡ false))))
    ⊎ ((e : Text) × (a ≡ result failed 0 0 e) × (configuration w ≡ configuration_error e))

-- A message that is not empty, to the recipients, after a baseline was stored.
abbrev pub IsDue : World → List JobRow → Store → Mail → Type 0
IsDue w rows store mail =
    (is_new store ≡ false)
    × (configuration w ≡ configured mail.recipients)
    × (is_unchanged mail.added mail.removed ≡ false)
    × IsNews (known store) (open_jobs rows) mail

-- Why a message is not confirmed.
abbrev pub IsUnconfirmed : World → Mail → DigestAnswer → Type 0
IsUnconfirmed w mail a =
    ((a ≡ raised)
      × (((w.delivery ≡ accepted) × (w.advances ≡ false))
          ⊎ (w.delivery ≡ other_error)
          ⊎ (w.finishes ≡ false)))
    ⊎ ((e : Text) × (a ≡ result failed (length mail.added) (length mail.removed) e)
        × (w.delivery ≡ delivery_error e))

-- The ways in which a digest over the rows `rows` of `jobs` can end.
pub data Told (w : World) (trigger : Trigger) (rows : List JobRow) (store : Store)
    : Run → Type 0 where
  quiet :
      (a : DigestAnswer) (after : Store)
      → IsQuiet w trigger store a
      → after.snapshot ≡ store.snapshot
      → Told w trigger rows store record { answer = a; mails = []; store = after }
  nothing_new :
      (after : Store)
      → is_new store ≡ false
      → minus (open_jobs rows) (known store) ≡ (λ k. none)
      → minus (known store) (open_jobs rows) ≡ (λ k. none)
      → after.snapshot ≡ store.snapshot
      → Told w trigger rows store
          record { answer = result no_changes 0 0 []; mails = []; store = after }
  baseline :
      (after : Store)
      → is_new store ≡ true
      → known after ≡ open_jobs rows
      → checkpoint_of after.settings ≡ stamped w store.settings
      → Told w trigger rows store
          record { answer = result baseline_established 0 0 []; mails = []; store = after }
  told :
      (mail : Mail) (after : Store)
      → IsDue w rows store mail
      → w.delivery ≡ accepted
      → known after ≡ open_jobs rows
      → Told w trigger rows store record {
        answer = result sent (length mail.added) (length mail.removed) [];
        mails = mail ∷ [];
        store = after;
      }
  untold :
      (mail : Mail) (a : DigestAnswer) (after : Store)
      → IsDue w rows store mail
      → IsUnconfirmed w mail a
      → after.snapshot ≡ store.snapshot
      → Told w trigger rows store record { answer = a; mails = mail ∷ []; store = after }

-- ===== src/Email/Once.antt =====
-- What a digest of backend/email_service.py leaves for the next one to tell.
use opportunity_radar.Prelude.{
  ap, ◌∙◌, ◌∷◌, ◌++◌, ◌≡◌, sym, subst, refl, inl, inr, not, ◌&&◌, List, [], if_cases, Text, codes,
  text_eq,
}
use opportunity_radar.Email.{
  JobRow, is_blank, values, current_active_jobs, snapshot_jobs, added_jobs, removed_jobs,
}
use opportunity_radar.Email.Checkpoint.{view, no_difference_of_view}
use opportunity_radar.Email.Digests.{
  Trigger, baseline_established, sent, Digest, Store, World, Mail, DigestAnswer, result, Run,
  Delivered, configured, configuration_error, delivery_settings, is_enabled, checkpoint_of,
}
use opportunity_radar.Email.Sending.{
  ended, is_unchanged, store_baseline, compare_jobs, with_settings, send_job_digest,
}
use opportunity_radar.Email.Endings.{
  known, open_jobs, Told, quiet, nothing_new, baseline, told, untold,
}
use opportunity_radar.Email.Told.{send-Told}

-- The answers after which the readers know the open jobs.
abbrev pub IsTelling : DigestAnswer → Type 0
IsTelling (result sent a r e) = Unit
IsTelling (result baseline_established a r e) = Unit
IsTelling _ = ⊥

snapshot-known : (store after : Store) → after.snapshot ≡ store.snapshot → known after ≡ known store
snapshot-known store after same = ap (λ x. view (snapshot_jobs x)) same

Told-known :
    (w : World) (trigger : Trigger) (rows : List JobRow) (store : Store) (r : Run)
    → Told w trigger rows store r
    → IsTelling r.answer
    → known r.store ≡ open_jobs rows
Told-known w trigger rows store r (quiet a after (inl e) same) t = elim (subst IsTelling e.0 t) [ ]
Told-known w trigger rows store r (quiet a after (inr (inl e)) same) t =
    elim (subst IsTelling e.0 t) [ ]
Told-known w trigger rows store r (quiet a after (inr (inr (x, e, c))) same) t =
    elim (subst IsTelling e t) [ ]
Told-known w trigger rows store r (nothing_new after old a b same) t = elim t [ ]
Told-known w trigger rows store r (baseline after first k c) t = k
Told-known w trigger rows store r (told mail after n d k) t = k
Told-known w trigger rows store r (untold mail a after n (inl e) same) t =
    elim (subst IsTelling e.0 t) [ ]
Told-known w trigger rows store r (untold mail a after n (inr (x, e, c)) same) t =
    elim (subst IsTelling e t) [ ]

-- Once the open jobs are known, they stay known.
Told-keeps :
    (w : World) (trigger : Trigger) (rows : List JobRow) (store : Store) (r : Run)
    → Told w trigger rows store r
    → known store ≡ open_jobs rows
    → known r.store ≡ open_jobs rows
Told-keeps w trigger rows store r (quiet a after e same) k = snapshot-known store after same ∙ k
Told-keeps w trigger rows store r (nothing_new after old a b same) k =
    snapshot-known store after same ∙ k
Told-keeps w trigger rows store r (baseline after first n c) k = n
Told-keeps w trigger rows store r (told mail after n d e) k = e
Told-keeps w trigger rows store r (untold mail a after n e same) k =
    snapshot-known store after same ∙ k

module _ (w : World) (trigger : Trigger) (rows : List JobRow) (store : Store) where
  ended-silent : (row : Digest) → (ended w row store).mails ≡ []
  unfolding ended
  ended-silent row = if_cases (λ (r : Run). r.mails ≡ []) w.records (λ _. refl) (λ _. refl)

  compare-silent :
      (recipients : List Text)
      → known store ≡ open_jobs rows
      → (compare_jobs w trigger recipients (current_active_jobs rows) store).mails ≡ []
  unfolding compare_jobs added_jobs removed_jobs is_unchanged values
  compare-silent recipients k =
      rw
        (
          no_difference_of_view (current_active_jobs rows) (snapshot_jobs store.snapshot) (sym k),
          no_difference_of_view (snapshot_jobs store.snapshot) (current_active_jobs rows) k,
        )
        (ended-silent _)

  settings-silent :
      (d : Delivered)
      → known store ≡ open_jobs rows
      → (with_settings w trigger d rows store).mails ≡ []
  unfolding with_settings store_baseline
  settings-silent (configuration_error error) k = ended-silent _
  settings-silent (configured recipients) k =
      if_cases (λ (r : Run). r.mails ≡ []) (is_blank (checkpoint_of store.settings))
        (λ _. if_cases (λ (r : Run). r.mails ≡ []) w.stores_baseline (λ _. refl) (λ _. refl))
        (λ _. compare-silent recipients k)

  send-silent : known store ≡ open_jobs rows → (send_job_digest w trigger rows store).mails ≡ []
  unfolding send_job_digest
  send-silent k =
      if_cases (λ (r : Run). r.mails ≡ [])
        (text_eq trigger.trigger_type (codes "scheduled") && not (is_enabled store.settings))
        (λ _. refl) (λ _. settings-silent (delivery_settings w.decrypt w.settings_again) k)

-- Digests one after another over the same rows: their messages.
unfoldable pub send_all : List (World × Trigger) → List JobRow → Store → List Mail
unfolding send_job_digest
send_all [] rows store = []
send_all (d ∷ later) rows store =
    let run = send_job_digest d.0 d.1 rows store in run.mails ++ send_all later rows run.store

all-silent :
    (later : List (World × Trigger)) (rows : List JobRow) (store : Store)
    → known store ≡ open_jobs rows
    → send_all later rows store ≡ []
unfolding send_all
all-silent [] rows store k = refl
all-silent (d ∷ later) rows store k =
    let run = send_job_digest d.0 d.1 rows store in
    rw
      (
        send-silent d.0 d.1 rows store k,
        all-silent later rows run.store
            (Told-keeps d.0 d.1 rows store run (send-Told d.0 d.1 rows store) k),
      )
      refl

-- After a digest whose answer is that it was sent, or that it stored the baseline, none of the
-- digests that follow sends a message as long as the rows of the jobs are the same and nothing but
-- these digests writes the tables of the digest; whatever triggers them, whatever settings each of
-- them reads again, and however its database and SMTP server behave.
pub told_once :
    (w : World) (trigger : Trigger) (later : List (World × Trigger)) (rows : List JobRow)
    (store : Store)
    → IsTelling (send_job_digest w trigger rows store).answer
    → send_all later rows (send_job_digest w trigger rows store).store ≡ []
told_once w trigger later rows store t =
    all-silent later rows (send_job_digest w trigger rows store).store (
      Told-known w trigger rows store (send_job_digest w trigger rows store)
        (send-Told w trigger rows store) t)

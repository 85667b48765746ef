-- ===== src/Email/Told.antt =====
-- How a call of `send_job_digest` of backend/email_service.py can end, and what it leaves for the
-- next one.
use opportunity_radar.Prelude.{
  false, ◌≡◌, ap, refl, inl, inr, true, not, ◌&&◌, Option, none, some, List, [], length, if_cases,
  arith, Text, codes, text_eq,
}
use opportunity_radar.Email.{
  JobRow, Job, current_active_jobs, snapshot_jobs, added_jobs, removed_jobs,
}
use opportunity_radar.Email.Checkpoint.{
  view, by_identity-IsKeyed, difference-minus, no_difference, snapshot-replace,
}
use opportunity_radar.Email.Digests.{
  MailSettings, set_settings, Trigger, disabled, failed, no_changes, Digest, Store, Delivery,
  accepted, other_error, delivery_error, World, Mail, result, raised, Delivered, configured,
  configuration_error, is_enabled, checkpoint_of,
}
use opportunity_radar.Email.Endings.{
  known, open_jobs, IsNews, configuration, is_new, stamped, IsDue, Told, quiet, nothing_new,
  baseline, told, untold,
}
use opportunity_radar.Email.Sending.{
  digest_row, record_digest, finish_digest, advance_checkpoint, ended, is_unchanged, store_baseline,
  delivered, dispatch, compare_jobs, with_settings, send_job_digest,
}

unchanged-added : (added removed : List Job) → is_unchanged added removed ≡ true → length added ≡ 0
unfolding is_unchanged
unchanged-added added removed h = ground (arith, h)

unchanged-removed :
    (added removed : List Job) → is_unchanged added removed ≡ true → length removed ≡ 0
unfolding is_unchanged
unchanged-removed added removed h = ground (arith, h)

module _ (w : World) (trigger : Trigger) (rows : List JobRow) (store : Store) where
  failed-Told :
      (recipients : List Text) (error : Text)
      → configuration w ≡ configuration_error error
      → Told w trigger rows store
          (ended w (digest_row w trigger w.completed recipients 0 0 failed error) store)
  unfolding ended digest_row record_digest
  failed-Told recipients error c =
      if_cases (Told w trigger rows store) w.records
        (λ _. quiet (result failed 0 0 error) _ (inr (inr (error, refl, c))) refl)
        (λ h. quiet raised store (inr (inl (refl, inl h))) refl)

  stamped-checkpoint :
      (o : Option MailSettings)
      → checkpoint_of (
          set_settings
            (λ (s : MailSettings). record s {
              checkpoint_established_at = w.completed;
              updated_at = w.completed;
            })
            o)
        ≡ stamped w o
  unfolding checkpoint_of set_settings
  stamped-checkpoint none = refl
  stamped-checkpoint (some s) = refl

  baseline-Told :
      (row : Digest)
      → is_new store ≡ true
      → Told w trigger rows store (store_baseline w row (current_active_jobs rows) store)
  unfolding store_baseline
  baseline-Told row first =
      if_cases (Told w trigger rows store) w.stores_baseline
        (λ _.
          baseline _ first (ap view (snapshot-replace rows)) (stamped-checkpoint store.settings))
        (λ h. quiet raised store (inr (inl (refl, inr (first, h)))) refl)

  delivered-Told :
      (mail : Mail) (d : Delivery) (stored : Store)
      → w.delivery ≡ d
      → IsDue w rows store mail
      → stored.snapshot ≡ store.snapshot
      → Told w trigger rows store (delivered w (current_active_jobs rows) mail d stored)
  unfolding delivered advance_checkpoint finish_digest
  delivered-Told mail accepted stored d due e =
      if_cases (Told w trigger rows store) w.advances
        (λ _. told mail _ due d (ap view (snapshot-replace rows)))
        (λ h. untold mail raised stored due (inl (refl, inl (d, h))) e)
  delivered-Told mail (delivery_error error) stored d due e =
      if_cases (Told w trigger rows store) w.finishes
        (λ _. untold mail _ _ due (inr (error, refl, d)) e)
        (λ h. untold mail raised stored due (inl (refl, inr (inr h))) e)
  delivered-Told mail other_error stored d due e =
      untold mail raised stored due (inl (refl, inr (inl d))) e

  dispatch-Told :
      (mail : Mail)
      → IsDue w rows store mail
      → Told w trigger rows store (dispatch w trigger (current_active_jobs rows) mail store)
  unfolding dispatch record_digest
  dispatch-Told mail due =
      if_cases (Told w trigger rows store) w.records
        (λ _. delivered-Told mail w.delivery _ refl due refl)
        (λ h. quiet raised store (inr (inl (refl, inl h))) refl)

  news :
      (recipients : List Text)
      → IsNews (known store) (open_jobs rows) record {
        recipients = recipients;
        added = added_jobs (current_active_jobs rows) (snapshot_jobs store.snapshot);
        removed = removed_jobs (current_active_jobs rows) (snapshot_jobs store.snapshot);
      }
  unfolding added_jobs removed_jobs current_active_jobs snapshot_jobs
  news recipients = (
    difference-minus (current_active_jobs rows) (snapshot_jobs store.snapshot)
        (by_identity-IsKeyed _),
    difference-minus (snapshot_jobs store.snapshot) (current_active_jobs rows)
        (by_identity-IsKeyed _),
  )

  same-Told :
      (recipients : List Text)
      → is_new store ≡ false
      → length (added_jobs (current_active_jobs rows) (snapshot_jobs store.snapshot)) ≡ 0
      → length (removed_jobs (current_active_jobs rows) (snapshot_jobs store.snapshot)) ≡ 0
      → Told w trigger rows store
          (ended w (digest_row w trigger w.completed recipients 0 0 no_changes []) store)
  unfolding ended digest_row record_digest added_jobs removed_jobs
  same-Told recipients old a r =
      if_cases (Told w trigger rows store) w.records
        (λ _.
          nothing_new _ old
            (no_difference (current_active_jobs rows) (snapshot_jobs store.snapshot) a)
            (no_difference (snapshot_jobs store.snapshot) (current_active_jobs rows) r) refl)
        (λ h. quiet raised store (inr (inl (refl, inl h))) refl)

  compare-Told :
      (recipients : List Text)
      → is_new store ≡ false
      → configuration w ≡ configured recipients
      → Told w trigger rows store
          (compare_jobs w trigger recipients (current_active_jobs rows) store)
  unfolding compare_jobs
  compare-Told recipients old c =
      let added = added_jobs (current_active_jobs rows) (snapshot_jobs store.snapshot) in
      let removed = removed_jobs (current_active_jobs rows) (snapshot_jobs store.snapshot) in
      if_cases (Told w trigger rows store) (is_unchanged added removed)
        (λ same.
          same-Told recipients old (unchanged-added added removed same)
            (unchanged-removed added removed same))
        (λ changed.
          dispatch-Told record { recipients = recipients; added = added; removed = removed }
            (old, c, changed, news recipients))

  settings-Told :
      (d : Delivered)
      → configuration w ≡ d
      → Told w trigger rows store (with_settings w trigger d rows store)
  unfolding with_settings
  settings-Told (configuration_error error) c = failed-Told _ error c
  settings-Told (configured recipients) c =
      if_cases (Told w trigger rows store) (is_new store) (λ first. baseline-Told _ first)
        (λ old. compare-Told recipients old c)

  pub send-Told : Told w trigger rows store (send_job_digest w trigger rows store)
  unfolding send_job_digest
  send-Told =
      if_cases (Told w trigger rows store)
        (text_eq trigger.trigger_type (codes "scheduled") && not (is_enabled store.settings))
        (λ h.
          quiet (result disabled 0 0 []) store (inl (refl, ground (arith, h), ground (arith, h)))
            refl)
        (λ _. settings-Told (configuration w) refl)

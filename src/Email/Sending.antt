-- ===== src/Email/Sending.antt =====
-- `send_job_digest` of backend/email_service.py, from the settings to the answer.
use opportunity_radar.Prelude.{
  ℕ, ◌==◌, String, Bool, true, false, not, ◌&&◌, List, [], ◌∷◌, ◌++◌, map, length, if◌then◌else◌,
  Text, codes, text_eq, Dict, str_eq,
}
use opportunity_radar.Email.{
  JobRow, Job, is_blank, current_active_jobs, snapshot_jobs, replace_snapshot, added_jobs,
  removed_jobs,
}
use opportunity_radar.Email.Digests.{
  MailSettings, Trigger, DigestStatus, disabled, failed, baseline_established, no_changes, sending,
  sent, Digest, Change, Store, Delivery, accepted, other_error, delivery_error, World, Mail, result,
  raised, Run, Delivered, configured, configuration_error, delivery_settings, is_enabled,
  checkpoint_of, recipients_of, set_settings,
}

-- The row that `_record_digest` inserts.
unfoldable pub digest_row :
    World → Trigger → (completed : Text) → List Text → ℕ → ℕ → DigestStatus → Text → Digest
digest_row w trigger completed recipients added removed status error = record {
  id = w.digest_id;
  started_at = w.started;
  completed_at = completed;
  recipients = recipients;
  added_count = added;
  removed_count = removed;
  status = status;
  error = error;
  trigger_type = trigger.trigger_type;
  scheduled_for = trigger.scheduled_for;
}

unfoldable pub record_digest : Digest → Store → Store
record_digest row store = record store { digests = row ∷ store.digests }

-- UPDATE email_digests SET completed_at, status, error WHERE id
unfoldable pub finish_digest : String → Text → DigestStatus → Text → Store → Store
finish_digest id completed status error store = record store {
  digests =
      map
        (λ (r : Digest).
          if str_eq r.id id
          then record r { completed_at = completed; status = status; error = error }
          else r)
        store.digests;
}

-- A digest that ends without a message: its row is inserted, and it is answered.
unfoldable pub ended : World → Digest → Store → Run
unfolding record_digest
ended w row store =
    if w.records
    then record {
      answer = result row.status 0 0 row.error;
      mails = [];
      store = record_digest row store;
    }
    else record { answer = raised; mails = []; store = store }

-- `_store_baseline`, one transaction.
unfoldable pub store_baseline : World → Digest → Dict Job → Store → Run
unfolding record_digest set_settings
store_baseline w row current store =
    if w.stores_baseline
    then record {
      answer = result baseline_established 0 0 [];
      mails = [];
      store = record (record_digest row store) {
        snapshot = replace_snapshot current;
        settings =
            set_settings
              (λ (s : MailSettings). record s {
                checkpoint_established_at = w.completed;
                updated_at = w.completed;
              })
              store.settings;
      };
    }
    else record { answer = raised; mails = []; store = store }

unfoldable pub changes_of : String → (added removed : List Job) → List Change
changes_of id added removed =
    map (λ (j : Job). record { digest_id = id; is_added = true; job = j }) added
    ++ map (λ (j : Job). record { digest_id = id; is_added = false; job = j }) removed

-- `_advance_checkpoint`, one transaction.
unfoldable pub advance_checkpoint : World → Dict Job → (added removed : List Job) → Store → Store
unfolding finish_digest changes_of set_settings
advance_checkpoint w current added removed store =
    let finished = finish_digest w.digest_id w.completed sent [] store in
    record finished {
      changes = changes_of w.digest_id added removed ++ store.changes;
      snapshot = replace_snapshot current;
      settings =
          set_settings
            (λ (s : MailSettings). record s {
              last_successful_at = w.completed;
              updated_at = w.completed;
            })
            store.settings;
    }

-- After `send_email`. The row of the digest is in the store.
unfoldable pub delivered : World → Dict Job → Mail → Delivery → Store → Run
unfolding advance_checkpoint finish_digest
delivered w current mail accepted store =
    if w.advances
    then record {
      answer = result sent (length mail.added) (length mail.removed) [];
      mails = mail ∷ [];
      store = advance_checkpoint w current mail.added mail.removed store;
    }
    else record { answer = raised; mails = mail ∷ []; store = store }
delivered w current mail (delivery_error error) store =
    if w.finishes
    then record {
      answer = result failed (length mail.added) (length mail.removed) error;
      mails = mail ∷ [];
      store = finish_digest w.digest_id w.completed failed error store;
    }
    else record { answer = raised; mails = mail ∷ []; store = store }
delivered w current mail other_error store = record {
  answer = raised;
  mails = mail ∷ [];
  store = store;
}

unfoldable pub dispatch : World → Trigger → Dict Job → Mail → Store → Run
unfolding delivered record_digest digest_row
dispatch w trigger current mail store =
    if w.records
    then delivered w current mail w.delivery (
        record_digest
          (digest_row w trigger [] mail.recipients (length mail.added) (length mail.removed) sending
            [])
          store)
    else record { answer = raised; mails = []; store = store }

-- not added and not removed
unfoldable pub is_unchanged : (added removed : List Job) → Bool
is_unchanged added removed = length added == 0 && length removed == 0

-- From the two sets of jobs.
unfoldable pub compare_jobs :
    World → Trigger → (recipients : List Text) → (current : Dict Job) → Store → Run
unfolding dispatch ended digest_row is_unchanged
compare_jobs w trigger recipients current store =
    let previous = snapshot_jobs store.snapshot in
    let added = added_jobs current previous in
    let removed = removed_jobs current previous in
    if is_unchanged added removed
    then ended w (digest_row w trigger w.completed recipients 0 0 no_changes []) store
    else dispatch w trigger current
        record { recipients = recipients; added = added; removed = removed } store

unfoldable pub with_settings : World → Trigger → Delivered → List JobRow → Store → Run
unfolding ended digest_row store_baseline compare_jobs
with_settings w trigger (configuration_error error) rows store =
    ended w (digest_row w trigger w.completed (recipients_of store.settings) 0 0 failed error) store
with_settings w trigger (configured recipients) rows store =
    if is_blank (checkpoint_of store.settings)
    then store_baseline w (digest_row w trigger w.completed recipients 0 0 baseline_established [])
        (current_active_jobs rows) store
    else compare_jobs w trigger recipients (current_active_jobs rows) store

-- `send_job_digest`; `rows` are those of `jobs`.
unfoldable pub send_job_digest : World → Trigger → List JobRow → Store → Run
unfolding with_settings delivery_settings is_enabled recipients_of checkpoint_of
send_job_digest w trigger rows store =
    if text_eq trigger.trigger_type (codes "scheduled") && not (is_enabled store.settings)
    then record { answer = result disabled 0 0 []; mails = []; store = store }
    else with_settings w trigger (delivery_settings w.decrypt w.settings_again) rows store

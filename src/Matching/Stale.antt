-- ===== src/Matching/Stale.antt =====
-- When a stored match of backend/resume_matching.py is stale for `job_row_to_api` of
-- backend/repository.py.
use opportunity_radar.Prelude.{
  ◌≡◌, String, Bool, true, not, ◌&&◌, ◌||◌, some, if◌then◌else◌, arith, Text, text_eq, text_eq_self,
  eq_refl, lookup, lookup-put,
}
use opportunity_radar.Matching.Service.{
  StoredJob, Repository, not_matched, needs_rematch, matched, algorithm, is_blank, is_stale,
  stored_status, match_status, MatchContext, matched_fit, upsert_fit,
}

fresh_or_stale :
    (blank version fingerprint same : Bool)
    → same ≡ true
    → (if blank
        then not_matched
        else if not version || not same || not fingerprint
        then needs_rematch
        else matched)
      ≡ (if blank then not_matched else if version && fingerprint then matched else needs_rematch)
fresh_or_stale blank version fingerprint same h = ground (arith, h)

fit-status :
    (context : MatchContext) (job : StoredJob) (active fingerprint : Text)
    → match_status active fingerprint (some (matched_fit context job)) ≡ (
        if is_blank active
        then not_matched
        else if text_eq context.version active && text_eq job.fingerprint fingerprint
        then matched
        else needs_rematch)
unfolding match_status matched_fit is_stale stored_status
fit-status context job active fingerprint =
    fresh_or_stale (is_blank active) (text_eq context.version active)
      (text_eq job.fingerprint fingerprint) (text_eq algorithm algorithm) (text_eq_self algorithm)

-- A match that was stored holds for the active resume as long as neither the version of the resume
-- nor the fingerprint of the job is another one; after that it needs a rematch.
pub stored_match-status :
    (context : MatchContext) (job : StoredJob) (job_id : String) (r : Repository)
    (active fingerprint : Text)
    → match_status active fingerprint
        (lookup job_id (upsert_fit job_id (matched_fit context job) r).fits)
      ≡ (if is_blank active
          then not_matched
          else if text_eq context.version active && text_eq job.fingerprint fingerprint
          then matched
          else needs_rematch)
unfolding upsert_fit
stored_match-status context job job_id r active fingerprint =
    rw (lookup-put job_id job_id (matched_fit context job) r.fits, eq_refl job_id)
      (fit-status context job active fingerprint)

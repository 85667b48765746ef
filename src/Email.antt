-- ===== src/Email.antt =====
-- backend/email_service.py: the tables of the job digest, and `send_job_digest`. The keys of jobs
-- are texts of the library; all else that is shown or stored is a list of code points.
pub mod Digests
pub mod Sending
pub mod Checkpoint
pub mod Endings
pub mod Told
pub mod Once
pub mod Claim
pub mod Recipients
pub mod Cipher
pub mod Sealed
mod Tests
use Prim.Native.String.{compare, ◌++◌ as ◌++ₜ◌}
use Prim.Native.Nat.{Ordering}
use Prim.Native.Nat.Ordering.{gt}
use opportunity_radar.Prelude.{
  ℕ, ◌==◌, String, Bool, true, false, not, ◌&&◌, ◌||◌, Option, none, some, List, [], ◌∷◌, ◌++◌, map,
  filter, length, if◌then◌else◌, Text, text_eq, strip, codes, Dict, lookup,
}

-- A row of `jobs`, as far as the digest reads it; amounts are as `format_money` writes them, and
-- `lower` texts are folded. A NULL is the empty text.
pub record JobRow : Type 0 where
  pub id : String
  pub company_name : Text
  pub title : Text
  pub pay_min : Option Text
  pub pay_max : Option Text
  pub pay_text : Text
  pub pay_text_folded : Text
  pub pay_period_folded : Text
  pub pay_currency_upper : Text
  pub source_url : Text
  pub status_lower : Text

-- A job of a digest, also a row of `email_snapshot_jobs`.
pub record Job : Type 0 where
  pub identity_key : String
  pub job_id : String
  pub company_name : Text
  pub title : Text
  pub pay_display : Text
  pub source_url : Text

abbrev pub is_blank : Text → Bool
is_blank [] = true
is_blank (c ∷ t) = false

unfoldable pub or_default : Text → Text → Text
or_default [] d = d
or_default (c ∷ t) d = c ∷ t

-- One of the given texts.
unfoldable pub is_one_of : Text → List Text → Bool
is_one_of t [] = false
is_one_of t (u ∷ us) = text_eq t u || is_one_of t us

unfoldable pub is_posted : JobRow → Bool
unfolding is_one_of
is_posted r =
    not (is_blank (strip r.pay_text))
    && not (
        is_one_of (strip r.pay_text_folded)
          (codes "not listed" ∷ codes "unknown" ∷ codes "n/a" ∷ []))

unfoldable pub currency_prefix : Text → Text
unfolding or_default
currency_prefix currency =
    if text_eq (or_default currency (codes "USD")) (codes "USD")
    then codes "$"
    else currency ++ codes " "

unfoldable pub period_suffix : Text → Text
unfolding is_one_of
period_suffix period =
    if is_one_of period (codes "year" ∷ codes "annual" ∷ [])
    then codes " per year"
    else if is_one_of period (codes "hour" ∷ codes "hourly" ∷ [])
    then codes " per hour"
    else if is_one_of period (codes "month" ∷ codes "monthly" ∷ [])
    then codes " per month"
    else []

unfoldable pub pay_range : (prefix suffix : Text) → Option Text → Option Text → Text
pay_range prefix suffix none none = codes "Pay not posted"
pay_range prefix suffix (some low) (some high) =
    prefix ++ low ++ codes " - " ++ prefix ++ high ++ suffix
pay_range prefix suffix (some low) none = codes "From " ++ prefix ++ low ++ suffix
pay_range prefix suffix none (some high) = codes "Up to " ++ prefix ++ high ++ suffix

unfoldable pub pay_display_of : JobRow → Text
unfolding is_posted currency_prefix period_suffix pay_range
pay_display_of r =
    if is_posted r
    then strip r.pay_text
    else pay_range (currency_prefix r.pay_currency_upper)
        (period_suffix (strip r.pay_period_folded)) r.pay_min r.pay_max

unfoldable pub job_identity : String → String
job_identity job_id = "id:" ++ₜ job_id

unfoldable pub digest_job : JobRow → Job
unfolding or_default pay_display_of job_identity
digest_job r = record {
  identity_key = job_identity r.id;
  job_id = r.id;
  company_name = or_default r.company_name (codes "Company not listed");
  title = or_default r.title (codes "Title not listed");
  pay_display = pay_display_of r;
  source_url = strip r.source_url;
}

-- Jobs by their identity, for rows whose identities differ, as those of a primary key do.
unfoldable pub by_identity : List Job → Dict Job
by_identity [] = []
by_identity (j ∷ jobs) = (j.identity_key, j) ∷ by_identity jobs

-- `current_active_jobs`
unfoldable pub current_active_jobs : List JobRow → Dict Job
unfolding by_identity digest_job
current_active_jobs rows =
    by_identity (map digest_job (filter (λ r. text_eq r.status_lower (codes "open")) rows))

-- `snapshot_jobs`
unfoldable pub snapshot_jobs : List Job → Dict Job
unfolding by_identity
snapshot_jobs rows = by_identity rows

-- jobs.values()
unfoldable pub values : Dict Job → List Job
values [] = []
values ((k, j) ∷ d) = j ∷ values d

-- `replace_snapshot`: the rows of the table after it.
unfoldable pub replace_snapshot : Dict Job → List Job
unfolding values
replace_snapshot jobs = values jobs

-- The entries of one dictionary whose keys another has not, in the order of `sorted`.
unfoldable pub insert_by_key : String → Job → Dict Job → Dict Job
insert_by_key k v [] = (k, v) ∷ []
insert_by_key k v ((j, w) ∷ d) =
    let later = (j, w) ∷ insert_by_key k v d in
    elim (compare k j) [ gt ↦ later | _ ↦ (k, v) ∷ (j, w) ∷ d ]

unfoldable pub is_missing : Option Job → Bool
is_missing none = true
is_missing (some j) = false

unfoldable pub difference : Dict Job → Dict Job → Dict Job
unfolding insert_by_key is_missing
difference [] previous = []
difference ((k, v) ∷ current) previous =
    let rest = difference current previous in
    if is_missing (lookup k previous) then insert_by_key k v rest else rest

unfoldable pub added_jobs : (current previous : Dict Job) → List Job
unfolding values difference
added_jobs current previous = values (difference current previous)

unfoldable pub removed_jobs : (current previous : Dict Job) → List Job
unfolding values difference
removed_jobs current previous = values (difference previous current)

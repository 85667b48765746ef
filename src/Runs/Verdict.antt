-- ===== src/Runs/Verdict.antt =====
-- How `_execute` of backend/utility_runs.py turns the end of a worker into the run's final status,
-- summary, error and message.
use Prim.Native.String.{◌++◌ as ◌++ₜ◌}
use opportunity_radar.Prelude.{
  ◌≡◌, ◌≢◌, refl, sym, subst, ◌∙◌, ◌⊎◌, inl, String, Bool, true, false, Option, none, some, [], ◌∷◌,
  arith, put, if◌then◌else◌, Text,
}
use opportunity_radar.Runs.{Status, completed, failed, cancelled, Summary}

-- The exceptions that the code tells apart; `str(exc)` as code points.
pub data Failure : Type 0 where
  -- `UtilityCancelled`, `InterruptedError`
  was_cancelled : Failure
  -- `TimeoutError`
  timed_out : Failure
  -- `OperationConflictError`
  conflict : Text → Failure
  value_error : Text → Failure
  other : Failure

pub data Ending {ℓ} (A : Type ℓ) : Type ℓ where
  returned : A → Ending A
  raised : Failure → Ending A

-- What `_execute` writes at the end. The error is `safe_error_summary` of the exception.
pub record Verdict : Type 0 where
  pub status : Status
  pub summary : Summary
  pub error : Option Failure
  pub message : String

-- `latest_details or summary`
latest_or : Summary → Summary → Summary
latest_or [] summary = summary
latest_or (d ∷ ds) summary = d ∷ ds

abbrev cancelled_message : String → String
cancelled_message name = name ++ₜ " was cancelled. No remaining items were processed."

-- The two `except` clauses; `summary` is what had been assigned when the exception came.
on_failure : String → Summary → Summary → Failure → Verdict
unfolding latest_or
on_failure name latest summary was_cancelled = record {
  status = cancelled;
  summary = latest_or latest summary;
  error = none;
  message = cancelled_message name;
}
on_failure name latest summary f = record {
  status = failed;
  summary = latest;
  error = some f;
  message = name ++ₜ " could not be completed.";
}

-- `after_success` and its own `try`: a failure of it is noted in the summary and ends nothing.
follow_up : Option (Summary → Ending String) → Summary → Summary
follow_up none summary = summary
follow_up (some after_success) summary = elim (after_success summary) [
  | returned value ↦ put "scheduledFollowUp" value summary
  | raised f ↦ put "scheduledFollowUp" "Failed" summary
]

on_message : String → Summary → Option (Summary → Ending String) → Summary → Ending String → Verdict
unfolding follow_up on_failure
on_message name latest after_success summary (returned message) = record {
  status = completed;
  summary = follow_up after_success summary;
  error = none;
  message = message;
}
on_message name latest after_success summary (raised f) = on_failure name latest summary f

-- The inner `try` of `_execute`. `name` is the task's, `latest` the details of the last progress
-- call, and `set` says whether the cancel event is set when the worker has returned.
unfoldable pub verdict :
    String
    → Bool
    → Summary
    → (Summary → Ending String)
    → Option (Summary → Ending String)
    → Ending Summary
    → Verdict
unfolding on_message on_failure
verdict name set latest format_summary after_success (raised f) = on_failure name latest [] f
verdict name set latest format_summary after_success (returned summary) =
    if set
    then on_failure name latest summary was_cancelled
    else on_message name latest after_success summary (format_summary summary)

is_fatal : Failure → Status
is_fatal was_cancelled = cancelled
is_fatal _ = failed

status-on_failure :
    (name : String) (latest summary : Summary) (f : Failure)
    → (on_failure name latest summary f).status ≡ is_fatal f
unfolding on_failure is_fatal
status-on_failure name latest summary was_cancelled = refl
status-on_failure name latest summary _ = refl

is_fatal-ne : (f : Failure) → is_fatal f ≢ completed
unfolding is_fatal
is_fatal-ne was_cancelled h = cc
is_fatal-ne _ h = cc

-- A verdict that reports completion comes from a worker that returned with no cancel event set, and
-- from a summary formatter that returned the message.
abbrev pub Completes : Bool → (Summary → Ending String) → Ending Summary → Verdict → Type 0
Completes set format_summary end v =
    (set ≡ false) × ((s : Summary) × (end ≡ returned s) × (format_summary s ≡ returned v.message))

on_message-completed :
    (name : String) (latest : Summary) (after_success : Option (Summary → Ending String))
    (s : Summary) (m : Ending String)
    → (on_message name latest after_success s m).status ≡ completed
    → m ≡ returned (on_message name latest after_success s m).message
unfolding on_message
on_message-completed name latest after_success s (returned m) h = refl
on_message-completed name latest after_success s (raised f) h =
    absurd (is_fatal-ne f (sym (status-on_failure name latest s f) ∙ h))

-- A run is reported as completed only if its worker returned, no cancel event was set by then, and
-- the summary formatter returned the message that is shown.
pub verdict-completed :
    (name : String) (set : Bool) (latest : Summary) (format_summary : Summary → Ending String)
    (after_success : Option (Summary → Ending String)) (end : Ending Summary)
    → (verdict name set latest format_summary after_success end).status ≡ completed
    → Completes set format_summary end (verdict name set latest format_summary after_success end)
unfolding verdict
verdict-completed name set latest format_summary after_success (raised f) h =
    absurd (is_fatal-ne f (sym (status-on_failure name latest [] f) ∙ h))
verdict-completed name true latest format_summary after_success (returned s) h =
    absurd (is_fatal-ne was_cancelled (sym (status-on_failure name latest s was_cancelled) ∙ h))
verdict-completed name false latest format_summary after_success (returned s) h =
    (refl, (s, refl, on_message-completed name latest after_success s (format_summary s) h))

abbrev pub IsFinal : Status → Type 0
IsFinal s = (s ≡ completed) ⊎ (s ≡ failed) ⊎ (s ≡ cancelled)

is_fatal-IsFinal : (f : Failure) → IsFinal (is_fatal f)
unfolding is_fatal
is_fatal-IsFinal was_cancelled = ground arith
is_fatal-IsFinal _ = ground arith

on_failure-IsFinal :
    (name : String) (latest summary : Summary) (f : Failure)
    → IsFinal (on_failure name latest summary f).status
on_failure-IsFinal name latest summary f =
    subst IsFinal (sym (status-on_failure name latest summary f)) (is_fatal-IsFinal f)

on_message-IsFinal :
    (name : String) (latest : Summary) (after_success : Option (Summary → Ending String))
    (s : Summary) (m : Ending String)
    → IsFinal (on_message name latest after_success s m).status
unfolding on_message
on_message-IsFinal name latest after_success s (returned m) = inl refl
on_message-IsFinal name latest after_success s (raised f) = on_failure-IsFinal name latest s f

-- Every verdict is one of the three final statuses.
pub verdict-IsFinal :
    (name : String) (set : Bool) (latest : Summary) (format_summary : Summary → Ending String)
    (after_success : Option (Summary → Ending String)) (end : Ending Summary)
    → IsFinal (verdict name set latest format_summary after_success end).status
unfolding verdict
verdict-IsFinal name set latest format_summary after_success (raised f) =
    on_failure-IsFinal name latest [] f
verdict-IsFinal name true latest format_summary after_success (returned s) =
    on_failure-IsFinal name latest s was_cancelled
verdict-IsFinal name false latest format_summary after_success (returned s) =
    on_message-IsFinal name latest after_success s (format_summary s)

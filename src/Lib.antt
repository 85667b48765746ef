-- ===== src/Lib.antt =====
-- Opportunity Radar: the parts of the Python backend that decide who may do what and when, what
-- enters and leaves it, and what it tells its readers.
--
-- The parts and how they interact. One process-wide gate (backend/operation_gate.py) admits one
-- mutating operation at a time. Maintenance runs (backend/utility_runs.py) take its lease when they
-- start, and give it back when their thread ends; HTTP handlers take it for the length of a request
-- (`api_mutation` of server.py). The maintenance scheduler (backend/maintenance_scheduler.py)
-- claims one occurrence per job and local date and starts a run for it. The email scheduler
-- (backend/email_scheduler.py) sends the digest under the same gate: backend/email_service.py
-- compares the open jobs with those that the readers were told of last, and stores what it told.
-- Sign-in (backend/blueash_auth.py) hands the browser to a portal with a signed cookie, exchanges
-- the portal's code for a token, and asks the portal who the token belongs to. Everything that the
-- program requests over HTTP passes the rules of backend/outbound_security.py, and so does what its
-- browser requests, in a proxy (backend/browser_egress_proxy.py). An upload is read to
-- a limit (server.py), staged and validated (backend/import_security.py); what is exported is
-- written through a temporary file (backend/file_security.py). Jobs are matched against the resume
-- (backend/resume_matching.py) and read with their match status (backend/repository.py). The
-- readiness of all of it is probed and cached (backend/health.py).
--
-- Which file models which part:
--   Prelude: shared names, tests on numbers and texts, list functions, dictionaries, `str` methods.
--   Gate, Gate/*: `MutationGate`, `MutationLease`, `ActiveOperation`, the stall watcher,
--     `api_mutation`. The state is the record Gate (`_active`, `_accepting`, and the table of
--     progress reports). Gate/Process is a list of events, in which the two halves of a release are
--     separate steps, since the code takes a lock for each.
--   Runs, Runs/*: `UtilityRunManager`. The state is the record Manager: the table
--     `maintenance_job_runs` with its partial unique index (backend/db.py), the gate, the threads
--     and the cancel events. Runs/Lifecycle has `start`, `record_skipped`, `cancel`, `shutdown`;
--     Runs/Execute and Runs/Verdict have `_execute`; Runs/Recovery has `reconcile_interrupted_runs`.
--   Schedules, Schedules/*: the table `maintenance_schedules`, `_claim_occurrence`,
--     `_release_occurrence` and `_run_due_once_locked`. Schedules/Cycles has `run_due_once` and lists
--     of cycles, Schedules/Edits has `list_schedules` and `update_schedule`; Schedules/Claims,
--     Schedules/Once, Schedules/Passes, Schedules/History and Schedules/Waiting have what is shown of
--     them.
--   Digest, Digest/*: `due_occurrence` and `run_due_once` of the email scheduler; it uses Gate.
--   Email, Email/*: the email service. Email/Digests has the rows and the job identities,
--     Email/Checkpoint the tables of the baseline and the snapshot, Email/Sending
--     `send_job_digest`, Email/Claim the claim of an occurrence, Email/Cipher and Email/Sealed the
--     cipher of the password, Email/Recipients `normalize_recipients`. Email/Endings, Email/Told and
--     Email/Once read the tables as what the readers know.
--   Auth/ReturnPath, Auth/LocalPath: `safe_return_path`. Auth/Handoff, Auth/Signed,
--     Auth/Accepted, Auth/RoundTrip, Auth/NonAscii: the signed cookie. Auth/Portal, Auth/Exchange,
--     Auth/Identity, Auth/Vouched: what is read in the portal's answers. Auth/Session, Auth/Cached,
--     Auth/Source: `introspect` with its cache, and `revoke`.
--   Outbound/Validate, Outbound/Ordered, Outbound/Routable, Outbound/Transport:
--     `validate_outbound_url` and the pinned connection. Outbound/Redirects, Outbound/Safety,
--     Outbound/Limits, Outbound/Bodies: redirects. Outbound/Guard: the guard on the browser's requests.
--   Server, Server/*: `production_security`, `require_administrator` and `auth_callback_endpoint` of
--     server.py.
--   Files, Files/*: `atomic_write_text`, `atomic_save_workbook` and `sanitize_spreadsheet_value` of
--     backend/file_security.py. A directory is a function from names to files.
--   Imports, Imports/*: backend/import_security.py. Imports/Nesting has the nesting limit of JSON,
--     Imports/Archive the members of a workbook, Imports/Shape its cells and records,
--     Imports/Upload `validate_import_upload`, `stage_import_upload`, `validate_staged_import` and
--     `read_limited_request_body` of server.py.
--   Matching, Matching/*: backend/resume_matching.py, with the match status of
--     backend/repository.py. Matching has the score, Matching/Context `_context`, Matching/Service
--     `match_jobs_if_needed`, Matching/Rematch `rematch_all`.
--   Egress, Egress/*: the proxy of the browser's requests, backend/browser_egress_proxy.py. Egress has
--     the parser, Egress/Proxy `_receive_proxy_header`, `_handle_client` and `_origin_form_request`.
--   Health, Health/*: backend/health.py. Health has the status of the components, Health/Probe the
--     probe of a directory, Health/Cache the readiness cache as a list of events of its threads.
--   A module Tests beside them runs the definitions, and applies the theorems, at concrete inputs.
--
-- How state and operations correspond. An operation that changes an object is a function from the
-- state before to the answer and the state after. What comes from outside is an argument: clocks,
-- thread identities, `uuid4`, whether a database or a file write succeeds, the portal's and the
-- servers' answers, what the worker of a run does, and what urllib, ipaddress, hmac, hashlib, json,
-- re, zipfile, openpyxl and datetime compute. An exception is a constructor of the result, or `none`
-- where all callers treat it alike. What other threads do between two lock sections is an argument
-- too, or an event.
--
-- Bounds and fuel. Numbers are natural; monotonic and wall clocks are in milliseconds, except in
-- the handoff cookie, which has whole seconds. Redirects recur on what the limit leaves, which is
-- the loop's own bound; percent-decoding recurs on the loop's four rounds; `show` has one digit of
-- fuel for each unit of its number, which is more than it has digits; the key stream has one block
-- of fuel for each byte that is asked for, and a block has at least one. All else is structural: the
-- waiters of the readiness cache are events, not a loop. The score of a match is an exact fraction,
-- rounded to the even number at a half as `round` does, in place of a float.
-- White space is that of ASCII, and lower case is that of ASCII letters.
--
-- What is not modelled: the SQL layer beyond the tables named above; the collectors, the search,
-- website and evidence tools, the reading of resume files, backups, migration, exports and reports;
-- the browser launch and its leases; the accept loop and the pump of the egress proxy; the
-- readiness of the database; the email settings apart from the recipients, and the texts of the
-- messages; the thread loops that poll; log messages; the frontend. `validate_auth_configuration` is a Boolean of the settings.
pub mod Auth
pub mod Digest
pub mod Egress
pub mod Email
pub mod Files
pub mod Gate
pub mod Health
pub mod Imports
pub mod Matching
pub mod Outbound
pub mod Prelude
pub mod Runs
pub mod Schedules
pub mod Server

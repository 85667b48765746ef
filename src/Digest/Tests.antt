-- ===== src/Digest/Tests.antt =====
-- Cycles of backend/email_scheduler.py on concrete settings.
use opportunity_radar.Prelude.{true, none, some, [], ◌∷◌, codes, Text, Option}
use opportunity_radar.Gate.{Gate, Outside, ActiveOperation, new_operation}
use opportunity_radar.Digest.{EmailSettings, LocalTime, Service}

abbrev settings : EmailSettings
settings = record {
  enabled = true;
  schedule_timezone = codes "UTC";
  schedule_time = codes "08:00";
  schedule_days = codes "monday" ∷ [];
  last_scheduled_date = [];
}

abbrev service : Service Text
service = record {
  settings = settings;
  settings_again = some settings;
  claims = λ s d. some true;
  send_digest = λ t. some t;
}

abbrev zoned : Text → Option LocalTime
zoned zone =
    some record { time = codes "08:05"; date = codes "2026-01-05"; weekday = codes "monday" }

abbrev outside : Outside
outside = record {
  stamp = "2026-01-05T08:05:00+00:00";
  monotonic = 1000;
  uuid = "u";
  thread_ident = 7;
  thread_name = "email-digest-scheduler";
  threads = 7 ∷ [];
}

abbrev free : Gate
free = record { active = none; accepting = true; progress = [] }

abbrev operation : ActiveOperation
operation = new_operation (codes "refresh") none outside

abbrev taken : Gate
taken = record { active = some operation; accepting = true; progress = [] }

-- ===== src/Tests/Clock.antt =====
-- The theorems on the daily jobs, at two ticks of one day.
use receipt_manager.Prelude.{ℕ, true, false, some, [], codes, ◌*◌}
use receipt_manager.Models.{seconds}
use receipt_manager.Scheduler.{Clock, SchedulerSettings, Runtime}

abbrev settings : SchedulerSettings
settings = record {
  digest_hour = 18;
  digest_enabled = true;
  connected_to_qbo = false;
  heartbeat_hours = 48;
  configured_for_graph = true;
}

abbrev at_hour : ℕ → Clock
at_hour hour = record {
  now = seconds (100 * 3600);
  local_hour = hour;
  local_date = codes "2024-05-01";
  utc_date = codes "2024-05-01";
  utc_stamp = codes "20240501";
}

abbrev runtime : Runtime
runtime = record {
  last_digest_date = codes "2024-04-30";
  last_heartbeat_alert = [];
  last_mail_at = some (seconds 3600);
}

-- ===== src/Schedules/Samples.antt =====
-- A schedule, a payload and a patch that the examples share.
use wisdom_qj_auction_servic.Prelude.{true, none, some, [], ◌∷◌, Option}
use wisdom_qj_auction_servic.Prelude.Texts.{Text}
use wisdom_qj_auction_servic.Models.{CrawlSchedule, daily, weekly, normal}
use wisdom_qj_auction_servic.Runs.Samples.{source}
use wisdom_qj_auction_servic.Analysis.{SourceUrlIdentity}
use wisdom_qj_auction_servic.Schedules.{Store, ScheduleCreate, SchedulePatch, unset, given}

abbrev pub weekly_payload : ScheduleCreate
weekly_payload = record {
  source_id = some 7;
  source_url = none;
  cadence = weekly;
  time_of_day = 32_400_000_000;
  weekday = some 5;
  enabled = true;
  collect_broker_details = true;
  interaction_delay_preset = normal;
}

abbrev pub daily_schedule : CrawlSchedule
daily_schedule = record {
  id = 60;
  source_id = 7;
  cadence = daily;
  time_of_day = 32_400_000_000;
  timezone = "Asia/Seoul";
  weekday = none;
  enabled = true;
  collect_broker_details = true;
  interaction_delay_preset = normal;
  next_run_at = 100;
}

abbrev pub to_weekly : SchedulePatch
to_weekly = record {
  cadence = given (some weekly);
  time_of_day = unset;
  timezone = unset;
  weekday = given (some 3);
  enabled = unset;
  collect_broker_details = unset;
  interaction_delay_preset = unset;
}

abbrev pub no_schedules : Store
no_schedules = record { sources = source ∷ []; schedules = [] }

abbrev pub one_schedule : Store
one_schedule = record { sources = source ∷ []; schedules = daily_schedule ∷ [] }

abbrev pub no_identity : Text → Option SourceUrlIdentity
no_identity s = none

-- ===== src/Schedules/Rows.antt =====
-- Payloads, rows, errors and tests of backend/app/services/schedule_service.py and
-- backend/app/schemas/schedule.py.
use wisdom_qj_auction_servic.Prelude.{
  ℕ, Bool, true, false, Option, none, some, List, [], ◌∷◌, ◌&&◌, ◌||◌, ◌==◌, not, leb, ltb, is_none,
  is_some,
}
use wisdom_qj_auction_servic.Prelude.Texts.{Text}
use wisdom_qj_auction_servic.Models.{TrackedSource, CrawlSchedule, Cadence, weekly, Preset}
use wisdom_qj_auction_servic.NextRun.{day}

pub data ScheduleError : Type 0 where
  source_not_found schedule_not_found conflict delete_conflict : ScheduleError
  value_error no_next_run invalid_source_url : ScheduleError

pub data Result (A : Type 0) : Type 0 where
  ok : A → Result A
  err : ScheduleError → Result A

pub record Store : Type 0 where
  pub sources : List TrackedSource
  pub schedules : List CrawlSchedule

pub record ScheduleCreate : Type 0 where
  pub source_id : Option ℕ
  pub source_url : Option Text
  pub cadence : Cadence
  pub time_of_day : ℕ
  pub weekday : Option ℕ
  pub enabled : Bool
  pub collect_broker_details : Bool
  pub interaction_delay_preset : Preset

-- A field of a patch: left out, or given, then perhaps as null.
pub data Field (A : Type 0) : Type 0 where
  unset : Field A
  given : Option A → Field A

pub record SchedulePatch : Type 0 where
  pub cadence : Field Cadence
  pub time_of_day : Field ℕ
  pub timezone : Field (Unit {0})
  pub weekday : Field ℕ
  pub enabled : Field Bool
  pub collect_broker_details : Field Bool
  pub interaction_delay_preset : Field Preset

abbrev pub value : {A : Type 0} → Field A → Option A
value unset = none
value (given o) = o

abbrev pub is_set : {A : Type 0} → Field A → Bool
is_set unset = false
is_set (given o) = true

abbrev pub or_else : {A : Type 0} → Option A → A → A
or_else none a = a
or_else (some b) a = b

abbrev pub is_weekly : Cadence → Bool
is_weekly weekly = true
is_weekly _ = false

abbrev pub weekday_in_range : Option ℕ → Bool
weekday_in_range none = true
weekday_in_range (some k) = leb k 6

-- The text of a URL that is given and not empty.
abbrev pub truthy : Option Text → Option Text
truthy none = none
truthy (some []) = none
truthy (some (c ∷ s)) = some (c ∷ s)

-- What the schemas accept.
abbrev pub validate_create : ScheduleCreate → Bool
validate_create p =
    weekday_in_range p.weekday
    && ltb p.time_of_day day
    && (is_some p.source_id || is_some (truthy p.source_url))
    && not (is_weekly p.cadence && is_none p.weekday)

abbrev pub time_in_range : Option ℕ → Bool
time_in_range none = true
time_in_range (some t) = ltb t day

abbrev pub validate_patch : SchedulePatch → Bool
validate_patch p = weekday_in_range (value p.weekday) && time_in_range (value p.time_of_day)

abbrev pub of_source : ℕ → CrawlSchedule → Bool
of_source source_id s = s.source_id == source_id

abbrev pub has_schedule_id : ℕ → CrawlSchedule → Bool
has_schedule_id schedule_id s = s.id == schedule_id

-- ===== src/Models.antt =====
-- The tables of backend/app/models: entities.py, user.py, auth_session.py, notification.py and
-- notification_preference.py. A row is a record; a primary key (a UUID) is a number; a time is a
-- number of microseconds; a text that the code only stores is a `String`, one that it compares is a
-- `Text`. Relationship attributes are queries over the other tables and are not stored.
use Prim.Native.String.{String}
use wisdom_qj_auction_servic.Prelude.{List, not, arith, ◌↔◌, ◌≡◌, ℕ, Bool, true, false, Option}
use wisdom_qj_auction_servic.Prelude.Texts.{Text}

-- `status_values` of `CrawlRun`
pub data RunStatus : Type 0 where
  queued running completed partial failed blocked cancelled : RunStatus

-- `stage_values` of `CrawlRun`
pub data Stage : Type 0 where
  url complex listings brokers details compare save : Stage

-- `InteractionDelayPreset` of backend/app/crawler/delay.py
pub data Preset : Type 0 where
  very_fast fast normal careful very_careful : Preset

pub data Role : Type 0 where
  admin member : Role

pub data Cadence : Type 0 where
  daily weekdays weekly : Cadence

pub data EventType : Type 0 where
  new changed missing removed restored : EventType

pub record TrackedSource : Type 0 where
  pub id : ℕ
  pub source_url : Text
  pub normalized_url : Text
  pub url_hash : Text
  pub owner_user_id : ℕ
  pub naver_complex_id : Option Text
  pub created_at : ℕ
  pub is_active : Bool

pub record CrawlRun : Type 0 where
  pub id : ℕ
  pub source_id : ℕ
  pub status : RunStatus
  pub stage : Stage
  pub progress : ℕ
  pub created_at : ℕ
  pub started_at : Option ℕ
  pub finished_at : Option ℕ
  pub error_code : Option String
  pub selector_version : Option String
  pub collect_broker_details : Bool
  pub interaction_delay_preset : Preset

pub record CrawlSchedule : Type 0 where
  pub id : ℕ
  pub source_id : ℕ
  pub cadence : Cadence
  pub time_of_day : ℕ
  pub timezone : String
  pub weekday : Option ℕ
  pub enabled : Bool
  pub collect_broker_details : Bool
  pub interaction_delay_preset : Preset
  pub next_run_at : ℕ

pub record User : Type 0 where
  pub id : ℕ
  pub email : Text
  pub display_name : Text
  pub password_hash : Option Text
  pub role : Role
  pub is_active : Bool
  pub is_system : Bool
  pub failed_login_count : ℕ
  pub locked_until : Option ℕ
  pub created_at : ℕ

pub record AuthSession : Type 0 where
  pub id : ℕ
  pub user_id : ℕ
  pub token_hash : Text
  pub csrf_hash : Text
  pub created_at : ℕ
  pub last_seen_at : ℕ
  pub expires_at : ℕ
  pub revoked_at : Option ℕ

pub record SourceNotificationPreference : Type 0 where
  pub source_id : ℕ
  pub enabled : Bool
  pub notify_new : Bool
  pub notify_changed : Bool
  pub notify_removed : Bool
  pub notify_restored : Bool

-- A JSON object whose values the code copies and compares, each as its JSON text.
abbrev pub Details : Type 0
Details = List (Text × Text)

pub record Apartment : Type 0 where
  pub id : ℕ
  pub naver_complex_id : Text
  pub name : Text
  pub address : Text
  pub details_json : Details
  pub details_updated_at : Option ℕ
  pub created_at : ℕ
  pub updated_at : ℕ

pub record ApartmentSnapshot : Type 0 where
  pub id : ℕ
  pub run_id : ℕ
  pub apartment_id : ℕ
  pub details_json : Details
  pub captured_at : ℕ

-- `ACTIVE_STATUSES`
abbrev pub is_active_status : RunStatus → Bool
is_active_status queued = true
is_active_status running = true
is_active_status _ = false

-- `TERMINAL_STATUSES`, `TERMINAL_RUN_STATUSES`
abbrev pub is_terminal_status : RunStatus → Bool
is_terminal_status completed = true
is_terminal_status partial = true
is_terminal_status failed = true
is_terminal_status blocked = true
is_terminal_status cancelled = true
is_terminal_status _ = false

abbrev pub bool_eq : Bool → Bool → Bool
bool_eq true b = b
bool_eq false b = not b

abbrev pub preset_eq : Preset → Preset → Bool
preset_eq very_fast very_fast = true
preset_eq fast fast = true
preset_eq normal normal = true
preset_eq careful careful = true
preset_eq very_careful very_careful = true
preset_eq _ _ = false

pub bool_eq_iff : (a b : Bool) → (bool_eq a b ≡ true) ↔ (a ≡ b)
bool_eq_iff a b = ground arith

pub preset_eq_iff : (a b : Preset) → (preset_eq a b ≡ true) ↔ (a ≡ b)
preset_eq_iff a b = ground arith

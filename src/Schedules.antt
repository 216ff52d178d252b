-- ===== src/Schedules.antt =====
-- backend/app/services/schedule_service.py: `ScheduleService`, with the payloads of
-- backend/app/schemas/schedule.py. The payloads admit one time zone, the argument `zone`. A method
-- is one transaction; `others` is what other transactions commit between the reads of `create`
-- and its commit.
mod Rows
pub mod Lookup
pub mod Upkeep
pub mod Patches
pub mod Changes
pub mod Samples
mod Tests
pub use Rows.*
use wisdom_qj_auction_servic.Prelude.{
  ℕ, Bool, true, false, Option, none, some, List, [], ◌∷◌, ◌&&◌, ◌||◌, ◌==◌, not, any, leb, ltb,
  is_none, is_some, if◌then◌else◌,
}
use wisdom_qj_auction_servic.Prelude.Tables.{find, update_where}
use wisdom_qj_auction_servic.Prelude.Texts.{Text, text_eq}
use wisdom_qj_auction_servic.Models.{
  TrackedSource, CrawlSchedule, Cadence, daily, weekdays, weekly, Preset,
}
use wisdom_qj_auction_servic.NextRun.{
  Zone, DateTime, aware, Found, at, refused, day, calculate_next_run,
}
use wisdom_qj_auction_servic.Analysis.{SourceUrlIdentity}

-- The second look at the URL, after the source was found.
abbrev pub matching_source :
    (Text → Option SourceUrlIdentity) → Option Text → TrackedSource → Result TrackedSource
matching_source normalize none s = ok s
matching_source normalize (some source_url) s = elim (normalize source_url) [
  | none ↦ err invalid_source_url
  | some identity ↦ if text_eq s.url_hash identity.url_hash then ok s else err source_not_found
]

abbrev pub active_source :
    (Text → Option SourceUrlIdentity) → Option Text → Option TrackedSource → Result TrackedSource
active_source normalize source_url none = err source_not_found
active_source normalize source_url (some s) =
    if s.is_active then matching_source normalize source_url s else err source_not_found

abbrev pub source_by_url :
    (Text → Option SourceUrlIdentity) → (actor : ℕ) → Option Text → Store → Result TrackedSource
source_by_url normalize actor none db = err source_not_found
source_by_url normalize actor (some source_url) db = elim (normalize source_url) [
  | none ↦ err invalid_source_url
  | some identity ↦
      active_source normalize (some source_url)
        (find (λ s. s.owner_user_id == actor && text_eq s.url_hash identity.url_hash) db.sources)
]

-- `_source`
abbrev pub source_for :
    (Text → Option SourceUrlIdentity) → (actor : ℕ) → ScheduleCreate → Store → Result TrackedSource
source_for normalize actor p db = elim p.source_id [
  | some source_id ↦
      active_source normalize (truthy p.source_url)
        (find (λ s. s.id == source_id && s.owner_user_id == actor) db.sources)
  | none ↦ source_by_url normalize actor (truthy p.source_url) db
]

-- INSERT under the primary key and the unique source.
abbrev pub insert_schedule : CrawlSchedule → List CrawlSchedule → Option (List CrawlSchedule)
insert_schedule s schedules =
    if any (λ x. has_schedule_id s.id x || of_source s.source_id x) schedules
    then none
    else some (s ∷ schedules)

abbrev pub new_schedule : (id source_id next_run_at : ℕ) → ScheduleCreate → CrawlSchedule
new_schedule id source_id next_run_at p = record {
  id = id;
  source_id = source_id;
  cadence = p.cadence;
  time_of_day = p.time_of_day;
  timezone = "Asia/Seoul";
  weekday = if is_weekly p.cadence then p.weekday else none;
  enabled = p.enabled;
  collect_broker_details = p.collect_broker_details;
  interaction_delay_preset = p.interaction_delay_preset;
  next_run_at = next_run_at;
}

-- The insertion at the commit, over what others have committed.
abbrev pub commit_schedule : CrawlSchedule → Store → Result CrawlSchedule × Store
commit_schedule s db = elim (insert_schedule s db.schedules) [
  | none ↦ (err conflict, db)
  | some schedules ↦ (ok s, record db { schedules = schedules })
]

abbrev pub create_timed :
    Zone
    → (Store → Store)
    → (id source_id : ℕ) → ScheduleCreate
    → Found
    → Store
    → Result CrawlSchedule × Store
create_timed zone others id source_id p (refused e) db = (err no_next_run, db)
create_timed zone others id source_id p (at wall) db =
    commit_schedule (new_schedule id source_id (zone.to_instant wall) p) (others db)

abbrev pub create_found :
    Zone
    → (Store → Store)
    → (id now : ℕ) → ScheduleCreate
    → Result TrackedSource
    → Store
    → Result CrawlSchedule × Store
create_found zone others id now p (err e) db = (err e, db)
create_found zone others id now p (ok s) db =
    if any (of_source s.id) db.schedules
    then (err conflict, db)
    else create_timed zone others id s.id p
        (calculate_next_run zone (some p.cadence) p.time_of_day (aware now) p.weekday) db

pub create :
    Zone
    → (Text → Option SourceUrlIdentity)
    → (others : Store → Store) → (id now actor : ℕ) → ScheduleCreate
    → Store
    → Result CrawlSchedule × Store
create zone normalize others id now actor p db =
    create_found zone others id now p (source_for normalize actor p db) db

-- The join with the sources of the user.
abbrev pub owned_schedule : (actor : ℕ) → List TrackedSource → CrawlSchedule → Bool
owned_schedule actor sources s = any (λ x. x.id == s.source_id && x.owner_user_id == actor) sources

-- `_get`
abbrev pub get_schedule : (actor schedule_id : ℕ) → Store → Option CrawlSchedule
get_schedule actor schedule_id db =
    find (λ s. has_schedule_id schedule_id s && owned_schedule actor db.sources s) db.schedules

abbrev pub final_cadence : SchedulePatch → CrawlSchedule → Cadence
final_cadence p s = or_else (value p.cadence) s.cadence

abbrev pub given_weekday : SchedulePatch → CrawlSchedule → Option ℕ
given_weekday p s = if is_set p.weekday then value p.weekday else s.weekday

abbrev pub patched : SchedulePatch → CrawlSchedule → CrawlSchedule
patched p s = record s {
  cadence = final_cadence p s;
  weekday = if is_weekly (final_cadence p s) then given_weekday p s else none;
  time_of_day = or_else (value p.time_of_day) s.time_of_day;
  enabled = or_else (value p.enabled) s.enabled;
  collect_broker_details = or_else (value p.collect_broker_details) s.collect_broker_details;
  interaction_delay_preset = or_else (value p.interaction_delay_preset) s.interaction_delay_preset;
}

abbrev pub reschedules : SchedulePatch → Bool
reschedules p =
    is_set p.cadence
    || is_set p.time_of_day
    || is_set p.timezone
    || is_set p.weekday
    || or_else (value p.enabled) false

abbrev pub write_schedule : CrawlSchedule → Store → Result CrawlSchedule × Store
write_schedule s db =
    (ok s, record db { schedules = update_where (has_schedule_id s.id) (λ _. s) db.schedules })

abbrev pub rescheduled : Zone → CrawlSchedule → Found → Store → Result CrawlSchedule × Store
rescheduled zone s (refused e) db = (err no_next_run, db)
rescheduled zone s (at wall) db =
    write_schedule (record s { next_run_at = zone.to_instant wall }) db

abbrev pub next_of : Zone → ℕ → CrawlSchedule → Found
next_of zone now s = calculate_next_run zone (some s.cadence) s.time_of_day (aware now) s.weekday

abbrev pub patch_found :
    Zone → ℕ → SchedulePatch → Option CrawlSchedule → Store → Result CrawlSchedule × Store
patch_found zone now p none db = (err schedule_not_found, db)
patch_found zone now p (some s) db =
    if not (any (λ x. x.id == s.source_id) db.sources)
    then (err source_not_found, db)
    else if is_weekly (final_cadence p s) && is_none (given_weekday p s)
    then (err value_error, db)
    else if reschedules p
    then rescheduled zone (patched p s) (next_of zone now (patched p s)) db
    else write_schedule (patched p s) db

pub patch :
    Zone → (now actor schedule_id : ℕ) → SchedulePatch → Store → Result CrawlSchedule × Store
patch zone now actor schedule_id p db =
    patch_found zone now p (get_schedule actor schedule_id db) db

pub data Action : Type 0 where
  deleted disabled : Action

abbrev pub without : ℕ → List CrawlSchedule → List CrawlSchedule
without schedule_id [] = []
without schedule_id (s ∷ ss) =
    if has_schedule_id schedule_id s then without schedule_id ss else s ∷ without schedule_id ss

abbrev pub delete_found : Bool → Option CrawlSchedule → Store → Result Action × Store
delete_found hard none db = (err schedule_not_found, db)
delete_found hard (some s) db =
    if hard
    then (if s.enabled
        then (err delete_conflict, db)
        else (ok deleted, record db { schedules = without s.id db.schedules }))
    else (
      ok disabled,
      record db {
        schedules =
            update_where (has_schedule_id s.id) (λ x. record x { enabled = false }) db.schedules;
      },
    )

pub delete : (hard : Bool) (actor schedule_id : ℕ) → Store → Result Action × Store
delete hard actor schedule_id db = delete_found hard (get_schedule actor schedule_id db) db

-- ===== src/Notifications.antt =====
-- backend/app/services/notification_service.py: `NotificationService`, without its pages.
-- The title and the snapshots before and after, texts that are copied and cut for display, are left
-- out of the rows.
pub mod Reading
pub mod Events
pub mod Pages
pub mod Samples
mod Tests
use wisdom_qj_auction_servic.Prelude.{
  ℕ, Bool, true, false, Option, none, some, List, [], ◌∷◌, ◌&&◌, ◌||◌, ◌==◌, not, any, count,
  where_, is_none, if◌then◌else◌,
}
use wisdom_qj_auction_servic.Prelude.Tables.{find, update_where}
use wisdom_qj_auction_servic.Prelude.Texts.{Text, text_eq, codes}
use wisdom_qj_auction_servic.Models.{
  TrackedSource, CrawlRun, RunStatus, completed, SourceNotificationPreference, EventType, new,
  changed, missing, removed, restored,
}

pub record Notification : Type 0 where
  pub id : ℕ
  pub user_id : ℕ
  pub source_id : ℕ
  pub run_id : ℕ
  pub change_event_id : ℕ
  pub apartment_id : ℕ
  pub listing_group_id : ℕ
  pub event_type : EventType
  pub changed_fields : List Text
  pub compare_run_id : Option ℕ
  pub created_at : ℕ
  pub read_at : Option ℕ

-- The columns of `ChangeEvent` that are read.
pub record ChangeEvent : Type 0 where
  pub id : ℕ
  pub run_id : ℕ
  pub listing_group_id : ℕ
  pub event_type : EventType
  pub changed_fields_json : List Text
  pub detected_at : ℕ

pub record Store : Type 0 where
  pub sources : List TrackedSource
  pub preferences : List SourceNotificationPreference
  pub notifications : List Notification

-- NotificationNotFoundError, or the result.
pub data Result (A : Type 0) : Type 0 where
  ok : A → Result A
  not_found : Result A

-- `SAFE_SUMMARY_FIELDS`
abbrev pub safe_summary_fields : List Text
safe_summary_fields =
    codes "price"
    ∷ codes "deposit"
    ∷ codes "monthlyRent"
    ∷ codes "building"
    ∷ codes "floor"
    ∷ codes "direction"
    ∷ codes "supplyAreaM2"
    ∷ codes "exclusiveAreaM2"
    ∷ codes "managementFee"
    ∷ codes "moveInDate"
    ∷ codes "roomBathroom"
    ∷ codes "optionTags"
    ∷ codes "registrationCount"
    ∷ codes "state"
    ∷ codes "missingCount"
    ∷ []

abbrev pub is_safe : Text → Bool
is_safe field = any (λ f. text_eq f field) safe_summary_fields

abbrev pub is_completed : RunStatus → Bool
is_completed completed = true
is_completed _ = false

-- `has_completed_baseline`
abbrev pub has_completed_baseline : (source_id : ℕ) → List CrawlRun → Bool
has_completed_baseline source_id runs =
    any (λ r. r.source_id == source_id && is_completed r.status) runs

-- `PREFERENCE_FIELDS`, a kind of event that is not listed is never notified.
abbrev pub wants : EventType → SourceNotificationPreference → Bool
wants new p = p.notify_new
wants changed p = p.notify_changed
wants removed p = p.notify_removed
wants restored p = p.notify_restored
wants missing p = false

abbrev pub is_of_event : (user_id event_id : ℕ) → Notification → Bool
is_of_event user_id event_id n = n.user_id == user_id && n.change_event_id == event_id

abbrev pub preference_of : (source_id : ℕ) → Store → Option SourceNotificationPreference
preference_of source_id db = find (λ p. p.source_id == source_id) db.preferences

abbrev pub is_wanted : EventType → Option SourceNotificationPreference → Bool
is_wanted event_type none = false
is_wanted event_type (some p) = p.enabled && wants event_type p

abbrev pub notification_for :
    (id : ℕ) → ChangeEvent → TrackedSource → (apartment_id : ℕ) → Option ℕ → Notification
notification_for id event source apartment_id compare_run_id = record {
  id = id;
  user_id = source.owner_user_id;
  source_id = source.id;
  run_id = event.run_id;
  change_event_id = event.id;
  apartment_id = apartment_id;
  listing_group_id = event.listing_group_id;
  event_type = event.event_type;
  changed_fields = where_ is_safe event.changed_fields_json;
  compare_run_id = compare_run_id;
  created_at = event.detected_at;
  read_at = none;
}

-- The new row is pending in the session; the caller commits.
unfoldable pub create_from_change_event :
    (id actor : ℕ)
    → ChangeEvent
    → TrackedSource
    → (apartment_id : ℕ) → (baseline : Bool) → (compare_run_id : Option ℕ) → Store
    → Option Notification × Store
create_from_change_event id actor event source apartment_id baseline compare_run_id db =
    if baseline || not (source.owner_user_id == actor)
    then (none, db)
    else if not (is_wanted event.event_type (preference_of source.id db))
    then (none, db)
    else elim (find (is_of_event source.owner_user_id event.id) db.notifications) [
      | some existing ↦ (some existing, db)
      | none ↦
          let n = notification_for id event source apartment_id compare_run_id in
          (some n, record db { notifications = n ∷ db.notifications })
    ]

abbrev pub is_unread_of : (actor : ℕ) → Notification → Bool
is_unread_of actor n = n.user_id == actor && is_none n.read_at

pub unread_count : (actor : ℕ) → Store → ℕ
unread_count actor db = count (is_unread_of actor) db.notifications

abbrev pub is_own : (actor notification_id : ℕ) → Notification → Bool
is_own actor notification_id n = n.id == notification_id && n.user_id == actor

abbrev pub marked : (read : Bool) → ℕ → Notification → Notification
marked read now n = record n { read_at = if read then some now else none }

abbrev pub mark_found : Bool → ℕ → Option Notification → Store → Result Notification × Store
mark_found read now none db = (not_found, db)
mark_found read now (some n) db = (
  ok (marked read now n),
  record db { notifications = update_where (λ x. x.id == n.id) (marked read now) db.notifications },
)

pub mark_read :
    (actor notification_id now : ℕ) → (read : Bool) → Store → Result Notification × Store
mark_read actor notification_id now read db =
    mark_found read now (find (is_own actor notification_id) db.notifications) db

pub read_all : (actor now : ℕ) → Store → ℕ × Store
read_all actor now db = (
  count (is_unread_of actor) db.notifications,
  record db {
    notifications = update_where (is_unread_of actor) (marked true now) db.notifications;
  },
)

-- `_owned_source`
abbrev pub owned_source : (actor source_id : ℕ) → Store → Option TrackedSource
owned_source actor source_id db =
    find (λ s. s.id == source_id && s.owner_user_id == actor) db.sources

abbrev pub default_preference : ℕ → SourceNotificationPreference
default_preference source_id = record {
  source_id = source_id;
  enabled = false;
  notify_new = true;
  notify_changed = true;
  notify_removed = true;
  notify_restored = true;
}

abbrev pub or_default : ℕ → Option SourceNotificationPreference → SourceNotificationPreference
or_default source_id none = default_preference source_id
or_default source_id (some p) = p

pub get_preference : (actor source_id : ℕ) → Store → Result SourceNotificationPreference
get_preference actor source_id db = elim (owned_source actor source_id db) [
  | none ↦ not_found
  | some s ↦ ok (or_default source_id (preference_of source_id db))
]

abbrev pub save_preference :
    SourceNotificationPreference
    → Option SourceNotificationPreference
    → List SourceNotificationPreference
    → List SourceNotificationPreference
save_preference p none ps = p ∷ ps
save_preference p (some old) ps = update_where (λ x. x.source_id == p.source_id) (λ _. p) ps

-- `p` holds the source and the five settings.
pub update_preference :
    (actor : ℕ) → SourceNotificationPreference → Store → Result SourceNotificationPreference × Store
update_preference actor p db = elim (owned_source actor p.source_id db) [
  | none ↦ (not_found, db)
  | some s ↦ (
    ok p,
    record db { preferences = save_preference p (preference_of p.source_id db) db.preferences },
  )
]

-- ===== src/Persistence/Writes.antt =====
-- What the parts of `PersistenceService.persist` in backend/app/services/persistence_service.py share:
-- the constraints of the tables, the insertion under a unique key, and `_add_event`.
use wisdom_qj_auction_servic.Prelude.{ℕ, Bool, true, false, Option, none, some, List, ◌∷◌}
use wisdom_qj_auction_servic.Prelude.Texts.{Text}
use wisdom_qj_auction_servic.Models.{CrawlRun, TrackedSource, Apartment, EventType}
use wisdom_qj_auction_servic.Notifications.{ChangeEvent, create_from_change_event}
use wisdom_qj_auction_servic.Listings.Compare.{JsonValue}
use wisdom_qj_auction_servic.Persistence.Rows.{
  Store, M, ◌>>=◌, ◌>>◌, return, raise, write, draw_id, PersistenceError, ok,
}

-- The run, its source and apartment, and what `persist` computes before the first listing.
pub record Context : Type 0 where
  pub run : CrawlRun
  pub source : TrackedSource
  pub apartment : Apartment
  pub notification_baseline : Bool
  pub compare_run_id : Option ℕ
  pub captured_at : ℕ

abbrev pub reject : Bool → PersistenceError → M (Unit {0})
reject true e = raise e
reject false e = return tt

-- A constraint on the tables.
abbrev pub refuse : (Store → Bool) → PersistenceError → M (Unit {0})
refuse p e db = reject (p db) e db

abbrev pub requeried :
    {A : Type 0} → A → (add : A → Store → Store) → (existing : Option A) → M (A × Bool)
requeried candidate add none db = ok (candidate, true) (add candidate db)
requeried candidate add (some existing) db = ok (existing, false) db

-- `_insert_or_requery`: the INSERT fails when the lookup, by the unique key, has a row.
abbrev pub insert_or_requery :
    {A : Type 0} → A → (lookup : Store → Option A) → (add : A → Store → Store) → M (A × Bool)
insert_or_requery candidate lookup add db = requeried candidate add (lookup db) db

-- The notification that the event makes, in the tables of the notification service.
abbrev pub notify : Context → (id : ℕ) → ChangeEvent → Store → Store
notify c id event db =
    let (_, after) =
      create_from_change_event id c.source.owner_user_id event c.source c.apartment.id
        c.notification_baseline c.compare_run_id
        (record {
          sources = db.sources;
          preferences = db.preferences;
          notifications = db.notifications;
        }) in
    record db { notifications = after.notifications }

abbrev pub change_event :
    (id : ℕ) → Context → (group_id : ℕ) → EventType → (changed_fields : List Text) → ChangeEvent
change_event id c group_id event_type changed_fields = record {
  id = id;
  run_id = c.run.id;
  listing_group_id = group_id;
  event_type = event_type;
  changed_fields_json = changed_fields;
  detected_at = c.captured_at;
}

abbrev pub add_event_row :
    ChangeEvent → (before after : Option (List (Text × JsonValue))) → Store → Store
add_event_row event before after db = record db {
  events = record { event = event; before_json = before; after_json = after } ∷ db.events;
}

-- `_add_event`
abbrev pub add_event :
    Context
    → (group_id : ℕ) → EventType
    → (changed_fields : List Text) → (before after : Option (List (Text × JsonValue)))
    → M (Unit {0})
add_event c group_id event_type changed_fields before after = do
  id ← draw_id
  notification_id ← draw_id
  write (add_event_row (change_event id c group_id event_type changed_fields) before after)
  write (notify c notification_id (change_event id c group_id event_type changed_fields))

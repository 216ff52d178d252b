-- ===== src/Notifications/Samples.antt =====
-- A change event and tables that the examples share.
use wisdom_qj_auction_servic.Prelude.{true, false, none, [], ◌∷◌}
use wisdom_qj_auction_servic.Prelude.Texts.{codes}
use wisdom_qj_auction_servic.Models.{SourceNotificationPreference, changed}
use wisdom_qj_auction_servic.Runs.Samples.{source}
use wisdom_qj_auction_servic.Notifications.{ChangeEvent, Store, Notification, notification_for}

abbrev pub event : ChangeEvent
event = record {
  id = 70;
  run_id = 1;
  listing_group_id = 2;
  event_type = changed;
  changed_fields_json = codes "price" ∷ codes "loan" ∷ [];
  detected_at = 9;
}

abbrev pub settings : SourceNotificationPreference
settings = record {
  source_id = 7;
  enabled = true;
  notify_new = false;
  notify_changed = true;
  notify_removed = false;
  notify_restored = false;
}

abbrev pub wanted : Store
wanted = record { sources = source ∷ []; preferences = settings ∷ []; notifications = [] }

abbrev pub first : Notification
first = notification_for 80 event source 4 none

abbrev pub notified : Store
notified = record wanted { notifications = first ∷ [] }

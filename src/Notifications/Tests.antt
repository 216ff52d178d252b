-- ===== src/Notifications/Tests.antt =====
-- Examples: the theorems on notifications at concrete tables.
use wisdom_qj_auction_servic.Prelude.{length, [], ◌∷◌, suc, Option, ◌≡◌, refl, false, none, some}
use wisdom_qj_auction_servic.Prelude.Texts.{Text}
use wisdom_qj_auction_servic.Keyset.{Key, newest_first}
use wisdom_qj_auction_servic.Keyset.Order.{HasDistinctIds}
use wisdom_qj_auction_servic.Notifications.Pages.{Codec, row_key, listed, list}
use wisdom_qj_auction_servic.Notifications.Pages.Whole.{IsFaithful, follow, list-whole}
use wisdom_qj_auction_servic.Runs.Samples.{source}
use wisdom_qj_auction_servic.Notifications.{
  Store, Notification, ok, create_from_change_event, read_all, unread_count, get_preference,
  update_preference,
}
use wisdom_qj_auction_servic.Notifications.Samples.{event, settings, wanted, first, notified}
use wisdom_qj_auction_servic.Notifications.Reading.{
  of_others, read_all-unread_count, update_preference-get_preference,
}
use wisdom_qj_auction_servic.Notifications.Events.{
  Outcome, create_from_change_event-Outcome, create_from_change_event_once,
}

create_from_change_event-Outcome_example :
    Outcome 3 event source false wanted
      (create_from_change_event 80 3 event source 4 false none wanted)
create_from_change_event-Outcome_example =
    create_from_change_event-Outcome 80 3 event source 4 false none wanted

notifies : create_from_change_event 80 3 event source 4 false none wanted ≡ (some first, notified)
unfolding create_from_change_event
notifies = refl

create_from_change_event_once_example :
    create_from_change_event 81 3 event source 4 false none notified ≡ (some first, notified)
create_from_change_event_once_example =
    create_from_change_event_once 80 81 3 event source 4 false none wanted notified first notifies

read_all-unread_count_example :
    ((read_all 3 12 notified).0 ≡ unread_count 3 notified)
    × (unread_count 3 (read_all 3 12 notified).1 ≡ 0)
    × (of_others 3 (read_all 3 12 notified).1.notifications ≡ of_others 3 notified.notifications)
read_all-unread_count_example = read_all-unread_count 3 12 notified

update_preference-get_preference_example :
    get_preference 3 7 (update_preference 3 (record settings { enabled = false }) wanted).1
    ≡ ok (record settings { enabled = false })
update_preference-get_preference_example =
    update_preference-get_preference 3 (record settings { enabled = false }) source wanted refl

-- A cursor as two characters, for the examples.
abbrev plain_key : Text → Option Key
plain_key [] = none
plain_key (a ∷ []) = none
plain_key (a ∷ b ∷ s) = some (a, b)

abbrev plain : Codec
plain = record { encode = λ k. k.0 ∷ k.1 ∷ []; decode = plain_key }

plain-IsFaithful : IsFaithful plain
plain-IsFaithful = record { round_trip = λ k. refl; nonempty = λ k. refl }

abbrev two_notified : Store
two_notified = record notified {
  notifications = first ∷ record first { id = 81; created_at = 11 } ∷ [];
}

two_distinct :
    HasDistinctIds (λ (n : Notification). (n.created_at, n.id)) two_notified.notifications
two_distinct = ((refl, tt), (tt, tt))

list-whole_example :
    let rows = listed 3 false two_notified in
    follow
      (λ cursor. list plain 3 1 false cursor two_notified)
      (suc (length (newest_first row_key rows)))
      none
    ≡ some (newest_first row_key rows)
list-whole_example = list-whole plain 3 0 false two_notified plain-IsFaithful two_distinct

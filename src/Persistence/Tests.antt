-- ===== src/Persistence/Tests.antt =====
-- Examples: a completed run that finds a new listing and misses the stored one.
use wisdom_qj_auction_servic.Prelude.{◌+◌, ◌≡◌, ◌≤◌, refl, true, some, arith, length, All, count}
use wisdom_qj_auction_servic.Prelude.Texts.{strip, codes, lstrip, rstrip, is_space}
use wisdom_qj_auction_servic.Prelude.Words.{collapse, split_from, join_words}
use wisdom_qj_auction_servic.Prelude.Tables.{find}
use wisdom_qj_auction_servic.Models.{partial, CrawlRun, is_terminal_status}
use wisdom_qj_auction_servic.Runs.{has_id, finish_run}
use wisdom_qj_auction_servic.Listings.{transition_absence, transition_presence}
use wisdom_qj_auction_servic.Listings.Compare.{compare_listings}
use wisdom_qj_auction_servic.Listings.Identity.{
  build_identity_key, build_auxiliary_key, choose_existing_listing,
}
use wisdom_qj_auction_servic.Notifications.{create_from_change_event}
use wisdom_qj_auction_servic.Persistence.Rows.{CrawlPayload, Store, Result, ok, err, ◌>>=◌}
use wisdom_qj_auction_servic.Persistence.Records.{existing_records}
use wisdom_qj_auction_servic.Persistence.Comparables.{
  previous_comparable, identity_input, incoming_comparable, comparable_json,
}
use wisdom_qj_auction_servic.Persistence.Persist.{persist, PersistenceOutcome, terminal_outcome}
use wisdom_qj_auction_servic.Persistence.Kept.{IsUnique, IsConsistent, is_hidden, home}
use wisdom_qj_auction_servic.Persistence.Effects.{
  persist-event_count, persist-IsConsistent, persist-is_hidden, persist-home, persist-has_id,
}
use wisdom_qj_auction_servic.Persistence.Samples.{world, payload, run, tables}

abbrev tables_of : Result PersistenceOutcome → Store
tables_of (ok o after) = after
tables_of (err e) = tables

abbrev outcome_of : Result PersistenceOutcome → PersistenceOutcome
outcome_of (ok o after) = o
outcome_of (err e) = terminal_outcome run

abbrev saved : Result PersistenceOutcome
saved = persist world "v" 2 payload tables

saved_ok : saved ≡ ok (outcome_of saved) (tables_of saved)
unfolding persist ◌>>=◌ existing_records previous_comparable identity_input incoming_comparable
    comparable_json build_identity_key build_auxiliary_key choose_existing_listing compare_listings
    transition_absence transition_presence create_from_change_event finish_run strip lstrip rstrip
    is_space collapse split_from join_words
saved_ok = refl

saved_events : (outcome_of saved).event_count ≡ 2
unfolding persist ◌>>=◌ existing_records previous_comparable identity_input incoming_comparable
    comparable_json build_identity_key build_auxiliary_key choose_existing_listing compare_listings
    transition_absence transition_presence create_from_change_event finish_run strip lstrip rstrip
    is_space collapse split_from join_words
saved_events = refl

abbrev partial_payload : CrawlPayload
partial_payload = record payload { status = partial }

abbrev partly : Result PersistenceOutcome
partly = persist world "v" 2 partial_payload tables

partly_ok : partly ≡ ok (outcome_of partly) (tables_of partly)
unfolding persist ◌>>=◌ existing_records previous_comparable identity_input incoming_comparable
    comparable_json build_identity_key build_auxiliary_key choose_existing_listing compare_listings
    transition_absence transition_presence create_from_change_event finish_run strip lstrip rstrip
    is_space collapse split_from join_words
partly_ok = refl

states_IsUnique : IsUnique tables.states
states_IsUnique i g = ground arith

states_IsConsistent : All IsConsistent tables.states
states_IsConsistent = ((refl, refl), ((refl, refl), tt))

persist-event_count_example :
    length (tables_of saved).events ≡ length tables.events + (outcome_of saved).event_count
persist-event_count_example =
    persist-event_count world "v" 2 payload run tables (tables_of saved) (outcome_of saved) refl
      saved_ok

persist-IsConsistent_example :
    IsUnique (tables_of saved).states × All IsConsistent (tables_of saved).states
persist-IsConsistent_example =
    persist-IsConsistent world "v" 2 payload run tables (tables_of saved) (outcome_of saved) refl
      saved_ok states_IsUnique states_IsConsistent

persist-is_hidden_example :
    count is_hidden (tables_of partly).states ≤ count is_hidden tables.states
persist-is_hidden_example =
    persist-is_hidden world "v" 2 partial_payload run tables (tables_of partly) (outcome_of partly)
      refl refl partly_ok

persist-home_example : home (codes "a1") (tables_of saved).articles ≡ some 10
persist-home_example =
    persist-home world "v" 2 payload run tables (tables_of saved) (outcome_of saved) (codes "a1") 10
      refl saved_ok refl

persist-has_id_example :
    (last : CrawlRun) × (find (has_id 2) (tables_of saved).runs ≡ some last)
    × (is_terminal_status last.status ≡ true)
    × (last.status ≡ (outcome_of saved).status)
persist-has_id_example =
    persist-has_id world "v" 2 payload run tables (tables_of saved) (outcome_of saved) refl refl
      saved_ok

-- ===== src/Persistence/Groups.antt =====
-- The group and the state of one listing of `PersistenceService.persist` in
-- backend/app/services/persistence_service.py.
use wisdom_qj_auction_servic.Prelude.{ℕ, Bool, true, Option, none, some, List, ◌∷◌, ◌&&◌, ◌==◌, any}
use wisdom_qj_auction_servic.Prelude.Texts.{Text, text_eq}
use wisdom_qj_auction_servic.Prelude.Tables.{find, update_where}
use wisdom_qj_auction_servic.Models.{EventType, new, missing, removed, restored}
use wisdom_qj_auction_servic.Listings.{
  active, StateTransition, AbsenceEvent, missing_event, removed_event, restored_event,
  transition_presence,
}
use wisdom_qj_auction_servic.Listings.Compare.{ComparableListing}
use wisdom_qj_auction_servic.Persistence.Rows.{
  Store, M, ◌>>=◌, ◌>>◌, return, write, draw_id, persistence_failed, integrity_error, ListingGroup,
  SourceListingState,
}
use wisdom_qj_auction_servic.Persistence.Records.{ExistingRecord, is_state_of}
use wisdom_qj_auction_servic.Persistence.Comparables.{previous_comparable}
use wisdom_qj_auction_servic.Persistence.Writes.{Context, reject, refuse, insert_or_requery}

abbrev pub new_state : (id source_id group_id captured_at : ℕ) → SourceListingState
new_state id source_id group_id captured_at = record {
  id = id;
  source_id = source_id;
  listing_group_id = group_id;
  visibility_state = active;
  missing_count = 0;
  first_seen_at = captured_at;
  last_seen_at = captured_at;
  removed_at = none;
  updated_at = captured_at;
}

-- The INSERT of a state, under the unique constraint on source and group.
abbrev pub add_state : Context → (group_id : ℕ) → M (Unit {0})
add_state c group_id = do
  id ← draw_id
  refuse (λ db. any (is_state_of c.source.id group_id) db.states) integrity_error
  write (λ db. record db { states = new_state id c.source.id group_id c.captured_at ∷ db.states })

-- The row that was read, by its primary key.
abbrev pub has_state_id : (state_id : ℕ) → SourceListingState → Bool
has_state_id state_id s = s.id == state_id

abbrev pub set_state : (state_id : ℕ) → (SourceListingState → SourceListingState) → M (Unit {0})
set_state state_id f =
    write (λ db. record db { states = update_where (has_state_id state_id) f db.states })

abbrev pub present_state :
    StateTransition → (captured_at : ℕ) → SourceListingState → SourceListingState
present_state t captured_at s = record s {
  visibility_state = t.state;
  missing_count = t.missing_count;
  last_seen_at = captured_at;
  removed_at = none;
  updated_at = captured_at;
}

abbrev pub event_of : AbsenceEvent → EventType
event_of missing_event = missing
event_of removed_event = removed
event_of restored_event = restored

abbrev pub event_opt : Option AbsenceEvent → Option EventType
event_opt none = none
event_opt (some e) = some (event_of e)

-- The row of a group that this source has or has not seen, and the event of its presence.
abbrev pub see_again : Context → (group_id : ℕ) → Option SourceListingState → M (Option EventType)
see_again c group_id none = add_state c group_id >> return (some new)
see_again c group_id (some s) =
    let t = transition_presence s.visibility_state s.missing_count in
    set_state s.id (present_state t c.captured_at) >> return (event_opt t.event_type)

-- What `persist` finds of a listing: its group, the event so far, and the earlier values.
pub record Found : Type 0 where
  pub group_id : ℕ
  pub event_type : Option EventType
  pub previous : Option ComparableListing
  pub compare_detail_fields : Bool

abbrev pub is_in : ℕ → List ℕ → Bool
is_in x xs = any (λ y. y == x) xs

abbrev pub new_group : (id apartment_id : ℕ) → Text → (captured_at : ℕ) → ListingGroup
new_group id apartment_id identity_key captured_at = record {
  id = id;
  apartment_id = apartment_id;
  identity_key = identity_key;
  first_seen_at = captured_at;
  last_seen_at = captured_at;
}

abbrev pub group_with : (apartment_id : ℕ) → Text → Store → Option ListingGroup
group_with apartment_id identity_key db =
    find (λ g. g.apartment_id == apartment_id && text_eq g.identity_key identity_key) db.groups

-- A listing without a record makes a group, or takes the one with its key.
abbrev pub group_for :
    Context → (matched : List ℕ) → (identity_key : Text) → Option ExistingRecord → M Found
group_for c matched identity_key none = do
  id ← draw_id
  (g, _) ←
      insert_or_requery (new_group id c.apartment.id identity_key c.captured_at)
        (group_with c.apartment.id identity_key) (λ g db. record db { groups = g ∷ db.groups })
  reject (is_in g.id matched) persistence_failed
  add_state c g.id
  return (record {
    group_id = g.id;
    event_type = some new;
    previous = none;
    compare_detail_fields = true;
  })
group_for c matched identity_key (some r) = do
  reject (is_in r.group.id matched) persistence_failed
  event_type ← see_again c r.group.id r.source_listing_state
  return (record {
    group_id = r.group.id;
    event_type = event_type;
    previous = previous_comparable r;
    compare_detail_fields = r.latest_collect_broker_details && c.run.collect_broker_details;
  })

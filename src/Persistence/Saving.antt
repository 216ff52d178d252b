-- ===== src/Persistence/Saving.antt =====
-- One listing of `PersistenceService.persist` in backend/app/services/persistence_service.py.
use wisdom_qj_auction_servic.Prelude.{
  ◌++◌, ℕ, ◌+◌, Bool, true, false, Option, none, some, List, [], ◌∷◌, ◌&&◌, ◌==◌, any, map,
  if◌then◌else◌,
}
use wisdom_qj_auction_servic.Prelude.Texts.{Text}
use wisdom_qj_auction_servic.Prelude.Tables.{find}
use wisdom_qj_auction_servic.Prelude.Words.{sorted_set}
use wisdom_qj_auction_servic.Models.{EventType, new, changed, restored}
use wisdom_qj_auction_servic.Listings.Compare.{
  ComparableListing, ListingChange, JsonValue, compare_listings,
}
use wisdom_qj_auction_servic.Listings.Identity.{
  ExistingListingIdentity, build_identity_key, choose_existing_listing,
}
use wisdom_qj_auction_servic.Persistence.Rows.{
  World, M, ◌>>=◌, ◌>>◌, return, write, draw_id, integrity_error, ListingDetail, ListingSnapshot,
  AggregatedListingInfo,
}
use wisdom_qj_auction_servic.Persistence.Records.{ExistingRecord}
use wisdom_qj_auction_servic.Persistence.Comparables.{
  incoming_comparable, comparable_json, identity_input,
}
use wisdom_qj_auction_servic.Persistence.Writes.{Context, refuse, add_event}
use wisdom_qj_auction_servic.Persistence.Brokers.{store_brokers, store_market_details}
use wisdom_qj_auction_servic.Persistence.Groups.{Found, group_for}

-- The comparison, made when the presence is no event and there are earlier values.
abbrev pub comparison_of :
    Option EventType → Option ComparableListing → ComparableListing → Bool → Option ListingChange
comparison_of (some e) previous current detail = none
comparison_of none none current detail = none
comparison_of none (some p) current detail = some (compare_listings p current detail)

abbrev pub changed_opt : Bool → Option EventType
changed_opt true = some changed
changed_opt false = none

abbrev pub final_event : Option EventType → Option ListingChange → Option EventType
final_event event_type none = event_type
final_event event_type (some change) = changed_opt change.is_changed

abbrev pub with_warnings : AggregatedListingInfo → List Text → AggregatedListingInfo
with_warnings info warnings = record info { warnings = sorted_set (info.warnings ++ warnings) }

abbrev pub stored : World → Option ℕ → Option ℕ
stored w none = none
stored w (some a) = some (w.stored_area a)

abbrev pub snapshot_of :
    World → (id run_id group_id : ℕ) → Option EventType → ListingDetail → ListingSnapshot
snapshot_of w id run_id group_id event_type l = record {
  id = id;
  run_id = run_id;
  listing_group_id = group_id;
  trade_type = l.trade_type;
  price = l.price;
  deposit = l.deposit;
  monthly_rent = l.monthly_rent;
  building = l.building;
  floor = l.floor;
  direction = l.direction;
  supply_area = stored w l.supply_area;
  exclusive_area = stored w l.exclusive_area;
  status = event_type;
  captured_at = l.captured_at;
}

abbrev pub add_snapshot : ListingSnapshot → AggregatedListingInfo → M (Unit {0})
add_snapshot s info = do
  refuse
      (λ db.
        any (λ t. t.run_id == s.run_id && t.listing_group_id == s.listing_group_id) db.snapshots)
      integrity_error
  write (λ db. record db {
    snapshots = s ∷ db.snapshots;
    aggregates = record { listing_snapshot_id = s.id; info = info } ∷ db.aggregates;
  })

abbrev pub json_of : Option ComparableListing → Option (List (Text × JsonValue))
json_of none = none
json_of (some v) = some (comparable_json v)

abbrev pub change_event_of : Context → (group_id : ℕ) → Option ListingChange → M ℕ
change_event_of c group_id none = return 0
change_event_of c group_id (some change) =
    if change.is_changed
    then add_event c group_id changed change.changed_fields (some change.before) (some change.after)
      >> return 1
    else return 0

-- The event of a listing that was found, and how many that makes.
abbrev pub presence_event :
    Context
    → (group_id : ℕ) → Option EventType
    → Option ComparableListing
    → ComparableListing
    → Option ListingChange
    → M ℕ
presence_event c group_id (some new) previous current change =
    add_event c group_id new [] (json_of previous) (some (comparable_json current)) >> return 1
presence_event c group_id (some restored) previous current change =
    add_event c group_id restored [] (json_of previous) (some (comparable_json current)) >> return 1
presence_event c group_id event_type previous current change = change_event_of c group_id change

abbrev pub matched_record :
    Option ExistingListingIdentity → List ExistingRecord → Option ExistingRecord
matched_record none records = none
matched_record (some m) records =
    find (λ r. r.identity.listing_group_id == m.listing_group_id) records

-- What follows the group.
abbrev pub save_found : World → Context → (warnings : List Text) → ListingDetail → Found → M ℕ
save_found w c warnings l f =
    let info = with_warnings (w.aggregate l.broker_articles) (l.warnings ++ warnings) in
    let current = incoming_comparable l info in
    let change = comparison_of f.event_type f.previous current f.compare_detail_fields in
    let event_type = final_event f.event_type change in
    do
      id ← draw_id
      add_snapshot (snapshot_of w id c.run.id f.group_id event_type l) info
      store_brokers w c f.group_id l
      store_market_details id l.market_details
      presence_event c f.group_id event_type f.previous current change

-- One iteration over the listings: the group, and the number of events.
abbrev pub save_listing :
    World
    → Context
    → (warnings : List Text) → List ExistingRecord
    → (matched : List ℕ) → ListingDetail
    → M (ℕ × ℕ)
save_listing w c warnings existing matched l =
    let incoming = identity_input c.apartment.naver_complex_id l in
    let match_ = choose_existing_listing w.hashing incoming (map (λ r. r.identity) existing) in
    do
      f ←
          group_for c matched (build_identity_key w.hashing incoming)
            (matched_record match_ existing)
      n ← save_found w c warnings l f
      return (f.group_id, n)

-- The loop: the groups that were matched, and the number of events.
abbrev pub save_listings :
    World
    → Context
    → (warnings : List Text) → List ExistingRecord
    → (matched : List ℕ) → List ListingDetail
    → M (List ℕ × ℕ)
save_listings w c warnings existing matched [] = return (matched, 0)
save_listings w c warnings existing matched (l ∷ ls) = do
  (g, n) ← save_listing w c warnings existing matched l
  (groups, k) ← save_listings w c warnings existing (g ∷ matched) ls
  return (groups, n + k)

-- ===== src/Persistence/Records.antt =====
-- What backend/app/services/persistence_service.py reads before it writes: the records of the
-- groups of an apartment.
-- A query for the latest row takes the first of those that are equally late in the list.
use wisdom_qj_auction_servic.Prelude.{
  ℕ, Bool, true, Option, none, some, List, [], ◌∷◌, ◌&&◌, ◌==◌, not, any, ltb, map, where_,
  if◌then◌else◌,
}
use wisdom_qj_auction_servic.Prelude.Texts.{Text}
use wisdom_qj_auction_servic.Prelude.Tables.{find}
use wisdom_qj_auction_servic.Prelude.Words.{sorted_set}
use wisdom_qj_auction_servic.Models.{CrawlRun}
use wisdom_qj_auction_servic.Runs.{has_id}
use wisdom_qj_auction_servic.Notifications.{is_completed}
use wisdom_qj_auction_servic.Listings.Identity.{ExistingListingIdentity}
use wisdom_qj_auction_servic.Persistence.Rows.{
  Store, ListingGroup, ListingSnapshot, ListingAggregate, SourceListingState,
}

-- `_ExistingRecord`. What `source_seen`, `source_state` and `source_missing_count` repeat of the
-- row of the source is read from `source_listing_state`.
pub record ExistingRecord : Type 0 where
  pub identity : ExistingListingIdentity
  pub group : ListingGroup
  pub latest_snapshot : Option ListingSnapshot
  pub latest_aggregate : Option ListingAggregate
  pub latest_article_ids : List Text
  pub source_listing_state : Option SourceListingState
  pub latest_collect_broker_details : Bool

abbrev pub is_completed_by : (source_id current_run_id run_id : ℕ) → List CrawlRun → Bool
is_completed_by source_id current_run_id run_id runs =
    any
      (λ r.
        r.id == run_id
        && (r.source_id == source_id && (is_completed r.status && not (r.id == current_run_id))))
      runs

abbrev pub later_snapshot : ListingSnapshot → Option ListingSnapshot → ListingSnapshot
later_snapshot s none = s
later_snapshot s (some t) = if ltb s.captured_at t.captured_at then t else s

-- `ORDER BY captured_at DESC LIMIT 1`
abbrev pub latest_snapshot_where :
    (ListingSnapshot → Bool) → List ListingSnapshot → Option ListingSnapshot
latest_snapshot_where p [] = none
latest_snapshot_where p (s ∷ ss) =
    let best = latest_snapshot_where p ss in if p s then some (later_snapshot s best) else best

-- `_latest_complete_snapshot`
abbrev pub latest_complete_snapshot :
    (group_id source_id current_run_id : ℕ) → Store → Option ListingSnapshot
latest_complete_snapshot group_id source_id current_run_id db =
    latest_snapshot_where
      (λ s.
        s.listing_group_id == group_id && is_completed_by source_id current_run_id s.run_id db.runs)
      db.snapshots

abbrev pub latest_of_group : (group_id : ℕ) → Store → Option ListingSnapshot
latest_of_group group_id db =
    latest_snapshot_where (λ s. s.listing_group_id == group_id) db.snapshots

-- `_run_article_ids` and `_all_article_ids`, each a set.
abbrev pub run_article_ids : (run_id group_id : ℕ) → Store → List Text
run_article_ids run_id group_id db = sorted_set (
    map (λ a. a.naver_article_id)
      (where_
        (λ a.
          a.listing_group_id == group_id
          && any (λ s. s.run_id == run_id && s.broker_article_id == a.id) db.article_snapshots)
        db.articles))

abbrev pub all_article_ids : (group_id : ℕ) → Store → List Text
all_article_ids group_id db =
    sorted_set
      (map (λ a. a.naver_article_id) (where_ (λ a. a.listing_group_id == group_id) db.articles))

-- `_aggregate_for`
abbrev pub aggregate_for : Option ListingSnapshot → Store → Option ListingAggregate
aggregate_for none db = none
aggregate_for (some s) db = find (λ a. a.listing_snapshot_id == s.id) db.aggregates

abbrev pub article_ids_of : Option ListingSnapshot → (group_id : ℕ) → Store → List Text
article_ids_of none group_id db = []
article_ids_of (some s) group_id db = run_article_ids s.run_id group_id db

-- `_collect_broker_details_enabled`
abbrev pub enabled_of : Option CrawlRun → Bool
enabled_of none = true
enabled_of (some r) = r.collect_broker_details

abbrev pub enabled_in : Option ListingSnapshot → Store → Bool
enabled_in none db = true
enabled_in (some s) db = enabled_of (find (has_id s.run_id) db.runs)

abbrev pub is_state_of : (source_id group_id : ℕ) → SourceListingState → Bool
is_state_of source_id group_id s = s.source_id == source_id && s.listing_group_id == group_id

abbrev pub stored_identity :
    (complex_id : Text) → ListingGroup → ListingSnapshot → List Text → ExistingListingIdentity
stored_identity complex_id group s article_ids = record {
  listing_group_id = group.id;
  identity_key = group.identity_key;
  input = record {
    complex_id = complex_id;
    trade_type = s.trade_type;
    building = s.building;
    exclusive_area = s.exclusive_area;
    floor = s.floor;
    direction = s.direction;
    normalized_price = s.price;
    article_ids = article_ids;
  };
}

abbrev pub or_snapshot : Option ListingSnapshot → Option ListingSnapshot → Option ListingSnapshot
or_snapshot none s = s
or_snapshot (some t) s = some t

abbrev pub with_record :
    (complex_id : Text)
    → (source_id : ℕ) → Store
    → ListingGroup
    → (complete identity_snapshot : Option ListingSnapshot) → List ExistingRecord
    → List ExistingRecord
with_record complex_id source_id db group complete none records = records
with_record complex_id source_id db group complete (some s) records =
    record {
      identity = stored_identity complex_id group s (all_article_ids group.id db);
      group = group;
      latest_snapshot = complete;
      latest_aggregate = aggregate_for complete db;
      latest_article_ids = article_ids_of complete group.id db;
      source_listing_state = find (is_state_of source_id group.id) db.states;
      latest_collect_broker_details = enabled_in complete db;
    }
    ∷ records

abbrev pub records_of :
    (complex_id : Text)
    → (source_id current_run_id : ℕ) → Store
    → List ListingGroup
    → List ExistingRecord
records_of complex_id source_id current_run_id db [] = []
records_of complex_id source_id current_run_id db (g ∷ gs) =
    let complete = latest_complete_snapshot g.id source_id current_run_id db in
    with_record complex_id source_id db g complete (or_snapshot complete (latest_of_group g.id db))
      (records_of complex_id source_id current_run_id db gs)

-- `_existing_records`
unfoldable pub existing_records :
    (apartment_id : ℕ)
    → (complex_id : Text) → (source_id current_run_id : ℕ) → Store
    → List ExistingRecord
existing_records apartment_id complex_id source_id current_run_id db =
    records_of complex_id source_id current_run_id db
      (where_ (λ g. g.apartment_id == apartment_id) db.groups)

-- ===== src/Persistence/Rows.antt =====
-- What backend/app/services/persistence_service.py reads and writes: the payload of a crawl
-- (backend/app/crawler/types.py), the rows (backend/app/models/entities.py and
-- source_listing_state.py), its errors, and transactions.
-- An id of a new row is drawn from the supply `next_id`. Of an article the fields that are saved
-- only as one JSON object are `details_json`.
use wisdom_qj_auction_servic.Prelude.{ℕ, ◌+◌, Bool, Option, List}
use wisdom_qj_auction_servic.Prelude.Texts.{Text}
use wisdom_qj_auction_servic.Models.{
  CrawlRun, TrackedSource, Apartment, ApartmentSnapshot, Details, SourceNotificationPreference,
  EventType, RunStatus,
}
use wisdom_qj_auction_servic.Listings.{ListingState}
use wisdom_qj_auction_servic.Listings.Compare.{JsonValue}
use wisdom_qj_auction_servic.Listings.Identity.{Hashing}
use wisdom_qj_auction_servic.Notifications.{Notification, ChangeEvent}

pub record MarketDetails : Type 0 where
  pub finance : Details
  pub transactions : Details
  pub costs : Details
  pub maintenance : Details
  pub complex : Details
  pub location : Details
  pub extra_fields : Details

pub record BrokerArticleDetail : Type 0 where
  pub article_id : Text
  pub article_url : Option Text
  pub provider : Text
  pub is_npay : Bool
  pub management_fee : Option ℕ
  pub loan_description : Option Text
  pub room_count : Option ℕ
  pub bathroom_count : Option ℕ
  pub move_in_date : Option Text
  pub description : Text
  pub option_tags : List Text
  pub warnings : List Text
  pub verified_at : Option ℕ
  pub captured_at : ℕ
  pub details_json : Text

pub record ComplexDetail : Type 0 where
  pub complex_id : Text
  pub name : Text
  pub address : Text
  pub details : Details
  pub captured_at : ℕ

pub record ListingDetail : Type 0 where
  pub trade_type : Text
  pub price : Option ℕ
  pub deposit : Option ℕ
  pub monthly_rent : Option ℕ
  pub building : Option Text
  pub floor : Option Text
  pub direction : Option Text
  pub supply_area : Option ℕ
  pub exclusive_area : Option ℕ
  pub broker_articles : List BrokerArticleDetail
  pub market_details : Option MarketDetails
  pub warnings : List Text
  pub captured_at : ℕ

-- `status` is `completed` or `partial`.
pub record CrawlPayload : Type 0 where
  pub status : RunStatus
  pub apartment : ComplexDetail
  pub listings : List ListingDetail
  pub warnings : List Text
  pub captured_at : ℕ

pub record AggregatedListingInfo : Type 0 where
  pub option_tags : List Text
  pub move_in_summary : Text
  pub management_fee_summary : Text
  pub room_bath_summary : Text
  pub loan_summary : Text
  pub source_count : ℕ
  pub warnings : List Text

pub record ListingGroup : Type 0 where
  pub id : ℕ
  pub apartment_id : ℕ
  pub identity_key : Text
  pub first_seen_at : ℕ
  pub last_seen_at : ℕ

pub record SourceListingState : Type 0 where
  pub id : ℕ
  pub source_id : ℕ
  pub listing_group_id : ℕ
  pub visibility_state : ListingState
  pub missing_count : ℕ
  pub first_seen_at : ℕ
  pub last_seen_at : ℕ
  pub removed_at : Option ℕ
  pub updated_at : ℕ

-- `status` is the event type, or `active` for none.
pub record ListingSnapshot : Type 0 where
  pub id : ℕ
  pub run_id : ℕ
  pub listing_group_id : ℕ
  pub trade_type : Text
  pub price : Option ℕ
  pub deposit : Option ℕ
  pub monthly_rent : Option ℕ
  pub building : Option Text
  pub floor : Option Text
  pub direction : Option Text
  pub supply_area : Option ℕ
  pub exclusive_area : Option ℕ
  pub status : Option EventType
  pub captured_at : ℕ

pub record ListingAggregate : Type 0 where
  pub listing_snapshot_id : ℕ
  pub info : AggregatedListingInfo

pub record BrokerArticle : Type 0 where
  pub id : ℕ
  pub listing_group_id : ℕ
  pub naver_article_id : Text
  pub provider : Text
  pub is_npay : Bool
  pub article_url : Text
  pub first_seen_at : ℕ
  pub last_seen_at : ℕ

pub record BrokerArticleSnapshot : Type 0 where
  pub run_id : ℕ
  pub broker_article_id : ℕ
  pub details_json : Text
  pub description_hash : Option Text
  pub verified_at : Option ℕ
  pub captured_at : ℕ

-- `location_json` with its two nested objects apart.
pub record MarketDetailSnapshot : Type 0 where
  pub listing_snapshot_id : ℕ
  pub finance_json : Details
  pub transactions_json : Details
  pub costs_json : Details
  pub maintenance_json : Details
  pub location : Details
  pub complex : Option Details
  pub extra : Option Details

-- A change event with its two snapshots.
pub record EventRow : Type 0 where
  pub event : ChangeEvent
  pub before_json : Option (List (Text × JsonValue))
  pub after_json : Option (List (Text × JsonValue))

pub record Store : Type 0 where
  pub runs : List CrawlRun
  pub sources : List TrackedSource
  pub apartments : List Apartment
  pub apartment_snapshots : List ApartmentSnapshot
  pub groups : List ListingGroup
  pub states : List SourceListingState
  pub snapshots : List ListingSnapshot
  pub aggregates : List ListingAggregate
  pub articles : List BrokerArticle
  pub article_snapshots : List BrokerArticleSnapshot
  pub market_details : List MarketDetailSnapshot
  pub events : List EventRow
  pub preferences : List SourceNotificationPreference
  pub notifications : List Notification
  pub next_id : ℕ

-- `aggregate` stands for `aggregate_broker_articles`, `normalize_details` for the mapping of
-- `normalize_apartment_details`; `safe_url` for `urljoin` after `validate_internal_article_href`,
-- `none` where that raises; `hash_text` for SHA-256.
pub record World : Type 0 where
  pub hashing : Hashing
  pub hash_text : Text → Text
  pub safe_url : Text → Option Text
  pub aggregate : List BrokerArticleDetail → AggregatedListingInfo
  pub normalize_details : Details → Details
  pub apartment_json : ComplexDetail → Details → Details
  pub stored_area : ℕ → ℕ

pub data PersistenceError : Type 0 where
  run_not_found source_complex_mismatch article_group_conflict : PersistenceError
  persistence_failed integrity_error unsafe_article_target : PersistenceError

pub data Result (A : Type 0) : Type 0 where
  ok : A → Store → Result A
  err : PersistenceError → Result A

-- A part of the transaction.
abbrev pub M : Type 0 → Type 0
M A = Store → Result A

infixl 5 ◌>>=◌ ◌>>◌
unfoldable pub ◌>>=◌ : {A B : Type 0} → M A → (A → M B) → M B
◌>>=◌ m f db = elim (m db) [ ok a after ↦ f a after | err e ↦ err e ]

abbrev pub ◌>>◌ : {B : Type 0} → M (Unit {0}) → M B → M B
m >> k = m >>= λ _. k

abbrev pub return : {A : Type 0} → A → M A
return a db = ok a db

abbrev pub raise : {A : Type 0} → PersistenceError → M A
raise e db = err e

abbrev pub write : (Store → Store) → M (Unit {0})
write f db = ok tt (f db)

abbrev pub read : {A : Type 0} → (Store → A) → M A
read f db = ok (f db) db

-- The id of a new row.
abbrev pub draw_id : M ℕ
draw_id db = ok db.next_id (record db { next_id = db.next_id + 1 })

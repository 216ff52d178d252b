-- ===== src/Persistence/Comparables.antt =====
-- The two sides of a comparison in backend/app/services/persistence_service.py, and the identity of
-- an incoming listing.
use wisdom_qj_auction_servic.Prelude.{Option, none, some, List, [], ◌∷◌, map, if◌then◌else◌}
use wisdom_qj_auction_servic.Prelude.Texts.{Text, codes}
use wisdom_qj_auction_servic.Prelude.Words.{sorted_set, text_lt}
use wisdom_qj_auction_servic.Listings.Compare.{
  ComparableListing, JsonValue, number, text, texts, null, json_number,
}
use wisdom_qj_auction_servic.Listings.Identity.{ListingIdentityInput}
use wisdom_qj_auction_servic.Persistence.Rows.{
  ListingSnapshot, ListingAggregate, ListingDetail, AggregatedListingInfo,
}
use wisdom_qj_auction_servic.Persistence.Records.{ExistingRecord}

-- `sorted(texts)`
abbrev pub insert_sorted : Text → List Text → List Text
insert_sorted x [] = x ∷ []
insert_sorted x (y ∷ ys) =
    let rest = insert_sorted x ys in if text_lt y x then y ∷ rest else x ∷ y ∷ ys

abbrev pub sort_texts : List Text → List Text
sort_texts [] = []
sort_texts (x ∷ xs) = insert_sorted x (sort_texts xs)

abbrev pub no_info : AggregatedListingInfo
no_info = record {
  option_tags = [];
  move_in_summary = [];
  management_fee_summary = [];
  room_bath_summary = [];
  loan_summary = [];
  source_count = 0;
  warnings = [];
}

abbrev pub info_of : Option ListingAggregate → AggregatedListingInfo
info_of none = no_info
info_of (some a) = a.info

abbrev pub comparable_of : ListingSnapshot → AggregatedListingInfo → List Text → ComparableListing
comparable_of s info article_ids = record {
  price = s.price;
  deposit = s.deposit;
  monthly_rent = s.monthly_rent;
  building = s.building;
  floor = s.floor;
  direction = s.direction;
  supply_area_m2 = s.supply_area;
  exclusive_area_m2 = s.exclusive_area;
  management_fee = info.management_fee_summary;
  move_in_date = info.move_in_summary;
  room_bathroom = info.room_bath_summary;
  loan = info.loan_summary;
  option_tags = sort_texts info.option_tags;
  registration_count = info.source_count;
  article_ids = article_ids;
}

abbrev pub comparable_opt :
    Option ListingSnapshot → Option ListingAggregate → List Text → Option ComparableListing
comparable_opt none aggregate article_ids = none
comparable_opt (some s) aggregate article_ids =
    some (comparable_of s (info_of aggregate) article_ids)

-- `_previous_comparable`
unfoldable pub previous_comparable : ExistingRecord → Option ComparableListing
previous_comparable r = comparable_opt r.latest_snapshot r.latest_aggregate r.latest_article_ids

-- `ListingDetail.article_ids`
abbrev pub article_ids_in : ListingDetail → List Text
article_ids_in l = sorted_set (map (λ a. a.article_id) l.broker_articles)

-- `_identity_input`
unfoldable pub identity_input : (complex_id : Text) → ListingDetail → ListingIdentityInput
identity_input complex_id l = record {
  complex_id = complex_id;
  trade_type = l.trade_type;
  building = l.building;
  exclusive_area = l.exclusive_area;
  floor = l.floor;
  direction = l.direction;
  normalized_price = l.price;
  article_ids = article_ids_in l;
}

-- `_incoming_comparable`
unfoldable pub incoming_comparable : ListingDetail → AggregatedListingInfo → ComparableListing
incoming_comparable l info = record {
  price = l.price;
  deposit = l.deposit;
  monthly_rent = l.monthly_rent;
  building = l.building;
  floor = l.floor;
  direction = l.direction;
  supply_area_m2 = l.supply_area;
  exclusive_area_m2 = l.exclusive_area;
  management_fee = info.management_fee_summary;
  move_in_date = info.move_in_summary;
  room_bathroom = info.room_bath_summary;
  loan = info.loan_summary;
  option_tags = sort_texts info.option_tags;
  registration_count = info.source_count;
  article_ids = article_ids_in l;
}

abbrev pub text_or_null : Option Text → JsonValue
text_or_null none = null
text_or_null (some s) = text s

-- `_comparable_json`
unfoldable pub comparable_json : ComparableListing → List (Text × JsonValue)
comparable_json v =
    (codes "price", json_number v.price)
    ∷ (codes "deposit", json_number v.deposit)
    ∷ (codes "monthlyRent", json_number v.monthly_rent)
    ∷ (codes "building", text_or_null v.building)
    ∷ (codes "floor", text_or_null v.floor)
    ∷ (codes "direction", text_or_null v.direction)
    ∷ (codes "supplyAreaM2", json_number v.supply_area_m2)
    ∷ (codes "exclusiveAreaM2", json_number v.exclusive_area_m2)
    ∷ (codes "managementFee", text v.management_fee)
    ∷ (codes "moveInDate", text v.move_in_date)
    ∷ (codes "roomBathroom", text v.room_bathroom)
    ∷ (codes "loan", text v.loan)
    ∷ (codes "optionTags", texts (sort_texts v.option_tags))
    ∷ (codes "registrationCount", number v.registration_count)
    ∷ (codes "articleIds", texts (sort_texts v.article_ids))
    ∷ []

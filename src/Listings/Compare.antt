-- ===== src/Listings/Compare.antt =====
-- `compare_listings` of backend/app/domain/comparator.py. A price is a number of won; an area is a
-- number of ten-thousandths of a square metre, which stands for the float that the code makes of
-- it. A dict is a list of its entries in their order.
pub mod Values
pub mod Laws
use wisdom_qj_auction_servic.Prelude.{
  ℕ, Bool, true, false, Option, none, some, List, [], ◌∷◌, ◌&&◌, ◌||◌, ◌==◌, not, map, where_,
  opt_eq, if◌then◌else◌,
}
use wisdom_qj_auction_servic.Prelude.Texts.{Text, codes, text_eq, is_empty}
use wisdom_qj_auction_servic.Prelude.Words.{collapse, sorted_set}

pub record ComparableListing : Type 0 where
  pub price : Option ℕ
  pub deposit : Option ℕ
  pub monthly_rent : Option ℕ
  pub building : Option Text
  pub floor : Option Text
  pub direction : Option Text
  pub supply_area_m2 : Option ℕ
  pub exclusive_area_m2 : Option ℕ
  pub management_fee : Text
  pub move_in_date : Text
  pub room_bathroom : Text
  pub loan : Text
  pub option_tags : List Text
  pub registration_count : ℕ
  pub article_ids : List Text

-- The attributes of `_FIELDS`.
pub data Attribute : Type 0 where
  price deposit monthly_rent building floor direction supply_area_m2 exclusive_area_m2 : Attribute
  management_fee move_in_date room_bathroom loan option_tags registration_count article_ids :
      Attribute

abbrev pub fields : List Attribute
fields =
    price ∷ deposit ∷ monthly_rent ∷ building ∷ floor ∷ direction ∷ supply_area_m2
    ∷ exclusive_area_m2 ∷ management_fee ∷ move_in_date ∷ room_bathroom ∷ loan ∷ option_tags
    ∷ registration_count ∷ article_ids ∷ []

abbrev pub public_name : Attribute → Text
public_name price = codes "price"
public_name deposit = codes "deposit"
public_name monthly_rent = codes "monthlyRent"
public_name building = codes "building"
public_name floor = codes "floor"
public_name direction = codes "direction"
public_name supply_area_m2 = codes "supplyAreaM2"
public_name exclusive_area_m2 = codes "exclusiveAreaM2"
public_name management_fee = codes "managementFee"
public_name move_in_date = codes "moveInDate"
public_name room_bathroom = codes "roomBathroom"
public_name loan = codes "loan"
public_name option_tags = codes "optionTags"
public_name registration_count = codes "registrationCount"
public_name article_ids = codes "articleIds"

-- `_DETAIL_FIELDS`
abbrev pub is_detail : Attribute → Bool
is_detail management_fee = true
is_detail move_in_date = true
is_detail room_bathroom = true
is_detail loan = true
is_detail option_tags = true
is_detail _ = false

pub data JsonValue : Type 0 where
  null : JsonValue
  number : ℕ → JsonValue
  text : Text → JsonValue
  texts : List Text → JsonValue

abbrev pub texts_eq : List Text → List Text → Bool
texts_eq [] [] = true
texts_eq (a ∷ s) (b ∷ t) = text_eq a b && texts_eq s t
texts_eq _ _ = false

abbrev pub value_eq : JsonValue → JsonValue → Bool
value_eq null null = true
value_eq (number a) (number b) = a == b
value_eq (text a) (text b) = text_eq a b
value_eq (texts a) (texts b) = texts_eq a b
value_eq _ _ = false

-- `_json_value`
abbrev pub json_number : Option ℕ → JsonValue
json_number none = null
json_number (some n) = number n

abbrev pub or_null : Text → JsonValue
or_null [] = null
or_null (c ∷ s) = text (c ∷ s)

abbrev pub json_text : Text → JsonValue
json_text s = or_null (collapse s)

abbrev pub json_opt_text : Option Text → JsonValue
json_opt_text none = null
json_opt_text (some s) = json_text s

abbrev pub json_texts : List Text → JsonValue
json_texts ts = texts (sorted_set (where_ (λ s. not (is_empty s)) (map collapse ts)))

abbrev pub value_of : Attribute → ComparableListing → JsonValue
value_of price l = json_number l.price
value_of deposit l = json_number l.deposit
value_of monthly_rent l = json_number l.monthly_rent
value_of building l = json_opt_text l.building
value_of floor l = json_opt_text l.floor
value_of direction l = json_opt_text l.direction
value_of supply_area_m2 l = json_number l.supply_area_m2
value_of exclusive_area_m2 l = json_number l.exclusive_area_m2
value_of management_fee l = json_text l.management_fee
value_of move_in_date l = json_text l.move_in_date
value_of room_bathroom l = json_text l.room_bathroom
value_of loan l = json_text l.loan
value_of option_tags l = json_texts l.option_tags
value_of registration_count l = number l.registration_count
value_of article_ids l = json_texts l.article_ids

-- `is_changed` is the event type `changed`, or None.
pub record ListingChange : Type 0 where
  pub is_changed : Bool
  pub changed_fields : List Text
  pub before : List (Text × JsonValue)
  pub after : List (Text × JsonValue)

abbrev pub no_change : ListingChange
no_change = record { is_changed = false; changed_fields = []; before = []; after = [] }

abbrev pub with_field : Text → JsonValue → JsonValue → ListingChange → ListingChange
with_field name old new c = record {
  is_changed = true;
  changed_fields = name ∷ c.changed_fields;
  before = (name, old) ∷ c.before;
  after = (name, new) ∷ c.after;
}

-- The loop over the fields.
abbrev pub compare_fields :
    (compare_detail_fields : Bool)
    → List Attribute
    → ComparableListing
    → ComparableListing
    → ListingChange
compare_fields detail [] before_listing after_listing = no_change
compare_fields detail (a ∷ attributes) before_listing after_listing =
    let others = compare_fields detail attributes before_listing after_listing in
    let old = value_of a before_listing in
    let new = value_of a after_listing in
    if not detail && is_detail a
    then others
    else if value_eq old new
    then others
    else with_field (public_name a) old new others

unfoldable pub compare_listings :
    (before_listing after_listing : ComparableListing)
    → (compare_detail_fields : Bool) → ListingChange
compare_listings before_listing after_listing detail =
    compare_fields detail fields before_listing after_listing

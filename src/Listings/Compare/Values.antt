-- ===== src/Listings/Compare/Values.antt =====
-- What it is for two listings to be the same to `compare_listings`, said of their attributes.
use wisdom_qj_auction_servic.Prelude.{
  ℕ, ◌≡◌, ◌↔◌, ◌∙◌, refl, sym, ap, true, false, Option, none, some, List, [], ◌∷◌, not, map, where_,
}
use wisdom_qj_auction_servic.Prelude.Texts.{Text, is_empty}
use wisdom_qj_auction_servic.Prelude.Words.{collapse, sorted_set, mem_text, mem_text-sorted_set}
use wisdom_qj_auction_servic.Prelude.Words.Sets.{sorted_set_ext}
use wisdom_qj_auction_servic.Listings.Compare.{
  price, deposit, monthly_rent, building, floor, direction, supply_area_m2, exclusive_area_m2,
  management_fee, move_in_date, room_bathroom, loan, option_tags, registration_count, article_ids,
  ComparableListing, Attribute, is_detail, number, texts, json_number, json_opt_text, json_texts,
  or_null, value_of,
}

-- A text without superfluous space; a missing one is the empty one.
abbrev pub shown : Option Text → Text
shown none = []
shown (some s) = collapse s

-- The texts of a list that are not blank, in any order and number.
abbrev pub words : List Text → List Text
words ts = where_ (λ s. not (is_empty s)) (map collapse ts)

abbrev pub SameTexts : List Text → List Text → Type 0
SameTexts xs ys = (t : Text) → mem_text t (words xs) ≡ mem_text t (words ys)

pub record SameListing (x y : ComparableListing) : Type 0 where
  pub price : x.price ≡ y.price
  pub deposit : x.deposit ≡ y.deposit
  pub monthly_rent : x.monthly_rent ≡ y.monthly_rent
  pub building : shown x.building ≡ shown y.building
  pub floor : shown x.floor ≡ shown y.floor
  pub direction : shown x.direction ≡ shown y.direction
  pub supply_area_m2 : x.supply_area_m2 ≡ y.supply_area_m2
  pub exclusive_area_m2 : x.exclusive_area_m2 ≡ y.exclusive_area_m2
  pub registration_count : x.registration_count ≡ y.registration_count
  pub article_ids : SameTexts x.article_ids y.article_ids

pub record SameDetails (x y : ComparableListing) : Type 0 where
  pub management_fee : collapse x.management_fee ≡ collapse y.management_fee
  pub move_in_date : collapse x.move_in_date ≡ collapse y.move_in_date
  pub room_bathroom : collapse x.room_bathroom ≡ collapse y.room_bathroom
  pub loan : collapse x.loan ≡ collapse y.loan
  pub option_tags : SameTexts x.option_tags y.option_tags

json_number_iff : (a b : Option ℕ) → (json_number a ≡ json_number b) ↔ (a ≡ b)
json_number_iff none none = (λ h. refl, λ h. refl)
json_number_iff none (some n) = (λ h. cc, λ h. cc)
json_number_iff (some m) none = (λ h. cc, λ h. cc)
json_number_iff (some m) (some n) = (λ h. cc, λ h. cc)

or_null_iff : (a b : Text) → (or_null a ≡ or_null b) ↔ (a ≡ b)
or_null_iff [] [] = (λ h. refl, λ h. refl)
or_null_iff [] (d ∷ t) = (λ h. cc, λ h. cc)
or_null_iff (c ∷ s) [] = (λ h. cc, λ h. cc)
or_null_iff (c ∷ s) (d ∷ t) = (λ h. cc, λ h. cc)

json_opt_text_shown : (o : Option Text) → json_opt_text o ≡ or_null (shown o)
json_opt_text_shown none = refl
json_opt_text_shown (some s) = refl

json_opt_text_iff : (a b : Option Text) → (json_opt_text a ≡ json_opt_text b) ↔ (shown a ≡ shown b)
json_opt_text_iff a b =
    rw (json_opt_text_shown a, json_opt_text_shown b) (or_null_iff (shown a) (shown b))

texts_injective : (xs ys : List Text) → texts xs ≡ texts ys → xs ≡ ys
texts_injective xs ys h = cc

json_texts_iff : (a b : List Text) → (json_texts a ≡ json_texts b) ↔ SameTexts a b
json_texts_iff a b = (
  λ h t.
      sym (mem_text-sorted_set t (words a))
      ∙ ap (mem_text t) (texts_injective (sorted_set (words a)) (sorted_set (words b)) h)
      ∙ mem_text-sorted_set t (words b),
  λ m. ap texts (sorted_set_ext (words a) (words b) m),
)

json_count : (m n : ℕ) → number m ≡ number n → m ≡ n
json_count m n h = cc

module _ (x y : ComparableListing) where
  pub same_listing :
      ((a : Attribute) → is_detail a ≡ false → value_of a x ≡ value_of a y) → SameListing x y
  same_listing f = record {
    price = (json_number_iff x.price y.price).0 (f price refl);
    deposit = (json_number_iff x.deposit y.deposit).0 (f deposit refl);
    monthly_rent = (json_number_iff x.monthly_rent y.monthly_rent).0 (f monthly_rent refl);
    building = (json_opt_text_iff x.building y.building).0 (f building refl);
    floor = (json_opt_text_iff x.floor y.floor).0 (f floor refl);
    direction = (json_opt_text_iff x.direction y.direction).0 (f direction refl);
    supply_area_m2 = (json_number_iff x.supply_area_m2 y.supply_area_m2).0 (f supply_area_m2 refl);
    exclusive_area_m2 =
        (json_number_iff x.exclusive_area_m2 y.exclusive_area_m2).0 (f exclusive_area_m2 refl);
    registration_count =
        json_count x.registration_count y.registration_count (f registration_count refl);
    article_ids = (json_texts_iff x.article_ids y.article_ids).0 (f article_ids refl);
  }

  pub same_details : ((a : Attribute) → value_of a x ≡ value_of a y) → SameDetails x y
  same_details f = record {
    management_fee =
        (or_null_iff (collapse x.management_fee) (collapse y.management_fee)).0 (f management_fee);
    move_in_date =
        (or_null_iff (collapse x.move_in_date) (collapse y.move_in_date)).0 (f move_in_date);
    room_bathroom =
        (or_null_iff (collapse x.room_bathroom) (collapse y.room_bathroom)).0 (f room_bathroom);
    loan = (or_null_iff (collapse x.loan) (collapse y.loan)).0 (f loan);
    option_tags = (json_texts_iff x.option_tags y.option_tags).0 (f option_tags);
  }

  pub value_same :
      SameListing x y
      → (a : Attribute) → (is_detail a ≡ true → SameDetails x y)
      → value_of a x ≡ value_of a y
  value_same l price d = (json_number_iff x.price y.price).1 l.price
  value_same l deposit d = (json_number_iff x.deposit y.deposit).1 l.deposit
  value_same l monthly_rent d = (json_number_iff x.monthly_rent y.monthly_rent).1 l.monthly_rent
  value_same l building d = (json_opt_text_iff x.building y.building).1 l.building
  value_same l floor d = (json_opt_text_iff x.floor y.floor).1 l.floor
  value_same l direction d = (json_opt_text_iff x.direction y.direction).1 l.direction
  value_same l supply_area_m2 d =
      (json_number_iff x.supply_area_m2 y.supply_area_m2).1 l.supply_area_m2
  value_same l exclusive_area_m2 d =
      (json_number_iff x.exclusive_area_m2 y.exclusive_area_m2).1 l.exclusive_area_m2
  value_same l management_fee d = ap or_null (d refl).management_fee
  value_same l registration_count d = ap number l.registration_count
  value_same l article_ids d = (json_texts_iff x.article_ids y.article_ids).1 l.article_ids
  value_same l move_in_date d = ap or_null (d refl).move_in_date
  value_same l room_bathroom d = ap or_null (d refl).room_bathroom
  value_same l loan d = ap or_null (d refl).loan
  value_same l option_tags d = (json_texts_iff x.option_tags y.option_tags).1 (d refl).option_tags

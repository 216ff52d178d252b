-- ===== src/Listings/Compare/Laws.antt =====
-- When a comparison reports a change, and what it reports.
use wisdom_qj_auction_servic.Prelude.{
  ◌≡◌, ◌↔◌, ◌⊎◌, inl, inr, refl, ap, Bool, true, false, List, [], ◌∷◌, ◌&&◌, ==_iff, arith, not,
  All, if◌then◌else◌,
}
use wisdom_qj_auction_servic.Prelude.Texts.{Text, text_eq_iff}
use wisdom_qj_auction_servic.Listings.Compare.Values.{
  SameListing, SameDetails, same_listing, same_details, value_same,
}
use wisdom_qj_auction_servic.Listings.Compare.{
  price, deposit, monthly_rent, building, floor, direction, supply_area_m2, exclusive_area_m2,
  management_fee, move_in_date, room_bathroom, loan, option_tags, registration_count, article_ids,
  ComparableListing, Attribute, fields, public_name, is_detail, JsonValue, null, number, text,
  texts, texts_eq, value_eq, value_of, ListingChange, with_field, compare_fields, compare_listings,
}

texts_eq_iff : (a b : List Text) → (texts_eq a b ≡ true) ↔ (a ≡ b)
texts_eq_iff [] [] = ground (arith)
texts_eq_iff [] (y ∷ b) = ground (arith)
texts_eq_iff (x ∷ a) [] = ground (arith)
texts_eq_iff (x ∷ a) (y ∷ b) = ground (arith, texts_eq_iff a b, text_eq_iff x y)

pub value_eq_iff : (a b : JsonValue) → (value_eq a b ≡ true) ↔ (a ≡ b)
value_eq_iff null b = ground (arith)
value_eq_iff (number a) null = ground (arith)
value_eq_iff (number a) (number b) = ground (arith, ==_iff a b)
value_eq_iff (number a) (text b) = ground (arith)
value_eq_iff (number a) (texts b) = ground (arith)
value_eq_iff (text a) null = ground (arith)
value_eq_iff (text a) (number b) = ground (arith)
value_eq_iff (text a) (text b) = ground (arith, text_eq_iff a b)
value_eq_iff (text a) (texts b) = ground (arith)
value_eq_iff (texts a) null = ground (arith)
value_eq_iff (texts a) (number b) = ground (arith)
value_eq_iff (texts a) (text b) = ground (arith)
value_eq_iff (texts a) (texts b) = ground (arith, texts_eq_iff a b)

-- The fields that are compared have equal values.
abbrev SameValue : Bool → ComparableListing → ComparableListing → Attribute → Type 0
SameValue detail x y a = (not detail && is_detail a) ≡ false → value_of a x ≡ value_of a y

quiet_step :
    (skip same : Bool) (name : Text) (old new : JsonValue) (c : ListingChange)
    → ((if skip then c else if same then c else with_field name old new c).is_changed ≡ false)
      ↔ ((skip ≡ false → same ≡ true) × (c.is_changed ≡ false))
quiet_step true same name old new c = (λ h. (λ e. cc, h), λ p. p.1)
quiet_step false true name old new c = (λ h. (λ e. refl, h), λ p. p.1)
quiet_step false false name old new c = (λ h. cc, λ p. cc (p.0 refl))

quiet_fields :
    (detail : Bool) (attributes : List Attribute) (x y : ComparableListing)
    → ((compare_fields detail attributes x y).is_changed ≡ false)
      ↔ All (SameValue detail x y) attributes
quiet_fields detail [] x y = (λ _. tt, λ _. refl)
quiet_fields detail (a ∷ attributes) x y =
    let old = value_of a x in
    let new = value_of a y in
    let step =
      quiet_step (not detail && is_detail a) (value_eq old new) (public_name a) old new
        (compare_fields detail attributes x y) in
    let rest = quiet_fields detail attributes x y in
    (
      λ h. (λ e. (value_eq_iff old new).0 ((step.0 h).0 e), rest.0 (step.0 h).1),
      λ p. step.1 (λ e. (value_eq_iff old new).1 (p.0 e), rest.1 p.1),
    )

every_field {κ} : (P : Attribute → Type κ) → All P fields → (a : Attribute) → P a
every_field P h price = h.0
every_field P h deposit = h.1.0
every_field P h monthly_rent = h.1.1.0
every_field P h building = h.1.1.1.0
every_field P h floor = h.1.1.1.1.0
every_field P h direction = h.1.1.1.1.1.0
every_field P h supply_area_m2 = h.1.1.1.1.1.1.0
every_field P h exclusive_area_m2 = h.1.1.1.1.1.1.1.0
every_field P h management_fee = h.1.1.1.1.1.1.1.1.0
every_field P h move_in_date = h.1.1.1.1.1.1.1.1.1.0
every_field P h room_bathroom = h.1.1.1.1.1.1.1.1.1.1.0
every_field P h loan = h.1.1.1.1.1.1.1.1.1.1.1.0
every_field P h option_tags = h.1.1.1.1.1.1.1.1.1.1.1.1.0
every_field P h registration_count = h.1.1.1.1.1.1.1.1.1.1.1.1.1.0
every_field P h article_ids = h.1.1.1.1.1.1.1.1.1.1.1.1.1.1.0

All-fields {κ} :
    (P : Attribute → Type κ) (attributes : List Attribute)
    → ((a : Attribute) → P a)
    → All P attributes
All-fields P [] h = tt
All-fields P (a ∷ attributes) h = (h a, All-fields P attributes h)

-- All compared values are equal exactly when the listings are the same.
values_iff :
    (x y : ComparableListing) (detail : Bool)
    → ((a : Attribute) → SameValue detail x y a)
      ↔ (SameListing x y × ((detail ≡ false) ⊎ SameDetails x y))
values_iff x y false =
    (λ f. (same_listing x y (λ a e. f a e), inl refl), λ p a e. value_same x y p.0 a (λ d. cc))
values_iff x y true = (
  λ f. (same_listing x y (λ a e. f a refl), inr (same_details x y (λ a. f a refl))),
  λ p a e. value_same x y p.0 a (λ d. elim p.1 [ inl off ↦ cc | inr s ↦ s ]),
)

-- No change is reported exactly when the two listings have the same prices, areas and number of
-- registrations, the same building, floor and direction up to space, the same article ids up to
-- space, order and repetition, and, if details are compared, the same fee, date, rooms and loan up
-- to space and the same option tags up to space, order and repetition.
pub compare_listings-quiet :
    (x y : ComparableListing) (detail : Bool)
    → ((compare_listings x y detail).is_changed ≡ false)
      ↔ (SameListing x y × ((detail ≡ false) ⊎ SameDetails x y))
unfolding compare_listings
compare_listings-quiet x y detail =
    let q = quiet_fields detail fields x y in
    let v = values_iff x y detail in
    (
      λ h. v.0 (every_field (SameValue detail x y) (q.0 h)),
      λ h. q.1 (All-fields (SameValue detail x y) fields (v.1 h)),
    )

-- The report of the reverse comparison.
abbrev pub reversed : ListingChange → ListingChange
reversed c = record {
  is_changed = c.is_changed;
  changed_fields = c.changed_fields;
  before = c.after;
  after = c.before;
}

value_eq_symm : (a b : JsonValue) → value_eq a b ≡ value_eq b a
value_eq_symm a b = ground (arith, value_eq_iff a b, value_eq_iff b a)

reversed_step :
    (skip same same' : Bool) (name : Text) (old new : JsonValue) (c c' : ListingChange)
    → same' ≡ same
    → c' ≡ reversed c
    → (if skip then c' else if same' then c' else with_field name new old c')
      ≡ reversed (if skip then c else if same then c else with_field name old new c)
reversed_step true same same' name old new c c' h e = e
reversed_step false true true name old new c c' h e = e
reversed_step false true false name old new c c' h e = cc
reversed_step false false true name old new c c' h e = cc
reversed_step false false false name old new c c' h e = ap (with_field name new old) e

compare_fields-reversed :
    (detail : Bool) (attributes : List Attribute) (x y : ComparableListing)
    → compare_fields detail attributes y x ≡ reversed (compare_fields detail attributes x y)
compare_fields-reversed detail [] x y = refl
compare_fields-reversed detail (a ∷ attributes) x y =
    reversed_step (not detail && is_detail a) (value_eq (value_of a x) (value_of a y))
      (value_eq (value_of a y) (value_of a x)) (public_name a) (value_of a x) (value_of a y)
      (compare_fields detail attributes x y) (compare_fields detail attributes y x)
      (value_eq_symm (value_of a y) (value_of a x)) (compare_fields-reversed detail attributes x y)

-- Comparing the other way round reports the same fields, with before and after exchanged.
pub compare_listings-reversed :
    (x y : ComparableListing) (detail : Bool)
    → compare_listings y x detail ≡ reversed (compare_listings x y detail)
unfolding compare_listings
compare_listings-reversed x y detail = compare_fields-reversed detail fields x y

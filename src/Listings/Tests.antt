-- ===== src/Listings/Tests.antt =====
-- Examples: the states of a listing over concrete runs.
use wisdom_qj_auction_servic.Prelude.{◌⊎◌, ◌≡◌, List, [], ◌∷◌}
use wisdom_qj_auction_servic.Prelude.{ℕ, ◌↔◌, ◌++◌, some, none, false, true, refl}
use wisdom_qj_auction_servic.Prelude.Texts.{Text, codes, is_space}
use wisdom_qj_auction_servic.Prelude.Words.{collapse, split_from, join_words}
use wisdom_qj_auction_servic.Listings.Compare.{ComparableListing, compare_listings}
use wisdom_qj_auction_servic.Listings.Compare.Values.{SameListing, SameDetails}
use wisdom_qj_auction_servic.Listings.Compare.Laws.{compare_listings-quiet}
use wisdom_qj_auction_servic.Listings.Identity.{
  Part, text, Hashing, ListingIdentityInput, ExistingListingIdentity, choose_existing_listing,
}
use wisdom_qj_auction_servic.Listings.Identity.Choice.{Outcome, choose_existing_listing-Outcome}
use wisdom_qj_auction_servic.Models.{completed, partial}
use wisdom_qj_auction_servic.Listings.Absence.{
  Sight, present, absent, after, absences, state_of, capped, after-absences,
}

abbrev flat : ComparableListing
flat = record {
  price = some 10;
  deposit = none;
  monthly_rent = none;
  building = none;
  floor = none;
  direction = none;
  supply_area_m2 = none;
  exclusive_area_m2 = some 590000;
  management_fee = [];
  move_in_date = [];
  room_bathroom = [];
  loan = [];
  option_tags = [];
  registration_count = 1;
  article_ids = codes "a1" ∷ [];
}

abbrev digest : List Part → Text
digest [] = []
digest (text (some s) ∷ ps) = s ++ 0 ∷ digest ps
digest (_ ∷ ps) = 0 ∷ digest ps

abbrev hashing : Hashing
hashing = record { nfkc = λ s. s; digest = digest }

abbrev incoming : ListingIdentityInput
incoming = record {
  complex_id = codes "c1";
  trade_type = codes "sale";
  building = none;
  exclusive_area = some 590000;
  floor = none;
  direction = none;
  normalized_price = some 10;
  article_ids = codes "a1" ∷ codes "a2" ∷ [];
}

abbrev candidate : ℕ → Text → List Text → ExistingListingIdentity
candidate id key ids = record {
  listing_group_id = id;
  identity_key = key;
  input = record incoming { article_ids = ids };
}

abbrev candidates : List ExistingListingIdentity
candidates =
    candidate 1 (codes "k1") (codes "a1" ∷ [])
    ∷ candidate 2 (codes "k2") (codes "a1" ∷ codes "a2" ∷ [])
    ∷ []

abbrev sights : List Sight
sights = absent completed ∷ absent partial ∷ absent completed ∷ present ∷ []

after-absences_example :
    ((after sights).state ≡ state_of (absences sights))
    × ((after sights).missing_count ≡ capped (absences sights))
after-absences_example = after-absences sights

compare_listings-quiet_example :
    ((compare_listings flat (record flat { loan = codes "x" }) false).is_changed ≡ false) ↔ (
      SameListing flat (record flat { loan = codes "x" })
      × ((false ≡ false) ⊎ SameDetails flat (record flat { loan = codes "x" })))
compare_listings-quiet_example =
    compare_listings-quiet flat (record flat { loan = codes "x" }) false

-- The detail field is not compared, and is when the details are.
quiet_loan : (compare_listings flat (record flat { loan = codes "x" }) false).is_changed ≡ false
unfolding compare_listings collapse split_from join_words is_space
quiet_loan = refl

loud_loan : (compare_listings flat (record flat { loan = codes "x" }) true).is_changed ≡ true
unfolding compare_listings collapse split_from join_words is_space
loud_loan = refl

choose_existing_listing-Outcome_example :
    Outcome hashing incoming candidates (choose_existing_listing hashing incoming candidates)
choose_existing_listing-Outcome_example =
    choose_existing_listing-Outcome hashing incoming candidates

-- ===== src/Listings/Identity.antt =====
-- backend/app/domain/listing_identity.py: which stored listing an incoming one is.
-- An area counts ten-thousandths of a square metre.
pub mod Choice
use wisdom_qj_auction_servic.Prelude.{
  ℕ, ◌+◌, ◌/◌, Bool, true, false, Option, none, some, List, [], ◌∷◌, ◌++◌, ◌&&◌, ◌||◌, ◌==◌, not,
  ltb, count, length, where_, if◌then◌else◌,
}
use wisdom_qj_auction_servic.Prelude.Texts.{Text, text_eq, strip, is_empty, is_space}
use wisdom_qj_auction_servic.Prelude.Words.{collapse, text_lt, sorted_set, mem_text}

pub record ListingIdentityInput : Type 0 where
  pub complex_id : Text
  pub trade_type : Text
  pub building : Option Text
  pub exclusive_area : Option ℕ
  pub floor : Option Text
  pub direction : Option Text
  pub normalized_price : Option ℕ
  pub article_ids : List Text

pub record ExistingListingIdentity : Type 0 where
  pub listing_group_id : ℕ
  pub identity_key : Text
  pub input : ListingIdentityInput

-- The JSON values that are hashed; an area is given by its hundredths.
pub data Part : Type 0 where
  text : Option Text → Part
  area : Option ℕ → Part
  price : Option ℕ → Part
  articles : List Text → Part

-- `unicodedata.normalize("NFKC", …)`, and SHA-256 of the JSON text of a list.
pub record Hashing : Type 0 where
  pub nfkc : Text → Text
  pub digest : List Part → Text

abbrev pub or_none : Text → Option Text
or_none [] = none
or_none (c ∷ s) = some (c ∷ s)

-- `normalize_text` of backend/app/domain/normalizer.py.
abbrev pub normalize_text : Hashing → Option Text → Option Text
normalize_text h none = none
normalize_text h (some s) = or_none (collapse (h.nfkc s))

-- `_area`: two digits, half up.
abbrev pub hundredths : Option ℕ → Option ℕ
hundredths none = none
hundredths (some a) = some ((a + 50) / 100)

-- `_parts`, without and with the price.
abbrev pub parts : Hashing → ListingIdentityInput → List Part
parts h v =
    text (normalize_text h (some v.complex_id))
    ∷ text (normalize_text h (some v.trade_type))
    ∷ text (normalize_text h v.building)
    ∷ area (hundredths v.exclusive_area)
    ∷ text (normalize_text h v.floor)
    ∷ text (normalize_text h v.direction)
    ∷ []

unfoldable pub build_identity_key : Hashing → ListingIdentityInput → Text
build_identity_key h v =
    h.digest (parts h v ++ price v.normalized_price ∷ articles (sorted_set v.article_ids) ∷ [])

unfoldable pub build_auxiliary_key : Hashing → ListingIdentityInput → Text
build_auxiliary_key h v = h.digest (parts h v)

-- The number of common articles; the ids of the incoming listing are a set, without repetition.
abbrev pub overlap : ListingIdentityInput → ExistingListingIdentity → ℕ
overlap incoming c = count (λ a. mem_text a c.input.article_ids) incoming.article_ids

-- The first of the order by `(-overlap, identity_key)`, which is stable.
abbrev pub precedes :
    ListingIdentityInput → ExistingListingIdentity → ExistingListingIdentity → Bool
precedes incoming c d =
    ltb (overlap incoming d) (overlap incoming c)
    || (overlap incoming c == overlap incoming d && text_lt c.identity_key d.identity_key)

abbrev pub first_of :
    ListingIdentityInput
    → ExistingListingIdentity
    → List ExistingListingIdentity
    → ExistingListingIdentity
first_of incoming best [] = best
first_of incoming best (c ∷ cs) =
    first_of incoming (if precedes incoming c best then c else best) cs

abbrev pub head_option : List ExistingListingIdentity → Option ExistingListingIdentity
head_option [] = none
head_option (c ∷ cs) = some c

abbrev pub only : List ExistingListingIdentity → Option ExistingListingIdentity
only (c ∷ []) = some c
only _ = none

abbrev pub overlapping : ListingIdentityInput → ExistingListingIdentity → Bool
overlapping incoming c = ltb 0 (overlap incoming c)

abbrev pub has_key : Text → ExistingListingIdentity → Bool
has_key key c = text_eq c.identity_key key

abbrev pub has_auxiliary : Hashing → Text → ExistingListingIdentity → Bool
has_auxiliary h key c = text_eq (build_auxiliary_key h c.input) key

-- Without a common article: the exact key, or the only one with the auxiliary key. All that have
-- the exact key sort equal, so the first of them is taken.
abbrev pub by_keys :
    Hashing → ListingIdentityInput → List ExistingListingIdentity → Option ExistingListingIdentity
by_keys h incoming candidates = elim (where_ (has_key (build_identity_key h incoming)) candidates) [
  | c ∷ cs ↦ some c
  | [] ↦ only (where_ (has_auxiliary h (build_auxiliary_key h incoming)) candidates)
]

abbrev pub by_overlap :
    Hashing
    → ListingIdentityInput
    → List ExistingListingIdentity
    → List ExistingListingIdentity
    → Option ExistingListingIdentity
by_overlap h incoming candidates [] = by_keys h incoming candidates
by_overlap h incoming candidates (c ∷ cs) = some (first_of incoming c cs)

unfoldable pub choose_existing_listing :
    Hashing → ListingIdentityInput → List ExistingListingIdentity → Option ExistingListingIdentity
choose_existing_listing h incoming candidates =
    by_overlap h incoming candidates (where_ (overlapping incoming) candidates)

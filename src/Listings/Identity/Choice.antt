-- ===== src/Listings/Identity/Choice.antt =====
-- What is chosen, and when nothing is.
use wisdom_qj_auction_servic.Prelude.{
  Bool-cases, ltb, ltb→lt, ◌<◌, ◌≢◌, ℕ, ◌≡◌, ◌≢◌, ◌⊎◌, inl, inr, refl, sym, ap, subst, Bool, true,
  false, Option, none, some, List, [], ◌∷◌, ◌++◌, arith, where_, All, length, if_cases,
  if◌then◌else◌,
}
use wisdom_qj_auction_servic.Prelude.Texts.{Text, text_eq_iff}
use wisdom_qj_auction_servic.Prelude.Words.{text_lt, text_lt_trans, text_lt_irrefl, mem_text}
use wisdom_qj_auction_servic.Prelude.Words.Sets.{sorted_set_ext}
use wisdom_qj_auction_servic.Listings.Identity.{
  overlap, ListingIdentityInput, ExistingListingIdentity, Hashing, build_identity_key,
  build_auxiliary_key, parts, price, articles, precedes, first_of, only, overlapping, has_key,
  has_auxiliary, by_overlap, choose_existing_listing,
}

abbrev pub IsIn : ExistingListingIdentity → List ExistingListingIdentity → Type 0
IsIn c [] = ⊥
IsIn c (d ∷ ds) = (c ≡ d) ⊎ IsIn c ds

abbrev IsUnpreceded :
    ListingIdentityInput → ExistingListingIdentity → List ExistingListingIdentity → Type 0
IsUnpreceded incoming c candidates = All (λ d. precedes incoming d c ≡ false) candidates

-- A candidate has more common articles than another, or as many and no larger key.
abbrev pub IsAhead :
    ListingIdentityInput → ExistingListingIdentity → ExistingListingIdentity → Type 0
IsAhead incoming c d =
    (overlap incoming d < overlap incoming c)
    ⊎ ((overlap incoming d ≡ overlap incoming c) × (text_lt d.identity_key c.identity_key ≡ false))

abbrev pub IsBest :
    ListingIdentityInput → ExistingListingIdentity → List ExistingListingIdentity → Type 0
IsBest incoming c candidates = All (IsAhead incoming c) candidates

not_both : (a b : Bool) → (a ≡ true → b ≡ true) → b ≡ false → a ≡ false
not_both true b h e = cc (h refl, e)
not_both false b h e = refl

module _ (incoming : ListingIdentityInput) where
  precedes_trans :
      (a b c : ExistingListingIdentity)
      → precedes incoming a b ≡ true
      → precedes incoming b c ≡ true
      → precedes incoming a c ≡ true
  precedes_trans a b c h g =
      ground (arith, text_lt_trans a.identity_key b.identity_key c.identity_key)

  precedes_irrefl : (a : ExistingListingIdentity) → precedes incoming a a ≡ false
  precedes_irrefl a = ground (arith, text_lt_irrefl a.identity_key)

  first_of_keeps :
      (d best : ExistingListingIdentity) (cs : List ExistingListingIdentity)
      → precedes incoming d best ≡ false
      → precedes incoming d (first_of incoming best cs) ≡ false
  first_of_keeps d best [] h = h
  first_of_keeps d best (c ∷ cs) h =
      first_of_keeps d (if precedes incoming c best then c else best) cs (
        if_cases (λ r. precedes incoming d r ≡ false) (precedes incoming c best) c best
          (λ g.
            not_both (precedes incoming d c) (precedes incoming d best)
              (λ p. precedes_trans d c best p g) h)
          (λ _. h))

  first_of-IsUnpreceded :
      (best : ExistingListingIdentity) (cs : List ExistingListingIdentity)
      → IsUnpreceded incoming (first_of incoming best cs) (best ∷ cs)
  first_of-IsUnpreceded best [] = (precedes_irrefl best, tt)
  first_of-IsUnpreceded best (c ∷ cs) =
      if_cases (λ r. IsUnpreceded incoming (first_of incoming r cs) (best ∷ c ∷ cs))
        (precedes incoming c best) c best
        (λ e. (
          first_of_keeps best c cs (
              not_both (precedes incoming best c) (precedes incoming best best)
                (λ p. precedes_trans best c best p e) (precedes_irrefl best)),
          first_of-IsUnpreceded c cs,
        ))
        (λ e. let (h, hs) = first_of-IsUnpreceded best cs in (h, (first_of_keeps c best cs e, hs)))

  skip :
      (r best c : ExistingListingIdentity) (cs : List ExistingListingIdentity)
      → IsIn r (best ∷ cs)
      → IsIn r (best ∷ c ∷ cs)
  skip r best c cs (inl e) = inl e
  skip r best c cs (inr h) = inr (inr h)

  first_of-IsIn :
      (best : ExistingListingIdentity) (cs : List ExistingListingIdentity)
      → IsIn (first_of incoming best cs) (best ∷ cs)
  first_of-IsIn best [] = inl refl
  first_of-IsIn best (c ∷ cs) =
      if_cases (λ r. IsIn (first_of incoming r cs) (best ∷ c ∷ cs)) (precedes incoming c best) c
        best (λ _. inr (first_of-IsIn c cs))
        (λ _. skip (first_of incoming best cs) best c cs (first_of-IsIn best cs))

  first_of-overlap :
      (best : ExistingListingIdentity) (cs : List ExistingListingIdentity)
      → All (λ d. overlapping incoming d ≡ true) (best ∷ cs)
      → overlapping incoming (first_of incoming best cs) ≡ true
  first_of-overlap best [] (h, hs) = h
  first_of-overlap best (c ∷ cs) (h, (g, gs)) =
      if_cases (λ r. overlapping incoming (first_of incoming r cs) ≡ true)
        (precedes incoming c best) c best (λ _. first_of-overlap c cs (g, gs))
        (λ _. first_of-overlap best cs (h, gs))

unpreceded-IsAhead :
    (incoming : ListingIdentityInput) (c d : ExistingListingIdentity)
    → precedes incoming d c ≡ false
    → IsAhead incoming c d
unpreceded-IsAhead incoming c d h =
    elim (Bool-cases (ltb (overlap incoming d) (overlap incoming c))) [
      | inl e ↦ inl (ltb→lt (overlap incoming d) (overlap incoming c) e)
      | inr e ↦ inr (ground (arith, h, e), ground (arith, h, e))
    ]

unpreceded-IsBest :
    (incoming : ListingIdentityInput) (c : ExistingListingIdentity)
    (ds : List ExistingListingIdentity)
    → IsUnpreceded incoming c ds
    → IsBest incoming c ds
unpreceded-IsBest incoming c [] h = tt
unpreceded-IsBest incoming c (d ∷ ds) h =
    (unpreceded-IsAhead incoming c d h.0, unpreceded-IsBest incoming c ds h.1)

where_-IsIn_cons :
    (p : ExistingListingIdentity → Bool) (c d : ExistingListingIdentity)
    (ds : List ExistingListingIdentity)
    → p d ≡ true
    → (IsIn c (where_ p ds) → IsIn c ds × (p c ≡ true))
    → IsIn c (d ∷ where_ p ds)
    → IsIn c (d ∷ ds) × (p c ≡ true)
where_-IsIn_cons p c d ds e rec (inl same) = (inl same, subst (λ x. p x ≡ true) (sym same) e)
where_-IsIn_cons p c d ds e rec (inr later) = let (a, b) = rec later in (inr a, b)

where_-IsIn :
    (p : ExistingListingIdentity → Bool) (c : ExistingListingIdentity)
    (cs : List ExistingListingIdentity)
    → IsIn c (where_ p cs)
    → IsIn c cs × (p c ≡ true)
where_-IsIn p c [] = λ h. absurd h
where_-IsIn p c (d ∷ ds) =
    if_cases (λ l. IsIn c l → IsIn c (d ∷ ds) × (p c ≡ true)) (p d) (d ∷ where_ p ds) (where_ p ds)
      (λ e. where_-IsIn_cons p c d ds e (where_-IsIn p c ds))
      (λ _ h. let (a, b) = where_-IsIn p c ds h in (inr a, b))

where_-passes :
    (p : ExistingListingIdentity → Bool) (cs : List ExistingListingIdentity)
    → All (λ d. p d ≡ true) (where_ p cs)
where_-passes p [] = tt
where_-passes p (c ∷ cs) =
    if_cases (All (λ d. p d ≡ true)) (p c) (c ∷ where_ p cs) (where_ p cs)
      (λ e. (e, where_-passes p cs)) (λ _. where_-passes p cs)

-- Why a candidate is chosen: it is the best of those with a common article; or there is none, and
-- it has the exact key; or neither, and it is the only one with the auxiliary key.
pub data Chosen (h : Hashing) (incoming : ListingIdentityInput)
    (candidates : List ExistingListingIdentity) (c : ExistingListingIdentity) : Type 0 where
  overlaps :
      overlapping incoming c ≡ true
      → IsBest incoming c (where_ (overlapping incoming) candidates)
      → Chosen h incoming candidates c
  exact :
      where_ (overlapping incoming) candidates ≡ []
      → c.identity_key ≡ build_identity_key h incoming
      → Chosen h incoming candidates c
  auxiliary :
      where_ (overlapping incoming) candidates ≡ []
      → where_ (has_key (build_identity_key h incoming)) candidates ≡ []
      → where_ (has_auxiliary h (build_auxiliary_key h incoming)) candidates ≡ c ∷ []
      → Chosen h incoming candidates c

-- What the answer says of the candidates.
abbrev pub Outcome :
    Hashing
    → ListingIdentityInput
    → List ExistingListingIdentity
    → Option ExistingListingIdentity
    → Type 0
Outcome h incoming candidates none =
    (where_ (overlapping incoming) candidates ≡ [])
    × (where_ (has_key (build_identity_key h incoming)) candidates ≡ [])
    × (length (where_ (has_auxiliary h (build_auxiliary_key h incoming)) candidates) ≢ 1)
Outcome h incoming candidates (some c) = IsIn c candidates × Chosen h incoming candidates c

module _ (h : Hashing) (incoming : ListingIdentityInput)
    (candidates : List ExistingListingIdentity) where
  only-Outcome :
      (l : List ExistingListingIdentity)
      → where_ (overlapping incoming) candidates ≡ []
      → where_ (has_key (build_identity_key h incoming)) candidates ≡ []
      → where_ (has_auxiliary h (build_auxiliary_key h incoming)) candidates ≡ l
      → Outcome h incoming candidates (only l)
  only-Outcome [] o k e = (o, k, rw e (λ (q : ◌≡◌ {A = ℕ} 0 1). cc))
  only-Outcome (c ∷ []) o k e = (
    (where_-IsIn (has_auxiliary h (build_auxiliary_key h incoming)) c candidates
        (subst (IsIn c) (sym e) (inl refl))).0,
    auxiliary o k e,
  )
  only-Outcome (c ∷ d ∷ ds) o k e = (o, k, λ q. let n = ap length e in omega (arith))

  keys-Outcome :
      (l : List ExistingListingIdentity)
      → where_ (overlapping incoming) candidates ≡ []
      → where_ (has_key (build_identity_key h incoming)) candidates ≡ l
      → Outcome h incoming candidates (elim l [
        | c ∷ cs ↦ some c
        | [] ↦ only (where_ (has_auxiliary h (build_auxiliary_key h incoming)) candidates)
      ])
  keys-Outcome [] o e =
      only-Outcome (where_ (has_auxiliary h (build_auxiliary_key h incoming)) candidates) o e refl
  keys-Outcome (c ∷ cs) o e =
      let (a, b) =
        where_-IsIn (has_key (build_identity_key h incoming)) c candidates
          (subst (IsIn c) (sym e) (inl refl)) in
      (a, exact o ((text_eq_iff c.identity_key (build_identity_key h incoming)).0 b))

  overlap-Outcome :
      (l : List ExistingListingIdentity)
      → where_ (overlapping incoming) candidates ≡ l
      → Outcome h incoming candidates (by_overlap h incoming candidates l)
  overlap-Outcome [] e =
      keys-Outcome (where_ (has_key (build_identity_key h incoming)) candidates) e refl
  overlap-Outcome (c ∷ cs) e = (
    (where_-IsIn (overlapping incoming) (first_of incoming c cs) candidates
        (subst (IsIn (first_of incoming c cs)) (sym e) (first_of-IsIn incoming c cs))).0,
    overlaps
        (first_of-overlap incoming c cs (
          subst (All (λ d. overlapping incoming d ≡ true)) e
            (where_-passes (overlapping incoming) candidates)))
        (subst (IsBest incoming (first_of incoming c cs)) (sym e) (
          unpreceded-IsBest incoming (first_of incoming c cs) (c ∷ cs)
            (first_of-IsUnpreceded incoming c cs))),
  )

  -- The choice is a candidate: the one with the most common articles, and among those the smallest
  -- key; without a common article one with the exact key; else the only one with the auxiliary
  -- key. Nothing is chosen only if no candidate shares an article or has the exact key, and not
  -- exactly one has the auxiliary key.
  pub choose_existing_listing-Outcome :
      Outcome h incoming candidates (choose_existing_listing h incoming candidates)
  unfolding choose_existing_listing
  choose_existing_listing-Outcome = overlap-Outcome (where_ (overlapping incoming) candidates) refl

-- The identity key does not depend on the order or the repetition of the articles.
pub build_identity_key-articles :
    (h : Hashing) (v : ListingIdentityInput) (ids : List Text)
    → ((z : Text) → mem_text z ids ≡ mem_text z v.article_ids)
    → build_identity_key h (record v { article_ids = ids }) ≡ build_identity_key h v
unfolding build_identity_key
build_identity_key-articles h v ids m =
    ap (λ l. h.digest (parts h v ++ price v.normalized_price ∷ articles l ∷ []))
      (sorted_set_ext ids v.article_ids m)

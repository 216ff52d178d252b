-- ===== src/Persistence/Kept/Rows.antt =====
-- The rows of one source change, and an article is added or updated.
use wisdom_qj_auction_servic.Prelude.{
  ℕ, ◌≤◌, ◌≡◌, refl, sym, ap, subst, Bool, false, none, some, List, [], ◌∷◌, any, count, arith, All,
  if_cases, Bool-cases, inl, inr,
}
use wisdom_qj_auction_servic.Prelude.Texts.{Text, text_eq, text_eq_iff}
use wisdom_qj_auction_servic.Prelude.Tables.{find, update_where}
use wisdom_qj_auction_servic.Models.{RunStatus}
use wisdom_qj_auction_servic.Listings.{is_completed}
use wisdom_qj_auction_servic.Persistence.Rows.{
  SourceListingState, BrokerArticle, BrokerArticleDetail,
}
use wisdom_qj_auction_servic.Persistence.Records.{is_state_of}
use wisdom_qj_auction_servic.Persistence.Brokers.{seen_article}
use wisdom_qj_auction_servic.Persistence.Groups.{has_state_id}
use wisdom_qj_auction_servic.Persistence.Kept.{
  IsConsistent, is_hidden, group_of, home, KeepsHomes, KeepsStates,
}

-- An update of a state that keeps its key and makes it consistent, and hides it only when
-- the run completed.
pub record IsUpdate (known : Type 0) (status : RunStatus)
    (f : SourceListingState → SourceListingState) : Type 0 where
  pub source : (s : SourceListingState) → (f s).source_id ≡ s.source_id
  pub group : (s : SourceListingState) → (f s).listing_group_id ≡ s.listing_group_id
  pub valid : known → (s : SourceListingState) → IsConsistent (f s)
  pub shown : is_completed status ≡ false → (s : SourceListingState) → is_hidden (f s) ≡ false

module _ (known : Type 0) (state_id : ℕ) (status : RunStatus)
    (f : SourceListingState → SourceListingState) (u : IsUpdate known status f) where
  update_count :
      (i g : ℕ) (l : List SourceListingState)
      → count (is_state_of i g) (update_where (has_state_id state_id) f l)
        ≡ count (is_state_of i g) l
  update_count i g [] = refl
  update_count i g (s ∷ l) = ground (arith, u.source s, u.group s, update_count i g l)

  update-IsConsistent :
      known
      → (l : List SourceListingState) → All IsConsistent l
      → All IsConsistent (update_where (has_state_id state_id) f l)
  update-IsConsistent k [] h = tt
  update-IsConsistent k (s ∷ l) h = (
    if_cases IsConsistent (has_state_id state_id s) (f s) s (λ e. u.valid k s) (λ e. h.0),
    update-IsConsistent k l h.1,
  )

  update_hidden :
      is_completed status ≡ false
      → (l : List SourceListingState)
      → count is_hidden (update_where (has_state_id state_id) f l) ≤ count is_hidden l
  update_hidden p [] = omega arith
  update_hidden p (s ∷ l) = elim (Bool-cases (has_state_id state_id s)) [
    | inl e ↦ rw (e, u.shown p s) (omega (arith, update_hidden p l))
    | inr e ↦ rw e (omega (arith, update_hidden p l))
  ]

  pub update_KeepsStates :
      (l : List SourceListingState)
      → KeepsStates known status l (update_where (has_state_id state_id) f l)
  update_KeepsStates l = record {
    unique = λ h i g. omega (arith, update_count i g l, h i g);
    consistent = λ k. update-IsConsistent k l;
    hidden = λ p. update_hidden p l;
  }

any-count :
    (p : SourceListingState → Bool) (l : List SourceListingState) → any p l ≡ false → count p l ≡ 0
any-count p [] h = refl
any-count p (s ∷ l) h = ground (arith, any-count p l)

-- A new row of this source, that is consistent and shown.
pub add_KeepsStates :
    (known : Type 0) (source_id : ℕ) (status : RunStatus) (s : SourceListingState)
    (l : List SourceListingState)
    → s.source_id ≡ source_id
    → IsConsistent s
    → is_hidden s ≡ false
    → any (is_state_of source_id s.listing_group_id) l ≡ false
    → KeepsStates known status l (s ∷ l)
add_KeepsStates known source_id status s l h c v n = record {
  unique = λ u i g. ground (arith, u i g, any-count (is_state_of source_id s.listing_group_id) l);
  consistent = λ k a. (c, a);
  hidden = λ p. ground (arith);
}

pub add_KeepsHomes :
    (a : BrokerArticle) (l : List BrokerArticle)
    → find (λ b. text_eq b.naver_article_id a.naver_article_id) l ≡ none
    → KeepsHomes l (a ∷ l)
add_KeepsHomes a l h i g e =
    if_cases (λ o. group_of o ≡ some g) (text_eq a.naver_article_id i) (some a)
      (find (λ b. text_eq b.naver_article_id i) l)
      (λ t. cc (
        ap group_of h,
        subst (λ n. home n l ≡ some g) (sym ((text_eq_iff a.naver_article_id i).0 t)) e,
      ))
      (λ t. e)

pub update_KeepsHomes :
    (p : BrokerArticle → Bool) (d : BrokerArticleDetail) (url : Text) (captured_at : ℕ)
    (l : List BrokerArticle)
    → KeepsHomes l (update_where p (seen_article d url captured_at) l)
update_KeepsHomes p d url captured_at [] i g e = e
update_KeepsHomes p d url captured_at (a ∷ l) i g e =
    let rest = update_KeepsHomes p d url captured_at l i g in
    elim (Bool-cases (text_eq a.naver_article_id i)) [
      | inl t ↦
          if_cases (λ b. home i (b ∷ update_where p (seen_article d url captured_at) l) ≡ some g)
            (p a) (seen_article d url captured_at a) a (λ _. rw t (rw t at e))
            (λ _. rw t (rw t at e))
      | inr t ↦
          if_cases (λ b. home i (b ∷ update_where p (seen_article d url captured_at) l) ≡ some g)
            (p a) (seen_article d url captured_at a) a (λ _. rw t (rest (rw t at e)))
            (λ _. rw t (rest (rw t at e)))
    ]

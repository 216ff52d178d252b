-- ===== src/Prelude/Words/Sets.antt =====
-- Sorted sets of texts are equal when they have the same members.
use wisdom_qj_auction_servic.Prelude.Lists.{All}
use wisdom_qj_auction_servic.Prelude.Tests.{Bool-cases, if_cases}
use wisdom_qj_auction_servic.Prelude.Texts.{Text, text_eq, text_eq_iff, text_eq_refl}
use wisdom_qj_auction_servic.Prelude.Words.{
  text_lt, insert_text, sorted_set, mem_text, mem_text-sorted_set, text_lt_trans, text_lt_irrefl,
  text_lt_total,
}
use mathlib.Core.Path.{◌≡◌, refl, sym, ◌∙◌, ap, subst}
use mathlib.Core.Logic.{inl, inr}
use mathlib.Core.Bool.{true, false}
use mathlib.Core.List.{List, [], ◌∷◌}
use native.Mathlib.Omega.{arith}

abbrev pub IsAscending : List Text → Type 0
IsAscending [] = Unit
IsAscending (x ∷ xs) = All (λ z. text_lt x z ≡ true) xs × IsAscending xs

insert_text-All {κ} :
    (P : Text → Type κ) (x : Text) (ys : List Text) → P x → All P ys → All P (insert_text x ys)
insert_text-All P x [] h hs = (h, tt)
insert_text-All P x (y ∷ ys) h (g, gs) =
    if_cases (All P) (text_lt x y) (x ∷ y ∷ ys) _ (λ _. (h, (g, gs)))
      (λ _.
        if_cases (All P) (text_eq x y) (y ∷ ys) (y ∷ insert_text x ys) (λ _. (g, gs))
          (λ _. (g, insert_text-All P x ys h gs)))

All-text_lt_trans :
    (x y : Text) (zs : List Text)
    → text_lt x y ≡ true
    → All (λ z. text_lt y z ≡ true) zs
    → All (λ z. text_lt x z ≡ true) zs
All-text_lt_trans x y [] h hs = tt
All-text_lt_trans x y (z ∷ zs) h (g, gs) = (text_lt_trans x y z h g, All-text_lt_trans x y zs h gs)

insert_text-IsAscending :
    (x : Text) (ys : List Text) → IsAscending ys → IsAscending (insert_text x ys)
insert_text-IsAscending x [] s = (tt, tt)
insert_text-IsAscending x (y ∷ ys) (h, s) =
    if_cases IsAscending (text_lt x y) (x ∷ y ∷ ys) _
      (λ lt. ((lt, All-text_lt_trans x y ys lt h), (h, s)))
      (λ ge.
        if_cases IsAscending (text_eq x y) (y ∷ ys) (y ∷ insert_text x ys) (λ _. (h, s))
          (λ ne. (
            insert_text-All (λ z. text_lt y z ≡ true) x ys (text_lt_total x y ge ne) h,
            insert_text-IsAscending x ys s,
          )))

pub sorted_set-IsAscending : (xs : List Text) → IsAscending (sorted_set xs)
sorted_set-IsAscending [] = tt
sorted_set-IsAscending (x ∷ xs) =
    insert_text-IsAscending x (sorted_set xs) (sorted_set-IsAscending xs)

below-All : (x : Text) (ys : List Text) → All (λ z. text_lt x z ≡ true) ys → mem_text x ys ≡ false
below-All x [] h = refl
below-All x (y ∷ ys) (h, hs) = ground (arith, text_eq_iff y x, text_lt_irrefl x, below-All x ys hs)

SameMembers : List Text → List Text → Type 0
SameMembers xs ys = (z : Text) → mem_text z xs ≡ mem_text z ys

mem_head : (x : Text) (xs : List Text) → mem_text x (x ∷ xs) ≡ true
mem_head x xs = ground (arith, text_eq_refl x)

same_head :
    (x y : Text) (xs ys : List Text)
    → IsAscending (x ∷ xs)
    → IsAscending (y ∷ ys)
    → SameMembers (x ∷ xs) (y ∷ ys)
    → x ≡ y
unfolding SameMembers
same_head x y xs ys (h, s) (g, t) m = elim (Bool-cases (text_eq x y)) [
  | inl e ↦ (text_eq_iff x y).0 e
  | inr e ↦ elim (Bool-cases (text_lt x y)) [
    | inl lt ↦ cc (mem_head x xs, m x, below-All x (y ∷ ys) (lt, All-text_lt_trans x y ys lt g))
    | inr ge ↦
        let gt = text_lt_total x y ge e in
        cc (mem_head y ys, m y, below-All y (x ∷ xs) (gt, All-text_lt_trans y x xs gt h))
  ]
]

same_tail :
    (x : Text) (xs ys : List Text)
    → IsAscending (x ∷ xs)
    → IsAscending (x ∷ ys)
    → SameMembers (x ∷ xs) (x ∷ ys)
    → SameMembers xs ys
unfolding SameMembers
same_tail x xs ys (h, s) (g, t) m z = elim (Bool-cases (text_eq x z)) [
  | inl e ↦
      subst (λ w. mem_text w xs ≡ mem_text w ys) ((text_eq_iff x z).0 e)
        (below-All x xs h ∙ sym (below-All x ys g))
  | inr e ↦ ground (arith, m z)
]

ascending_unique :
    (xs ys : List Text) → IsAscending xs → IsAscending ys → SameMembers xs ys → xs ≡ ys
unfolding SameMembers
ascending_unique [] [] s t m = refl
ascending_unique [] (y ∷ ys) s t m = cc (m y, mem_head y ys)
ascending_unique (x ∷ xs) [] s t m = cc (m x, mem_head x xs)
ascending_unique (x ∷ xs) (y ∷ ys) s t m =
    subst (λ w. IsAscending (w ∷ ys) → SameMembers (x ∷ xs) (w ∷ ys) → x ∷ xs ≡ w ∷ ys)
      (same_head x y xs ys s t m)
      (λ t' m'. ap (λ l. x ∷ l) (ascending_unique xs ys s.1 t'.1 (same_tail x xs ys s t' m'))) t m

-- Lists with the same members make the same sorted set.
pub sorted_set_ext :
    (xs ys : List Text)
    → ((z : Text) → mem_text z xs ≡ mem_text z ys)
    → sorted_set xs ≡ sorted_set ys
unfolding SameMembers
sorted_set_ext xs ys m =
    ascending_unique (sorted_set xs) (sorted_set ys) (sorted_set-IsAscending xs)
      (sorted_set-IsAscending ys)
      (λ z. mem_text-sorted_set z xs ∙ m z ∙ sym (mem_text-sorted_set z ys))

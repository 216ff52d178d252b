-- ===== src/Prelude/Words.antt =====
-- White space between words, the order of texts, and sorted sets of texts.
pub mod Sets
use wisdom_qj_auction_servic.Prelude.Lists.{any, all}
use wisdom_qj_auction_servic.Prelude.Tests.{ltb, ◌==◌, if◌then◌else◌}
use wisdom_qj_auction_servic.Prelude.Texts.{
  Text, codes, text_eq, text_eq_iff, text_eq_refl, is_space, is_empty,
}
use Prim.Native.Nat.{ℕ, compare}
use mathlib.Core.Path.{◌≡◌, refl}
use mathlib.Core.Bool.{Bool, true, false, not, ◌&&◌, ◌||◌}
use mathlib.Core.List.{List, [], ◌∷◌, ◌++◌}
use native.Mathlib.Omega.{arith}

abbrev pub emit : Text → List Text → List Text
emit [] ws = ws
emit (c ∷ s) ws = (c ∷ s) ∷ ws

-- `s.split()`, with the word that has begun.
unfoldable pub split_from : Text → Text → List Text
unfolding is_space
split_from word [] = emit word []
split_from word (c ∷ s) =
    let ended = emit word (split_from [] s) in
    let longer = split_from (word ++ c ∷ []) s in if is_space c then ended else longer

-- `" ".join(words)`
unfoldable pub join_words : List Text → Text
join_words [] = []
join_words (w ∷ []) = w
join_words (w ∷ v ∷ ws) = w ++ 32 ∷ join_words (v ∷ ws)

-- `" ".join(s.split())`
unfoldable pub collapse : Text → Text
unfolding split_from join_words
collapse s = join_words (split_from [] s)

collapse_words : collapse (codes "  남향  로얄층 ") ≡ codes "남향 로얄층"
unfolding collapse
collapse_words = refl

-- `s < t`, by code points.
abbrev pub text_lt : Text → Text → Bool
text_lt s [] = false
text_lt [] (b ∷ t) = true
text_lt (a ∷ s) (b ∷ t) = ltb a b || (a == b && text_lt s t)

-- Insertion into a sorted list without repetition.
abbrev pub insert_text : Text → List Text → List Text
insert_text x [] = x ∷ []
insert_text x (y ∷ ys) =
    let rest = insert_text x ys in
    if text_lt x y then x ∷ y ∷ ys else if text_eq x y then y ∷ ys else y ∷ rest

-- `sorted(set(texts))`
abbrev pub sorted_set : List Text → List Text
sorted_set [] = []
sorted_set (x ∷ xs) = insert_text x (sorted_set xs)

abbrev pub mem_text : Text → List Text → Bool
mem_text x xs = any (λ y. text_eq y x) xs

pub mem_text-insert_text :
    (z x : Text) (xs : List Text) → mem_text z (insert_text x xs) ≡ (text_eq x z || mem_text z xs)
mem_text-insert_text z x [] = refl
mem_text-insert_text z x (y ∷ ys) = ground (arith, text_eq_iff x y, mem_text-insert_text z x ys)

-- A sorted set has the members of its list.
pub mem_text-sorted_set : (z : Text) (xs : List Text) → mem_text z (sorted_set xs) ≡ mem_text z xs
mem_text-sorted_set z [] = refl
mem_text-sorted_set z (x ∷ xs) =
    ground (arith, mem_text-insert_text z x (sorted_set xs), mem_text-sorted_set z xs)

pub text_lt_trans : (a b c : Text) → text_lt a b ≡ true → text_lt b c ≡ true → text_lt a c ≡ true
text_lt_trans a b [] h g = cc
text_lt_trans a [] (z ∷ c) h g = cc
text_lt_trans [] (y ∷ b) (z ∷ c) h g = refl
text_lt_trans (x ∷ a) (y ∷ b) (z ∷ c) h g = ground (arith, text_lt_trans a b c)

pub text_lt_irrefl : (a : Text) → text_lt a a ≡ false
text_lt_irrefl [] = refl
text_lt_irrefl (x ∷ a) = ground (arith, text_lt_irrefl a)

-- Of two texts one is smaller, or they are equal.
pub text_lt_total : (a b : Text) → text_lt a b ≡ false → text_eq a b ≡ false → text_lt b a ≡ true
text_lt_total [] [] h e = cc
text_lt_total [] (y ∷ b) h e = cc
text_lt_total (x ∷ a) [] h e = refl
text_lt_total (x ∷ a) (y ∷ b) h e = ground (arith, text_lt_total a b)

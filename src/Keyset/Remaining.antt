-- ===== src/Keyset/Remaining.antt =====
-- The rows after the last row of a page are those that the page left.
use wisdom_qj_auction_servic.Prelude.{
  if_false, ℕ, zero, suc, ◌≡◌, refl, ap, Bool, true, List, [], ◌∷◌, arith, take, drop, where_, All,
  Bool-cases, inl, inr,
}
use wisdom_qj_auction_servic.Keyset.{Key, newer, last_key}
use wisdom_qj_auction_servic.Keyset.Order.{newer_asym, newer_irrefl, IsNewestFirst}

module _ {A : Type 0} (key : A → Key) where
  pub where_-All : (p : A → Bool) (xs : List A) → All (λ z. p z ≡ true) xs → where_ p xs ≡ xs
  where_-All p [] h = refl
  where_-All p (x ∷ xs) (h, hs) = rw h (ap (λ l. x ∷ l) (where_-All p xs hs))

  -- The last key of a page is older than the rows before the page.
  last_key_older :
      (x y : A) (ys : List A) (n : ℕ)
      → All (λ z. newer (key x) (key z) ≡ true) (y ∷ ys)
      → newer (key x) (last_key key y (take n ys)) ≡ true
  last_key_older x y ys zero (h, hs) = h
  last_key_older x y [] (suc n) (h, hs) = h
  last_key_older x y (z ∷ zs) (suc n) (h, hs) = last_key_older x z zs n hs

  -- After a page of `n + 1` rows: exactly the rest.
  pub where_-last_key :
      (n : ℕ) (x : A) (xs : List A)
      → IsNewestFirst key (x ∷ xs)
      → where_ (λ z. newer (last_key key x (take n xs)) (key z)) (x ∷ xs) ≡ drop n xs
  where_-last_key zero x xs (h, s) =
      rw (newer_irrefl (key x)) (where_-All (λ z. newer (key x) (key z)) xs h)
  where_-last_key (suc n) x [] (h, s) = rw (newer_irrefl (key x)) refl
  where_-last_key (suc n) x (y ∷ ys) (h, s) =
      if_false (newer (last_key key y (take n ys)) (key x))
        (x ∷ where_ (λ z. newer (last_key key y (take n ys)) (key z)) (y ∷ ys))
        (where_ (λ z. newer (last_key key y (take n ys)) (key z)) (y ∷ ys)) (drop n ys)
        (newer_asym (key x) (last_key key y (take n ys)) (last_key_older x y ys n h))
        (where_-last_key n y ys s)

  -- Selecting twice is selecting by the narrower test.
  pub where_-where_ :
      (p q : A → Bool) (xs : List A)
      → ((z : A) → p z ≡ true → q z ≡ true)
      → where_ p (where_ q xs) ≡ where_ p xs
  where_-where_ p q [] h = refl
  where_-where_ p q (x ∷ xs) h = elim (Bool-cases (p x)) [
    | inl a ↦ ground (arith, h x, where_-where_ p q xs h)
    | inr a ↦ ground (arith, where_-where_ p q xs h)
  ]

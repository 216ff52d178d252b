-- ===== src/Notifications/Pages/Rest.antt =====
-- The rows that a page leaves for the next.
use wisdom_qj_auction_servic.Prelude.{
  ℕ, zero, suc, ◌≡◌, ◌<◌, refl, sym, ◌∙◌, ap, subst, Bool, true, false, Option, none, some, List,
  [], ◌∷◌, arith, ltb, length, take, drop, where_, All, Bool-cases, inl, inr,
}
use wisdom_qj_auction_servic.Keyset.{Key, newer, newest_first, after_cursor, last_key}
use wisdom_qj_auction_servic.Keyset.Order.{
  IsNewestFirst, HasDistinctIds, newest_first-IsNewestFirst, where_-newest_first,
  where_-HasDistinctIds, newer_trans,
}
use wisdom_qj_auction_servic.Keyset.Remaining.{where_-last_key, where_-where_}
use wisdom_qj_auction_servic.Notifications.Pages.{Row, row_key}

pub take-take-suc : (n : ℕ) (xs : List Row) → take n (take (suc n) xs) ≡ take n xs
take-take-suc zero xs = refl
take-take-suc (suc n) [] = refl
take-take-suc (suc n) (x ∷ xs) = ap (λ l. x ∷ l) (take-take-suc n xs)

pub length-take-suc : (n : ℕ) (xs : List Row) → ltb n (length (take (suc n) xs)) ≡ ltb n (length xs)
length-take-suc zero [] = refl
length-take-suc zero (x ∷ xs) = ground (arith)
length-take-suc (suc n) [] = refl
length-take-suc (suc n) (x ∷ xs) = ground (arith, length-take-suc n xs)

pub take-all : (n : ℕ) (xs : List Row) → ltb n (length xs) ≡ false → take n xs ≡ xs
take-all zero [] h = refl
take-all zero (x ∷ xs) h = ground (arith)
take-all (suc n) [] h = refl
take-all (suc n) (x ∷ xs) h = ap (λ l. x ∷ l) (take-all n xs (ground (arith)))

pub length-drop-lt : (n : ℕ) (x : Row) (xs : List Row) → length (drop n xs) < length (x ∷ xs)
length-drop-lt zero x xs = omega arith
length-drop-lt (suc n) x [] = omega arith
length-drop-lt (suc n) x (y ∷ ys) = omega (arith, length-drop-lt n y ys)

-- The rows that a page takes from.
abbrev pub rest : List Row → Option Key → List Row
rest rows cursor = newest_first row_key (where_ (after_cursor row_key cursor) rows)

last_key-All :
    (k : Key) (x : Row) (xs : List Row) (n : ℕ)
    → All (λ z. newer k (row_key z) ≡ true) (x ∷ xs)
    → newer k (last_key row_key x (take n xs)) ≡ true
last_key-All k x xs zero (h, hs) = h
last_key-All k x [] (suc n) (h, hs) = h
last_key-All k x (y ∷ ys) (suc n) (h, hs) = last_key-All k y ys n hs

where_-passes : (p : Row → Bool) (xs : List Row) → All (λ z. p z ≡ true) (where_ p xs)
where_-passes p [] = tt
where_-passes p (x ∷ xs) = elim (Bool-cases (p x)) [
  | inl a ↦ rw a (a, where_-passes p xs)
  | inr a ↦ rw a (where_-passes p xs)
]

module _ (rows : List Row) (distinct : HasDistinctIds row_key rows) where
  rest-IsNewestFirst : (cursor : Option Key) → IsNewestFirst row_key (rest rows cursor)
  rest-IsNewestFirst cursor =
      newest_first-IsNewestFirst row_key (where_ (after_cursor row_key cursor) rows)
        (where_-HasDistinctIds row_key (after_cursor row_key cursor) rows distinct)

  rest-where_ :
      (cursor : Option Key)
      → rest rows cursor ≡ where_ (after_cursor row_key cursor) (newest_first row_key rows)
  rest-where_ cursor = where_-newest_first row_key (after_cursor row_key cursor) rows distinct

  -- A row after the last row of the page is after the cursor of the page.
  narrower :
      (cursor : Option Key) (x : Row) (xs : List Row) (n : ℕ)
      → rest rows cursor ≡ x ∷ xs
      → (z : Row) → newer (last_key row_key x (take n xs)) (row_key z) ≡ true
      → after_cursor row_key cursor z ≡ true
  narrower none x xs n e z h = refl
  narrower (some k) x xs n e z h =
      newer_trans k (last_key row_key x (take n xs)) (row_key z)
        (last_key-All k x xs n (
          subst (All (λ z. newer k (row_key z) ≡ true)) (sym (rest-where_ (some k)) ∙ e)
            (where_-passes (λ z. newer k (row_key z)) (newest_first row_key rows))))
        h

  -- The next page takes from what the page left.
  pub rest-next :
      (cursor : Option Key) (x : Row) (xs : List Row) (n : ℕ)
      → rest rows cursor ≡ x ∷ xs
      → rest rows (some (last_key row_key x (take n xs))) ≡ drop n xs
  rest-next cursor x xs n e =
      let k = last_key row_key x (take n xs) in
      rest-where_ (some k)
      ∙ sym (
          where_-where_ row_key (λ z. newer k (row_key z)) (after_cursor row_key cursor)
            (newest_first row_key rows) (narrower cursor x xs n e))
      ∙ ap (where_ (λ z. newer k (row_key z))) (sym (rest-where_ cursor) ∙ e)
      ∙ where_-last_key row_key n x xs (subst (IsNewestFirst row_key) e (rest-IsNewestFirst cursor))

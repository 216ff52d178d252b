-- ===== src/Keyset/Order.antt =====
-- Sorting by key, and selecting before or after it.
use wisdom_qj_auction_servic.Prelude.{
  ◌≡◌, refl, Bool, true, false, List, [], ◌∷◌, ◌==◌, arith, where_, All, Bool-cases, inl, inr,
  if_cases, if◌then◌else◌,
}
use wisdom_qj_auction_servic.Keyset.{Key, newer, insert_row, newest_first}

pub newer_trans : (a b c : Key) → newer a b ≡ true → newer b c ≡ true → newer a c ≡ true
newer_trans (t, i) (u, j) (v, k) h g = ground (arith)

pub newer_asym : (a b : Key) → newer a b ≡ true → newer b a ≡ false
newer_asym (t, i) (u, j) h = ground (arith)

pub newer_irrefl : (a : Key) → newer a a ≡ false
newer_irrefl (t, i) = ground (arith)

-- Of two keys with different ids one is newer.
newer_total : (a b : Key) → (a.1 == b.1) ≡ false → newer a b ≡ false → newer b a ≡ true
newer_total (t, i) (u, j) d h = ground (arith)

module _ {A : Type 0} (key : A → Key) where
  -- Every row is newer than all that follow.
  abbrev pub IsNewestFirst : List A → Type 0
  IsNewestFirst [] = Unit
  IsNewestFirst (x ∷ xs) = All (λ z. newer (key x) (key z) ≡ true) xs × IsNewestFirst xs

  abbrev pub HasDistinctIds : List A → Type 0
  HasDistinctIds [] = Unit
  HasDistinctIds (x ∷ xs) = All (λ z. ((key z).1 == (key x).1) ≡ false) xs × HasDistinctIds xs

  pub All-where_ {κ} :
      (P : A → Type κ) (p : A → Bool) (xs : List A) → All P xs → All P (where_ p xs)
  All-where_ P p [] h = tt
  All-where_ P p (x ∷ xs) (h, hs) =
      if_cases (All P) (p x) (x ∷ where_ p xs) (where_ p xs) (λ _. (h, All-where_ P p xs hs))
        (λ _. All-where_ P p xs hs)

  insert_front :
      (x : A) (ys : List A)
      → All (λ z. newer (key z) (key x) ≡ false) ys
      → insert_row key x ys ≡ x ∷ ys
  insert_front x [] h = refl
  insert_front x (y ∷ ys) (h, hs) = rw h refl

  not_newer_trans :
      (x y : A) (ys : List A)
      → newer (key y) (key x) ≡ false
      → All (λ z. newer (key y) (key z) ≡ true) ys
      → All (λ z. newer (key z) (key x) ≡ false) ys
  not_newer_trans x y [] h hs = tt
  not_newer_trans x y (z ∷ zs) h (g, gs) =
      (ground (arith, newer_trans (key y) (key z) (key x)), not_newer_trans x y zs h gs)

  insert_row-All {κ} :
      (P : A → Type κ) (x : A) (ys : List A) → P x → All P ys → All P (insert_row key x ys)
  insert_row-All P x [] h hs = (h, tt)
  insert_row-All P x (y ∷ ys) h (g, gs) =
      if_cases (All P) (newer (key y) (key x)) (y ∷ insert_row key x ys) (x ∷ y ∷ ys)
        (λ _. (g, insert_row-All P x ys h gs)) (λ _. (h, (g, gs)))

  All-newer_trans :
      (x y : A) (ys : List A)
      → newer (key x) (key y) ≡ true
      → All (λ z. newer (key y) (key z) ≡ true) ys
      → All (λ z. newer (key x) (key z) ≡ true) ys
  All-newer_trans x y [] h hs = tt
  All-newer_trans x y (z ∷ zs) h (g, gs) =
      (newer_trans (key x) (key y) (key z) h g, All-newer_trans x y zs h gs)

  insert_row-IsNewestFirst :
      (x : A) (ys : List A)
      → All (λ z. ((key z).1 == (key x).1) ≡ false) ys
      → IsNewestFirst ys
      → IsNewestFirst (insert_row key x ys)
  insert_row-IsNewestFirst x [] d s = (tt, tt)
  insert_row-IsNewestFirst x (y ∷ ys) (d, ds) (h, s) =
      if_cases IsNewestFirst (newer (key y) (key x)) (y ∷ insert_row key x ys) (x ∷ y ∷ ys)
        (λ g. (
          insert_row-All (λ z. newer (key y) (key z) ≡ true) x ys g h,
          insert_row-IsNewestFirst x ys ds s,
        ))
        (λ g. let n = newer_total (key y) (key x) d g in ((n, All-newer_trans x y ys n h), (h, s)))

  newest_first-All {κ} : (P : A → Type κ) (xs : List A) → All P xs → All P (newest_first key xs)
  newest_first-All P [] h = tt
  newest_first-All P (x ∷ xs) (h, hs) =
      insert_row-All P x (newest_first key xs) h (newest_first-All P xs hs)

  pub newest_first-IsNewestFirst :
      (xs : List A) → HasDistinctIds xs → IsNewestFirst (newest_first key xs)
  newest_first-IsNewestFirst [] d = tt
  newest_first-IsNewestFirst (x ∷ xs) (d, ds) =
      insert_row-IsNewestFirst x (newest_first key xs)
        (newest_first-All (λ z. ((key z).1 == (key x).1) ≡ false) xs d)
        (newest_first-IsNewestFirst xs ds)

  pub where_-HasDistinctIds :
      (p : A → Bool) (xs : List A) → HasDistinctIds xs → HasDistinctIds (where_ p xs)
  where_-HasDistinctIds p [] d = tt
  where_-HasDistinctIds p (x ∷ xs) (d, ds) =
      if_cases HasDistinctIds (p x) (x ∷ where_ p xs) (where_ p xs)
        (λ _. (
          All-where_ (λ z. ((key z).1 == (key x).1) ≡ false) p xs d,
          where_-HasDistinctIds p xs ds,
        ))
        (λ _. where_-HasDistinctIds p xs ds)

  insert_later :
      (p : A → Bool) (x y : A) (ys : List A)
      → newer (key y) (key x) ≡ true
      → where_ p (insert_row key x ys)
        ≡ (if p x then insert_row key x (where_ p ys) else where_ p ys)
      → where_ p (y ∷ insert_row key x ys)
        ≡ (if p x then insert_row key x (where_ p (y ∷ ys)) else where_ p (y ∷ ys))
  insert_later p x y ys e ih = elim (Bool-cases (p x)) [
    | inl a ↦ elim (Bool-cases (p y)) [ inl b ↦ ground (arith) | inr b ↦ ground (arith) ]
    | inr a ↦ elim (Bool-cases (p y)) [ inl b ↦ ground (arith) | inr b ↦ ground (arith) ]
  ]

  insert_here :
      (p : A → Bool) (x y : A) (ys : List A)
      → newer (key y) (key x) ≡ false
      → insert_row key x (where_ p ys) ≡ x ∷ where_ p ys
      → where_ p (x ∷ y ∷ ys)
        ≡ (if p x then insert_row key x (where_ p (y ∷ ys)) else where_ p (y ∷ ys))
  insert_here p x y ys e front = elim (Bool-cases (p x)) [
    | inl a ↦ elim (Bool-cases (p y)) [ inl b ↦ ground (arith) | inr b ↦ ground (arith) ]
    | inr a ↦ ground (arith)
  ]

  -- Selecting from an insertion into sorted rows.
  where_-insert_row :
      (p : A → Bool) (x : A) (ys : List A)
      → IsNewestFirst ys
      → where_ p (insert_row key x ys)
        ≡ (if p x then insert_row key x (where_ p ys) else where_ p ys)
  where_-insert_row p x [] s = ground (arith)
  where_-insert_row p x (y ∷ ys) (h, s) = elim (Bool-cases (newer (key y) (key x))) [
    | inl e ↦ rw e (insert_later p x y ys e (where_-insert_row p x ys s))
    | inr e ↦ rw e (
        insert_here p x y ys e (
          insert_front x (where_ p ys)
            (All-where_ (λ z. newer (key z) (key x) ≡ false) p ys (not_newer_trans x y ys e h))))
  ]

  selected :
      (p : A → Bool) (x : A) (xs : List A)
      → newest_first key (where_ p xs) ≡ where_ p (newest_first key xs)
      → newest_first key (where_ p (x ∷ xs)) ≡ (
          if p x
          then insert_row key x (where_ p (newest_first key xs))
          else where_ p (newest_first key xs))
  selected p x xs ih = elim (Bool-cases (p x)) [
    | inl a ↦ rw (a, ← ih) refl
    | inr a ↦ rw (a, ← ih) refl
  ]

  -- Selecting and sorting commute.
  pub where_-newest_first :
      (p : A → Bool) (xs : List A)
      → HasDistinctIds xs
      → newest_first key (where_ p xs) ≡ where_ p (newest_first key xs)
  where_-newest_first p [] d = refl
  where_-newest_first p (x ∷ xs) (d, ds) =
      rw (where_-insert_row p x (newest_first key xs) (newest_first-IsNewestFirst xs ds))
        (selected p x xs (where_-newest_first p xs ds))

-- ===== src/Prelude/Tables.antt =====
-- Tables as lists of rows: select one, select all, update where.
use mathlib.Core.Path.{◌≡◌, subst, refl}
use mathlib.Core.Logic.{inl, inr}
use mathlib.Core.Bool.{Bool, true}
use mathlib.Core.List.{List, [], ◌∷◌}
use mathlib.Core.Option.{Option, none, some}
use native.Mathlib.Omega.{arith}
use wisdom_qj_auction_servic.Prelude.Tests.{if◌then◌else◌, Bool-cases}
use wisdom_qj_auction_servic.Prelude.Lists.{All}

module _ {ℓ} {A : Type ℓ} where
  -- The first row that passes the test.
  abbrev pub find : (A → Bool) → List A → Option A
  find p [] = none
  find p (x ∷ xs) = if p x then some x else find p xs

  -- Every row that passes the test is replaced.
  abbrev pub update_where : (A → Bool) → (A → A) → List A → List A
  update_where p f [] = []
  update_where p f (x ∷ xs) = (if p x then f x else x) ∷ update_where p f xs

  -- What a select finds passed its test.
  pub find_passes : (p : A → Bool) (xs : List A) (x : A) → find p xs ≡ some x → p x ≡ true
  find_passes p [] x h = cc
  find_passes p (y ∷ xs) x h = ground (arith, find_passes p xs x)

  pub find-All {κ} :
      (P : A → Type κ) (p : A → Bool) (xs : List A) (x : A) → All P xs → find p xs ≡ some x → P x
  find-All P p [] x a h = cc
  find-All P p (y ∷ xs) x a h = elim (Bool-cases (p y)) [
    | inl e ↦ subst P (cc (h, e)) a.0
    | inr e ↦ find-All P p xs x a.1 (rw e at h)
  ]

  abbrev pub updated : (A → Bool) → (A → A) → Option A → Option A
  updated q f none = none
  updated q f (some x) = some (if q x then f x else x)

  -- A select by a key after an update that keeps the key.
  pub find-update_where :
      (p q : A → Bool) (f : A → A) (xs : List A)
      → ((x : A) → p (f x) ≡ p x)
      → find p (update_where q f xs) ≡ updated q f (find p xs)
  find-update_where p q f [] h = refl
  find-update_where p q f (x ∷ xs) h = elim (Bool-cases (p x)) [
    | inl e ↦ elim (Bool-cases (q x)) [ inl d ↦ rw (d, h x, e, d) refl | inr d ↦ rw (d, e, d) refl ]
    | inr e ↦ elim (Bool-cases (q x)) [
      | inl d ↦ rw (d, h x, e) (find-update_where p q f xs h)
      | inr d ↦ rw (d, e) (find-update_where p q f xs h)
    ]
  ]

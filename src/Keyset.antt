-- ===== src/Keyset.antt =====
-- Keyset pages: rows by falling time and then falling id, and the rows after a cursor, as
-- `ORDER BY created_at DESC, id DESC` and the comparison with a cursor select them.
pub mod Order
pub mod Remaining
use wisdom_qj_auction_servic.Prelude.{
  ℕ, zero, suc, ◌+◌, Bool, true, false, Option, none, some, List, [], ◌∷◌, ◌&&◌, ◌||◌, ◌==◌, ltb,
  take, where_, length, if◌then◌else◌,
}

-- The time and the id of a row.
abbrev pub Key : Type 0
Key = ℕ × ℕ

-- The first key comes before the second.
abbrev pub newer : Key → Key → Bool
newer (t, i) (u, j) = ltb u t || (t == u && ltb j i)

module _ {A : Type 0} (key : A → Key) where
  abbrev pub insert_row : A → List A → List A
  insert_row x [] = x ∷ []
  insert_row x (y ∷ ys) =
      let rest = insert_row x ys in if newer (key y) (key x) then y ∷ rest else x ∷ y ∷ ys

  abbrev pub newest_first : List A → List A
  newest_first [] = []
  newest_first (x ∷ xs) = insert_row x (newest_first xs)

  abbrev pub after_cursor : Option Key → A → Bool
  after_cursor none x = true
  after_cursor (some k) x = newer k (key x)

  abbrev pub last_key : A → List A → Key
  last_key x [] = key x
  last_key x (y ∷ ys) = last_key y ys

  abbrev pub next_key : List A → Option Key
  next_key [] = none
  next_key (x ∷ xs) = some (last_key x xs)

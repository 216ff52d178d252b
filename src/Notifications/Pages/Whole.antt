-- ===== src/Notifications/Pages/Whole.antt =====
-- Following the cursors shows every notification once, the newest first.
use wisdom_qj_auction_servic.Prelude.{
  ℕ, zero, suc, ◌≡◌, ◌<◌, refl, ◌∙◌, ap, Bool, true, false, Option, none, some, List, [], ◌∷◌, ◌++◌,
  ◌==◌, arith, ltb, length, take, drop, where_, All, Bool-cases, inl, inr, take-append-drop,
  if◌then◌else◌,
}
use wisdom_qj_auction_servic.Prelude.Tables.{find}
use wisdom_qj_auction_servic.Prelude.Texts.{Text, is_empty}
use wisdom_qj_auction_servic.Models.{TrackedSource}
use wisdom_qj_auction_servic.Keyset.{Key, newest_first, last_key, next_key}
use wisdom_qj_auction_servic.Keyset.Order.{HasDistinctIds, where_-HasDistinctIds}
use wisdom_qj_auction_servic.Keyset.Remaining.{where_-All}
use wisdom_qj_auction_servic.Notifications.{Notification, Store}
use wisdom_qj_auction_servic.Notifications.Pages.{
  or_blank, is_listed, Row, row_key, Codec, Page, page_of, page_after, PageResult, page,
  invalid_cursor, listed, list, at_cursor, decoded, encoded, joined, with_complex,
}
use wisdom_qj_auction_servic.Notifications.Pages.Rest.{
  take-take-suc, length-take-suc, take-all, length-drop-lt, rest, rest-next,
}

-- One page, and those after it.
abbrev pub prepend : List Row → Option (List Row) → Option (List Row)
prepend items none = none
prepend items (some later) = some (items ++ later)

abbrev pub continued : (Option Text → Option (List Row)) → PageResult → Option (List Row)
continued later invalid_cursor = none
continued later (page items none) = some items
continued later (page items (some next)) = prepend items (later (some next))

-- The pages from a cursor on, as a client follows them; `none` where a cursor is refused or the
-- fuel runs out.
abbrev pub follow : (Option Text → PageResult) → (fuel : ℕ) → Option Text → Option (List Row)
follow fetch zero cursor = none
follow fetch (suc fuel) cursor = continued (follow fetch fuel) (fetch cursor)

-- What a cursor is written as is read back, and is not empty.
pub record IsFaithful (c : Codec) : Type 0 where
  pub round_trip : (k : Key) → c.decode (c.encode k) ≡ some k
  pub nonempty : (k : Key) → is_empty (c.encode k) ≡ false

at_text :
    (c : Codec) (limit : ℕ) (rows : List Row) (k : Key) (t : Text)
    → is_empty t ≡ false
    → c.decode t ≡ some k
    → at_cursor c limit rows (some t) ≡ encoded c (page_after limit rows (some k))
at_text c limit rows k [] e d = cc
at_text c limit rows k (a ∷ s) e d = ap (decoded c limit rows) d

page_with : List Row → Bool → Page
page_with items more = record {
  items = items;
  next_cursor = if more then next_key row_key items else none;
}

page_of-take :
    (m : ℕ) (r : List Row)
    → page_of (suc m) (take (suc (suc m)) r) ≡ page_with (take (suc m) r) (ltb (suc m) (length r))
unfolding page_with
page_of-take m r =
    ap (λ l. page_with l (ltb (suc m) (length (take (suc (suc m)) r)))) (take-take-suc (suc m) r)
    ∙ ap (page_with (take (suc m) r)) (length-take-suc (suc m) r)

-- The last page, and one that has a next.
page_end :
    (m : ℕ) (r : List Row)
    → ltb (suc m) (length r) ≡ false
    → page_of (suc m) (take (suc (suc m)) r) ≡ record { items = r; next_cursor = none }
unfolding page_with
page_end m r h =
    page_of-take m r
    ∙ ap (page_with (take (suc m) r)) h
    ∙ ap (λ l. page_with l false) (take-all (suc m) r h)

page_more :
    (m : ℕ) (x : Row) (xs : List Row)
    → ltb (suc m) (length (x ∷ xs)) ≡ true
    → page_of (suc m) (take (suc (suc m)) (x ∷ xs))
      ≡ record { items = x ∷ take m xs; next_cursor = some (last_key row_key x (take m xs)) }
unfolding page_with
page_more m x xs h = page_of-take m (x ∷ xs) ∙ ap (page_with (x ∷ take m xs)) h

module _ (c : Codec) (faithful : IsFaithful c) (rows : List Row)
    (distinct : HasDistinctIds row_key rows) (m : ℕ) where
  -- What a fetch at this cursor answers, when `r` is left.
  fetched :
      (t : Option Text) (cursor : Option Key) (r : List Row)
      → at_cursor c (suc m) rows t ≡ encoded c (page_after (suc m) rows cursor)
      → rest rows cursor ≡ r
      → at_cursor c (suc m) rows t ≡ encoded c (page_of (suc m) (take (suc (suc m)) r))
  unfolding page_after
  fetched t cursor r a e = a ∙ ap (λ l. encoded c (page_of (suc m) (take (suc (suc m)) l))) e

  abbrev Follows : ℕ → Option Text → List Row → Type 0
  Follows fuel t r = follow (at_cursor c (suc m) rows) fuel t ≡ some r

  follow-last :
      (fuel : ℕ) (t : Option Text) (cursor : Option Key) (r : List Row)
      → at_cursor c (suc m) rows t ≡ encoded c (page_after (suc m) rows cursor)
      → rest rows cursor ≡ r
      → ltb (suc m) (length r) ≡ false
      → Follows (suc fuel) t r
  follow-last fuel t cursor r a e done =
      ap (continued (follow (at_cursor c (suc m) rows) fuel))
        (fetched t cursor r a e ∙ ap (encoded c) (page_end m r done))

  -- The cursor of a page fetches the page after it.
  next_text :
      (k : Key)
      → at_cursor c (suc m) rows (some (c.encode k)) ≡ encoded c (page_after (suc m) rows (some k))
  next_text k = at_text c (suc m) rows k (c.encode k) (faithful.nonempty k) (faithful.round_trip k)

  follow-next :
      (fuel : ℕ) (t : Option Text) (cursor : Option Key) (x : Row) (xs : List Row)
      → at_cursor c (suc m) rows t ≡ encoded c (page_after (suc m) rows cursor)
      → rest rows cursor ≡ x ∷ xs
      → ltb (suc m) (length (x ∷ xs)) ≡ true
      → Follows fuel (some (c.encode (last_key row_key x (take m xs)))) (drop m xs)
      → Follows (suc fuel) t (x ∷ xs)
  follow-next fuel t cursor x xs a e more later =
      ap (continued (follow (at_cursor c (suc m) rows) fuel))
        (fetched t cursor (x ∷ xs) a e ∙ ap (encoded c) (page_more m x xs more))
      ∙ ap (prepend (x ∷ take m xs)) later
      ∙ ap (λ l. some (x ∷ l)) (take-append-drop m xs)

  follow-from :
      (fuel : ℕ) (t : Option Text) (cursor : Option Key) (r : List Row)
      → at_cursor c (suc m) rows t ≡ encoded c (page_after (suc m) rows cursor)
      → rest rows cursor ≡ r
      → length r < fuel
      → Follows fuel t r
  follow-from zero t cursor r a e f = absurd (omega arith)
  follow-from (suc fuel) t cursor [] a e f = follow-last fuel t cursor [] a e (ground (arith))
  follow-from (suc fuel) t cursor (x ∷ xs) a e f =
      elim (Bool-cases (ltb (suc m) (length (x ∷ xs)))) [
        | inl more ↦
            let k = last_key row_key x (take m xs) in
            follow-next fuel t cursor x xs a e more (
              follow-from fuel (some (c.encode k)) (some k) (drop m xs) (next_text k)
                (rest-next rows distinct cursor x xs m e) (omega (arith, length-drop-lt m x xs)))
        | inr done ↦ follow-last fuel t cursor (x ∷ xs) a e done
      ]

with_complex-All {κ} :
    (P : Row → Type κ) (n : Notification) (o : Option TrackedSource) (rows : List Row)
    → ((t : Text) → P (n, t))
    → All P rows
    → All P (with_complex n o rows)
with_complex-All P n none rows h hs = hs
with_complex-All P n (some s) rows h hs = (h (or_blank s.naver_complex_id), hs)

with_complex-HasDistinctIds :
    (n : Notification) (o : Option TrackedSource) (rows : List Row)
    → All (λ (z : Row). ((row_key z).1 == n.id) ≡ false) rows
    → HasDistinctIds row_key rows
    → HasDistinctIds row_key (with_complex n o rows)
with_complex-HasDistinctIds n none rows d ds = ds
with_complex-HasDistinctIds n (some s) rows d ds = (d, ds)

joined-All {κ} :
    (P : Row → Type κ) (sources : List TrackedSource) (ns : List Notification)
    → All (λ (n : Notification). (t : Text) → P (n, t)) ns
    → All P (joined sources ns)
joined-All P sources [] h = tt
joined-All P sources (n ∷ ns) (h, hs) =
    with_complex-All P n (find (λ s. s.id == n.source_id) sources) (joined sources ns) h
      (joined-All P sources ns hs)

every_text :
    (n : Notification) (ns : List Notification)
    → All (λ (z : Notification). (z.id == n.id) ≡ false) ns
    → All (λ (z : Notification). (t : Text) → (z.id == n.id) ≡ false) ns
every_text n [] d = tt
every_text n (z ∷ zs) (d, ds) = ((λ t. d), every_text n zs ds)

joined-HasDistinctIds :
    (sources : List TrackedSource) (ns : List Notification)
    → HasDistinctIds (λ (n : Notification). (n.created_at, n.id)) ns
    → HasDistinctIds row_key (joined sources ns)
joined-HasDistinctIds sources [] d = tt
joined-HasDistinctIds sources (n ∷ ns) (d, ds) =
    with_complex-HasDistinctIds n (find (λ s. s.id == n.source_id) sources) (joined sources ns)
      (joined-All (λ (z : Row). ((row_key z).1 == n.id) ≡ false) sources ns (every_text n ns d))
      (joined-HasDistinctIds sources ns ds)

All-true : (rows : List Row) → All (λ (z : Row). true ≡ true) rows
All-true [] = tt
All-true (r ∷ rs) = (refl, All-true rs)

-- A client that follows the cursors, with pages of one row or more, gets every notification of the
-- user (or every unread one) whose source exists, once, the newest first, after at most as many
-- pages as there are rows and one.
pub list-whole :
    (c : Codec) (actor m : ℕ) (unread_only : Bool) (db : Store)
    → IsFaithful c
    → HasDistinctIds (λ (n : Notification). (n.created_at, n.id)) db.notifications
    → let rows = listed actor unread_only db in
      follow
        (λ cursor. list c actor (suc m) unread_only cursor db)
        (suc (length (newest_first row_key rows)))
        none
      ≡ some (newest_first row_key rows)
unfolding list page_after
list-whole c actor m unread_only db f d =
    let rows = listed actor unread_only db in
    let distinct =
      joined-HasDistinctIds db.sources (where_ (is_listed actor unread_only) db.notifications) (
        where_-HasDistinctIds (λ (n : Notification). (n.created_at, n.id))
          (is_listed actor unread_only) db.notifications d) in
    follow-from c f rows distinct m (suc (length (newest_first row_key rows))) none none
      (newest_first row_key rows) refl
      (ap (newest_first row_key) (where_-All row_key (λ (z : Row). true) rows (All-true rows)))
      (omega arith)

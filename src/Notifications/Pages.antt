-- ===== src/Notifications/Pages.antt =====
-- `NotificationService.list`: one page of the user's notifications, and the cursor of the next.
pub mod Rest
pub mod Whole
use wisdom_qj_auction_servic.Prelude.{
  ℕ, suc, zero, ◌+◌, ◌≡◌, Bool, true, false, Option, none, some, List, [], ◌∷◌, ◌++◌, ◌&&◌, ◌||◌,
  ◌==◌, not, ltb, length, take, where_, is_none, if◌then◌else◌,
}
use wisdom_qj_auction_servic.Prelude.Tables.{find}
use wisdom_qj_auction_servic.Prelude.Texts.{Text}
use wisdom_qj_auction_servic.Models.{TrackedSource}
use wisdom_qj_auction_servic.Keyset.{Key, newest_first, after_cursor, next_key}
use wisdom_qj_auction_servic.Notifications.{Notification, Store}

-- `_encode_cursor` and `_decode_cursor`: JSON in base64 of the standard library; `none` where the
-- decoding raises.
pub record Codec : Type 0 where
  pub encode : Key → Text
  pub decode : Text → Option Key

-- A row with the complex of its source.
abbrev pub Row : Type 0
Row = Notification × Text

abbrev pub row_key : Row → Key
row_key (n, complex_id) = (n.created_at, n.id)

abbrev pub or_blank : Option Text → Text
or_blank none = []
or_blank (some t) = t

abbrev pub with_complex : Notification → Option TrackedSource → List Row → List Row
with_complex n none rows = rows
with_complex n (some s) rows = (n, or_blank s.naver_complex_id) ∷ rows

-- The join with the sources.
abbrev pub joined : List TrackedSource → List Notification → List Row
joined sources [] = []
joined sources (n ∷ ns) =
    with_complex n (find (λ s. s.id == n.source_id) sources) (joined sources ns)

abbrev pub is_listed : (actor : ℕ) → (unread_only : Bool) → Notification → Bool
is_listed actor unread_only n = n.user_id == actor && (not unread_only || is_none n.read_at)

-- The rows of the query before the cursor, the order and the limit.
abbrev pub listed : (actor : ℕ) → (unread_only : Bool) → Store → List Row
listed actor unread_only db =
    joined db.sources (where_ (is_listed actor unread_only) db.notifications)

pub record Page : Type 0 where
  pub items : List Row
  pub next_cursor : Option Key

abbrev pub page_of : (limit : ℕ) → List Row → Page
page_of limit rows = record {
  items = take limit rows;
  next_cursor = if ltb limit (length rows) then next_key row_key (take limit rows) else none;
}

pub page_after : (limit : ℕ) → List Row → Option Key → Page
page_after limit rows cursor =
    page_of limit
      (take (suc limit) (newest_first row_key (where_ (after_cursor row_key cursor) rows)))

-- The page with its cursor as a text; InvalidNotificationCursorError is `invalid_cursor`.
pub data PageResult : Type 0 where
  page : List Row → (next_cursor : Option Text) → PageResult
  invalid_cursor : PageResult

abbrev pub encoded : Codec → Page → PageResult
encoded c p = page p.items (elim p.next_cursor [ none ↦ none | some k ↦ some (c.encode k) ])

abbrev pub decoded : Codec → (limit : ℕ) → List Row → Option Key → PageResult
decoded c limit rows none = invalid_cursor
decoded c limit rows (some k) = encoded c (page_after limit rows (some k))

-- An empty text is no cursor.
abbrev pub at_cursor : Codec → (limit : ℕ) → List Row → Option Text → PageResult
at_cursor c limit rows none = encoded c (page_after limit rows none)
at_cursor c limit rows (some []) = encoded c (page_after limit rows none)
at_cursor c limit rows (some (a ∷ s)) = decoded c limit rows (c.decode (a ∷ s))

pub list :
    Codec → (actor limit : ℕ) → (unread_only : Bool) → (cursor : Option Text) → Store → PageResult
list c actor limit unread_only cursor db = at_cursor c limit (listed actor unread_only db) cursor

-- ===== src/Notifications/Reading.antt =====
-- Reading notifications, and the settings of a source.
use wisdom_qj_auction_servic.Prelude.{
  ℕ, ◌==◌, ◌≡◌, refl, true, Option, none, some, List, [], ◌∷◌, arith, not, count, where_,
  Bool-cases, inl, inr,
}
use wisdom_qj_auction_servic.Prelude.Tables.{find, update_where}
use wisdom_qj_auction_servic.Models.{SourceNotificationPreference, TrackedSource}
use wisdom_qj_auction_servic.Notifications.{
  Notification, Store, ok, is_unread_of, unread_count, marked, read_all, owned_source,
  preference_of, get_preference, update_preference, save_preference,
}

-- The notifications of the other users.
abbrev pub of_others : ℕ → List Notification → List Notification
of_others actor l = where_ (λ n. not (n.user_id == actor)) l

read_rows :
    (actor now : ℕ) (l : List Notification)
    → count (is_unread_of actor) (update_where (is_unread_of actor) (marked true now) l) ≡ 0
read_rows actor now [] = refl
read_rows actor now (n ∷ l) = ground (arith, read_rows actor now l)

others_rows :
    (actor now : ℕ) (l : List Notification)
    → of_others actor (update_where (is_unread_of actor) (marked true now) l) ≡ of_others actor l
others_rows actor now [] = refl
others_rows actor now (n ∷ l) = elim (Bool-cases (n.user_id == actor)) [
  | inl e ↦ ground (arith, others_rows actor now l)
  | inr e ↦ ground (arith, others_rows actor now l)
]

-- Reading all notifications answers how many were unread, leaves none unread and touches no
-- notification of another user.
pub read_all-unread_count :
    (actor now : ℕ) (db : Store)
    → ((read_all actor now db).0 ≡ unread_count actor db)
      × (unread_count actor (read_all actor now db).1 ≡ 0)
      × (of_others actor (read_all actor now db).1.notifications ≡ of_others actor db.notifications)
unfolding read_all unread_count
read_all-unread_count actor now db =
    (refl, read_rows actor now db.notifications, others_rows actor now db.notifications)

find_saved :
    (p old : SourceNotificationPreference) (l : List SourceNotificationPreference)
    → find (λ x. x.source_id == p.source_id) l ≡ some old
    → find
        (λ x. x.source_id == p.source_id)
        (update_where (λ x. x.source_id == p.source_id) (λ _. p) l)
      ≡ some p
find_saved p old [] h = cc
find_saved p old (x ∷ l) h = ground (arith, find_saved p old l)

found_saved :
    (p : SourceNotificationPreference) (l : List SourceNotificationPreference)
    (o : Option SourceNotificationPreference)
    → find (λ x. x.source_id == p.source_id) l ≡ o
    → find (λ x. x.source_id == p.source_id) (save_preference p o l) ≡ some p
found_saved p l none h = ground (arith)
found_saved p l (some old) h = find_saved p old l h

-- The owner of a source reads the settings back as they were written, first ones and later ones.
pub update_preference-get_preference :
    (actor : ℕ) (p : SourceNotificationPreference) (s : TrackedSource) (db : Store)
    → owned_source actor p.source_id db ≡ some s
    → get_preference actor p.source_id (update_preference actor p db).1 ≡ ok p
unfolding get_preference update_preference
update_preference-get_preference actor p s db own =
    ground (arith, found_saved p db.preferences (preference_of p.source_id db))

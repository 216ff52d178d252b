-- ===== src/Notifications/Events.antt =====
-- A change event notifies the owner of its source at most once.
use wisdom_qj_auction_servic.Prelude.{
  ℕ, ◌==◌, ◌≤◌, ◌≡◌, refl, sym, subst, Bool, true, false, Option, none, some, List, [], ◌∷◌, ◌||◌,
  arith, not, count, if_cases,
}
use wisdom_qj_auction_servic.Prelude.Tables.{find}
use wisdom_qj_auction_servic.Models.{TrackedSource}
use wisdom_qj_auction_servic.Notifications.{
  Notification, ChangeEvent, Store, is_of_event, is_wanted, preference_of, notification_for,
  create_from_change_event,
}

-- One notification for each user and event.
abbrev pub HasOneEach : Store → Type 0
HasOneEach db = (u e : ℕ) → count (is_of_event u e) db.notifications ≤ 1

-- A notification goes to the owner of the source, who wants this kind of event, and not for a
-- baseline run; it is the one that stands in the table.
pub record IsNotified (actor : ℕ) (event : ChangeEvent) (source : TrackedSource) (baseline : Bool)
    (db : Store) (n : Notification) (after : Store) : Type 0 where
  pub no_baseline : baseline ≡ false
  pub owner : (source.owner_user_id == actor) ≡ true
  pub wanted : is_wanted event.event_type (preference_of source.id db) ≡ true
  pub found : find (is_of_event source.owner_user_id event.id) after.notifications ≡ some n
  pub preferences : after.preferences ≡ db.preferences
  pub one_each : HasOneEach db → HasOneEach after

abbrev pub Outcome :
    ℕ → ChangeEvent → TrackedSource → Bool → Store → Option Notification × Store → Type 0
Outcome actor event source baseline db (none, after) = after ≡ db
Outcome actor event source baseline db (some n, after) =
    IsNotified actor event source baseline db n after

count-find-none :
    (p : Notification → Bool) (l : List Notification) → find p l ≡ none → count p l ≡ 0
count-find-none p [] h = refl
count-find-none p (x ∷ l) h = ground (arith, count-find-none p l)

added-HasOneEach :
    (n : Notification) (db : Store)
    → find (is_of_event n.user_id n.change_event_id) db.notifications ≡ none
    → HasOneEach db
    → (u e : ℕ) → count (is_of_event u e) (n ∷ db.notifications) ≤ 1
added-HasOneEach n db h one u e =
    ground
      (arith, one u e, count-find-none (is_of_event n.user_id n.change_event_id) db.notifications)

found-Outcome :
    (id actor : ℕ) (event : ChangeEvent) (source : TrackedSource) (apartment_id : ℕ)
    (baseline : Bool) (compare_run_id : Option ℕ) (db : Store) (o : Option Notification)
    → (baseline || not (source.owner_user_id == actor)) ≡ false
    → is_wanted event.event_type (preference_of source.id db) ≡ true
    → find (is_of_event source.owner_user_id event.id) db.notifications ≡ o
    → Outcome actor event source baseline db (elim o [
      | some existing ↦ (some existing, db)
      | none ↦ (
        some (notification_for id event source apartment_id compare_run_id),
        record db {
          notifications =
              notification_for id event source apartment_id compare_run_id ∷ db.notifications;
        },
      )
    ])
found-Outcome id actor event source apartment_id baseline compare_run_id db none b w h = record {
  no_baseline = ground (arith);
  owner = ground (arith);
  wanted = w;
  found = ground (arith);
  preferences = refl;
  one_each = added-HasOneEach (notification_for id event source apartment_id compare_run_id) db h;
}
found-Outcome id actor event source apartment_id baseline compare_run_id db (some n) b w h =
    record {
      no_baseline = ground (arith);
      owner = ground (arith);
      wanted = w;
      found = h;
      preferences = refl;
      one_each = λ one. one;
    }

-- A change event notifies nobody but the owner of its source, only outside a baseline run and where
-- the settings want it, and leaves one row for each user and event where there was at most one;
-- without a notification nothing changes.
pub create_from_change_event-Outcome :
    (id actor : ℕ) (event : ChangeEvent) (source : TrackedSource) (apartment_id : ℕ)
    (baseline : Bool) (compare_run_id : Option ℕ) (db : Store)
    → Outcome actor event source baseline db
        (create_from_change_event id actor event source apartment_id baseline compare_run_id db)
unfolding create_from_change_event
create_from_change_event-Outcome id actor event source apartment_id baseline compare_run_id db =
    let P = Outcome actor event source baseline db in
    if_cases P (baseline || not (source.owner_user_id == actor)) (none, db) _ (λ _. refl)
      (λ b.
        if_cases P (not (is_wanted event.event_type (preference_of source.id db))) (none, db) _
          (λ _. refl)
          (λ w.
            found-Outcome id actor event source apartment_id baseline compare_run_id db
              (find (is_of_event source.owner_user_id event.id) db.notifications) b (ground (arith))
              refl))

again :
    (id actor : ℕ) (event : ChangeEvent) (source : TrackedSource) (apartment_id : ℕ)
    (baseline : Bool) (compare_run_id : Option ℕ) (db : Store) (n : Notification)
    → baseline ≡ false
    → (source.owner_user_id == actor) ≡ true
    → is_wanted event.event_type (preference_of source.id db) ≡ true
    → find (is_of_event source.owner_user_id event.id) db.notifications ≡ some n
    → create_from_change_event id actor event source apartment_id baseline compare_run_id db
      ≡ (some n, db)
unfolding create_from_change_event
again id actor event source apartment_id baseline compare_run_id db n a b w f = rw (a, b, w, f) refl

-- A second notification of an event is the first one, and changes nothing.
pub create_from_change_event_once :
    (id second_id actor : ℕ) (event : ChangeEvent) (source : TrackedSource) (apartment_id : ℕ)
    (baseline : Bool) (compare_run_id : Option ℕ) (db after : Store) (n : Notification)
    → create_from_change_event id actor event source apartment_id baseline compare_run_id db
      ≡ (some n, after)
    → create_from_change_event second_id actor event source apartment_id baseline compare_run_id
        after
      ≡ (some n, after)
create_from_change_event_once id second_id actor event source apartment_id baseline compare_run_id
      db after n h =
    let o = subst (Outcome actor event source baseline db) h (
      create_from_change_event-Outcome id actor event source apartment_id baseline compare_run_id
        db) in
    let w =
      subst (λ l. is_wanted event.event_type (find (λ p. p.source_id == source.id) l) ≡ true)
        (sym o.preferences) o.wanted in
    again second_id actor event source apartment_id baseline compare_run_id after n o.no_baseline
      o.owner w o.found

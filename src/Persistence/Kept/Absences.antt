-- ===== src/Persistence/Kept/Absences.antt =====
-- The loop of `persist` over the listings that were not found keeps what each part keeps.
use wisdom_qj_auction_servic.Prelude.{
  ℕ, ◌+◌, ◌≡◌, refl, Bool, true, false, Option, none, some, List, [], ◌∷◌, arith, ◌==◌,
  if◌then◌else◌, if_cases, is_some, All, where_,
}
use wisdom_qj_auction_servic.Prelude.Tables.{find, find-All}
use wisdom_qj_auction_servic.Models.{RunStatus}
use wisdom_qj_auction_servic.Listings.{
  ListingState, active, other, StateTransition, AbsenceEvent, transition_absence, is_completed,
  is_absent, is_removed,
}
use wisdom_qj_auction_servic.Persistence.Rows.{
  SourceListingState, Store, ListingGroup, ListingSnapshot,
}
use wisdom_qj_auction_servic.Persistence.Records.{
  ExistingRecord, existing_records, records_of, with_record, is_state_of, or_snapshot,
  latest_complete_snapshot, latest_of_group,
}
use wisdom_qj_auction_servic.Prelude.Texts.{Text}
use wisdom_qj_auction_servic.Persistence.Writes.{Context}
use wisdom_qj_auction_servic.Persistence.Absences.{
  is_same, absent_state, absence_event, set_absent, absence_of, absence_in, save_absences,
  state_json,
}
use wisdom_qj_auction_servic.Persistence.Groups.{event_of}
use wisdom_qj_auction_servic.Persistence.Kept.{
  IsConsistent, expected_count, Keeps, bind_Keeps, return-Keeps, shift_Keeps,
}
use wisdom_qj_auction_servic.Persistence.Kept.Rows.{IsUpdate}
use wisdom_qj_auction_servic.Persistence.Kept.Steps.{set_state-Keeps, add_event-Keeps}

-- A transition that changes the state hides it only in a completed run, with the right count.
abbrev IsProper : (known : Type 0) → RunStatus → StateTransition → Type 0
IsProper known status t =
    (known → t.missing_count ≡ expected_count t.state)
    × (is_completed status ≡ false → is_absent t.state ≡ false)

absence_IsProper :
    (known : Type 0) (state : ListingState) (status : RunStatus) (s : SourceListingState)
    → (known → IsConsistent s)
    → s.visibility_state ≡ state
    → is_same (transition_absence s.visibility_state s.missing_count status) s ≡ false
    → IsProper known status (transition_absence s.visibility_state s.missing_count status)
unfolding transition_absence
absence_IsProper known active status s ok e h =
    (λ k. let z = (ok k).1 in ground (arith), ground (arith))
absence_IsProper known ListingState.missing status s ok e h = (λ k. ground (arith), ground (arith))
absence_IsProper known ListingState.removed status s ok e h = (λ k. ground (arith), ground (arith))
absence_IsProper known other status s ok e h =
    (λ k. let z = (ok k).1 in ground (arith), ground (arith))

absent_removed : (b : Bool) (captured_at : ℕ) → is_some (if b then some captured_at else none) ≡ b
absent_removed true captured_at = refl
absent_removed false captured_at = refl

absence_IsUpdate :
    (known : Type 0) (status : RunStatus) (t : StateTransition) (captured_at : ℕ)
    → IsProper known status t
    → IsUpdate known status (absent_state t captured_at)
absence_IsUpdate known status t captured_at h = record {
  source = λ x. refl;
  group = λ x. refl;
  valid = λ k x. (absent_removed (is_removed t.state) captured_at, h.0 k);
  shown = λ p x. h.1 p;
}

-- The row of a record that was read is consistent.
abbrev IsRead : Option SourceListingState → Type 0
IsRead none = Unit
IsRead (some s) = IsConsistent s

find-IsRead :
    (p : SourceListingState → Bool) (states : List SourceListingState)
    (o : Option SourceListingState)
    → All IsConsistent states
    → find p states ≡ o
    → IsRead o
find-IsRead p states none h e = tt
find-IsRead p states (some s) h e = find-All IsConsistent p states s h e

with_record-IsRead :
    (complex_id : Text) (source_id : ℕ) (db : Store) (g : ListingGroup)
    (complete identity_snapshot : Option ListingSnapshot) (records : List ExistingRecord)
    → All IsConsistent db.states
    → All (λ (r : ExistingRecord). IsRead r.source_listing_state) records
    → All
        (λ (r : ExistingRecord). IsRead r.source_listing_state)
        (with_record complex_id source_id db g complete identity_snapshot records)
with_record-IsRead complex_id source_id db g complete none records h rest = rest
with_record-IsRead complex_id source_id db g complete (some s) records h rest =
    (find-IsRead (is_state_of source_id g.id) db.states _ h refl, rest)

records_of-IsRead :
    (complex_id : Text) (source_id run_id : ℕ) (db : Store) (gs : List ListingGroup)
    → All IsConsistent db.states
    → All
        (λ (r : ExistingRecord). IsRead r.source_listing_state)
        (records_of complex_id source_id run_id db gs)
records_of-IsRead complex_id source_id run_id db [] h = tt
records_of-IsRead complex_id source_id run_id db (g ∷ gs) h =
    let complete = latest_complete_snapshot g.id source_id run_id db in
    with_record-IsRead complex_id source_id db g complete
      (or_snapshot complete (latest_of_group g.id db))
      (records_of complex_id source_id run_id db gs) h
      (records_of-IsRead complex_id source_id run_id db gs h)

pub existing_records-IsRead :
    (apartment_id : ℕ) (complex_id : Text) (source_id run_id : ℕ) (db : Store)
    → All IsConsistent db.states
    → All
        (λ (r : ExistingRecord). IsRead r.source_listing_state)
        (existing_records apartment_id complex_id source_id run_id db)
unfolding existing_records
existing_records-IsRead apartment_id complex_id source_id run_id db h =
    records_of-IsRead complex_id source_id run_id db
      (where_ (λ g. g.apartment_id == apartment_id) db.groups) h

module _ (c : Context) (known : Type 0) (status : RunStatus) where
  absence_event-Keeps :
      (group_id : ℕ) (t : StateTransition) (s : SourceListingState) (e : Option AbsenceEvent)
      → Keeps known status 0 (λ n. n) (absence_event c group_id t s e)
  absence_event-Keeps group_id t s none = return-Keeps 0 refl
  absence_event-Keeps group_id t s (some e) =
      bind_Keeps
        (add_event-Keeps c known status group_id (event_of e) []
          (some (state_json s.visibility_state s.missing_count))
          (some (state_json t.state t.missing_count)))
        λ _. return-Keeps 1 refl

  set_absent-Keeps :
      (group_id : ℕ) (t : StateTransition) (s : SourceListingState)
      → (is_same t s ≡ false → IsProper known status t)
      → Keeps known status 0 (λ n. n) (set_absent c group_id t s)
  set_absent-Keeps group_id t s h =
      if_cases (λ m. Keeps known status 0 (λ n. n) m) (is_same t s) _ _ (λ _. return-Keeps 0 refl)
        (λ e.
          bind_Keeps
            (set_state-Keeps c known status s.id (absent_state t c.captured_at)
              (absence_IsUpdate known status t c.captured_at (h e)))
            λ _. absence_event-Keeps group_id t s t.event_type)

  absence_of-Keeps :
      (group_id : ℕ) (s : Option SourceListingState)
      → (known → IsRead s)
      → Keeps known status 0 (λ n. n) (absence_of c status group_id s)
  absence_of-Keeps group_id none ok = return-Keeps 0 refl
  absence_of-Keeps group_id (some s) ok =
      set_absent-Keeps group_id (transition_absence s.visibility_state s.missing_count status) s
        (absence_IsProper known s.visibility_state status s ok refl)

  absence_in-Keeps :
      (group_id : ℕ) (r : Option ExistingRecord)
      → (known → (x : ExistingRecord) → r ≡ some x → IsRead x.source_listing_state)
      → Keeps known status 0 (λ n. n) (absence_in c status group_id r)
  absence_in-Keeps group_id none ok = return-Keeps 0 refl
  absence_in-Keeps group_id (some r) ok =
      absence_of-Keeps group_id r.source_listing_state (λ k. ok k r refl)

  pub save_absences-Keeps :
      (existing : List ExistingRecord) (gs : List ℕ)
      → (known → All (λ (r : ExistingRecord). IsRead r.source_listing_state) existing)
      → Keeps known status 0 (λ n. n) (save_absences c status existing gs)
  save_absences-Keeps existing [] ok = return-Keeps 0 refl
  save_absences-Keeps existing (g ∷ gs) ok =
      bind_Keeps
        (absence_in-Keeps g (find (λ r. r.group.id == g) existing) (λ k x f.
          find-All (λ (r : ExistingRecord). IsRead r.source_listing_state) (λ r. r.group.id == g)
            existing x (ok k) f))
        λ n.
          bind_Keeps (shift_Keeps n (save_absences-Keeps existing gs ok))
            λ k. return-Keeps (n + k) refl

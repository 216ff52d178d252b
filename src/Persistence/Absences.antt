-- ===== src/Persistence/Absences.antt =====
-- The loop of `PersistenceService.persist` in backend/app/services/persistence_service.py over the
-- listings that were not found.
use wisdom_qj_auction_servic.Prelude.{
  ℕ, ◌+◌, Bool, true, false, Option, none, some, List, [], ◌∷◌, ◌&&◌, ◌==◌, map, where_, ltb,
  if◌then◌else◌,
}
use wisdom_qj_auction_servic.Prelude.Texts.{Text, codes}
use wisdom_qj_auction_servic.Prelude.Tables.{find}
use wisdom_qj_auction_servic.Models.{RunStatus}
use wisdom_qj_auction_servic.Listings.{
  ListingState, active, missing, removed, other, StateTransition, AbsenceEvent, transition_absence,
  is_removed,
}
use wisdom_qj_auction_servic.Listings.Compare.{JsonValue, text, number}
use wisdom_qj_auction_servic.Persistence.Rows.{Store, M, ◌>>=◌, ◌>>◌, return, SourceListingState}
use wisdom_qj_auction_servic.Persistence.Records.{ExistingRecord}
use wisdom_qj_auction_servic.Persistence.Writes.{Context, add_event}
use wisdom_qj_auction_servic.Persistence.Groups.{set_state, event_of}

abbrev pub state_eq : ListingState → ListingState → Bool
state_eq active active = true
state_eq missing missing = true
state_eq removed removed = true
state_eq other other = true
state_eq _ _ = false

abbrev pub state_text : ListingState → Text
state_text active = codes "active"
state_text missing = codes "missing"
state_text removed = codes "removed"
state_text other = []

abbrev pub state_json : ListingState → (missing_count : ℕ) → List (Text × JsonValue)
state_json state missing_count =
    (codes "state", text (state_text state)) ∷ (codes "missingCount", number missing_count) ∷ []

abbrev pub absent_state :
    StateTransition → (captured_at : ℕ) → SourceListingState → SourceListingState
absent_state t captured_at s = record s {
  visibility_state = t.state;
  missing_count = t.missing_count;
  removed_at = if is_removed t.state then some captured_at else none;
  updated_at = captured_at;
}

abbrev pub is_same : StateTransition → SourceListingState → Bool
is_same t s = state_eq t.state s.visibility_state && t.missing_count == s.missing_count

abbrev pub absence_event :
    Context → (group_id : ℕ) → StateTransition → SourceListingState → Option AbsenceEvent → M ℕ
absence_event c group_id t s none = return 0
absence_event c group_id t s (some e) = do
  add_event c group_id (event_of e) [] (some (state_json s.visibility_state s.missing_count))
      (some (state_json t.state t.missing_count))
  return 1

abbrev pub set_absent : Context → (group_id : ℕ) → StateTransition → SourceListingState → M ℕ
set_absent c group_id t s =
    if is_same t s
    then return 0
    else set_state s.id (absent_state t c.captured_at) >> absence_event c group_id t s t.event_type

abbrev pub absence_of : Context → RunStatus → (group_id : ℕ) → Option SourceListingState → M ℕ
absence_of c status group_id none = return 0
absence_of c status group_id (some s) =
    set_absent c group_id (transition_absence s.visibility_state s.missing_count status) s

abbrev pub absence_in : Context → RunStatus → (group_id : ℕ) → Option ExistingRecord → M ℕ
absence_in c status group_id none = return 0
absence_in c status group_id (some r) = absence_of c status group_id r.source_listing_state

-- The loop over the groups that this source has seen and that were not matched.
abbrev pub save_absences : Context → RunStatus → List ExistingRecord → List ℕ → M ℕ
save_absences c status existing [] = return 0
save_absences c status existing (g ∷ gs) = do
  n ← absence_in c status g (find (λ r. r.group.id == g) existing)
  k ← save_absences c status existing gs
  return (n + k)

-- `_source_group_ids`
abbrev pub source_group_ids : (source_id : ℕ) → Store → List ℕ
source_group_ids source_id db =
    map (λ s. s.listing_group_id) (where_ (λ s. s.source_id == source_id) db.states)

-- `sorted(…, key=str)` of a set: the texts of ids of one length are in the order of the ids.
abbrev pub insert_id : ℕ → List ℕ → List ℕ
insert_id x [] = x ∷ []
insert_id x (y ∷ ys) =
    let rest = insert_id x ys in if ltb x y then x ∷ y ∷ ys else if x == y then y ∷ ys else y ∷ rest

abbrev pub sort_ids : List ℕ → List ℕ
sort_ids [] = []
sort_ids (x ∷ xs) = insert_id x (sort_ids xs)

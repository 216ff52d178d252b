-- ===== src/Listings.antt =====
-- backend/app/domain/comparator.py: whether a listing is on the market, run by run.
pub mod Absence
pub mod Compare
pub mod Identity
mod Tests
use wisdom_qj_auction_servic.Prelude.{
  ℕ, ◌+◌, Bool, true, false, Option, none, some, List, [], ◌∷◌, leb, not, ◌||◌, if◌then◌else◌,
}
use wisdom_qj_auction_servic.Models.{RunStatus, completed}

-- `other` stands for a text outside the three states.
pub data ListingState : Type 0 where
  active missing removed other : ListingState

pub data AbsenceEvent : Type 0 where
  missing_event removed_event restored_event : AbsenceEvent

pub record StateTransition : Type 0 where
  pub state : ListingState
  pub missing_count : ℕ
  pub event_type : Option AbsenceEvent

abbrev pub known : ListingState → ListingState
known other = active
known s = s

abbrev pub is_completed : RunStatus → Bool
is_completed completed = true
is_completed _ = false

abbrev pub is_removed : ListingState → Bool
is_removed removed = true
is_removed _ = false

unfoldable pub transition_absence : ListingState → (missing_count : ℕ) → RunStatus → StateTransition
transition_absence state missing_count run_status =
    if not (is_completed run_status) || is_removed state
    then record { state = known state; missing_count = missing_count; event_type = none }
    else if leb 2 (missing_count + 1)
    then record { state = removed; missing_count = 2; event_type = some removed_event }
    else record { state = missing; missing_count = 1; event_type = some missing_event }

abbrev pub is_absent : ListingState → Bool
is_absent missing = true
is_absent removed = true
is_absent _ = false

unfoldable pub transition_presence : ListingState → (missing_count : ℕ) → StateTransition
transition_presence state missing_count = record {
  state = active;
  missing_count = 0;
  event_type = if is_absent state then some restored_event else none;
}

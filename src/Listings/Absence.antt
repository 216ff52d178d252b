-- ===== src/Listings/Absence.antt =====
-- Two completed runs without a listing remove it, one run with it restores it.
use wisdom_qj_auction_servic.Prelude.{
  ℕ, zero, suc, ◌≡◌, refl, none, List, [], ◌∷◌, arith, leb, if◌then◌else◌, Bool-cases, inl, inr,
}
use wisdom_qj_auction_servic.Models.{RunStatus}
use wisdom_qj_auction_servic.Listings.{
  ListingState, active, missing, removed, StateTransition, is_completed, transition_absence,
  transition_presence,
}

-- What one run saw of a listing.
pub data Sight : Type 0 where
  present : Sight
  absent : RunStatus → Sight

abbrev pub step : StateTransition → Sight → StateTransition
step t present = transition_presence t.state t.missing_count
step t (absent run_status) = transition_absence t.state t.missing_count run_status

-- The runs, the latest first, after the run that found the listing first.
abbrev pub after : List Sight → StateTransition
after [] = record { state = active; missing_count = 0; event_type = none }
after (s ∷ earlier) = step (after earlier) s

-- Completed runs without the listing since the last run with it.
abbrev pub absences : List Sight → ℕ
absences [] = zero
absences (present ∷ earlier) = 0
absences (absent run_status ∷ earlier) =
    if is_completed run_status then suc (absences earlier) else absences earlier

abbrev pub state_of : ℕ → ListingState
state_of zero = active
state_of (suc zero) = missing
state_of (suc (suc n)) = removed

abbrev pub capped : ℕ → ℕ
capped n = if leb 2 n then 2 else n

absence_step :
    (n : ℕ) (t : StateTransition) (run_status : RunStatus)
    → t.state ≡ state_of n
    → t.missing_count ≡ capped n
    → let u = transition_absence t.state t.missing_count run_status in
      let m = (if is_completed run_status then suc n else n) in
      (u.state ≡ state_of m) × (u.missing_count ≡ capped m)
unfolding transition_absence
absence_step zero t run_status h k = elim (Bool-cases (is_completed run_status)) [
  | inl e ↦ (ground (arith), ground (arith))
  | inr e ↦ (ground (arith), ground (arith))
]
absence_step (suc zero) t run_status h k = elim (Bool-cases (is_completed run_status)) [
  | inl e ↦ (ground (arith), ground (arith))
  | inr e ↦ (ground (arith), ground (arith))
]
absence_step (suc (suc n)) t run_status h k = elim (Bool-cases (is_completed run_status)) [
  | inl e ↦ (ground (arith), ground (arith))
  | inr e ↦ (ground (arith), ground (arith))
]

-- After any runs a listing is active, missing or removed as the number of completed runs without it
-- since the last run with it is none, one or more; runs that did not complete do not count.
pub after-absences :
    (sights : List Sight)
    → ((after sights).state ≡ state_of (absences sights))
      × ((after sights).missing_count ≡ capped (absences sights))
unfolding transition_presence
after-absences [] = (refl, refl)
after-absences (present ∷ earlier) = (refl, refl)
after-absences (absent run_status ∷ earlier) =
    let (h, k) = after-absences earlier in
    absence_step (absences earlier) (after earlier) run_status h k

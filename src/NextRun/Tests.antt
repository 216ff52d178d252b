-- ===== src/NextRun/Tests.antt =====
-- Small runs of `calculate_next_run`, and its theorems at concrete inputs.
use wisdom_qj_auction_servic.Prelude.{ℕ, ◌+◌, ◌*◌, ◌<◌, ◌≡◌, refl, none, some, arith}
use wisdom_qj_auction_servic.Models.{weekdays, weekly}
use wisdom_qj_auction_servic.NextRun.{seoul, IsForward, aware, at, calculate_next_run}
use wisdom_qj_auction_servic.NextRun.Occurrence.{IsNext, calculate_next_run_first}

seoul-IsForward : IsForward seoul
seoul-IsForward instant wall h = omega arith

-- Saturday 2026-08-01, 09:00 in Seoul; date 739828 is that Saturday.
abbrev saturday : ℕ
saturday = 739828 * 86_400_000_000

abbrev nine : ℕ
nine = 32_400_000_000

-- A weekday schedule at nine next runs on Monday.
next_monday :
    calculate_next_run seoul (some weekdays) nine (aware saturday) none
    ≡ at ((739828 + 2) * 86_400_000_000 + 32_400_000_000)
unfolding calculate_next_run
next_monday = refl

-- A weekly schedule of this weekday and this very minute next runs a week later.
next_week :
    calculate_next_run seoul (some weekly) nine (aware saturday) (some 5)
    ≡ at ((739828 + 7) * 86_400_000_000 + 32_400_000_000)
unfolding calculate_next_run
next_week = refl

calculate_next_run_first_example :
    (w : ℕ) × (calculate_next_run seoul (some weekly) nine (aware saturday) (some 5) ≡ at w)
    × IsNext weekly (some 5) nine (seoul.to_local saturday) w
    × (saturday < seoul.to_instant w)
calculate_next_run_first_example =
    calculate_next_run_first seoul weekly (some 5) nine saturday seoul-IsForward (omega arith)
      (5, refl, omega arith)

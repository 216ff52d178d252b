-- ===== src/Schedules/Tests.antt =====
-- Examples: the theorems on schedules at concrete tables.
use wisdom_qj_auction_servic.Prelude.{ℕ, ◌*◌, refl, arith}
use wisdom_qj_auction_servic.NextRun.{seoul, IsForward}
use wisdom_qj_auction_servic.Schedules.{create, patch}
use wisdom_qj_auction_servic.Schedules.Samples.{
  weekly_payload, daily_schedule, to_weekly, no_schedules, one_schedule, no_identity,
}
use wisdom_qj_auction_servic.Schedules.Upkeep.{IsPlanned, CreateOutcome, create-Outcome}
use wisdom_qj_auction_servic.Schedules.Changes.{PatchOutcome, patch-Outcome}

seoul-IsForward : IsForward seoul
seoul-IsForward instant wall h = omega arith

abbrev now : ℕ
now = 739828 * 86_400_000_000

create-Outcome_example :
    CreateOutcome seoul now no_schedules no_schedules
      (create seoul no_identity (λ db. db) 61 now 3 weekly_payload no_schedules)
create-Outcome_example =
    create-Outcome seoul no_identity (λ db. db) 61 now 3 weekly_payload no_schedules seoul-IsForward
      refl

planned : IsPlanned daily_schedule
planned = record { in_range = refl; named = refl; time = omega arith }

patch-Outcome_example :
    PatchOutcome seoul now 3 60 to_weekly one_schedule (patch seoul now 3 60 to_weekly one_schedule)
patch-Outcome_example =
    patch-Outcome seoul now 3 60 to_weekly one_schedule seoul-IsForward refl (planned, tt)

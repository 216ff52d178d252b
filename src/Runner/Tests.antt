-- ===== src/Runner/Tests.antt =====
-- Examples: a round of the runner with the in-process locks.
use wisdom_qj_auction_servic.Prelude.{true, ℕ, ◌+◌, ◌⊎◌, inr, refl, false, [], ◌∷◌, arith, length}
use wisdom_qj_auction_servic.Locks.{init}
use wisdom_qj_auction_servic.Locks.Exclusion.{local_manager, IsValid}
use wisdom_qj_auction_servic.NextRun.{seoul, IsForward}
use wisdom_qj_auction_servic.Analysis.{accepts}
use wisdom_qj_auction_servic.Runs.Samples.{source}
use wisdom_qj_auction_servic.Schedules.Samples.{daily_schedule}
use wisdom_qj_auction_servic.Schedules.Upkeep.{IsPlanned}
use wisdom_qj_auction_servic.Runner.{Turn, State, enqueue_due, due_rows}
use wisdom_qj_auction_servic.Runner.Due.{RoundOutcome, enqueue_due-Outcome}

seoul-IsForward : IsForward seoul
seoul-IsForward instant wall h = omega arith

abbrev turn : ℕ → Turn
turn i = record {
  token = 90 + i;
  acquire_raises = false;
  race = record { others = λ db. db; later = λ db. db; expires = true };
  queue = accepts;
  run_id = 91;
  failed_id = 92;
  created_at = 5;
}

abbrev before : State local_manager
before = record {
  db = record { sources = source ∷ []; runs = []; apartments = []; apartment_snapshots = [] };
  schedules = daily_schedule ∷ [];
  locks = init;
}

daily_schedule-IsPlanned : IsPlanned daily_schedule
daily_schedule-IsPlanned = record { in_range = refl; named = refl; time = omega arith }

init-IsValid : IsValid init
init-IsValid k = refl

held_or_free : (i : ℕ) → local_manager.Held i before.locks ⊎ (¬ local_manager.Held i before.locks)
held_or_free i = inr (λ h. cc)

enqueue_due-Outcome_example :
    RoundOutcome local_manager seoul false turn 200 seoul-IsForward
      (due_rows 200 before.db.sources before.schedules)
      0
      (length (due_rows 200 before.db.sources before.schedules))
      before
      (enqueue_due local_manager seoul false turn 200 before)
enqueue_due-Outcome_example =
    enqueue_due-Outcome local_manager seoul false turn 200 seoul-IsForward before
      (daily_schedule-IsPlanned, tt) init-IsValid held_or_free

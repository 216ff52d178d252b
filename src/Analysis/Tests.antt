-- ===== src/Analysis/Tests.antt =====
-- Small stores, and the theorems about the analysis service at concrete inputs.
use wisdom_qj_auction_servic.Prelude.{ℕ, ◌≡◌, refl, true, false, List, [], ◌∷◌}
use wisdom_qj_auction_servic.Models.{queued, completed, normal}
use wisdom_qj_auction_servic.Runs.{cancelled_row, finished_row, finish_run, set_cancelled}
use wisdom_qj_auction_servic.Runs.Samples.{source, run_at, table}
use wisdom_qj_auction_servic.Analysis.{
  ok, Race, Store, Options, accepts, create_run, get, result, cancel,
}
use wisdom_qj_auction_servic.Analysis.Creation.{Outcome, create_run-Outcome}
use wisdom_qj_auction_servic.Analysis.Access.{Cancelled, visible, result-visible, cancel-Cancelled}

abbrev store : List ℕ → Store
store done = record {
  sources = source ∷ [];
  runs = run_at 1 completed ∷ [];
  apartments = [];
  apartment_snapshots = [];
}

abbrev options : Options
options = record { collect_broker_details = true; interaction_delay_preset = normal }

-- Another process inserts a run of the same source between the check and the commit.
abbrev rival : Store → Store
rival db = record db { runs = run_at 5 queued ∷ db.runs }

abbrev idle : Store
idle = store []

abbrev race : Race
race = record { others = rival; later = λ db. db; expires = false }

-- The second look finds the run that got there first.
create_run-Outcome_example :
    Outcome 9 7 options (rival idle) (create_run race accepts 9 100 7 options idle)
create_run-Outcome_example = create_run-Outcome race accepts 9 100 7 options idle

abbrev waiting : Store
waiting = record idle { runs = table }

result-visible_example :
    (get 4 1 (visible 4 waiting) ≡ get 4 1 waiting)
    × (result 4 1 (visible 4 waiting) ≡ result 4 1 waiting)
result-visible_example = result-visible 4 1 waiting

-- If a worker finishes the run between the read and the write of `cancel`, the run that was
-- completed ends as cancelled.
abbrev worker : Store → Store
worker db = record db { runs = finish_run 2 59 completed "v1" db.runs }

cancel_overwrites :
    (get 3 2 (worker waiting) ≡ ok (finished_row 59 completed "v1" (run_at 2 queued)))
    × (get 3 2 (cancel worker true 60 3 2 waiting).1
        ≡ ok (cancelled_row 60 (finished_row 59 completed "v1" (run_at 2 queued))))
unfolding get cancel finish_run set_cancelled
cancel_overwrites = (refl, refl)

cancel-Cancelled_example : Cancelled worker 3 2 60 waiting (cancel worker true 60 3 2 waiting)
cancel-Cancelled_example = cancel-Cancelled worker true 60 3 2 waiting

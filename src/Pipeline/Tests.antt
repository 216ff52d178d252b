-- ===== src/Pipeline/Tests.antt =====
-- Examples: a queued run whose collector is cancelled or finds a payload.
use wisdom_qj_auction_servic.Prelude.{◌≡◌, refl, some, [], ◌∷◌}
use wisdom_qj_auction_servic.Prelude.Tables.{find}
use wisdom_qj_auction_servic.Models.{queued, complex, listings}
use wisdom_qj_auction_servic.Runs.{has_id}
use wisdom_qj_auction_servic.Runs.Samples.{source, run_at}
use wisdom_qj_auction_servic.Persistence.{Store}
use wisdom_qj_auction_servic.Persistence.Samples.{world, payload, tables}
use wisdom_qj_auction_servic.Pipeline.{
  Collector, collected, progress, cancel, Task, execute_pipeline,
}
use wisdom_qj_auction_servic.Pipeline.Ends.{IsOver}
use wisdom_qj_auction_servic.Pipeline.Claims.{
  execute_pipeline-IsOver, execute_pipeline-claimable, report_of,
}

abbrev task : Task
task = record { run_id = 2; started_at = 40; failed_at = 60; version = "v" }

abbrev collector : Collector
collector source_url detail preset =
    (progress complex 10 ∷ progress listings 20 ∷ cancel 45 ∷ [], collected payload)

abbrev waiting : Store
waiting = record tables { runs = run_at 2 queued ∷ [] }

execute_pipeline-IsOver_example : IsOver task (execute_pipeline world task collector waiting)
execute_pipeline-IsOver_example =
    execute_pipeline-IsOver world task collector waiting (run_at 2 queued) source refl refl refl
      refl (λ u d x. refl)

execute_pipeline-claimable_example :
    execute_pipeline world task collector tables
    ≡ (some (report_of (find (has_id 2) tables.runs)), tables)
execute_pipeline-claimable_example = execute_pipeline-claimable world task collector tables refl

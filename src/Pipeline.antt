-- ===== src/Pipeline.antt =====
-- backend/app/tasks/crawl_tasks.py: the task that runs one crawl, and
-- backend/app/crawler/errors.py.
-- The collector, which drives a browser, is a parameter: it gives the calls of the progress callback
-- in their order and what it returns or raises. An exception of the callback leaves the collector.
-- Cancellations by the service come between those calls.
pub mod Errors
pub mod Ends
pub mod Claims
mod Tests
use Prim.Native.String.{String}
use wisdom_qj_auction_servic.Prelude.{
  if◌then◌else◌, ℕ, Bool, true, false, Option, none, some, List, [], ◌∷◌,
}
use wisdom_qj_auction_servic.Prelude.Texts.{Text}
use wisdom_qj_auction_servic.Models.{
  CrawlRun, RunStatus, running, failed, Stage, url, compare, save, Preset,
}
use wisdom_qj_auction_servic.Runs.{
  Claim, claim_run, update_progress, mark_run_terminal, set_cancelled, is_running,
}
use wisdom_qj_auction_servic.Persistence.{
  Store, World, Result, ok, err, CrawlPayload, PersistenceError, run_not_found,
  source_complex_mismatch, article_group_conflict, persistence_failed, integrity_error,
  unsafe_article_target,
}
use wisdom_qj_auction_servic.Persistence.Persist.{persist, PersistenceOutcome}
use wisdom_qj_auction_servic.Pipeline.Errors.{CrawlError, code_of, run_status_of}

pub data Collected : Type 0 where
  collected : CrawlPayload → Collected
  crawl_error : CrawlError → Collected
  other_error : Collected

pub data CrawlStep : Type 0 where
  progress : Stage → ℕ → CrawlStep
  cancel : (now : ℕ) → CrawlStep

abbrev pub Collector : Type 0
Collector = Text → (collect_broker_details : Bool) → Preset → List CrawlStep × Collected

-- What the task returns: the status, and the error code.
pub record Report : Type 0 where
  pub status : RunStatus
  pub error_code : Option String

-- What is fixed while a task runs: the time of the claim and of a failure, and the version.
pub record Task : Type 0 where
  pub run_id : ℕ
  pub started_at : ℕ
  pub failed_at : ℕ
  pub version : String

-- Where the calls of the callback lead: the current stage, whether one of them failed, and the runs.
pub record Progress : Type 0 where
  pub current_stage : Stage
  pub has_failed : Bool
  pub runs : List CrawlRun

abbrev pub progressed_to : Stage → List CrawlRun → Option (List CrawlRun) → Progress
progressed_to stage runs none = record { current_stage = stage; has_failed = true; runs = runs }
progressed_to stage runs (some after) = record {
  current_stage = stage;
  has_failed = false;
  runs = after;
}

-- The callback `progress`, and a cancellation.
abbrev pub take_step : Task → CrawlStep → Progress → Progress
take_step task (progress stage value) p =
    progressed_to stage p.runs (update_progress task.run_id stage value task.version p.runs)
take_step task (cancel now) p = record p { runs = set_cancelled task.run_id now p.runs }

abbrev pub take_steps : Task → List CrawlStep → Progress → Progress
take_steps task [] p = p
take_steps task (s ∷ ss) p =
    let rest = take_steps task ss (take_step task s p) in if p.has_failed then p else rest

abbrev pub failed_store :
    RunStatus → (error_code : String) → Store → Option (List CrawlRun) → Option Report × Store
failed_store status error_code db none = (none, db)
failed_store status error_code db (some runs) =
    (some (record { status = status; error_code = some error_code }), record db { runs = runs })

-- `_finish_failure`, and the report. `none` is an exception that leaves the task.
abbrev pub finish_failure :
    Task → RunStatus → (error_code : String) → Stage → Store → Option Report × Store
finish_failure task status error_code stage db =
    failed_store status error_code db
      (mark_run_terminal task.run_id task.failed_at status error_code task.version stage db.runs)

abbrev pub unexpected : Task → Stage → Store → Option Report × Store
unexpected task stage db = finish_failure task failed "unexpected_crawl_error" stage db

-- The errors that are no `PersistenceError` are caught with all others.
abbrev pub persistence_failure : Task → PersistenceError → Store → Option Report × Store
persistence_failure task run_not_found db = finish_failure task failed "analysis_not_found" save db
persistence_failure task source_complex_mismatch db =
    finish_failure task failed "ambiguous_source" save db
persistence_failure task article_group_conflict db =
    finish_failure task failed "article_group_conflict" save db
persistence_failure task persistence_failed db =
    finish_failure task failed "persistence_failed" save db
persistence_failure task integrity_error db = unexpected task save db
persistence_failure task unsafe_article_target db = unexpected task save db

abbrev pub persisted : Task → Store → Result PersistenceOutcome → Option Report × Store
persisted task db (ok o after) = (some (record { status = o.status; error_code = none }), after)
persisted task db (err e) = persistence_failure task e db

-- From `progress("compare", 80)`.
abbrev pub save_payload : World → Task → CrawlPayload → Progress → Store → Option Report × Store
save_payload w task payload p db =
    if p.has_failed
    then unexpected task p.current_stage (record db { runs = p.runs })
    else persisted task (record db { runs = p.runs })
        (persist w task.version task.run_id payload (record db { runs = p.runs }))

-- After the collector: `steps` has no failure.
abbrev pub after_collect : World → Task → Collected → Progress → Store → Option Report × Store
after_collect w task (collected payload) p db =
    save_payload w task payload (take_step task (progress compare 80) p) db
after_collect w task (crawl_error e) p db =
    finish_failure task (run_status_of e) (code_of e) p.current_stage (record db { runs = p.runs })
after_collect w task other_error p db =
    unexpected task p.current_stage (record db { runs = p.runs })

abbrev pub after_steps : World → Task → Collected → Progress → Store → Option Report × Store
after_steps w task result p db =
    if p.has_failed
    then unexpected task p.current_stage (record db { runs = p.runs })
    else after_collect w task result p db

abbrev pub first_progress : List CrawlRun → Progress
first_progress runs = record { current_stage = url; has_failed = false; runs = runs }

abbrev pub crawl :
    World → Task → Collector → Text → Bool → Option Preset → Store → Option Report × Store
crawl w task collector source_url detail none db = unexpected task url db
crawl w task collector source_url detail (some preset) db =
    let (steps, result) = collector source_url detail preset in
    after_steps w task result (take_steps task steps (first_progress db.runs)) db

abbrev pub claimed_crawl :
    World
    → Task
    → Collector
    → Claim
    → (is_running : Bool) → Option Text
    → Store
    → Option Report × Store
claimed_crawl w task collector claim true (some source_url) db =
    crawl w task collector source_url claim.collect_broker_details claim.interaction_delay_preset db
claimed_crawl w task collector claim _ _ db =
    (some (record { status = claim.status; error_code = none }), db)

-- `_execute_pipeline`
unfoldable pub execute_pipeline : World → Task → Collector → Store → Option Report × Store
execute_pipeline w task collector db =
    let (claim, runs) = claim_run task.run_id task.started_at task.version db.sources db.runs in
    claimed_crawl w task collector claim (is_running claim.status) claim.source_url
      (record db { runs = runs })

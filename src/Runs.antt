-- ===== src/Runs.antt =====
-- The run table of backend/app/models/entities.py with its constraints, and the updates of single
-- runs in backend/app/tasks/crawl_tasks.py and `mark_run_terminal` of
-- backend/app/services/persistence_service.py. Each function is one transaction.
pub mod Uniqueness
pub mod Lifecycle
pub mod Terminal
pub mod Samples
mod Tests
use Prim.Native.String.{String}
use wisdom_qj_auction_servic.Prelude.{
  ℕ, Bool, true, false, Option, none, some, List, [], ◌∷◌, ◌&&◌, ◌||◌, ◌==◌, not, ltb, leb, any,
  count, if◌then◌else◌,
}
use wisdom_qj_auction_servic.Prelude.Tables.{find, update_where}
use wisdom_qj_auction_servic.Prelude.Texts.{Text}
use wisdom_qj_auction_servic.Models.{
  CrawlRun, TrackedSource, RunStatus, queued, running, failed, blocked, Stage, url, save, cancelled,
  Preset, is_active_status, is_terminal_status,
}

abbrev pub has_id : ℕ → CrawlRun → Bool
has_id run_id r = r.id == run_id

-- The rows that `uq_crawl_runs_active_source` ranges over, for one source.
abbrev pub is_active_of : ℕ → CrawlRun → Bool
is_active_of source_id r = r.source_id == source_id && is_active_status r.status

-- INSERT under the primary key and the partial unique index: `none` is an IntegrityError.
pub insert_run : CrawlRun → List CrawlRun → Option (List CrawlRun)
insert_run run runs =
    if any (has_id run.id) runs
      || (is_active_status run.status && any (is_active_of run.source_id) runs)
    then none
    else some (run ∷ runs)

-- `ORDER BY created_at DESC`, first row, over the rows that pass the test.
abbrev pub later_of : CrawlRun → Option CrawlRun → Option CrawlRun
later_of r none = some r
later_of r (some b) = if ltb r.created_at b.created_at then some b else some r

pub latest_run : (CrawlRun → Bool) → List CrawlRun → Option CrawlRun
latest_run p [] = none
latest_run p (r ∷ rs) = let best = latest_run p rs in if p r then later_of r best else best

-- What `_claim_run` returns: status, URL, source, and the options.
pub record Claim : Type 0 where
  pub status : RunStatus
  pub source_url : Option Text
  pub source_id : Option ℕ
  pub collect_broker_details : Bool
  pub interaction_delay_preset : Option Preset

abbrev pub is_queued : RunStatus → Bool
is_queued queued = true
is_queued _ = false

abbrev pub is_running : RunStatus → Bool
is_running running = true
is_running _ = false

abbrev pub no_claim : Claim
no_claim = record {
  status = failed;
  source_url = none;
  source_id = none;
  collect_broker_details = true;
  interaction_delay_preset = none;
}

abbrev pub claimed : ℕ → String → CrawlRun → CrawlRun
claimed now version r = record r {
  status = running;
  stage = url;
  progress = 1;
  started_at = some now;
  selector_version = some version;
}

-- The SELECT after a failed UPDATE.
abbrev pub existing_claim : Option CrawlRun → Claim
existing_claim none = no_claim
existing_claim (some r) = record {
  status = r.status;
  source_url = none;
  source_id = some r.source_id;
  collect_broker_details = r.collect_broker_details;
  interaction_delay_preset = some r.interaction_delay_preset;
}

-- The SELECT with the join after a successful UPDATE.
abbrev pub running_claim : Option CrawlRun → List TrackedSource → Claim
running_claim none sources = no_claim
running_claim (some r) sources = elim (find (λ s. s.id == r.source_id) sources) [
  | none ↦ no_claim
  | some s ↦ record {
    status = running;
    source_url = some s.normalized_url;
    source_id = some r.source_id;
    collect_broker_details = r.collect_broker_details;
    interaction_delay_preset = some r.interaction_delay_preset;
  }
]

abbrev pub claimable : ℕ → CrawlRun → Bool
claimable run_id r = has_id run_id r && is_queued r.status

unfoldable pub claim_run :
    (run_id now : ℕ) (version : String) → List TrackedSource → List CrawlRun → Claim × List CrawlRun
claim_run run_id now version sources runs =
    let after = update_where (claimable run_id) (claimed now version) runs in
    (
      (if count (claimable run_id) runs == 1
          then running_claim (find (has_id run_id) after) sources
          else existing_claim (find (has_id run_id) after)),
      after,
    )

abbrev pub in_progress : ℕ → CrawlRun → Bool
in_progress run_id r = has_id run_id r && is_running r.status

abbrev pub progressed : Stage → ℕ → String → CrawlRun → CrawlRun
progressed stage progress version r = record r {
  stage = stage;
  progress = progress;
  selector_version = some version;
}

-- `_update_progress`. The check `progress BETWEEN 0 AND 100` refuses the whole statement.
unfoldable pub update_progress :
    (run_id : ℕ)
    → Stage
    → (progress : ℕ) (version : String) → List CrawlRun
    → Option (List CrawlRun)
update_progress run_id stage progress version runs =
    if any (in_progress run_id) runs && ltb 100 progress
    then none
    else some (update_where (in_progress run_id) (progressed stage progress version) runs)

-- The `status` argument of `mark_run_terminal` outside `failed` and `blocked` is a ValueError.
abbrev pub is_failure_status : RunStatus → Bool
is_failure_status failed = true
is_failure_status blocked = true
is_failure_status _ = false

abbrev pub open_run : ℕ → CrawlRun → Bool
open_run run_id r = has_id run_id r && not (is_terminal_status r.status)

abbrev pub failed_row : ℕ → RunStatus → String → String → Stage → CrawlRun → CrawlRun
failed_row now status error_code version stage r = record r {
  status = status;
  stage = stage;
  error_code = some error_code;
  finished_at = some now;
  selector_version = some version;
}

unfoldable pub mark_run_terminal :
    (run_id now : ℕ) (status : RunStatus) (error_code version : String)
    → Stage
    → List CrawlRun
    → Option (List CrawlRun)
mark_run_terminal run_id now status error_code version stage runs =
    if is_failure_status status
    then some (update_where (open_run run_id) (failed_row now status error_code version stage) runs)
    else none

abbrev pub finished_row : ℕ → RunStatus → String → CrawlRun → CrawlRun
finished_row captured_at status version r = record r {
  status = status;
  stage = save;
  progress = 100;
  finished_at = some captured_at;
  error_code = none;
  selector_version = some version;
}

-- The last statements of `PersistenceService.persist`, under its lock and its test of the status.
unfoldable pub finish_run :
    (run_id captured_at : ℕ) (status : RunStatus) (version : String) → List CrawlRun → List CrawlRun
finish_run run_id captured_at status version runs =
    update_where (open_run run_id) (finished_row captured_at status version) runs

abbrev pub cancelled_row : ℕ → CrawlRun → CrawlRun
cancelled_row now r = record r { status = cancelled; finished_at = some now }

abbrev pub queue_failed_row : ℕ → CrawlRun → CrawlRun
queue_failed_row now r = record r {
  status = failed;
  error_code = some "queue_unavailable";
  finished_at = some now;
}

-- The write of `AnalysisService.cancel`, and that of `_create_for_source` when the queue fails.
-- Both are unconditional updates by primary key.
unfoldable pub set_cancelled : (run_id now : ℕ) → List CrawlRun → List CrawlRun
set_cancelled run_id now runs = update_where (has_id run_id) (cancelled_row now) runs

pub set_queue_failed : (run_id now : ℕ) → List CrawlRun → List CrawlRun
set_queue_failed run_id now runs = update_where (has_id run_id) (queue_failed_row now) runs

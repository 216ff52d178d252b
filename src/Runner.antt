-- ===== src/Runner.antt =====
-- backend/app/services/schedule_runner_service.py: `enqueue_due`, and `enqueue_with_source_lock` of
-- schedule_service.py, over any source lock manager. What a row's turn meets (the token of its
-- lock, whether `acquire` raises, other transactions, the queue, the ids that are drawn) is its
-- `Turn`. A failed run is a new row under a fresh id. `none` is an exception that leaves
-- `enqueue_due`. The release of a lock is taken not to raise.
pub mod Due
mod Tests
use Prim.Native.String.{String}
use wisdom_qj_auction_servic.Prelude.{
  ℕ, zero, suc, ◌+◌, Bool, true, false, Option, none, some, List, [], ◌∷◌, ◌&&◌, ◌==◌, not, leb,
  length, if◌then◌else◌,
}
use wisdom_qj_auction_servic.Prelude.Tables.{find, update_where}
use wisdom_qj_auction_servic.Models.{CrawlSchedule, TrackedSource, CrawlRun, failed, url, Preset}
use wisdom_qj_auction_servic.Locks.Contract.{SourceLockManager}
use wisdom_qj_auction_servic.NextRun.{Zone, aware, Found, at, refused, calculate_next_run}
use wisdom_qj_auction_servic.Analysis.{
  Store, Result, ok, err, Options, Queue, Race, AnalysisError, implicit_io, create_for_source,
}

pub record Turn : Type 0 where
  pub token : ℕ
  pub acquire_raises : Bool
  pub race : Race
  pub queue : Queue
  pub run_id : ℕ
  pub failed_id : ℕ
  pub created_at : ℕ

pub record State (m : SourceLockManager) : Type 0 where
  pub db : Store
  pub schedules : List CrawlSchedule
  pub locks : m.State

pub record Counts : Type 0 where
  pub due : ℕ
  pub enqueued : ℕ
  pub deduplicated : ℕ
  pub locked : ℕ
  pub failed : ℕ

pub data Kind : Type 0 where
  is_enqueued is_deduplicated is_locked is_failed : Kind

abbrev pub counted : Kind → Counts → Counts
counted is_enqueued c = record c { enqueued = c.enqueued + 1 }
counted is_deduplicated c = record c { deduplicated = c.deduplicated + 1 }
counted is_locked c = record c { locked = c.locked + 1 }
counted is_failed c = record c { failed = c.failed + 1 }

-- The rows of the SELECT: due, enabled schedules with their active source, the earliest first, equal times in
-- the order of the table.
abbrev pub is_due : ℕ → CrawlSchedule → Bool
is_due current s = s.enabled && leb s.next_run_at current

abbrev pub with_source :
    CrawlSchedule
    → Option TrackedSource
    → List (CrawlSchedule × TrackedSource)
    → List (CrawlSchedule × TrackedSource)
with_source s none rows = rows
with_source s (some source) rows = (s, source) ∷ rows

abbrev pub insert_row :
    CrawlSchedule × TrackedSource
    → List (CrawlSchedule × TrackedSource)
    → List (CrawlSchedule × TrackedSource)
insert_row row [] = row ∷ []
insert_row row (other ∷ rows) =
    let rest = insert_row row rows in
    if leb row.0.next_run_at other.0.next_run_at then row ∷ other ∷ rows else other ∷ rest

abbrev pub earliest_first :
    List (CrawlSchedule × TrackedSource) → List (CrawlSchedule × TrackedSource)
earliest_first [] = []
earliest_first (row ∷ rows) = insert_row row (earliest_first rows)

abbrev pub joined :
    ℕ → List TrackedSource → List CrawlSchedule → List (CrawlSchedule × TrackedSource)
joined current sources [] = []
joined current sources (s ∷ schedules) =
    let rest = joined current sources schedules in
    if is_due current s
    then with_source s (find (λ x. x.id == s.source_id && x.is_active) sources) rest
    else rest

abbrev pub due_rows :
    ℕ → List TrackedSource → List CrawlSchedule → List (CrawlSchedule × TrackedSource)
due_rows current sources schedules = earliest_first (joined current sources schedules)

abbrev pub failed_run :
    (id current source_id : ℕ) → (error_code : String) → CrawlSchedule → CrawlRun
failed_run id current source_id error_code s = record {
  id = id;
  source_id = source_id;
  status = failed;
  stage = url;
  progress = 0;
  created_at = current;
  started_at = none;
  finished_at = some current;
  error_code = some error_code;
  selector_version = none;
  collect_broker_details = s.collect_broker_details;
  interaction_delay_preset = s.interaction_delay_preset;
}

abbrev pub is_implicit_io : AnalysisError → Bool
is_implicit_io implicit_io = true
is_implicit_io _ = false

module _ (m : SourceLockManager) (zone : Zone) (unavailable : Bool) (turn : ℕ → Turn)
    (current : ℕ) where
  abbrev pub reschedule : CrawlSchedule → Found → State m → Option (State m)
  reschedule s (refused e) st = none
  reschedule s (at wall) st = some (record st {
    schedules =
        update_where (λ x. x.id == s.id) (λ x. record x { next_run_at = zone.to_instant wall })
          st.schedules;
  })

  -- `schedule.next_run_at = calculate_next_run(...)`
  abbrev pub advance : CrawlSchedule → State m → Option (State m)
  advance s st =
      reschedule s
        (calculate_next_run zone (some s.cadence) s.time_of_day (aware current) s.weekday) st

  abbrev pub with_failed : (error_code : String) → CrawlSchedule → TrackedSource → State m → State m
  with_failed error_code s source st = record st {
    db = record st.db {
      runs = failed_run (turn s.id).failed_id current source.id error_code s ∷ st.db.runs;
    };
  }

  abbrev pub advanced : Kind → CrawlSchedule → State m → Option (Kind × State m)
  advanced kind s st = elim (advance s st) [ none ↦ none | some after ↦ some (kind, after) ]

  -- The handler of an exception. Where the creation has failed on an expired row, the handler's own
  -- read of `schedule.id` fails in the same way.
  abbrev pub dispatch_failed :
      CrawlSchedule → TrackedSource → AnalysisError → State m → Option (Kind × State m)
  dispatch_failed s source e st =
      if is_implicit_io e
      then none
      else advanced is_failed s (with_failed "schedule_dispatch_failed" s source st)

  abbrev pub answered :
      CrawlSchedule → TrackedSource → Result (CrawlRun × Bool) → State m → Option (Kind × State m)
  answered s source (err e) st = dispatch_failed s source e st
  answered s source (ok (run, created)) st =
      advanced (if created then is_enqueued else is_deduplicated) s st

  abbrev pub options_of : CrawlSchedule → Options
  options_of s = record {
    collect_broker_details = s.collect_broker_details;
    interaction_delay_preset = s.interaction_delay_preset;
  }

  abbrev pub create_of : CrawlSchedule → TrackedSource → Store → Result (CrawlRun × Bool) × Store
  create_of s source db =
      let t = turn s.id in
      create_for_source t.race t.queue t.run_id t.created_at source.id (options_of s) db

  -- `none` where `acquire` raises.
  abbrev pub acquire_of :
      CrawlSchedule → TrackedSource → State m → Option (Option m.Handle × m.State)
  acquire_of s source st =
      let t = turn s.id in
      if t.acquire_raises then none else some (m.acquire source.id t.token st.locks)

  -- `enqueue_with_source_lock`, after the answer of `acquire`: a lock that was acquired is released
  -- in any case. What it raises goes to the handler of the caller.
  abbrev pub enqueue_with_source_lock :
      CrawlSchedule
      → TrackedSource
      → Option (Option m.Handle × m.State)
      → State m
      → Option (Kind × State m)
  enqueue_with_source_lock s source none st =
      advanced is_failed s (with_failed "schedule_dispatch_failed" s source st)
  enqueue_with_source_lock s source (some (none, locks)) st =
      some (is_locked, record st { locks = locks })
  enqueue_with_source_lock s source (some (some lock, locks)) st =
      let r = create_of s source st.db in
      answered s source r.0 (record st { db = r.1; locks = m.release lock locks })

  -- The body of the loop.
  abbrev pub run_row : CrawlSchedule → TrackedSource → State m → Option (Kind × State m)
  run_row s source st =
      if unavailable
      then advanced is_failed s (with_failed "browser_unavailable" s source st)
      else enqueue_with_source_lock s source (acquire_of s source st) st

  abbrev pub run_rows :
      List (CrawlSchedule × TrackedSource) → Counts → State m → Option (Counts × State m)
  run_rows [] c st = some (c, st)
  run_rows ((s, source) ∷ rows) c st = elim (run_row s source st) [
    | none ↦ none
    | some (kind, after) ↦ run_rows rows (counted kind c) after
  ]

  pub enqueue_due : State m → Option (Counts × State m)
  enqueue_due st =
      let rows = due_rows current st.db.sources st.schedules in
      run_rows rows
        (record { due = length rows; enqueued = 0; deduplicated = 0; locked = 0; failed = 0 }) st

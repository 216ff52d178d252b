-- ===== src/Analysis.antt =====
-- backend/app/services/analysis_service.py: `AnalysisService`.
-- A method takes the committed tables and returns its result with the tables after it. What other
-- transactions commit in between is an argument, `Race` or `others`; ids that `uuid4` draws, clock
-- readings and the answers of the task queue are arguments too.
pub mod Creation
pub mod Access
mod Tests
use Prim.Native.String.{String}
use wisdom_qj_auction_servic.Prelude.{
  ℕ, Bool, true, false, Option, none, some, List, [], ◌∷◌, ◌&&◌, ◌||◌, ◌==◌, not, any,
  if◌then◌else◌,
}
use wisdom_qj_auction_servic.Prelude.Tables.{find}
use wisdom_qj_auction_servic.Prelude.Texts.{Text, text_eq}
use wisdom_qj_auction_servic.Models.{
  CrawlRun, TrackedSource, Apartment, ApartmentSnapshot, RunStatus, queued, completed, partial,
  Stage, url, Preset, bool_eq, preset_eq,
}
use wisdom_qj_auction_servic.Runs.{
  has_id, is_active_of, is_queued, insert_run, latest_run, set_cancelled, set_queue_failed,
  cancelled_row,
}

pub data AnalysisError : Type 0 where
  not_found not_ready cannot_cancel option_conflict queue_unavailable : AnalysisError
  invalid_source_url integrity_error implicit_io dispatcher_error : AnalysisError

pub data Result (A : Type 0) : Type 0 where
  ok : A → Result A
  err : AnalysisError → Result A

pub record Store : Type 0 where
  pub sources : List TrackedSource
  pub runs : List CrawlRun
  pub apartments : List Apartment
  pub apartment_snapshots : List ApartmentSnapshot

pub record Options : Type 0 where
  pub collect_broker_details : Bool
  pub interaction_delay_preset : Preset

-- `SourceUrlIdentity` of backend/app/domain/url_identity.py
pub record SourceUrlIdentity : Type 0 where
  pub source_url : Text
  pub normalized_url : Text
  pub url_hash : Text

abbrev pub has_hash : (owner : ℕ) → Text → TrackedSource → Bool
has_hash owner hash s = s.owner_user_id == owner && text_eq s.url_hash hash

-- `_source_by_hash`
abbrev pub source_by_hash : (actor : ℕ) → Text → Store → Option TrackedSource
source_by_hash actor hash db = find (has_hash actor hash) db.sources

-- `_active_run`
abbrev pub active_run : (source_id : ℕ) → Store → Option CrawlRun
active_run source_id db = latest_run (is_active_of source_id) db.runs

abbrev pub same_options : Options → CrawlRun → Bool
same_options o r =
    bool_eq r.collect_broker_details o.collect_broker_details
    && preset_eq r.interaction_delay_preset o.interaction_delay_preset

-- `_deduplicated_run`
abbrev pub deduplicated_run : CrawlRun → Options → Result (CrawlRun × Bool)
deduplicated_run r o = if same_options o r then ok (r, false) else err option_conflict

abbrev pub new_run : (id now source_id : ℕ) → Options → CrawlRun
new_run id now source_id o = record {
  id = id;
  source_id = source_id;
  status = queued;
  stage = url;
  progress = 0;
  created_at = now;
  started_at = none;
  finished_at = none;
  error_code = none;
  selector_version = none;
  collect_broker_details = o.collect_broker_details;
  interaction_delay_preset = o.interaction_delay_preset;
}

-- The handler of the IntegrityError at the commit: roll back and look once more.
abbrev pub or_existing : Options → Option CrawlRun → Result (CrawlRun × Bool)
or_existing o none = err integrity_error
or_existing o (some r) = deduplicated_run r o

-- INSERT of a source under its key and `uq_tracked_sources_owner_url_hash`.
pub insert_source : TrackedSource → List TrackedSource → Option (List TrackedSource)
insert_source s sources =
    if any (λ x. x.id == s.id || has_hash s.owner_user_id s.url_hash x) sources
    then none
    else some (s ∷ sources)

-- `dispatcher.enqueue` raises or not.
pub data Queue : Type 0 where
  accepts : Queue
  raises : (failed_at : ℕ) → Queue

-- The other transactions: those that commit between a SELECT of this one and its own INSERT, and
-- those that commit between its commit and its write after a failure of the queue. `rollback`
-- expires the rows that the session has loaded. Where that makes the next read of such a row an
-- implicit IO, which the asynchronous session refuses with an exception, `expires` is true.
pub record Race : Type 0 where
  pub others : Store → Store
  pub later : Store → Store
  pub expires : Bool

module _ (race : Race) (queue : Queue) (new_id now : ℕ) where
  abbrev pub dispatch : CrawlRun → Store → Result (CrawlRun × Bool) × Store
  dispatch run db = elim queue [
    | accepts ↦ (ok (run, true), db)
    | raises failed_at ↦
        let seen = race.later db in
        (err queue_unavailable, record seen { runs = set_queue_failed run.id failed_at seen.runs })
  ]

  -- The commit of the new run, and with it of the rows that are pending: `before` is the state
  -- without those, to which an IntegrityError rolls back. Is the source among the expired rows, the
  -- read of `source.id` for the second look raises.
  pub commit_run :
      (expired : Bool) (source_id : ℕ)
      → Options
      → (before pending : Store) → Result (CrawlRun × Bool) × Store
  commit_run expired source_id o before pending =
      let run = new_run new_id now source_id o in
      elim (insert_run run pending.runs) [
        | none ↦
            if expired
            then (err implicit_io, before)
            else (or_existing o (active_run source_id before), before)
        | some runs ↦ dispatch run (record pending { runs = runs })
      ]

  -- `_create_for_source`, for a source that is committed.
  pub create_run : (source_id : ℕ) → Options → Store → Result (CrawlRun × Bool) × Store
  unfolding commit_run
  create_run source_id o db = elim (active_run source_id db) [
    | some r ↦ (deduplicated_run r o, db)
    | none ↦ commit_run race.expires source_id o (race.others db) (race.others db)
  ]

  abbrev pub is_live_source : ℕ → TrackedSource → Bool
  is_live_source source_id s = s.id == source_id && s.is_active

  pub create_for_source : (source_id : ℕ) → Options → Store → Result (CrawlRun × Bool) × Store
  unfolding create_run
  create_for_source source_id o db = elim (find (is_live_source source_id) db.sources) [
    | none ↦ (err not_found, db)
    | some s ↦ create_run s.id o db
  ]

  -- `normalize` stands for `normalize_source_url`; `none` is its InvalidSourceUrl. Other
  -- transactions may commit before the flush of a new source, and again before the commit. A new
  -- source is not expired by a rollback, which takes it out of the session.
  pub create_for_user :
      (normalize : Text → Option SourceUrlIdentity) (new_source_id actor : ℕ)
      → Text
      → Options
      → Store
      → Result (CrawlRun × Bool) × Store
  unfolding create_run
  create_for_user normalize new_source_id actor source_url o db = elim (normalize source_url) [
    | none ↦ (err invalid_source_url, db)
    | some identity ↦ elim (source_by_hash actor identity.url_hash db) [
      | some s ↦ create_run s.id o db
      | none ↦
          let seen = race.others db in
          let source : TrackedSource = record {
            id = new_source_id;
            source_url = identity.source_url;
            normalized_url = identity.normalized_url;
            url_hash = identity.url_hash;
            owner_user_id = actor;
            naver_complex_id = none;
            created_at = now;
            is_active = true;
          } in
          elim (insert_source source seen.sources) [
            | none ↦ elim (source_by_hash actor identity.url_hash seen) [
              | none ↦ (err integrity_error, seen)
              | some s ↦ create_run s.id o seen
            ]
            | some sources ↦ elim (active_run source.id seen) [
              | some r ↦ (deduplicated_run r o, seen)
              | none ↦
                  let last = race.others seen in
                  commit_run false source.id o last
                    (record last { sources = source ∷ last.sources })
            ]
          ]
    ]
  ]

abbrev pub owned_by : (actor : ℕ) → List TrackedSource → CrawlRun → Bool
owned_by actor sources r = any (λ s. s.id == r.source_id && s.owner_user_id == actor) sources

abbrev pub owned_run : (actor run_id : ℕ) → List TrackedSource → CrawlRun → Bool
owned_run actor run_id sources r = has_id run_id r && owned_by actor sources r

-- `get`
pub get : (actor run_id : ℕ) → Store → Result CrawlRun
get actor run_id db = elim (find (owned_run actor run_id db.sources) db.runs) [
  | none ↦ err not_found
  | some r ↦ ok r
]

abbrev pub has_result : RunStatus → Bool
has_result completed = true
has_result partial = true
has_result _ = false

abbrev pub result_rows : ℕ → Store → Option (Apartment × ApartmentSnapshot)
result_rows run_id db = elim (find (λ s. s.run_id == run_id) db.apartment_snapshots) [
  | none ↦ none
  | some s ↦ elim (find (λ a. a.id == s.apartment_id) db.apartments) [
    | none ↦ none
    | some a ↦ some (a, s)
  ]
]

pub result : (actor run_id : ℕ) → Store → Result (CrawlRun × Apartment × ApartmentSnapshot)
unfolding get
result actor run_id db = elim (get actor run_id db) [
  | err e ↦ err e
  | ok r ↦
      if has_result r.status
      then (elim (result_rows r.id db) [ none ↦ err not_ready | some (a, s) ↦ ok (r, a, s) ])
      else err not_ready
]

-- The status is tested on the row as it was read, and the row is written by primary key; `others` is
-- what other transactions commit in between. `revoked` says that `dispatcher.cancel` returned and
-- did not raise.
abbrev pub cancel_found :
    (others : Store → Store) (revoked : Bool) (now : ℕ) → CrawlRun → Store → Result CrawlRun × Store
cancel_found others revoked now r db =
    if not (is_queued r.status)
    then (err cannot_cancel, db)
    else if not revoked
    then (err dispatcher_error, db)
    else (
      ok (cancelled_row now r),
      record (others db) { runs = set_cancelled r.id now (others db).runs },
    )

pub cancel :
    (others : Store → Store) (revoked : Bool) (now actor run_id : ℕ)
    → Store
    → Result CrawlRun × Store
unfolding get
cancel others revoked now actor run_id db = elim (get actor run_id db) [
  | err e ↦ (err e, db)
  | ok r ↦ cancel_found others revoked now r db
]

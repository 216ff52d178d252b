-- ===== src/Pipeline/Ends.antt =====
-- A run that a task has claimed ends, whatever the collector of backend/app/tasks/crawl_tasks.py does.
use Prim.Native.String.{String}
use wisdom_qj_auction_servic.Prelude.{
  if◌then◌else◌, ℕ, ◌≡◌, refl, ap, ◌∙◌, Bool, true, false, Option, none, some, List, [], ◌∷◌, arith,
  ◌||◌, ◌&&◌, ltb, any, if_cases,
}
use wisdom_qj_auction_servic.Prelude.Texts.{Text}
use wisdom_qj_auction_servic.Prelude.Tables.{
  find, update_where, updated, find-update_where, find_passes,
}
use wisdom_qj_auction_servic.Models.{
  CrawlRun, RunStatus, failed, Stage, url, compare, save, Preset, is_terminal_status,
}
use wisdom_qj_auction_servic.Runs.{
  update_progress, mark_run_terminal, set_cancelled, is_running, has_id, in_progress, progressed,
  open_run, failed_row, cancelled_row, is_failure_status,
}
use wisdom_qj_auction_servic.Persistence.{
  run_not_found, source_complex_mismatch, article_group_conflict, persistence_failed,
  integrity_error, unsafe_article_target, Store, World, Result, ok, err, CrawlPayload,
  PersistenceError,
}
use wisdom_qj_auction_servic.Persistence.Persist.{persist, PersistenceOutcome}
use wisdom_qj_auction_servic.Persistence.Effects.{persist-has_id}
use wisdom_qj_auction_servic.Pipeline.Errors.{CrawlError, code_of, run_status_of}
use wisdom_qj_auction_servic.Pipeline.{
  Collected, collected, crawl_error, other_error, CrawlStep, progress, cancel, Collector, Report,
  Task, Progress, progressed_to, take_step, take_steps, failed_store, finish_failure, unexpected,
  persistence_failure, persisted, save_payload, after_collect, first_progress, crawl,
}

-- The run is there, and is running or has ended.
abbrev pub is_live : Option CrawlRun → Bool
is_live none = false
is_live (some r) = is_running r.status || is_terminal_status r.status

abbrev pub is_ended : Option CrawlRun → Bool
is_ended none = false
is_ended (some r) = is_terminal_status r.status

is_failure : (e : CrawlError) → is_failure_status (run_status_of e) ≡ true
is_failure e = ground arith

is_end : (e : CrawlError) → is_terminal_status (run_status_of e) ≡ true
is_end e = ground arith

-- A payload has one of the two statuses of its type.
abbrev pub HasStatus : Collected → Type 0
HasStatus (collected payload) = is_terminal_status payload.status ≡ true
HasStatus (crawl_error e) = Unit
HasStatus other_error = Unit

module _ (task : Task) where
  abbrev IsLive : List CrawlRun → Type 0
  IsLive runs = is_live (find (has_id task.run_id) runs) ≡ true

  abbrev IsEnded : List CrawlRun → Type 0
  IsEnded runs = is_ended (find (has_id task.run_id) runs) ≡ true

  updated_live :
      (q : CrawlRun → Bool) (f : CrawlRun → CrawlRun) (o : Option CrawlRun)
      → ((r : CrawlRun) → is_live (some r) ≡ true → is_live (some (f r)) ≡ true)
      → is_live o ≡ true
      → is_live (updated q f o) ≡ true
  updated_live q f none h l = l
  updated_live q f (some r) h l =
      if_cases (λ x. is_live (some x) ≡ true) (q r) (f r) r (λ e. h r l) (λ e. l)

  progressed-IsLive :
      (stage : Stage) (value : ℕ) (runs : List CrawlRun) (b : Bool)
      → IsLive runs
      → IsLive
          (progressed_to stage runs (
            if b
            then none
            else some (
                update_where
                  (in_progress task.run_id)
                  (progressed stage value task.version)
                  runs))).runs
  progressed-IsLive stage value runs true h = h
  progressed-IsLive stage value runs false h =
      ap is_live (
        find-update_where (has_id task.run_id) (in_progress task.run_id)
          (progressed stage value task.version) runs (λ r. refl))
      ∙ updated_live (in_progress task.run_id) (progressed stage value task.version)
          (find (has_id task.run_id) runs) (λ r l. l) h

  take_step-IsLive :
      (s : CrawlStep) (p : Progress) → IsLive p.runs → IsLive (take_step task s p).runs
  unfolding update_progress set_cancelled
  take_step-IsLive (progress stage value) p h =
      progressed-IsLive stage value p.runs (any (in_progress task.run_id) p.runs && ltb 100 value) h
  take_step-IsLive (cancel now) p h =
      ap is_live (
        find-update_where (has_id task.run_id) (has_id task.run_id) (cancelled_row now) p.runs
          (λ r. refl))
      ∙ updated_live (has_id task.run_id) (cancelled_row now) (find (has_id task.run_id) p.runs)
          (λ r l. refl) h

  take_steps-IsLive :
      (ss : List CrawlStep) (p : Progress) → IsLive p.runs → IsLive (take_steps task ss p).runs
  take_steps-IsLive [] p h = h
  take_steps-IsLive (s ∷ ss) p h =
      if_cases (λ x. IsLive x.runs) p.has_failed p (take_steps task ss (take_step task s p))
        (λ e. h) (λ e. take_steps-IsLive ss (take_step task s p) (take_step-IsLive s p h))

  -- The task reports, and the run has ended.
  pub record IsOver (r : Option Report × Store) : Type 0 where
    pub report : Report
    pub reported : r.0 ≡ some report
    pub ended : IsEnded r.1.runs

  updated_ended :
      (now : ℕ) (status : RunStatus) (code version : String) (stage : Stage) (o : Option CrawlRun)
      → (run_id : ℕ) → is_terminal_status status ≡ true
      → ((r : CrawlRun) → o ≡ some r → has_id run_id r ≡ true)
      → is_live o ≡ true
      → is_ended (updated (open_run run_id) (failed_row now status code version stage) o) ≡ true
  updated_ended now status code version stage none run_id t k l = cc
  updated_ended now status code version stage (some r) run_id t k l =
      if_cases (λ x. is_ended (some x) ≡ true) (open_run run_id r)
        (failed_row now status code version stage r) r (λ e. t) (λ e. ground (arith, k r refl, e))

  finish_failure-IsOver :
      (status : RunStatus) (code : String) (stage : Stage) (db : Store)
      → is_failure_status status ≡ true
      → is_terminal_status status ≡ true
      → IsLive db.runs
      → IsOver (finish_failure task status code stage db)
  unfolding mark_run_terminal
  finish_failure-IsOver status code stage db f t h =
      if_cases (λ x. IsOver (failed_store status code db x)) (is_failure_status status)
        (some (
          update_where (open_run task.run_id)
            (failed_row task.failed_at status code task.version stage) db.runs))
        none
        (λ e. record {
          report = record { status = status; error_code = some code };
          reported = refl;
          ended =
              ap is_ended (
                find-update_where (has_id task.run_id) (open_run task.run_id)
                  (failed_row task.failed_at status code task.version stage) db.runs (λ r. refl))
              ∙ updated_ended task.failed_at status code task.version stage
                  (find (has_id task.run_id) db.runs) task.run_id t
                  (λ r k. find_passes (has_id task.run_id) db.runs r k) h;
        })
        (λ e. cc (f, e))

  unexpected-IsOver :
      (stage : Stage) (db : Store) → IsLive db.runs → IsOver (unexpected task stage db)
  unexpected-IsOver stage db h =
      finish_failure-IsOver failed "unexpected_crawl_error" stage db refl refl h

  failure_IsOver :
      (e : PersistenceError) (db : Store) → IsLive db.runs → IsOver (persistence_failure task e db)
  failure_IsOver run_not_found db h =
      finish_failure-IsOver failed "analysis_not_found" save db refl refl h
  failure_IsOver source_complex_mismatch db h =
      finish_failure-IsOver failed "ambiguous_source" save db refl refl h
  failure_IsOver article_group_conflict db h =
      finish_failure-IsOver failed "article_group_conflict" save db refl refl h
  failure_IsOver persistence_failed db h =
      finish_failure-IsOver failed "persistence_failed" save db refl refl h
  failure_IsOver integrity_error db h = unexpected-IsOver save db h
  failure_IsOver unsafe_article_target db h = unexpected-IsOver save db h

  run_of_live : (o : Option CrawlRun) → is_live o ≡ true → (r : CrawlRun) × (o ≡ some r)
  run_of_live none h = cc
  run_of_live (some r) h = (r, refl)

  module _ (w : World) where
    persisted-IsOver :
        (payload : CrawlPayload) (db : Store) (r : Result PersistenceOutcome)
        → is_terminal_status payload.status ≡ true
        → IsLive db.runs
        → persist w task.version task.run_id payload db ≡ r
        → IsOver (persisted task db r)
    persisted-IsOver payload db (ok o after) t h e =
        let (run, f) = run_of_live (find (has_id task.run_id) db.runs) h in
        let (last, g, k, q) =
          persist-has_id w task.version task.run_id payload run db after o f t e in
        record {
          report = record { status = o.status; error_code = none };
          reported = refl;
          ended = ap is_ended g ∙ k;
        }
    persisted-IsOver payload db (err x) t h e = failure_IsOver x db h

    save_payload-IsOver :
        (payload : CrawlPayload) (p : Progress) (db : Store)
        → is_terminal_status payload.status ≡ true
        → IsLive p.runs
        → IsOver (save_payload w task payload p db)
    save_payload-IsOver payload p db t h =
        if_cases IsOver p.has_failed (unexpected task p.current_stage (record db { runs = p.runs }))
          (persisted task (record db { runs = p.runs })
            (persist w task.version task.run_id payload (record db { runs = p.runs })))
          (λ e. unexpected-IsOver p.current_stage (record db { runs = p.runs }) h)
          (λ e. persisted-IsOver payload (record db { runs = p.runs }) _ t h refl)

    error_IsOver :
        (e : CrawlError) (stage : Stage) (db : Store)
        → IsLive db.runs
        → IsOver (finish_failure task (run_status_of e) (code_of e) stage db)
    error_IsOver e stage db h =
        finish_failure-IsOver (run_status_of e) (code_of e) stage db (is_failure e) (is_end e) h

    after_collect-IsOver :
        (c : Collected) (p : Progress) (db : Store)
        → HasStatus c
        → IsLive p.runs
        → IsOver (after_collect w task c p db)
    after_collect-IsOver (collected payload) p db t h =
        save_payload-IsOver payload (take_step task (progress compare 80) p) db t
          (take_step-IsLive (progress compare 80) p h)
    after_collect-IsOver (crawl_error e) p db t h =
        error_IsOver e p.current_stage (record db { runs = p.runs }) h
    after_collect-IsOver other_error p db t h =
        unexpected-IsOver p.current_stage (record db { runs = p.runs }) h

    pub crawl-IsOver :
        (collector : Collector) (source_url : Text) (detail : Bool) (preset : Option Preset)
        (db : Store)
        → ((url : Text) (d : Bool) (x : Preset) → HasStatus (collector url d x).1)
        → IsLive db.runs
        → IsOver (crawl w task collector source_url detail preset db)
    crawl-IsOver collector source_url detail none db t h = unexpected-IsOver url db h
    crawl-IsOver collector source_url detail (some preset) db t h =
        let (steps, result) = collector source_url detail preset in
        let p = take_steps task steps (first_progress db.runs) in
        let l : IsLive p.runs = take_steps-IsLive steps (first_progress db.runs) h in
        if_cases IsOver p.has_failed (unexpected task p.current_stage (record db { runs = p.runs }))
          (after_collect w task result p db)
          (λ e. unexpected-IsOver p.current_stage (record db { runs = p.runs }) l)
          (λ e. after_collect-IsOver result p db (t source_url detail preset) l)

-- ===== src/Pipeline/Claims.antt =====
-- What the task of backend/app/tasks/crawl_tasks.py does with a queued run, and with another.
use wisdom_qj_auction_servic.Prelude.{
  ◌≡◌, refl, sym, ap, ◌∙◌, subst, Bool, true, false, Option, none, some, List, [], ◌∷◌, arith, ◌==◌,
  count, if_cases, if_true,
}
use wisdom_qj_auction_servic.Prelude.Texts.{Text}
use wisdom_qj_auction_servic.Prelude.Tables.{
  find, update_where, updated, find-update_where, find_passes,
}
use wisdom_qj_auction_servic.Models.{failed, CrawlRun, TrackedSource, running, failed, Preset}
use wisdom_qj_auction_servic.Runs.{
  no_claim, Claim, claim_run, claimable, claimed, has_id, is_queued, is_running, running_claim,
  existing_claim,
}
use wisdom_qj_auction_servic.Persistence.{Store, World}
use wisdom_qj_auction_servic.Pipeline.{Collector, Report, Task, execute_pipeline, claimed_crawl}
use wisdom_qj_auction_servic.Pipeline.Ends.{IsOver, HasStatus, crawl-IsOver, is_live}

-- The tables after the claim.
abbrev after_claim : Task → List CrawlRun → List CrawlRun
after_claim task runs =
    update_where (claimable task.run_id) (claimed task.started_at task.version) runs

claim_of : CrawlRun → TrackedSource → Claim
claim_of r s = record {
  status = running;
  source_url = some s.normalized_url;
  source_id = some r.source_id;
  collect_broker_details = r.collect_broker_details;
  interaction_delay_preset = some r.interaction_delay_preset;
}

abbrev found_claim : CrawlRun → Option TrackedSource → Claim
found_claim r o = elim o [
  | none ↦ no_claim
  | some s ↦ record {
    status = running;
    source_url = some s.normalized_url;
    source_id = some r.source_id;
    collect_broker_details = r.collect_broker_details;
    interaction_delay_preset = some r.interaction_delay_preset;
  }
]

module _ (task : Task) (db : Store) (r : CrawlRun) (s : TrackedSource)
    (f : find (has_id task.run_id) db.runs ≡ some r) (q : is_queued r.status ≡ true)
    (k : find (λ s. s.id == r.source_id) db.sources ≡ some s)
    (one : count (claimable task.run_id) db.runs ≡ 1) where
  find-claimed :
      find (has_id task.run_id) (after_claim task db.runs)
      ≡ some (claimed task.started_at task.version r)
  find-claimed =
      find-update_where (has_id task.run_id) (claimable task.run_id)
        (claimed task.started_at task.version) db.runs (λ x. refl)
      ∙ ap (updated (claimable task.run_id) (claimed task.started_at task.version)) f
      ∙ ap some (
          if_true (claimable task.run_id r) (claimed task.started_at task.version r) r _
            (ground (arith, find_passes (has_id task.run_id) db.runs r f, q)) refl)

  claim-running :
      (claim_run task.run_id task.started_at task.version db.sources db.runs).0 ≡ claim_of r s
  unfolding claim_run claim_of
  claim-running =
      if_true (count (claimable task.run_id) db.runs == 1)
        (running_claim (find (has_id task.run_id) (after_claim task db.runs)) db.sources)
        (existing_claim (find (has_id task.run_id) (after_claim task db.runs))) (claim_of r s)
        (rw one)
        (ap (λ o. running_claim o db.sources) find-claimed
          ∙ ap (found_claim (claimed task.started_at task.version r)) k)

-- A task whose run is queued, the only one of its id, and has a source, always returns a report, and
-- the run has then ended: whatever the collector calls, returns or raises, whatever the transaction
-- that saves its payload does, and wherever a cancellation falls. The payloads of the collector have
-- a terminal status, as their type says.
pub execute_pipeline-IsOver :
    (w : World) (task : Task) (collector : Collector) (db : Store) (r : CrawlRun)
    (s : TrackedSource)
    → find (has_id task.run_id) db.runs ≡ some r
    → is_queued r.status ≡ true
    → find (λ s. s.id == r.source_id) db.sources ≡ some s
    → count (claimable task.run_id) db.runs ≡ 1
    → ((url : Text) (d : Bool) (x : Preset) → HasStatus (collector url d x).1)
    → IsOver task (execute_pipeline w task collector db)
unfolding execute_pipeline claim_of claim_run
execute_pipeline-IsOver w task collector db r s f q k one t =
    subst
      (λ c. IsOver task (
        claimed_crawl w task collector c (is_running c.status) c.source_url
          (record db { runs = after_claim task db.runs })))
      (sym (claim-running task db r s f q k one))
      (crawl-IsOver task w collector s.normalized_url r.collect_broker_details
        (some r.interaction_delay_preset) (record db { runs = after_claim task db.runs }) t
        (ap is_live (find-claimed task db r s f q k one)))

none_claimable :
    (task : Task) (runs : List CrawlRun)
    → count (claimable task.run_id) runs ≡ 0
    → after_claim task runs ≡ runs
none_claimable task [] h = refl
none_claimable task (r ∷ runs) h =
    if_cases (λ x. (x ∷ after_claim task runs) ≡ r ∷ runs) (claimable task.run_id r)
      (claimed task.started_at task.version r) r (λ e. ground (arith, h, e))
      (λ e. ap (λ l. r ∷ l) (none_claimable task runs (omega (arith, rw e at h))))

unclaimed :
    (task : Task) (db : Store)
    → count (claimable task.run_id) db.runs ≡ 0
    → claim_run task.run_id task.started_at task.version db.sources db.runs
      ≡ (existing_claim (find (has_id task.run_id) db.runs), db.runs)
unfolding claim_run
unclaimed task db h = rw (h, none_claimable task db.runs h) refl

abbrev pub report_of : Option CrawlRun → Report
report_of none = record { status = failed; error_code = none }
report_of (some r) = record { status = r.status; error_code = none }

existing_report :
    (w : World) (task : Task) (collector : Collector) (o : Option CrawlRun) (db : Store) (b : Bool)
    → claimed_crawl w task collector (existing_claim o) b (existing_claim o).source_url db
      ≡ (some (report_of o), db)
existing_report w task collector none db true = refl
existing_report w task collector none db false = refl
existing_report w task collector (some r) db true = refl
existing_report w task collector (some r) db false = refl

-- A task whose run is not queued, or is not there, changes nothing and reports the status of the run,
-- or `failed`: a run that was delivered twice is crawled once.
pub execute_pipeline-claimable :
    (w : World) (task : Task) (collector : Collector) (db : Store)
    → count (claimable task.run_id) db.runs ≡ 0
    → execute_pipeline w task collector db
      ≡ (some (report_of (find (has_id task.run_id) db.runs)), db)
unfolding execute_pipeline claim_run
execute_pipeline-claimable w task collector db h =
    let Report_of : Claim × List CrawlRun → Option Report × Store = (λ p.
      claimed_crawl w task collector p.0 (is_running p.0.status) p.0.source_url
        (record db { runs = p.1 })) in
    ap Report_of (unclaimed task db h)
    ∙ existing_report w task collector (find (has_id task.run_id) db.runs) db _

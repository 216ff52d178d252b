-- ===== src/Analysis/Creation.antt =====
-- What a request for an analysis leaves behind, on every branch.
use wisdom_qj_auction_servic.Prelude.{
  if◌then◌else◌, ℕ, ◌≡◌, refl, Bool, true, false, none, some, List, arith, ◌==◌, ◌&&◌, ◌||◌,
  Bool-cases, Option-cases, inl, inr, any,
}
use wisdom_qj_auction_servic.Models.{bool_eq_iff, preset_eq_iff, CrawlRun, queued, is_active_status}
use wisdom_qj_auction_servic.Runs.{has_id, is_active_of, insert_run}
use wisdom_qj_auction_servic.Runs.Uniqueness.{
  insert_run-some, insert_run-none, set_queue_failed-ends, latest_run-cons_only,
}
use wisdom_qj_auction_servic.Analysis.{
  Result, ok, err, option_conflict, queue_unavailable, integrity_error, implicit_io, Store, Options,
  active_run, same_options, deduplicated_run, new_run, or_existing, Race, Queue, accepts, raises,
  dispatch, commit_run, create_run,
}

-- What the caller may conclude from the answer about the tables after it, where `seen` are those
-- that the insertion of the run meets.
abbrev pub Outcome :
    (new_id source_id : ℕ) → Options → (seen : Store) → Result (CrawlRun × Bool) × Store → Type 0
Outcome new_id source_id o seen (ok (r, created), db) =
    (active_run source_id db ≡ some r)
    × (same_options o r ≡ true)
    × (created ≡ true → r.status ≡ queued)
Outcome new_id source_id o seen (err option_conflict, db) =
    (r : CrawlRun) × (active_run source_id db ≡ some r) × (same_options o r ≡ false)
Outcome new_id source_id o seen (err queue_unavailable, db) =
    any (λ r. has_id new_id r && is_active_status r.status) db.runs ≡ false
Outcome new_id source_id o seen (err implicit_io, db) =
    (db ≡ seen) × ((any (has_id new_id) db.runs || any (is_active_of source_id) db.runs) ≡ true)
Outcome new_id source_id o seen (err integrity_error, db) = active_run source_id db ≡ none
Outcome new_id source_id o seen (err _, db) = ⊥

module _ (new_id source_id : ℕ) (o : Options) (seen : Store) where
  shared-Outcome :
      (r : CrawlRun) (db : Store)
      → active_run source_id db ≡ some r
      → Outcome new_id source_id o seen (deduplicated_run r o, db)
  shared-Outcome r db h = elim (Bool-cases (same_options o r)) [
    | inl same ↦ rw same (h, same, λ e. cc)
    | inr other ↦ rw other (r, h, other)
  ]

  existing-Outcome :
      (db : Store) → Outcome new_id source_id o seen (or_existing o (active_run source_id db), db)
  existing-Outcome db = elim (Option-cases (active_run source_id db)) [
    | inl absent ↦ rw absent absent
    | inr (r, e) ↦ rw e (shared-Outcome r db e)
  ]

  -- The handler of the IntegrityError.
  refused-Outcome :
      (expired : Bool)
      → (any (has_id new_id) seen.runs || any (is_active_of source_id) seen.runs) ≡ true
      → Outcome new_id source_id o seen (
          if expired
          then (err implicit_io, seen)
          else (or_existing o (active_run source_id seen), seen))
  refused-Outcome true h = (refl, h)
  refused-Outcome false h = existing-Outcome seen

dispatch-Outcome :
    (race : Race) (queue : Queue) (new_id now source_id : ℕ) (o : Options) (pending : Store)
    (runs : List CrawlRun)
    → insert_run (new_run new_id now source_id o) pending.runs ≡ some runs
    → Outcome new_id source_id o pending (
        dispatch race queue new_id now
          (new_run new_id now source_id o)
          (record pending { runs = runs }))
dispatch-Outcome race accepts new_id now source_id o pending runs h =
    let run = new_run new_id now source_id o in
    let (eq, fresh, free) = insert_run-some run pending.runs runs h in
    (
      rw eq (
          latest_run-cons_only (is_active_of source_id) run pending.runs (own_row source_id)
            (free refl)),
      ground (
        arith,
        bool_eq_iff o.collect_broker_details o.collect_broker_details,
        preset_eq_iff o.interaction_delay_preset o.interaction_delay_preset,
      ),
      λ e. refl,
    )
  where
    own_row : (s : ℕ) → (s == s && true) ≡ true
    own_row s = ground arith
dispatch-Outcome race (raises t) new_id now source_id o pending runs h =
    set_queue_failed-ends new_id t (race.later (record pending { runs = runs })).runs

commit_run-Outcome :
    (race : Race) (queue : Queue) (new_id now : ℕ) (expired : Bool) (source_id : ℕ) (o : Options)
    (db : Store)
    → Outcome new_id source_id o db (commit_run race queue new_id now expired source_id o db db)
unfolding commit_run
commit_run-Outcome race queue new_id now expired source_id o db =
    let run = new_run new_id now source_id o in
    elim (Option-cases (insert_run run db.runs)) [
      | inl refused ↦
          rw (refused, commit_run)
            (refused-Outcome new_id source_id o db expired (insert_run-none run db.runs refused))
      | inr (runs, e) ↦
          rw (e, commit_run) (dispatch-Outcome race queue new_id now source_id o db runs e)
    ]

-- Whatever other transactions commit between the check for an active run and the insertion, and
-- between the commit and the write after a failure of the queue, and whether or not the queue takes
-- the task, the answer tells the truth about the tables at the last step of the request. A run that
-- is returned is the active run of its source and has the requested options, and it is queued if it
-- is said to be new. The option conflict is reported with an active run of other options. After a
-- queue failure the new run is not active, and after an integrity error no run of the source is.
-- Where a rollback makes the source unreadable, a refused insertion ends in the exception of that
-- read: the tables are then those that the others left, and another run has the id or is active.
-- There is no other answer.
pub create_run-Outcome :
    (race : Race) (queue : Queue) (new_id now source_id : ℕ) (o : Options) (db : Store)
    → Outcome new_id source_id o (race.others db) (create_run race queue new_id now source_id o db)
unfolding create_run
create_run-Outcome race queue new_id now source_id o db =
    elim (Option-cases (active_run source_id db)) [
      | inl absent ↦
          rw (absent, create_run)
            (commit_run-Outcome race queue new_id now race.expires source_id o (race.others db))
      | inr (r, e) ↦ rw (e, create_run) (shared-Outcome new_id source_id o (race.others db) r db e)
    ]

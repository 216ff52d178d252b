-- ===== src/Persistence/Committed.antt =====
-- What `PersistenceService.persist` of backend/app/services/persistence_service.py has done when it
-- returns.
use Prim.Native.String.{String}
use wisdom_qj_auction_servic.Prelude.{All, subst, arith}
use wisdom_qj_auction_servic.Prelude.Tables.{find}
use wisdom_qj_auction_servic.Runs.{has_id, finish_run}
use wisdom_qj_auction_servic.Notifications.{has_completed_baseline}
use wisdom_qj_auction_servic.Persistence.Persist.{previous_successful_run_id}
use wisdom_qj_auction_servic.Persistence.Kept.{KeepsStates, KeepsHomes}
use wisdom_qj_auction_servic.Prelude.{
  ap, inl, not, ◌⊎◌, inr, true, if_cases, ◌==◌, false, length, ◌≡◌, ℕ, ◌+◌, refl, Bool, Option,
  none, some, [],
}
use wisdom_qj_auction_servic.Models.{
  is_terminal_status, CrawlRun, RunStatus, TrackedSource, Apartment, Details,
}
use wisdom_qj_auction_servic.Persistence.Rows.{
  ◌>>=◌, err, ok, Result, Store, World, source_complex_mismatch, CrawlPayload, ComplexDetail,
  integrity_error,
}
use wisdom_qj_auction_servic.Persistence.Writes.{Context}
use wisdom_qj_auction_servic.Persistence.Apartments.{
  save_apartment, save_apartment_at, apartment_of, add_apartment_snapshot,
}
use wisdom_qj_auction_servic.Persistence.Persist.{
  persist_for, finish, saved_outcome, save_payload, persist_run, terminal_outcome, persist,
  PersistenceOutcome, save_all, save_tables, context_of,
}
use wisdom_qj_auction_servic.Persistence.Kept.{
  Holds, Keeps, plain_Keeps, bind_Keeps, unchanged_Kept, return-Keeps, reject-Keeps, refuse-Keeps,
  draw_Keeps, read-Keeps, read_then_Keeps, IsConsistent, shift_Keeps,
}
use wisdom_qj_auction_servic.Persistence.Kept.Loops.{save_listings-Keeps}
use wisdom_qj_auction_servic.Persistence.Kept.Absences.{
  save_absences-Keeps, existing_records-IsRead,
}
use wisdom_qj_auction_servic.Persistence.Records.{existing_records}

module _ (known : Type 0) (status : RunStatus) where
  save_apartment_at-Keeps :
      (w : World) (d : ComplexDetail) (incoming : Details) (captured_at : ℕ) (a : Option Apartment)
      → Keeps known status 0 (λ _. 0) (save_apartment_at w d incoming captured_at a)
  save_apartment_at-Keeps w d incoming captured_at (some a) =
      bind_Keeps (plain_Keeps _ λ db. unchanged_Kept db _ refl refl refl refl)
        λ _. return-Keeps _ refl
  save_apartment_at-Keeps w d incoming captured_at none = bind_Keeps draw_Keeps λ id.
      bind_Keeps (plain_Keeps _ λ db. unchanged_Kept db _ refl refl refl refl)
        λ _. return-Keeps _ refl

  save_apartment-Keeps :
      (w : World) (d : ComplexDetail) (incoming : Details) (captured_at : ℕ)
      → Keeps known status 0 (λ _. 0) (save_apartment w d incoming captured_at)
  save_apartment-Keeps w d incoming captured_at = record {
    holds = λ db.
        (save_apartment_at-Keeps w d incoming captured_at (apartment_of d.complex_id db)).holds db;
  }

  add_apartment_snapshot-Keeps :
      (w : World) (run_id apartment_id : ℕ) (d : ComplexDetail) (incoming : Details)
      → Keeps known status 0 (λ _. 0) (add_apartment_snapshot w run_id apartment_id d incoming)
  add_apartment_snapshot-Keeps w run_id apartment_id d incoming = bind_Keeps draw_Keeps λ id.
      bind_Keeps (refuse-Keeps _ integrity_error)
        λ _. plain_Keeps _ λ db. unchanged_Kept db _ refl refl refl refl

save_all-Keeps :
    (w : World) (c : Context) (payload : CrawlPayload)
    → Keeps (Unit {0}) payload.status 0 (λ n. n) (save_all w c payload)
save_all-Keeps w c payload =
    read_then_Keeps
      (existing_records c.apartment.id c.apartment.naver_complex_id c.source.id c.run.id) _
      λ db.
        let known : Type 0 = All IsConsistent db.states in
        let existing =
          existing_records c.apartment.id c.apartment.naver_complex_id c.source.id c.run.id db in
        let ok =
          existing_records-IsRead c.apartment.id c.apartment.naver_complex_id c.source.id c.run.id
            db in
        bind_Keeps (read-Keeps _) λ groups.
          bind_Keeps (add_apartment_snapshot-Keeps known payload.status w _ _ payload.apartment _)
            λ _.
              bind_Keeps
                (save_listings-Keeps c known payload.status w payload.warnings existing []
                  payload.listings)
                λ p.
                  bind_Keeps
                    (shift_Keeps p.1 (save_absences-Keeps c known payload.status existing _ ok))
                    λ k. return-Keeps (p.1 + k) refl

save_tables-Keeps :
    (w : World) (payload : CrawlPayload) (run : CrawlRun) (source : TrackedSource) (baseline : Bool)
    (compare_run_id : Option ℕ)
    → Keeps
        (Unit {0})
        payload.status
        0
        (λ p. p.1)
        (save_tables w payload run source baseline compare_run_id)
save_tables-Keeps w payload run source baseline compare_run_id =
    bind_Keeps (reject-Keeps _ source_complex_mismatch) λ _.
      bind_Keeps
        (save_apartment-Keeps (Unit {0}) payload.status w payload.apartment
          (w.normalize_details payload.apartment.details) payload.captured_at)
        λ apartment. bind_Keeps (plain_Keeps _ λ db. unchanged_Kept db _ refl refl refl refl) λ _.
          bind_Keeps
            (save_all-Keeps w
              (context_of run source apartment baseline compare_run_id payload.captured_at) payload)
            λ n. return-Keeps (apartment.id, n) refl

-- The tables after a run that was saved: the run has ended, the events are counted, articles stay in
-- their groups, and the states change as `KeepsStates` says.
pub record IsSaved (version : String) (payload : CrawlPayload) (run : CrawlRun) (before : Store)
    (o : PersistenceOutcome) (after : Store) : Type 0 where
  pub outcome : (o.status ≡ payload.status) × (o.listing_count ≡ length payload.listings)
  pub runs : after.runs ≡ finish_run run.id payload.captured_at payload.status version before.runs
  pub events : length after.events ≡ length before.events + o.event_count
  pub homes : KeepsHomes before.articles after.articles
  pub states : KeepsStates (Unit {0}) payload.status before.states after.states

-- A run that had ended is left alone.
pub record IsRepeated (run : CrawlRun) (before : Store) (o : PersistenceOutcome) (after : Store)
    : Type 0 where
  pub outcome : o ≡ terminal_outcome run
  pub unchanged : after ≡ before

abbrev pub Ending : String → CrawlPayload → CrawlRun → Store → PersistenceOutcome → Store → Type 0
Ending version payload run before o after =
    ((is_terminal_status run.status ≡ true) × IsRepeated run before o after)
    ⊎ ((is_terminal_status run.status ≡ false) × IsSaved version payload run before o after)

abbrev Ends : (PersistenceOutcome → Store → Type 0) → Result PersistenceOutcome → Type 0
Ends P (ok o after) = P o after
Ends P (err e) = Unit

module _ (w : World) (version : String) (payload : CrawlPayload) (run : CrawlRun)
    (before : Store) where
  finished_Ends :
      (r : Result (ℕ × ℕ))
      → Holds (Unit {0}) payload.status 0 (λ p. p.1) before r
      → Ends (IsSaved version payload run before) (elim r [
        | ok p after ↦
            ok (saved_outcome run.id p.0 p.1 payload) (finish version payload run.id after)
        | err e ↦ err e
      ])
  finished_Ends (ok (a, n) after) k = record {
    outcome = (refl, refl);
    runs = ap (finish_run run.id payload.captured_at payload.status version) k.runs;
    events = omega (arith, k.events);
    homes = k.homes;
    states = k.states;
  }
  finished_Ends (err e) k = tt

  save_payload-Ends :
      (source : TrackedSource) (baseline : Bool) (compare_run_id : Option ℕ)
      → Ends
          (IsSaved version payload run before)
          (save_payload w version payload run source baseline compare_run_id before)
  unfolding ◌>>=◌
  save_payload-Ends source baseline compare_run_id =
      finished_Ends (save_tables w payload run source baseline compare_run_id before)
        ((save_tables-Keeps w payload run source baseline compare_run_id).holds before)

  persist_for-Ends :
      (source : Option TrackedSource)
      → Ends (IsSaved version payload run before) (persist_for w version payload run source before)
  persist_for-Ends none = tt
  persist_for-Ends (some source) =
      save_payload-Ends source (not (has_completed_baseline source.id before.runs))
        (previous_successful_run_id source.id run.id before.runs)

  weaken_Ends :
      (r : Result PersistenceOutcome)
      → is_terminal_status run.status ≡ false
      → Ends (IsSaved version payload run before) r
      → Ends (Ending version payload run before) r
  weaken_Ends (ok o after) h k = inr (h, k)
  weaken_Ends (err e) h k = tt

  persist_run-Ends :
      Ends (Ending version payload run before) (persist_run w version payload (some run) before)
  persist_run-Ends =
      if_cases (Ends (Ending version payload run before)) (is_terminal_status run.status)
        (ok (terminal_outcome run) before)
        (persist_for w version payload run (find (λ s. s.id == run.source_id) before.sources)
          before)
        (λ e. inl (e, record { outcome = refl; unchanged = refl }))
        (λ e. weaken_Ends _ e (persist_for-Ends _))

-- When `persist` returns, the run had ended before and nothing is changed, or the run has ended
-- now with the status of the payload. In that case the outcome counts the events that were added,
-- no article has changed its group, a source and a group still have one state at most, and a run that did not complete has hidden no listing.
pub persist-Ending :
    (w : World) (version : String) (run_id : ℕ) (payload : CrawlPayload) (run : CrawlRun)
    (before after : Store) (o : PersistenceOutcome)
    → find (has_id run_id) before.runs ≡ some run
    → persist w version run_id payload before ≡ ok o after
    → Ending version payload run before o after
unfolding persist
persist-Ending w version run_id payload run before after o f h =
    subst (Ends (Ending version payload run before)) (rw f at h)
      (persist_run-Ends w version payload run before)

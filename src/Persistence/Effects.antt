-- ===== src/Persistence/Effects.antt =====
-- The parts of what `PersistenceService.persist` of backend/app/services/persistence_service.py has
-- done, for the run of either ending.
use Prim.Native.String.{String}
use wisdom_qj_auction_servic.Prelude.{
  ℕ, ◌+◌, ◌≡◌, ◌≤◌, refl, sym, ap, ◌∙◌, subst, true, false, some, List, [], ◌∷◌, arith, length, inl,
  inr, All, count, Bool-cases, if_cases, ==_iff,
}
use wisdom_qj_auction_servic.Prelude.Texts.{Text}
use wisdom_qj_auction_servic.Prelude.Tables.{find, find_passes}
use wisdom_qj_auction_servic.Models.{CrawlRun, RunStatus, is_terminal_status}
use wisdom_qj_auction_servic.Runs.{has_id, finish_run, open_run, finished_row}
use wisdom_qj_auction_servic.Listings.{is_completed}
use wisdom_qj_auction_servic.Persistence.Rows.{World, Store, CrawlPayload, ok}
use wisdom_qj_auction_servic.Persistence.Persist.{persist, PersistenceOutcome}
use wisdom_qj_auction_servic.Persistence.Kept.{
  IsUnique, IsConsistent, is_hidden, home, KeepsStates, KeepsHomes,
}
use wisdom_qj_auction_servic.Persistence.Kept.{states_refl}
use wisdom_qj_auction_servic.Persistence.Committed.{Ending, persist-Ending}

some_inj : {a b : CrawlRun} → some a ≡ some b → a ≡ b
some_inj h = cc

finished_find :
    (run_id captured_at : ℕ) (status : RunStatus) (version : String) (runs : List CrawlRun)
    (run : CrawlRun)
    → find (has_id run_id) runs ≡ some run
    → is_terminal_status run.status ≡ false
    → find (has_id run_id) (finish_run run_id captured_at status version runs)
      ≡ some (finished_row captured_at status version run)
unfolding finish_run
finished_find run_id captured_at status version [] run h t = cc
finished_find run_id captured_at status version (r ∷ runs) run h t =
    let f : CrawlRun → CrawlRun = finished_row captured_at status version in
    let rest = finish_run run_id captured_at status version runs in
    let P : CrawlRun → Type 0 = (λ x. find (has_id run_id) (x ∷ rest) ≡ some (f run)) in
    elim (Bool-cases (has_id run_id r)) [
      | inl e ↦
          let q : r ≡ run = some_inj (rw e at h) in
          let u : is_terminal_status r.status ≡ false =
            subst (λ x. is_terminal_status x.status ≡ false) (sym q) t in
          if_cases P (open_run run_id r) (f r) r (λ p. rw e (ap (λ x. some (f x)) q))
            (λ n. ground (arith, n, e, u))
      | inr e ↦
          if_cases P (open_run run_id r) (f r) r
            (λ p. rw e (finished_find run_id captured_at status version runs run (rw e at h) t))
            (λ p. rw e (finished_find run_id captured_at status version runs run (rw e at h) t))
    ]

module _ (w : World) (version : String) (run_id : ℕ) (payload : CrawlPayload) (run : CrawlRun)
    (before after : Store) (o : PersistenceOutcome) where
  Ending-states :
      Ending version payload run before o after
      → KeepsStates (Unit {0}) payload.status before.states after.states
  Ending-states (inl (t, k)) =
      subst (λ d. KeepsStates (Unit {0}) payload.status before.states d.states) (sym k.unchanged)
        (states_refl (Unit {0}) payload.status before.states)
  Ending-states (inr (t, k)) = k.states

  Ending-homes :
      Ending version payload run before o after → KeepsHomes before.articles after.articles
  Ending-homes (inl (t, k)) = λ i g h. subst (λ d. home i d.articles ≡ some g) (sym k.unchanged) h
  Ending-homes (inr (t, k)) = k.homes

  Ending-count :
      Ending version payload run before o after
      → length after.events ≡ length before.events + o.event_count
  Ending-count (inl (t, k)) =
      subst (λ d. length d.events ≡ length before.events + o.event_count) (sym k.unchanged)
        (subst (λ x. length before.events ≡ length before.events + x.event_count) (sym k.outcome)
          (omega arith))
  Ending-count (inr (t, k)) = k.events

  ended :
      find (has_id run_id) before.runs ≡ some run
      → Ending version payload run before o after
      → (last : CrawlRun) × (find (has_id run_id) after.runs ≡ some last)
        × (is_terminal_status payload.status ≡ true → is_terminal_status last.status ≡ true)
        × (last.status ≡ o.status)
  ended f (inl (t, k)) = (
    run,
    subst (λ d. find (has_id run_id) d.runs ≡ some run) (sym k.unchanged) f,
    (λ _. t),
    subst (λ x. run.status ≡ x.status) (sym k.outcome) refl,
  )
  ended f (inr (t, k)) = (
    finished_row payload.captured_at payload.status version run,
    ap (find (has_id run_id)) k.runs
        ∙ subst
            (λ i.
              find (has_id run_id)
                (finish_run i payload.captured_at payload.status version before.runs)
              ≡ some (finished_row payload.captured_at payload.status version run))
            (sym ((==_iff run.id run_id).0 (find_passes (has_id run_id) before.runs run f)))
            (finished_find run_id payload.captured_at payload.status version before.runs run f t),
    (λ h. h),
    sym k.outcome.0,
  )

-- When `persist` returns, its event count is the number of change events that it has added, whether
-- the run was saved or had ended before.
pub persist-event_count :
    (w : World) (version : String) (run_id : ℕ) (payload : CrawlPayload) (run : CrawlRun)
    (before after : Store) (o : PersistenceOutcome)
    → find (has_id run_id) before.runs ≡ some run
    → persist w version run_id payload before ≡ ok o after
    → length after.events ≡ length before.events + o.event_count
persist-event_count w version run_id payload run before after o f h =
    Ending-count w version run_id payload run before after o
      (persist-Ending w version run_id payload run before after o f h)

-- When `persist` returns, the tables have at most one state for each source and group, and each
-- state agrees with its visibility, if that held before: only removed states have a time of removal,
-- a missing state counts one absence, a removed one two, and any other none.
pub persist-IsConsistent :
    (w : World) (version : String) (run_id : ℕ) (payload : CrawlPayload) (run : CrawlRun)
    (before after : Store) (o : PersistenceOutcome)
    → find (has_id run_id) before.runs ≡ some run
    → persist w version run_id payload before ≡ ok o after
    → IsUnique before.states
    → All IsConsistent before.states
    → IsUnique after.states × All IsConsistent after.states
persist-IsConsistent w version run_id payload run before after o f h u c =
    let k =
      Ending-states w version run_id payload run before after o
        (persist-Ending w version run_id payload run before after o f h) in
    (k.unique u, k.consistent tt c)

-- When `persist` of a payload that is not completed returns, no more listings are missing or removed
-- than before.
pub persist-is_hidden :
    (w : World) (version : String) (run_id : ℕ) (payload : CrawlPayload) (run : CrawlRun)
    (before after : Store) (o : PersistenceOutcome)
    → find (has_id run_id) before.runs ≡ some run
    → is_completed payload.status ≡ false
    → persist w version run_id payload before ≡ ok o after
    → count is_hidden after.states ≤ count is_hidden before.states
persist-is_hidden w version run_id payload run before after o f p h =
    (Ending-states w version run_id payload run before after o
        (persist-Ending w version run_id payload run before after o f h)).hidden
      p

-- When `persist` returns, every article that was stored belongs to the group that it belonged to.
pub persist-home :
    (w : World) (version : String) (run_id : ℕ) (payload : CrawlPayload) (run : CrawlRun)
    (before after : Store) (o : PersistenceOutcome) (article_id : Text) (group_id : ℕ)
    → find (has_id run_id) before.runs ≡ some run
    → persist w version run_id payload before ≡ ok o after
    → home article_id before.articles ≡ some group_id
    → home article_id after.articles ≡ some group_id
persist-home w version run_id payload run before after o article_id group_id f h =
    Ending-homes w version run_id payload run before after o
      (persist-Ending w version run_id payload run before after o f h) article_id group_id

-- When `persist` of a payload with a terminal status returns, the run has ended, with the status of
-- the outcome.
pub persist-has_id :
    (w : World) (version : String) (run_id : ℕ) (payload : CrawlPayload) (run : CrawlRun)
    (before after : Store) (o : PersistenceOutcome)
    → find (has_id run_id) before.runs ≡ some run
    → is_terminal_status payload.status ≡ true
    → persist w version run_id payload before ≡ ok o after
    → (last : CrawlRun) × (find (has_id run_id) after.runs ≡ some last)
      × (is_terminal_status last.status ≡ true)
      × (last.status ≡ o.status)
persist-has_id w version run_id payload run before after o f t h =
    let (last, g, e, q) =
      ended w version run_id payload run before after o f
        (persist-Ending w version run_id payload run before after o f h) in
    (last, g, e t, q)

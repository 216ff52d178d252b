-- ===== src/Runner/Due.antt =====
-- How a round of the runner ends, what it counts, and that it keeps no lock.
use wisdom_qj_auction_servic.Prelude.{
  if_cases, ℕ, ◌+◌, ◌≡◌, ◌⊎◌, inl, inr, refl, sym, ap, ◌∙◌, subst, true, Bool, Option, none, some,
  List, [], ◌∷◌, ◌&&◌, ◌==◌, arith, leb, length, All, if◌then◌else◌,
}
use wisdom_qj_auction_servic.Prelude.Tables.{find}
use wisdom_qj_auction_servic.Models.{CrawlSchedule, TrackedSource, CrawlRun}
use wisdom_qj_auction_servic.Locks.Contract.{SourceLockManager}
use wisdom_qj_auction_servic.NextRun.{Zone, IsForward, Found}
use wisdom_qj_auction_servic.Analysis.{
  Store, Result, ok, err, AnalysisError, not_found, not_ready, cannot_cancel, option_conflict,
  queue_unavailable, invalid_source_url, integrity_error, implicit_io, dispatcher_error,
}
use wisdom_qj_auction_servic.Schedules.Upkeep.{IsPlanned, planned-IsNext}
use wisdom_qj_auction_servic.Runner.{
  Turn, State, Counts, Kind, counted, is_enqueued, is_deduplicated, is_locked, is_failed,
  reschedule, with_failed, advanced, answered, create_of, acquire_of, is_implicit_io,
  enqueue_with_source_lock, run_row, run_rows, enqueue_due, due_rows, joined, earliest_first,
  insert_row, with_source, is_due,
}

abbrev pub total : Counts → ℕ
total c = c.enqueued + c.deduplicated + c.locked + c.failed

-- The turn of a row ends, and leaves the locks as `locks`.
record IsDone (m : SourceLockManager) (locks : m.State) (o : Option (Kind × State m)) : Type 0 where
  kind : Kind
  after : State m
  done : o ≡ some (kind, after)
  kept : after.locks ≡ locks

implicit_only : (e : AnalysisError) → is_implicit_io e ≡ true → e ≡ implicit_io
implicit_only not_found h = cc
implicit_only not_ready h = cc
implicit_only cannot_cancel h = cc
implicit_only option_conflict h = cc
implicit_only queue_unavailable h = cc
implicit_only invalid_source_url h = cc
implicit_only integrity_error h = cc
implicit_only implicit_io h = refl
implicit_only dispatcher_error h = cc

total-counted : (kind : Kind) (c : Counts) → total (counted kind c) ≡ total c + 1
total-counted is_enqueued c = omega arith
total-counted is_deduplicated c = omega arith
total-counted is_locked c = omega arith
total-counted is_failed c = omega arith

due-counted : (kind : Kind) (c : Counts) → (counted kind c).due ≡ c.due
due-counted is_enqueued c = refl
due-counted is_deduplicated c = refl
due-counted is_locked c = refl
due-counted is_failed c = refl

with_source-IsPlanned :
    (s : CrawlSchedule) (o : Option TrackedSource) (rows : List (CrawlSchedule × TrackedSource))
    → IsPlanned s
    → All (λ (r : CrawlSchedule × TrackedSource). IsPlanned r.0) rows
    → All (λ (r : CrawlSchedule × TrackedSource). IsPlanned r.0) (with_source s o rows)
with_source-IsPlanned s none rows p ps = ps
with_source-IsPlanned s (some source) rows p ps = (p, ps)

joined-IsPlanned :
    (current : ℕ) (sources : List TrackedSource) (schedules : List CrawlSchedule)
    → All IsPlanned schedules
    → All (λ (r : CrawlSchedule × TrackedSource). IsPlanned r.0) (joined current sources schedules)
joined-IsPlanned current sources [] ps = tt
joined-IsPlanned current sources (s ∷ schedules) (p, ps) =
    if_cases (All (λ (r : CrawlSchedule × TrackedSource). IsPlanned r.0)) (is_due current s) _ _
      (λ _.
        with_source-IsPlanned s (find (λ x. x.id == s.source_id && x.is_active) sources)
          (joined current sources schedules) p (joined-IsPlanned current sources schedules ps))
      (λ _. joined-IsPlanned current sources schedules ps)

insert_row-IsPlanned :
    (row : CrawlSchedule × TrackedSource) (rows : List (CrawlSchedule × TrackedSource))
    → IsPlanned row.0
    → All (λ (r : CrawlSchedule × TrackedSource). IsPlanned r.0) rows
    → All (λ (r : CrawlSchedule × TrackedSource). IsPlanned r.0) (insert_row row rows)
insert_row-IsPlanned row [] p ps = (p, tt)
insert_row-IsPlanned row (other ∷ rows) p (q, ps) =
    if_cases (All (λ (r : CrawlSchedule × TrackedSource). IsPlanned r.0))
      (leb row.0.next_run_at other.0.next_run_at) _ _ (λ _. (p, (q, ps)))
      (λ _. (q, insert_row-IsPlanned row rows p ps))

sorted-IsPlanned :
    (rows : List (CrawlSchedule × TrackedSource))
    → All (λ (r : CrawlSchedule × TrackedSource). IsPlanned r.0) rows
    → All (λ (r : CrawlSchedule × TrackedSource). IsPlanned r.0) (earliest_first rows)
sorted-IsPlanned [] ps = tt
sorted-IsPlanned (row ∷ rows) (p, ps) =
    insert_row-IsPlanned row (earliest_first rows) p (sorted-IsPlanned rows ps)

module _ (m : SourceLockManager) (zone : Zone) (unavailable : Bool) (turn : ℕ → Turn) (current : ℕ)
    (forward : IsForward zone) where
  advanced-IsDone :
      (kind : Kind) (s : CrawlSchedule) (st : State m)
      → IsPlanned s
      → IsDone m st.locks (advanced m zone unavailable turn current kind s st)
  advanced-IsDone kind s st p =
      let (w, e, n, l) = planned-IsNext zone current s forward p in
      subst
        (λ (f : Found).
          IsDone m st.locks (elim (reschedule m zone unavailable turn current s f st) [
            | none ↦ none
            | some after ↦ some (kind, after)
          ]))
        (sym e) (record { kind = kind; after = _; done = refl; kept = refl })

  -- The creation of a run for this row, on these tables, ends in the exception of an expired row.
  abbrev pub CreateRaises : CrawlSchedule → TrackedSource → Store → Type 0
  CreateRaises s source db =
      (create_of m zone unavailable turn current s source db).0 ≡ err implicit_io

  -- The turns of some rows end, and the creation for the next one raises on the tables they leave.
  abbrev pub SomeRaises : List (CrawlSchedule × TrackedSource) → State m → Type 0
  SomeRaises [] st = ⊥
  SomeRaises ((s, source) ∷ rows) st =
      CreateRaises s source st.db
      ⊎ ((kind : Kind) × (after : State m) × (run_row m zone unavailable turn current s source st
            ≡ some (kind, after))
          × SomeRaises rows after)

  -- The turn of a row ends, or its exception leaves the loop.
  abbrev Ends : m.State → CrawlSchedule → TrackedSource → Store → Option (Kind × State m) → Type 0
  Ends locks s source db o = IsDone m locks o ⊎ ((o ≡ none) × CreateRaises s source db)

  answered-Ends :
      (s : CrawlSchedule) (source : TrackedSource) (db : Store) (r : Result (CrawlRun × Bool))
      (st : State m)
      → (create_of m zone unavailable turn current s source db).0 ≡ r
      → IsPlanned s
      → Ends st.locks s source db (answered m zone unavailable turn current s source r st)
  answered-Ends s source db (err e) st h p =
      if_cases (Ends st.locks s source db) (is_implicit_io e) _ _
        (λ io. inr (refl, h ∙ ap err (implicit_only e io)))
        (λ _. inl (
          advanced-IsDone is_failed s
            (with_failed m zone unavailable turn current "schedule_dispatch_failed" s source st) p))
  answered-Ends s source db (ok (run, created)) st h p =
      inl (advanced-IsDone (if created then is_enqueued else is_deduplicated) s st p)

  acquired-Ends :
      (s : CrawlSchedule) (source : TrackedSource) (st : State m)
      → IsPlanned s
      → m.IsSound st.locks
      → (m.Held source.id st.locks ⊎ (¬ m.Held source.id st.locks))
      → Ends st.locks s source st.db (
          enqueue_with_source_lock m zone unavailable turn current s source
            (some (m.acquire source.id (turn s.id).token st.locks))
            st)
  acquired-Ends s source st p sound (inl held) =
      subst
        (λ a.
          Ends st.locks s source st.db
            (enqueue_with_source_lock m zone unavailable turn current s source (some a) st))
        (sym (m.acquire_held source.id (turn s.id).token st.locks held))
        (inl (record { kind = is_locked; after = _; done = refl; kept = refl }))
  acquired-Ends s source st p sound (inr free) =
      let (lock, locks, e, back) = m.acquire_free source.id (turn s.id).token st.locks sound free in
      let r = create_of m zone unavailable turn current s source st.db in
      subst
        (λ a.
          Ends st.locks s source st.db
            (enqueue_with_source_lock m zone unavailable turn current s source (some a) st))
        (sym e)
        (subst
          (λ l. Ends l s source st.db (
            enqueue_with_source_lock m zone unavailable turn current s source
              (some (some lock, locks)) st))
          back
          (answered-Ends s source st.db r.0 (record st { db = r.1; locks = m.release lock locks })
            refl p))

  -- A turn whose `acquire` raises is one of the failed.
  turn-Ends :
      (s : CrawlSchedule) (source : TrackedSource) (st : State m)
      → IsPlanned s
      → m.IsSound st.locks
      → (m.Held source.id st.locks ⊎ (¬ m.Held source.id st.locks))
      → Ends st.locks s source st.db (
          enqueue_with_source_lock m zone unavailable turn current s source
            (acquire_of m zone unavailable turn current s source st)
            st)
  turn-Ends s source st p sound held =
      if_cases
        (λ a.
          Ends st.locks s source st.db
            (enqueue_with_source_lock m zone unavailable turn current s source a st))
        (turn s.id).acquire_raises none (some (m.acquire source.id (turn s.id).token st.locks))
        (λ _. inl (
          advanced-IsDone is_failed s
            (with_failed m zone unavailable turn current "schedule_dispatch_failed" s source st) p))
        (λ _. acquired-Ends s source st p sound held)

  run_row-Ends :
      (s : CrawlSchedule) (source : TrackedSource) (st : State m)
      → IsPlanned s
      → m.IsSound st.locks
      → (m.Held source.id st.locks ⊎ (¬ m.Held source.id st.locks))
      → Ends st.locks s source st.db (run_row m zone unavailable turn current s source st)
  run_row-Ends s source st p sound held =
      if_cases (Ends st.locks s source st.db) unavailable _ _
        (λ _. inl (
          advanced-IsDone is_failed s
            (with_failed m zone unavailable turn current "browser_unavailable" s source st) p))
        (λ _. turn-Ends s source st p sound held)

  -- What a loop over these rows gives.
  abbrev pub RoundOutcome :
      List (CrawlSchedule × TrackedSource)
      → (counted due : ℕ) → State m
      → Option (Counts × State m)
      → Type 0
  RoundOutcome rows before due st none = SomeRaises rows st
  RoundOutcome rows before due st (some (d, after)) =
      (after.locks ≡ st.locks) × (total d ≡ before + length rows) × (d.due ≡ due)

  skipped-Outcome :
      (s : CrawlSchedule) (source : TrackedSource) (rows : List (CrawlSchedule × TrackedSource))
      (kind : Kind) (c : Counts) (st later : State m) (o : Option (Counts × State m))
      → run_row m zone unavailable turn current s source st ≡ some (kind, later)
      → later.locks ≡ st.locks
      → RoundOutcome rows (total (counted kind c)) (counted kind c).due later o
      → RoundOutcome ((s, source) ∷ rows) (total c) c.due st o
  skipped-Outcome s source rows kind c st later none done e h = inr (kind, later, done, h)
  skipped-Outcome s source rows kind c st later (some (d, after)) done e (k, n, u) =
      (k ∙ e, (let h = total-counted kind c in omega (arith)), u ∙ due-counted kind c)

  run_rows-Outcome :
      (rows : List (CrawlSchedule × TrackedSource)) (c : Counts) (st : State m)
      → All (λ (r : CrawlSchedule × TrackedSource). IsPlanned r.0) rows
      → m.IsSound st.locks
      → ((i : ℕ) → m.Held i st.locks ⊎ (¬ m.Held i st.locks))
      → RoundOutcome rows (total c) c.due st (run_rows m zone unavailable turn current rows c st)
  run_rows-Outcome [] c st p sound held = (refl, omega arith, refl)
  run_rows-Outcome ((s, source) ∷ rows) c st (p, ps) sound held =
      elim (run_row-Ends s source st p sound (held source.id)) [
        | inl r ↦
            subst
              (λ (o : Option (Kind × State m)).
                RoundOutcome ((s, source) ∷ rows) (total c) c.due st (elim o [
                  | none ↦ none
                  | some (kind, st1) ↦
                      run_rows m zone unavailable turn current rows (counted kind c) st1
                ]))
              (sym r.done)
              (skipped-Outcome s source rows r.kind c st r.after
                (run_rows m zone unavailable turn current rows (counted r.kind c) r.after) r.done
                r.kept
                (run_rows-Outcome rows (counted r.kind c) r.after ps
                  (subst m.IsSound (sym r.kept) sound)
                  (λ i. subst (λ l. m.Held i l ⊎ (¬ m.Held i l)) (sym r.kept) (held i))))
        | inr (e, raises) ↦
            subst
              (λ (o : Option (Kind × State m)).
                RoundOutcome ((s, source) ∷ rows) (total c) c.due st (elim o [
                  | none ↦ none
                  | some (kind, st1) ↦
                      run_rows m zone unavailable turn current rows (counted kind c) st1
                ]))
              (sym e) (inl raises)
      ]

  -- On a table of planned rows, with a forward time zone and sound locks, of which each is held or
  -- not: a round of the runner is left by an exception only if for one of the due rows, those with
  -- an active source, the creation of a run, on the tables that the turns before it have left, ends
  -- in the read of an expired row. Otherwise it ends, also where `acquire` raises, the locks are as
  -- they were, and the four counts add up to the number of due rows, which is the count `due`.
  pub enqueue_due-Outcome :
      (st : State m)
      → All IsPlanned st.schedules
      → m.IsSound st.locks
      → ((i : ℕ) → m.Held i st.locks ⊎ (¬ m.Held i st.locks))
      → RoundOutcome
          (due_rows current st.db.sources st.schedules)
          0
          (length (due_rows current st.db.sources st.schedules))
          st
          (enqueue_due m zone unavailable turn current st)
  unfolding enqueue_due
  enqueue_due-Outcome st ps sound held =
      let rows = due_rows current st.db.sources st.schedules in
      run_rows-Outcome rows
        (record { due = length rows; enqueued = 0; deduplicated = 0; locked = 0; failed = 0 }) st
        (sorted-IsPlanned (joined current st.db.sources st.schedules)
          (joined-IsPlanned current st.db.sources st.schedules ps))
        sound held

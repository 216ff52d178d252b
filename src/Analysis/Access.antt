-- ===== src/Analysis/Access.antt =====
-- Who sees which runs, and what a cancellation changes.
use wisdom_qj_auction_servic.Prelude.{
  ◌⊎◌, ℕ, Bool, not, if_cases, Option, ◌∙◌, ◌≡◌, ◌≢◌, refl, true, none, some, List, [], ◌∷◌, arith,
  where_, Option-cases, inl, inr,
}
use wisdom_qj_auction_servic.Prelude.Tables.{find, find_passes, updated}
use wisdom_qj_auction_servic.Models.{CrawlRun, TrackedSource, queued, cancelled}
use wisdom_qj_auction_servic.Runs.{has_id, is_queued, set_cancelled, cancelled_row}
use wisdom_qj_auction_servic.Runs.Uniqueness.{set_cancelled-row, set_cancelled-others}
use wisdom_qj_auction_servic.Analysis.{
  Result, ok, err, AnalysisError, cannot_cancel, dispatcher_error, Store, owned_by, owned_run, get,
  result, cancel, cancel_found,
}

-- The store with the runs of this user alone.
abbrev pub visible : (actor : ℕ) → Store → Store
visible actor db = record db { runs = where_ (owned_by actor db.sources) db.runs }

find-visible :
    (actor i : ℕ) (sources : List TrackedSource) (runs : List CrawlRun)
    → find (owned_run actor i sources) (where_ (owned_by actor sources) runs)
      ≡ find (owned_run actor i sources) runs
find-visible actor i sources [] = refl
find-visible actor i sources (r ∷ rs) = ground (arith, find-visible actor i sources rs)

-- Tenant isolation: the runs of other users have no influence on what `get` and `result` answer.
-- With all of them removed from the tables the answers are the same, so a run of another user
-- cannot be told from one that does not exist.
pub result-visible :
    (actor i : ℕ) (db : Store)
    → (get actor i (visible actor db) ≡ get actor i db)
      × (result actor i (visible actor db) ≡ result actor i db)
unfolding get result
result-visible actor i db = (same_get, ground (arith, same_get))
  where
    same_get : get actor i (visible actor db) ≡ get actor i db
    same_get = rw (get, find-visible actor i db.sources db.runs) refl

-- A row with the status and the time of a cancellation.
abbrev pub with_cancellation : (now : ℕ) → Option CrawlRun → Option CrawlRun
with_cancellation now none = none
with_cancellation now (some row) = some (record row { status = cancelled; finished_at = some now })

-- How a cancellation ends, where other transactions commit `others` between its read and its
-- write.
abbrev pub Cancelled :
    (others : Store → Store) (actor run_id now : ℕ) → Store → Result CrawlRun × Store → Type 0
Cancelled others actor run_id now db (ok r, after) =
    (old : CrawlRun) × (get actor run_id db ≡ ok old)
    × (old.status ≡ queued)
    × (r ≡ record old { status = cancelled; finished_at = some now })
    × (find (has_id run_id) after.runs
        ≡ with_cancellation now (find (has_id run_id) (others db).runs))
    × ((j : ℕ) → j ≢ run_id → find (has_id j) after.runs ≡ find (has_id j) (others db).runs)
Cancelled others actor run_id now db (err e, after) = after ≡ db

get_found :
    (actor i : ℕ) (db : Store) (r : CrawlRun)
    → get actor i db ≡ ok r
    → find (owned_run actor i db.sources) db.runs ≡ some r
unfolding get
get_found actor i db r h = elim (Option-cases (find (owned_run actor i db.sources) db.runs)) [
  | inl absent ↦ cc (rw (absent, get) at h)
  | inr (x, e) ↦ rw e (cc (rw (e, get) at h))
]

found_row :
    (actor i : ℕ) (db : Store) (r : CrawlRun)
    → find (owned_run actor i db.sources) db.runs ≡ some r
    → (r.id ≡ i) × (owned_by actor db.sources r ≡ true)
found_row actor i db r h = ground (arith, find_passes (owned_run actor i db.sources) db.runs r h)

cancelled_found :
    (i now : ℕ) (o : Option CrawlRun)
    → ((r : CrawlRun) → o ≡ some r → has_id i r ≡ true)
    → updated (has_id i) (cancelled_row now) o ≡ with_cancellation now o
cancelled_found i now none h = refl
cancelled_found i now (some r) h = rw (h r refl) refl

written :
    (i now : ℕ) (runs : List CrawlRun)
    → find (has_id i) (set_cancelled i now runs) ≡ with_cancellation now (find (has_id i) runs)
written i now runs =
    set_cancelled-row i now runs
    ∙ cancelled_found i now (find (has_id i) runs) (find_passes (has_id i) runs)

cancel_found-Cancelled :
    (others : Store → Store) (revoked : Bool) (actor i now : ℕ) (db : Store) (r : CrawlRun)
    → get actor i db ≡ ok r
    → Cancelled others actor i now db (cancel_found others revoked now r db)
cancel_found-Cancelled others revoked actor i now db r h =
    if_cases (Cancelled others actor i now db) (not (is_queued r.status)) (err cannot_cancel, db) _
      (λ _. refl)
      (λ waiting.
        if_cases (Cancelled others actor i now db) (not revoked) (err dispatcher_error, db) _
          (λ _. refl)
          (λ _.
            let (is_it, own) = found_row actor i db r (get_found actor i db r h) in
            (
              r,
              h,
              ground (arith),
              refl,
              rw is_it (written i now (others db).runs),
              λ j ne. set_cancelled-others r.id now j (others db).runs (rw is_it ne),
            )))

Result-cases :
    (x : Result CrawlRun) → ((r : CrawlRun) × (x ≡ ok r)) ⊎ ((e : AnalysisError) × (x ≡ err e))
Result-cases (ok r) = inl (r, refl)
Result-cases (err e) = inr (e, refl)

-- Whatever other transactions commit between its read and its write: a cancellation that succeeds
-- found a queued run of this user and answers that run with the status `cancelled` and the time. The
-- row of this id is the one that the others left, with that status and time, and every row of
-- another id is as the others left it. A cancellation that fails, for whatever reason, writes
-- nothing.
pub cancel-Cancelled :
    (others : Store → Store) (revoked : Bool) (now actor i : ℕ) (db : Store)
    → Cancelled others actor i now db (cancel others revoked now actor i db)
unfolding cancel
cancel-Cancelled others revoked now actor i db = elim (Result-cases (get actor i db)) [
  | inl (r, e) ↦ rw (e, cancel) (cancel_found-Cancelled others revoked actor i now db r e)
  | inr (x, e) ↦ rw (e, cancel) refl
]

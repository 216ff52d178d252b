-- ===== src/Runs/Lifecycle.antt =====
-- What any sequence of transactions can do to a run.
use Prim.Native.String.{String}
use wisdom_qj_auction_servic.Prelude.{
  ==_iff, ◌==◌, Option-cases, count, ℕ, ◌≡◌, refl, Bool, true, false, Option, none, some, List, [],
  ◌∷◌, arith, any, All, Bool-cases, inl, inr, ◌&&◌, if◌then◌else◌, ltb,
}
use wisdom_qj_auction_servic.Prelude.Texts.{Text}
use wisdom_qj_auction_servic.Prelude.Tables.{find, update_where}
use wisdom_qj_auction_servic.Models.{CrawlRun, TrackedSource, RunStatus, completed, partial, Stage}
use wisdom_qj_auction_servic.Runs.{
  has_id, insert_run, claim_run, claimable, claimed, update_progress, mark_run_terminal, finish_run,
  set_cancelled, set_queue_failed, is_queued, open_run, in_progress, progressed, failed_row,
  finished_row, cancelled_row, queue_failed_row, is_failure_status, existing_claim, running_claim,
}
use wisdom_qj_auction_servic.Runs.Uniqueness.{quiet_update, count-zero, IsValid, insert_run-IsValid}

-- One committed transaction on the run table, by any process.
pub data Op : Type 0 where
  insert : CrawlRun → Op
  claim : (run_id now : ℕ) → String → Op
  progress : (run_id : ℕ) → Stage → ℕ → String → Op
  fail : (run_id now : ℕ) → RunStatus → String → String → Stage → Op
  finish : (run_id captured_at : ℕ) → RunStatus → String → Op
  cancel queue_failed : (run_id now : ℕ) → Op

-- A transaction that is refused leaves the table alone.
abbrev pub or_unchanged : List CrawlRun → Option (List CrawlRun) → List CrawlRun
or_unchanged runs none = runs
or_unchanged runs (some after) = after

unfoldable pub apply : List TrackedSource → Op → List CrawlRun → List CrawlRun
apply sources (insert run) runs = or_unchanged runs (insert_run run runs)
apply sources (claim i now v) runs = (claim_run i now v sources runs).1
apply sources (progress i stage n v) runs = or_unchanged runs (update_progress i stage n v runs)
apply sources (fail i now status code v stage) runs =
    or_unchanged runs (mark_run_terminal i now status code v stage runs)
apply sources (finish i at status v) runs = finish_run i at status v runs
apply sources (cancel i now) runs = set_cancelled i now runs
apply sources (queue_failed i now) runs = set_queue_failed i now runs

unfoldable pub apply_all : List TrackedSource → List Op → List CrawlRun → List CrawlRun
apply_all sources [] runs = runs
apply_all sources (op ∷ ops) runs = apply_all sources ops (apply sources op runs)

-- `payload.status` is `completed` or `partial`.
abbrev pub is_result_status : RunStatus → Bool
is_result_status completed = true
is_result_status partial = true
is_result_status _ = false

abbrev pub IsProper : Op → Type 0
IsProper (finish i at status v) = is_result_status status ≡ true
IsProper _ = Unit

or_unchanged-IsValid :
    (runs : List CrawlRun) (o : Option (List CrawlRun))
    → IsValid runs
    → ((after : List CrawlRun) → o ≡ some after → IsValid after)
    → IsValid (or_unchanged runs o)
or_unchanged-IsValid runs none v h = v
or_unchanged-IsValid runs (some after) v h = h after refl

if-IsValid :
    (b : Bool) (runs after : List CrawlRun)
    → IsValid runs
    → (b ≡ true → IsValid after)
    → IsValid (or_unchanged runs (if b then some after else none))
if-IsValid true runs after v w = w refl
if-IsValid false runs after v w = v

-- Every transaction keeps the ids unique and at most one run of a source active.
pub apply-IsValid :
    (sources : List TrackedSource) (op : Op) (runs : List CrawlRun)
    → IsProper op
    → IsValid runs
    → IsValid (apply sources op runs)
unfolding apply claim_run update_progress mark_run_terminal finish_run set_cancelled
    set_queue_failed
apply-IsValid sources (insert run) runs p v =
    or_unchanged-IsValid runs (insert_run run runs) v (λ after. insert_run-IsValid run runs after v)
apply-IsValid sources (claim i now ver) runs p v =
    quiet_update (claimable i) (claimed now ver) runs (λ r c. ground arith) v
apply-IsValid sources (progress i stage n ver) runs p v =
    elim (Bool-cases (any (in_progress i) runs && ltb 100 n)) [
      | inl e ↦ rw e v
      | inr e ↦
          rw e (quiet_update (in_progress i) (progressed stage n ver) runs (λ r c. ground arith) v)
    ]
apply-IsValid sources (fail i now status code ver stage) runs p v =
    if-IsValid (is_failure_status status) runs _ v (λ e.
      quiet_update (open_run i) (failed_row now status code ver stage) runs (λ r c. ground arith) v)
apply-IsValid sources (finish i at status ver) runs p v =
    quiet_update (open_run i) (finished_row at status ver) runs (λ r c. ground arith) v
apply-IsValid sources (cancel i now) runs p v =
    quiet_update (has_id i) (cancelled_row now) runs (λ r c. ground arith) v
apply-IsValid sources (queue_failed i now) runs p v =
    quiet_update (has_id i) (queue_failed_row now) runs (λ r c. ground arith) v

abbrev pub AllProper : List Op → Type 0
AllProper ops = All IsProper ops

-- From a table in which ids are unique and each source has at most one active run, every sequence
-- of committed transactions, in any interleaving, leads to such a table again. (The saving
-- transactions end with the status `completed` or `partial`.)
pub apply_all-IsValid :
    (sources : List TrackedSource) (ops : List Op) (runs : List CrawlRun)
    → AllProper ops
    → IsValid runs
    → IsValid (apply_all sources ops runs)
unfolding apply_all
apply_all-IsValid sources [] runs p v = v
apply_all-IsValid sources (op ∷ ops) runs p v =
    apply_all-IsValid sources ops (apply sources op runs) p.1 (apply-IsValid sources op runs p.0 v)

-- A row of this id exists, and none can be claimed.
abbrev pub IsTaken : ℕ → List CrawlRun → Type 0
IsTaken i runs = (any (has_id i) runs ≡ true) × (any (claimable i) runs ≡ false)

update-IsTaken :
    (i : ℕ) (p : CrawlRun → Bool) (f : CrawlRun → CrawlRun) (runs : List CrawlRun)
    → ((r : CrawlRun)
        → p r ≡ true
        → ((f r).id ≡ r.id) × (is_queued (f r).status ≡ true → is_queued r.status ≡ true))
    → IsTaken i runs
    → IsTaken i (update_where p f runs)
update-IsTaken i p f runs q t = (any-has_id runs t.0, any-claimable runs t.1)
  where
    any-has_id :
        (rs : List CrawlRun)
        → any (has_id i) rs ≡ true
        → any (has_id i) (update_where p f rs) ≡ true
    any-has_id [] h = h
    any-has_id (r ∷ rs) h = ground (arith, any-has_id rs, q r)

    any-claimable :
        (rs : List CrawlRun)
        → any (claimable i) rs ≡ false
        → any (claimable i) (update_where p f rs) ≡ false
    any-claimable [] h = h
    any-claimable (r ∷ rs) h = ground (arith, any-claimable rs, q r)

insert_run-IsTaken :
    (i : ℕ) (run : CrawlRun) (runs : List CrawlRun)
    → IsTaken i runs
    → IsTaken i (or_unchanged runs (insert_run run runs))
unfolding insert_run
insert_run-IsTaken i run runs t = elim (Bool-cases (run.id == i)) [
  | inl same ↦ rw ((==_iff run.id i).0 same, t.0) t
  | inr other ↦ ground arith
]

progress-IsTaken :
    (i j : ℕ) (stage : Stage) (n : ℕ) (ver : String) (runs : List CrawlRun)
    → IsTaken i runs
    → IsTaken i (or_unchanged runs (update_progress j stage n ver runs))
unfolding update_progress
progress-IsTaken i j stage n ver runs t =
    elim (Bool-cases (any (in_progress j) runs && ltb 100 n)) [
      | inl e ↦ rw e t
      | inr e ↦
          rw e
            (update-IsTaken i (in_progress j) (progressed stage n ver) runs (λ r c. ground arith) t)
    ]

fail-IsTaken :
    (i j now : ℕ) (status : RunStatus) (code ver : String) (stage : Stage) (runs : List CrawlRun)
    → IsTaken i runs
    → IsTaken i (or_unchanged runs (mark_run_terminal j now status code ver stage runs))
unfolding mark_run_terminal
fail-IsTaken i j now status code ver stage runs t = elim (Bool-cases (is_failure_status status)) [
  | inl e ↦ rw e (
      update-IsTaken i (open_run j) (failed_row now status code ver stage) runs
        (λ r c. ground arith) t)
  | inr e ↦ rw e t
]

apply-IsTaken :
    (sources : List TrackedSource) (i : ℕ) (op : Op) (runs : List CrawlRun)
    → IsProper op
    → IsTaken i runs
    → IsTaken i (apply sources op runs)
unfolding apply claim_run finish_run set_cancelled set_queue_failed
apply-IsTaken sources i (insert run) runs p t = insert_run-IsTaken i run runs t
apply-IsTaken sources i (claim j now ver) runs p t =
    update-IsTaken i (claimable j) (claimed now ver) runs (λ r c. ground arith) t
apply-IsTaken sources i (progress j stage n ver) runs p t = progress-IsTaken i j stage n ver runs t
apply-IsTaken sources i (fail j now status code ver stage) runs p t =
    fail-IsTaken i j now status code ver stage runs t
apply-IsTaken sources i (finish j at status ver) runs p t =
    update-IsTaken i (open_run j) (finished_row at status ver) runs (λ r c. ground arith) t
apply-IsTaken sources i (cancel j now) runs p t =
    update-IsTaken i (has_id j) (cancelled_row now) runs (λ r c. ground arith) t
apply-IsTaken sources i (queue_failed j now) runs p t =
    update-IsTaken i (has_id j) (queue_failed_row now) runs (λ r c. ground arith) t

apply_all-IsTaken :
    (sources : List TrackedSource) (i : ℕ) (ops : List Op) (runs : List CrawlRun)
    → AllProper ops
    → IsTaken i runs
    → IsTaken i (apply_all sources ops runs)
unfolding apply_all
apply_all-IsTaken sources i [] runs p t = t
apply_all-IsTaken sources i (op ∷ ops) runs p t =
    apply_all-IsTaken sources i ops (apply sources op runs) p.1
      (apply-IsTaken sources i op runs p.0 t)

none_claimable :
    (i now : ℕ) (v : String) (runs : List CrawlRun)
    → any (claimable i) (update_where (claimable i) (claimed now v) runs) ≡ false
none_claimable i now v [] = refl
none_claimable i now v (r ∷ rs) = ground (arith, none_claimable i now v rs)

pub find-any :
    (p : CrawlRun → Bool) (runs : List CrawlRun) (r : CrawlRun)
    → find p runs ≡ some r
    → any p runs ≡ true
find-any p [] r h = cc
find-any p (x ∷ xs) r h = ground (arith, find-any p xs r)

existing_no_url : (o : Option CrawlRun) → (existing_claim o).source_url ≡ none
existing_no_url none = refl
existing_no_url (some r) = refl

absent_no_url :
    (b : Bool) (sources : List TrackedSource) (o : Option CrawlRun)
    → o ≡ none
    → (if b then running_claim o sources else existing_claim o).source_url ≡ none
absent_no_url b sources o e = ground arith

claim_run-IsTaken :
    (i now : ℕ) (v : String) (sources : List TrackedSource) (runs : List CrawlRun) (u : Text)
    → (claim_run i now v sources runs).0.source_url ≡ some u
    → IsTaken i (claim_run i now v sources runs).1
unfolding claim_run
claim_run-IsTaken i now v sources runs u h =
    let after = update_where (claimable i) (claimed now v) runs in
    elim (Option-cases (find (has_id i) after)) [
      | inl absent ↦ cc (h, absent_no_url (count (claimable i) runs == 1) sources _ absent)
      | inr (r, e) ↦ (find-any (has_id i) after r e, none_claimable i now v runs)
    ]

claim_taken :
    (i now : ℕ) (v : String) (sources : List TrackedSource) (runs : List CrawlRun)
    → IsTaken i runs
    → (claim_run i now v sources runs).0.source_url ≡ none
unfolding claim_run
claim_taken i now v sources runs t =
    let after = update_where (claimable i) (claimed now v) runs in
    rw (count-zero (claimable i) runs t.1) (existing_no_url (find (has_id i) after))

-- A run is handed out for execution at most once: after a claim that returned a URL, whatever
-- transactions follow (new runs, claims, progress, failures, saves with the status `completed` or
-- `partial`, cancellations), every later claim of the same run returns no URL.
pub claim_once :
    (i now : ℕ) (v : String) (sources : List TrackedSource) (runs : List CrawlRun) (u : Text)
    (ops : List Op) (later_now : ℕ) (w : String)
    → (claim_run i now v sources runs).0.source_url ≡ some u
    → AllProper ops
    → (claim_run i later_now w sources
        (apply_all sources ops (claim_run i now v sources runs).1)).0.source_url
      ≡ none
claim_once i now v sources runs u ops later_now w h p =
    claim_taken i later_now w sources (apply_all sources ops (claim_run i now v sources runs).1) (
      apply_all-IsTaken sources i ops (claim_run i now v sources runs).1 p
        (claim_run-IsTaken i now v sources runs u h))

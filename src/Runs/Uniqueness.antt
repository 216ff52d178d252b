-- ===== src/Runs/Uniqueness.antt =====
-- At most one active run for each source, and one row for each id.
use wisdom_qj_auction_servic.Prelude.{
  ◌≢◌, ℕ, ◌≡◌, ◌≤◌, refl, Bool, true, false, none, some, List, [], ◌∷◌, arith, ◌||◌, ◌&&◌, any,
  count, All,
}
use wisdom_qj_auction_servic.Prelude.Tables.{find, update_where, updated, find-update_where}
use wisdom_qj_auction_servic.Models.{CrawlRun, is_active_status}
use wisdom_qj_auction_servic.Runs.{
  cancelled_row, has_id, is_active_of, insert_run, set_cancelled, set_queue_failed, latest_run,
}

pub record IsValid (runs : List CrawlRun) : Type 0 where
  pub one_id : (i : ℕ) → count (has_id i) runs ≤ 1
  pub one_active : (s : ℕ) → count (is_active_of s) runs ≤ 1

pub count-zero {ℓ} : {A : Type ℓ} (p : A → Bool) (xs : List A) → any p xs ≡ false → count p xs ≡ 0
count-zero p [] h = refl
count-zero p (x ∷ xs) h = ground (arith, count-zero p xs)

pub any-zero {ℓ} : {A : Type ℓ} (p : A → Bool) (xs : List A) → count p xs ≡ 0 → any p xs ≡ false
any-zero p [] h = refl
any-zero p (x ∷ xs) h = ground (arith, any-zero p xs)

pub insert_run-IsValid :
    (run : CrawlRun) (runs runs' : List CrawlRun)
    → IsValid runs
    → insert_run run runs ≡ some runs'
    → IsValid runs'
unfolding insert_run
insert_run-IsValid run runs runs' v h = record {
  one_id = λ i. ground (arith, v.one_id i, count-zero (has_id run.id) runs);
  one_active = λ s. ground (arith, v.one_active s, count-zero (is_active_of run.source_id) runs);
}

-- A change that keeps the id and the source, and makes no row active that was not.
abbrev pub IsQuiet : (CrawlRun → CrawlRun) → CrawlRun → Type 0
IsQuiet f r =
    ((f r).id ≡ r.id)
    × ((f r).source_id ≡ r.source_id)
    × (is_active_status (f r).status ≡ true → is_active_status r.status ≡ true)

count-update_id :
    (p : CrawlRun → Bool) (f : CrawlRun → CrawlRun) (runs : List CrawlRun) (i : ℕ)
    → All (λ r. p r ≡ true → IsQuiet f r) runs
    → count (has_id i) (update_where p f runs) ≡ count (has_id i) runs
count-update_id p f [] i q = refl
count-update_id p f (r ∷ rs) i q = ground (arith, count-update_id p f rs i q.1, q.0)

count-update_active :
    (p : CrawlRun → Bool) (f : CrawlRun → CrawlRun) (runs : List CrawlRun) (s : ℕ)
    → All (λ r. p r ≡ true → IsQuiet f r) runs
    → count (is_active_of s) (update_where p f runs) ≤ count (is_active_of s) runs
count-update_active p f [] s q = omega arith
count-update_active p f (r ∷ rs) s q = ground (arith, count-update_active p f rs s q.1, q.0)

pub update-IsValid :
    (p : CrawlRun → Bool) (f : CrawlRun → CrawlRun) (runs : List CrawlRun)
    → All (λ r. p r ≡ true → IsQuiet f r) runs
    → IsValid runs
    → IsValid (update_where p f runs)
update-IsValid p f runs q v = record {
  one_id = λ i. omega (arith, v.one_id i, count-update_id p f runs i q);
  one_active = λ s. omega (arith, v.one_active s, count-update_active p f runs s q);
}

every {ℓ κ} : {A : Type ℓ} (P : A → Type κ) (xs : List A) → ((x : A) → P x) → All P xs
every P [] h = tt
every P (x ∷ xs) h = (h x, every P xs h)

-- Updates that keep ids and sources and activate nothing keep the table valid.
pub quiet_update :
    (p : CrawlRun → Bool) (f : CrawlRun → CrawlRun) (runs : List CrawlRun)
    → ((r : CrawlRun) → p r ≡ true → IsQuiet f r)
    → IsValid runs
    → IsValid (update_where p f runs)
quiet_update p f runs q v = update-IsValid p f runs (every (λ r. p r ≡ true → IsQuiet f r) runs q) v

-- What the query finds passes its test and is a row.
pub latest_run_passes :
    (p : CrawlRun → Bool) (runs : List CrawlRun) (x : CrawlRun)
    → latest_run p runs ≡ some x
    → p x ≡ true
unfolding latest_run
latest_run_passes p [] x h = cc
latest_run_passes p (r ∷ rs) x h = ground (arith, latest_run_passes p rs x)

pub latest_run-none :
    (p : CrawlRun → Bool) (runs : List CrawlRun) → latest_run p runs ≡ none → any p runs ≡ false
unfolding latest_run
latest_run-none p [] h = refl
latest_run-none p (r ∷ rs) h = ground (arith, latest_run-none p rs)

pub latest_run-absent :
    (p : CrawlRun → Bool) (runs : List CrawlRun) → any p runs ≡ false → latest_run p runs ≡ none
unfolding latest_run
latest_run-absent p [] h = refl
latest_run-absent p (r ∷ rs) h = ground (arith, latest_run-absent p rs)

pub latest_run-cons_only :
    (p : CrawlRun → Bool) (r : CrawlRun) (runs : List CrawlRun)
    → p r ≡ true
    → any p runs ≡ false
    → latest_run p (r ∷ runs) ≡ some r
unfolding latest_run
latest_run-cons_only p r runs h none_active = rw (latest_run-absent p runs none_active, h) refl

-- What an accepted INSERT of an active run says of the table before it.
pub insert_run-some :
    (run : CrawlRun) (runs runs' : List CrawlRun)
    → insert_run run runs ≡ some runs'
    → (runs' ≡ run ∷ runs)
      × (any (has_id run.id) runs ≡ false)
      × (is_active_status run.status ≡ true → any (is_active_of run.source_id) runs ≡ false)
unfolding insert_run
insert_run-some run runs runs' h = ground arith

-- A refused INSERT of a run.
pub insert_run-none :
    (run : CrawlRun) (runs : List CrawlRun)
    → insert_run run runs ≡ none
    → (any (has_id run.id) runs
        || (is_active_status run.status && any (is_active_of run.source_id) runs))
      ≡ true
unfolding insert_run
insert_run-none run runs h = ground arith

pub set_queue_failed-ends :
    (i t : ℕ) (runs : List CrawlRun)
    → any (λ r. has_id i r && is_active_status r.status) (set_queue_failed i t runs) ≡ false
unfolding set_queue_failed
set_queue_failed-ends i t [] = refl
set_queue_failed-ends i t (r ∷ rs) = ground (arith, set_queue_failed-ends i t rs)

-- The row of this id after a cancellation.
pub set_cancelled-row :
    (i now : ℕ) (runs : List CrawlRun)
    → find (has_id i) (set_cancelled i now runs)
      ≡ updated (has_id i) (cancelled_row now) (find (has_id i) runs)
unfolding set_cancelled
set_cancelled-row i now runs =
    find-update_where (has_id i) (has_id i) (cancelled_row now) runs (λ r. refl)

pub set_cancelled-others :
    (i now j : ℕ) (runs : List CrawlRun)
    → j ≢ i
    → find (has_id j) (set_cancelled i now runs) ≡ find (has_id j) runs
unfolding set_cancelled
set_cancelled-others i now j [] h = refl
set_cancelled-others i now j (x ∷ xs) h = ground (arith, set_cancelled-others i now j xs h)

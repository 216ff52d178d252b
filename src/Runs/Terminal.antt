-- ===== src/Runs/Terminal.antt =====
-- A run that has ended stays as it is.
use wisdom_qj_auction_servic.Prelude.{
  ℕ, ◌≡◌, refl, Bool, true, false, some, List, [], ◌∷◌, arith, any, All, Bool-cases, inl, inr, ◌&&◌,
  ◌==◌, ==_iff, ltb,
}
use wisdom_qj_auction_servic.Prelude.Tables.{find, update_where}
use wisdom_qj_auction_servic.Models.{CrawlRun, TrackedSource, is_terminal_status}
use wisdom_qj_auction_servic.Runs.{
  has_id, insert_run, claim_run, claimable, claimed, update_progress, mark_run_terminal, finish_run,
  open_run, in_progress, progressed, failed_row, finished_row, is_failure_status,
}
use wisdom_qj_auction_servic.Runs.Lifecycle.{
  Op, insert, claim, progress, fail, finish, cancel, queue_failed, or_unchanged, apply, apply_all,
  find-any,
}

-- The row of this id is `r`.
abbrev pub IsRow : ℕ → CrawlRun → List CrawlRun → Type 0
IsRow i r runs = find (has_id i) runs ≡ some r

-- Every transaction but the two unconditional writes of the analysis service, which tests the
-- status before it (`cancel`) or has just inserted the row (`queue_failed`).
abbrev pub IsGuarded : Op → Type 0
IsGuarded (cancel i now) = ⊥
IsGuarded (queue_failed i now) = ⊥
IsGuarded _ = Unit

first_row :
    (i : ℕ) (r x : CrawlRun) (xs : List CrawlRun) → has_id i x ≡ true → IsRow i r (x ∷ xs) → x ≡ r
first_row i r x xs e h = cc (rw e at h)

off_at : (x r : CrawlRun) (p : CrawlRun → Bool) → p r ≡ false → x ≡ r → p x ≡ false
off_at x r p off e = rw e off

update-IsRow :
    (i : ℕ) (r : CrawlRun) (p : CrawlRun → Bool) (f : CrawlRun → CrawlRun) (runs : List CrawlRun)
    → ((x : CrawlRun) → (f x).id ≡ x.id)
    → p r ≡ false
    → IsRow i r runs
    → IsRow i r (update_where p f runs)
update-IsRow i r p f [] keep off h = h
update-IsRow i r p f (x ∷ xs) keep off h = elim (Bool-cases (has_id i x)) [
  | inl e ↦
      let off_here : p x ≡ false = off_at x r p off (first_row i r x xs e h) in
      ground (arith, off_here)
  | inr e ↦ ground (arith, update-IsRow i r p f xs keep off, keep x)
]

insert-IsRow :
    (i : ℕ) (r run : CrawlRun) (runs : List CrawlRun)
    → IsRow i r runs
    → IsRow i r (or_unchanged runs (insert_run run runs))
unfolding insert_run
insert-IsRow i r run runs h = elim (Bool-cases (run.id == i)) [
  | inl same ↦ rw ((==_iff run.id i).0 same, find-any (has_id i) runs r h) h
  | inr other ↦ ground arith
]

module _ (sources : List TrackedSource) (i : ℕ) (r : CrawlRun)
    (ended : is_terminal_status r.status ≡ true) where
  apply-IsRow :
      (op : Op) (runs : List CrawlRun)
      → IsGuarded op
      → IsRow i r runs
      → IsRow i r (apply sources op runs)
  unfolding apply claim_run finish_run update_progress mark_run_terminal
  apply-IsRow (insert run) runs g h = insert-IsRow i r run runs h
  apply-IsRow (claim j now ver) runs g h =
      update-IsRow i r (claimable j) (claimed now ver) runs (λ x. refl) (ground arith) h
  apply-IsRow (progress j stage n ver) runs g h =
      elim (Bool-cases (any (in_progress j) runs && ltb 100 n)) [
        | inl e ↦ rw e h
        | inr e ↦ rw e (
            update-IsRow i r (in_progress j) (progressed stage n ver) runs (λ x. refl)
              (ground arith) h)
      ]
  apply-IsRow (fail j now status code ver stage) runs g h =
      elim (Bool-cases (is_failure_status status)) [
        | inl e ↦ rw e (
            update-IsRow i r (open_run j) (failed_row now status code ver stage) runs (λ x. refl)
              (ground arith) h)
        | inr e ↦ rw e h
      ]
  apply-IsRow (finish j at status ver) runs g h =
      update-IsRow i r (open_run j) (finished_row at status ver) runs (λ x. refl) (ground arith) h
  apply-IsRow (cancel j now) runs g h = absurd g
  apply-IsRow (queue_failed j now) runs g h = absurd g

  -- A run whose status is terminal keeps its whole row, status, error code and times included,
  -- under every sequence of insertions, claims, progress reports, failures and saves.
  pub terminal_frozen :
      (ops : List Op) (runs : List CrawlRun)
      → All IsGuarded ops
      → IsRow i r runs
      → IsRow i r (apply_all sources ops runs)
  unfolding apply_all
  terminal_frozen [] runs g h = h
  terminal_frozen (op ∷ ops) runs g h =
      terminal_frozen ops (apply sources op runs) g.1 (apply-IsRow op runs g.0 h)

-- ===== src/Runs/Tests.antt =====
-- Small run tables, and the theorems about runs at concrete inputs.
use wisdom_qj_auction_servic.Prelude.{◌≡◌, refl, none, List, [], ◌∷◌}
use wisdom_qj_auction_servic.Prelude.Texts.{codes}
use wisdom_qj_auction_servic.Models.{queued, completed, failed, details, save}
use wisdom_qj_auction_servic.Runs.{claim_run}
use wisdom_qj_auction_servic.Runs.Samples.{source, run_at, table, table-IsValid}
use wisdom_qj_auction_servic.Runs.Uniqueness.{IsValid}
use wisdom_qj_auction_servic.Runs.Lifecycle.{
  Op, insert, claim, progress, fail, finish, apply_all, apply_all-IsValid, claim_once,
}
use wisdom_qj_auction_servic.Runs.Terminal.{IsRow, terminal_frozen}

abbrev history : List Op
history =
    claim 2 50 "v1"
    ∷ progress 2 details 40 "v1"
    ∷ insert (run_at 3 queued)
    ∷ finish 2 60 completed "v1"
    ∷ fail 2 61 failed "late" "v1" save
    ∷ insert (run_at 4 queued)
    ∷ []

apply_all-IsValid_example : IsValid (apply_all (source ∷ []) history table)
apply_all-IsValid_example =
    apply_all-IsValid (source ∷ []) history table (tt, (tt, (tt, (refl, (tt, (tt, tt))))))
      table-IsValid

claim_once_example :
    (claim_run 2 99 "v2"
      (source ∷ [])
      (apply_all (source ∷ []) history (claim_run 2 40 "v1" (source ∷ []) table).1)).0.source_url
    ≡ none
unfolding claim_run
claim_once_example =
    claim_once 2 40 "v1" (source ∷ []) table (codes "https://fin.land.naver.com/complexes/1")
      history 99 "v2" refl (tt, (tt, (tt, (refl, (tt, (tt, tt))))))

terminal_frozen_example : IsRow 1 (run_at 1 completed) (apply_all (source ∷ []) history table)
terminal_frozen_example =
    terminal_frozen (source ∷ []) 1 (run_at 1 completed) refl history table
      (tt, (tt, (tt, (tt, (tt, (tt, tt)))))) refl

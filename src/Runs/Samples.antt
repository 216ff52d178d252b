-- ===== src/Runs/Samples.antt =====
-- Sample rows of the run table.
use wisdom_qj_auction_servic.Prelude.{ℕ, true, none, List, [], ◌∷◌, arith}
use wisdom_qj_auction_servic.Prelude.Texts.{codes}
use wisdom_qj_auction_servic.Models.{
  CrawlRun, TrackedSource, RunStatus, queued, completed, url, normal,
}
use wisdom_qj_auction_servic.Runs.Uniqueness.{IsValid}

abbrev pub source : TrackedSource
source = record {
  id = 7;
  source_url = codes "https://fin.land.naver.com/complexes/1";
  normalized_url = codes "https://fin.land.naver.com/complexes/1";
  url_hash = codes "h1";
  owner_user_id = 3;
  naver_complex_id = none;
  created_at = 0;
  is_active = true;
}

abbrev pub run_at : ℕ → RunStatus → CrawlRun
run_at id status = record {
  id = id;
  source_id = 7;
  status = status;
  stage = url;
  progress = 0;
  created_at = id;
  started_at = none;
  finished_at = none;
  error_code = none;
  selector_version = none;
  collect_broker_details = true;
  interaction_delay_preset = normal;
}

abbrev pub table : List CrawlRun
table = run_at 2 queued ∷ run_at 1 completed ∷ []

pub table-IsValid : IsValid table
table-IsValid = record { one_id = λ i. ground arith; one_active = λ s. ground arith }

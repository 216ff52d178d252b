-- ===== src/Persistence/Samples.antt =====
-- Tables in which a source has one active listing, and the payload of a run that finds another.
use wisdom_qj_auction_servic.Prelude.{◌++◌, false, none, some, List, [], ◌∷◌}
use wisdom_qj_auction_servic.Prelude.Texts.{Text, codes}
use wisdom_qj_auction_servic.Models.{CrawlRun, completed, running}
use wisdom_qj_auction_servic.Runs.Samples.{source, run_at}
use wisdom_qj_auction_servic.Listings.Identity.{Part, text, Hashing}
use wisdom_qj_auction_servic.Persistence.Rows.{
  Store, World, CrawlPayload, ListingDetail, BrokerArticleDetail, ListingSnapshot,
}
use wisdom_qj_auction_servic.Persistence.Comparables.{no_info}
use wisdom_qj_auction_servic.Persistence.Apartments.{new_apartment}
use wisdom_qj_auction_servic.Persistence.Brokers.{new_article}
use wisdom_qj_auction_servic.Persistence.Groups.{new_state, new_group}

-- The texts one after the other stand for the hash of the parts.
abbrev digest : List Part → Text
digest [] = []
digest (text (some s) ∷ ps) = s ++ 0 ∷ digest ps
digest (_ ∷ ps) = 0 ∷ digest ps

abbrev pub hashing : Hashing
hashing = record { nfkc = λ s. s; digest = digest }

abbrev pub world : World
world = record {
  hashing = hashing;
  hash_text = λ s. s;
  safe_url = some;
  aggregate = λ ds. no_info;
  normalize_details = λ d. d;
  apartment_json = λ d details. details;
  stored_area = λ a. a;
}

abbrev pub detail : BrokerArticleDetail
detail = record {
  article_id = codes "a2";
  article_url = none;
  provider = codes "p";
  is_npay = false;
  management_fee = none;
  loan_description = none;
  room_count = none;
  bathroom_count = none;
  move_in_date = none;
  description = [];
  option_tags = [];
  warnings = [];
  verified_at = none;
  captured_at = 50;
  details_json = [];
}

abbrev pub listing : ListingDetail
listing = record {
  trade_type = codes "rent";
  price = some 10;
  deposit = none;
  monthly_rent = none;
  building = none;
  floor = none;
  direction = none;
  supply_area = none;
  exclusive_area = some 590000;
  broker_articles = detail ∷ [];
  market_details = none;
  warnings = [];
  captured_at = 50;
}

abbrev pub payload : CrawlPayload
payload = record {
  status = completed;
  apartment = record {
    complex_id = codes "c1";
    name = codes "n";
    address = codes "addr";
    details = [];
    captured_at = 50;
  };
  listings = listing ∷ [];
  warnings = [];
  captured_at = 50;
}

abbrev pub run : CrawlRun
run = run_at 2 running

abbrev pub snapshot : ListingSnapshot
snapshot = record {
  id = 12;
  run_id = 1;
  listing_group_id = 10;
  trade_type = codes "sale";
  price = some 10;
  deposit = none;
  monthly_rent = none;
  building = none;
  floor = none;
  direction = none;
  supply_area = none;
  exclusive_area = some 590000;
  status = none;
  captured_at = 5;
}

abbrev pub tables : Store
tables = record {
  runs = run ∷ run_at 1 completed ∷ [];
  sources = source ∷ [];
  apartments = new_apartment 20 payload.apartment [] 5 ∷ [];
  apartment_snapshots = [];
  groups = new_group 10 20 (codes "old") 5 ∷ [];
  states = new_state 11 7 10 5 ∷ new_state 13 8 10 5 ∷ [];
  snapshots = snapshot ∷ [];
  aggregates = [];
  articles = new_article 14 10 (record detail { article_id = codes "a1" }) [] 5 ∷ [];
  article_snapshots = [];
  market_details = [];
  events = [];
  preferences = [];
  notifications = [];
  next_id = 100;
}

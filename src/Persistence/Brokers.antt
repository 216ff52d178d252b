-- ===== src/Persistence/Brokers.antt =====
-- `_store_brokers` and `_store_market_details` of backend/app/services/persistence_service.py.
-- A violated unique constraint is raised where the row is added.
use wisdom_qj_auction_servic.Prelude.{
  ◌++◌, ℕ, Bool, Option, none, some, List, [], ◌∷◌, ◌&&◌, ◌==◌, not, any, if◌then◌else◌,
}
use wisdom_qj_auction_servic.Prelude.Texts.{Text, text_eq, codes}
use wisdom_qj_auction_servic.Prelude.Tables.{find, update_where}
use wisdom_qj_auction_servic.Prelude.Words.{text_lt}
use wisdom_qj_auction_servic.Models.{Details}
use wisdom_qj_auction_servic.Persistence.Rows.{
  World, Store, M, ◌>>=◌, ◌>>◌, return, raise, write, draw_id, integrity_error,
  unsafe_article_target, article_group_conflict, ListingDetail, BrokerArticle, BrokerArticleDetail,
  BrokerArticleSnapshot, MarketDetails,
}
use wisdom_qj_auction_servic.Persistence.Writes.{Context, reject, refuse, insert_or_requery}

-- `sorted(articles, key=article_id)`, stable.
abbrev pub insert_article :
    BrokerArticleDetail → List BrokerArticleDetail → List BrokerArticleDetail
insert_article x [] = x ∷ []
insert_article x (y ∷ ys) =
    let rest = insert_article x ys in
    if text_lt y.article_id x.article_id then y ∷ rest else x ∷ y ∷ ys

abbrev pub sort_articles : List BrokerArticleDetail → List BrokerArticleDetail
sort_articles [] = []
sort_articles (x ∷ xs) = insert_article x (sort_articles xs)

abbrev pub href_of : BrokerArticleDetail → Text
href_of d = elim d.article_url [ some (c ∷ s) ↦ c ∷ s | _ ↦ codes "/articles/" ++ d.article_id ]

abbrev pub article_named : Text → Store → Option BrokerArticle
article_named article_id db = find (λ a. text_eq a.naver_article_id article_id) db.articles

abbrev pub new_article : (id group_id : ℕ) → BrokerArticleDetail → Text → ℕ → BrokerArticle
new_article id group_id d url captured_at = record {
  id = id;
  listing_group_id = group_id;
  naver_article_id = d.article_id;
  provider = d.provider;
  is_npay = d.is_npay;
  article_url = url;
  first_seen_at = captured_at;
  last_seen_at = captured_at;
}

abbrev pub seen_article : BrokerArticleDetail → Text → ℕ → BrokerArticle → BrokerArticle
seen_article d url captured_at a = record a {
  provider = d.provider;
  is_npay = d.is_npay;
  article_url = url;
  last_seen_at = captured_at;
}

abbrev pub description_hash : World → Text → Option Text
description_hash w [] = none
description_hash w (c ∷ s) = some (w.hash_text (c ∷ s))

abbrev pub article_snapshot :
    World → (run_id article_id : ℕ) → BrokerArticleDetail → BrokerArticleSnapshot
article_snapshot w run_id article_id d = record {
  run_id = run_id;
  broker_article_id = article_id;
  details_json = d.details_json;
  description_hash = description_hash w d.description;
  verified_at = d.verified_at;
  captured_at = d.captured_at;
}

abbrev pub has_article_row : BrokerArticleSnapshot → Store → Bool
has_article_row s db =
    any (λ t. t.run_id == s.run_id && t.broker_article_id == s.broker_article_id)
      db.article_snapshots

abbrev pub add_article_row : BrokerArticleSnapshot → Store → Store
add_article_row s db = record db { article_snapshots = s ∷ db.article_snapshots }

abbrev pub add_article_snapshot : BrokerArticleSnapshot → M (Unit {0})
add_article_snapshot s = do refuse (has_article_row s) integrity_error; write (add_article_row s)

-- The article of one iteration, found or added.
abbrev pub article_for :
    (group_id captured_at : ℕ)
    → BrokerArticleDetail
    → (url : Text) → Option BrokerArticle
    → M BrokerArticle
article_for group_id captured_at d url (some a) = return a
article_for group_id captured_at d url none = do
  id ← draw_id
  (a, _) ←
      insert_or_requery (new_article id group_id d url captured_at) (article_named d.article_id)
        (λ c db. record db { articles = c ∷ db.articles })
  return a

abbrev pub update_article :
    Context → BrokerArticleDetail → (url : Text) → BrokerArticle → M (Unit {0})
update_article c d url a = write (λ db. record db {
  articles = update_where (λ b. b.id == a.id) (seen_article d url c.captured_at) db.articles;
})

abbrev pub store_broker_at :
    World
    → Context
    → (group_id : ℕ) → BrokerArticleDetail
    → Option Text
    → Option BrokerArticle
    → M (Unit {0})
store_broker_at w c group_id d none found = raise unsafe_article_target
store_broker_at w c group_id d (some url) found = do
  a ← article_for group_id c.captured_at d url found
  reject (not (a.listing_group_id == group_id)) article_group_conflict
  update_article c d url a
  add_article_snapshot (article_snapshot w c.run.id a.id d)

abbrev pub store_broker : World → Context → (group_id : ℕ) → BrokerArticleDetail → M (Unit {0})
store_broker w c group_id d db =
    store_broker_at w c group_id d (w.safe_url (href_of d)) (article_named d.article_id db) db

abbrev pub store_each : World → Context → (group_id : ℕ) → List BrokerArticleDetail → M (Unit {0})
store_each w c group_id [] = return tt
store_each w c group_id (d ∷ ds) = store_broker w c group_id d >> store_each w c group_id ds

-- `_store_brokers`
abbrev pub store_brokers : World → Context → (group_id : ℕ) → ListingDetail → M (Unit {0})
store_brokers w c group_id l = store_each w c group_id (sort_articles l.broker_articles)

abbrev pub or_absent : Details → Option Details
or_absent [] = none
or_absent (e ∷ es) = some (e ∷ es)

abbrev pub add_market_row : (snapshot_id : ℕ) → MarketDetails → Store → Store
add_market_row snapshot_id m db = record db {
  market_details =
      record {
        listing_snapshot_id = snapshot_id;
        finance_json = m.finance;
        transactions_json = m.transactions;
        costs_json = m.costs;
        maintenance_json = m.maintenance;
        location = m.location;
        complex = or_absent m.complex;
        extra = or_absent m.extra_fields;
      }
      ∷ db.market_details;
}

-- `_store_market_details`
abbrev pub store_market_details : (snapshot_id : ℕ) → Option MarketDetails → M (Unit {0})
store_market_details snapshot_id none = return tt
store_market_details snapshot_id (some m) = write (add_market_row snapshot_id m)

-- ===== src/Persistence/Kept/Steps.antt =====
-- Each part of the transaction of backend/app/services/persistence_service.py keeps what it must.
use wisdom_qj_auction_servic.Prelude.{
  ℕ, ◌+◌, ◌≡◌, refl, false, not, Option, none, some, List, [], ◌∷◌, arith, ◌==◌, any,
}
use wisdom_qj_auction_servic.Prelude.Texts.{Text}
use wisdom_qj_auction_servic.Models.{RunStatus, EventType}
use wisdom_qj_auction_servic.Listings.Compare.{JsonValue}
use wisdom_qj_auction_servic.Notifications.{ChangeEvent}
use wisdom_qj_auction_servic.Persistence.Rows.{
  Store, World, write, integrity_error, SourceListingState, BrokerArticle, BrokerArticleDetail,
  BrokerArticleSnapshot, MarketDetails, ListingDetail, unsafe_article_target,
  article_group_conflict,
}
use wisdom_qj_auction_servic.Persistence.Records.{is_state_of}
use wisdom_qj_auction_servic.Persistence.Writes.{
  Context, insert_or_requery, requeried, add_event, add_event_row, change_event, notify,
}
use wisdom_qj_auction_servic.Persistence.Brokers.{
  article_for, article_named, new_article, add_article_snapshot, article_snapshot, update_article,
  add_article_row, has_article_row, add_market_row, store_broker, store_broker_at, store_each,
  store_brokers, sort_articles, href_of, store_market_details,
}
use wisdom_qj_auction_servic.Persistence.Groups.{add_state, set_state, new_state}
use wisdom_qj_auction_servic.Persistence.Kept.{
  Kept, Keeps, Holds, plain_Keeps, raise-Keeps, bind_Keeps, unchanged_Kept, return-Keeps,
  reject-Keeps, draw_Keeps, refuse-Keeps, refuse_then_Keeps, states_refl,
}
use wisdom_qj_auction_servic.Persistence.Kept.Rows.{
  IsUpdate, update_KeepsStates, add_KeepsStates, add_KeepsHomes, update_KeepsHomes,
}

module _ (c : Context) (known : Type 0) (status : RunStatus) where
  added_state :
      {k : ℕ} (group_id id : ℕ) (db : Store)
      → any (is_state_of c.source.id group_id) db.states ≡ false
      → Kept known status k k db
          (record db { states = new_state id c.source.id group_id c.captured_at ∷ db.states })
  added_state group_id id db n = record {
    runs = refl;
    events = refl;
    homes = λ i g e. e;
    states =
        add_KeepsStates known c.source.id status (new_state id c.source.id group_id c.captured_at)
          db.states refl (refl, refl) refl n;
  }

  pub add_state-Keeps :
      {k : ℕ} (group_id : ℕ) → Keeps known status k (λ _. k) (add_state c group_id)
  add_state-Keeps group_id = bind_Keeps draw_Keeps λ id.
      refuse_then_Keeps (λ db. any (is_state_of c.source.id group_id) db.states) integrity_error _
        (added_state group_id id)

  pub set_state-Keeps :
      {k : ℕ} (state_id : ℕ) (f : SourceListingState → SourceListingState)
      → IsUpdate known status f
      → Keeps known status k (λ _. k) (set_state state_id f)
  set_state-Keeps state_id f u = plain_Keeps _ λ db. record {
    runs = refl;
    events = refl;
    homes = λ i g e. e;
    states = update_KeepsStates known state_id status f u db.states;
  }

  added_article :
      (k group_id id : ℕ) (d : BrokerArticleDetail) (url : Text) (db : Store)
      (o : Option BrokerArticle)
      → article_named d.article_id db ≡ o
      → Holds known status k
          (λ _. k)
          db
          (requeried
            (new_article id group_id d url c.captured_at)
            (λ a db. record db { articles = a ∷ db.articles })
            o
            db)
  added_article k group_id id d url db none h = record {
    runs = refl;
    events = refl;
    homes = add_KeepsHomes (new_article id group_id d url c.captured_at) db.articles h;
    states = states_refl known status db.states;
  }
  added_article k group_id id d url db (some a) h = unchanged_Kept db db refl refl refl refl

  requery_Keeps :
      {k : ℕ} (group_id id : ℕ) (d : BrokerArticleDetail) (url : Text)
      → Keeps known status k
          (λ _. k)
          (insert_or_requery
            (new_article id group_id d url c.captured_at)
            (article_named d.article_id)
            (λ a db. record db { articles = a ∷ db.articles }))
  requery_Keeps {k = k} group_id id d url = record {
    holds = λ db. added_article k group_id id d url db (article_named d.article_id db) refl;
  }

  article_for-Keeps :
      {k : ℕ} (group_id : ℕ) (d : BrokerArticleDetail) (url : Text) (found : Option BrokerArticle)
      → Keeps known status k (λ _. k) (article_for group_id c.captured_at d url found)
  article_for-Keeps group_id d url (some a) = return-Keeps a refl
  article_for-Keeps group_id d url none =
      bind_Keeps draw_Keeps
        λ id. bind_Keeps (requery_Keeps group_id id d url) λ p. return-Keeps p.0 refl

  update_article-Keeps :
      {k : ℕ} (d : BrokerArticleDetail) (url : Text) (a : BrokerArticle)
      → Keeps known status k (λ _. k) (update_article c d url a)
  update_article-Keeps d url a = plain_Keeps _ λ db. record {
    runs = refl;
    events = refl;
    homes = update_KeepsHomes (λ b. b.id == a.id) d url c.captured_at db.articles;
    states = states_refl known status db.states;
  }

  add_article_snapshot-Keeps :
      {k : ℕ} (s : BrokerArticleSnapshot) → Keeps known status k (λ _. k) (add_article_snapshot s)
  add_article_snapshot-Keeps s = bind_Keeps (refuse-Keeps (has_article_row s) integrity_error) λ _.
      plain_Keeps (add_article_row s)
        λ db. unchanged_Kept db (add_article_row s db) refl refl refl refl

  store_broker_at-Keeps :
      {k : ℕ} (w : World) (group_id : ℕ) (d : BrokerArticleDetail) (url : Option Text)
      (found : Option BrokerArticle)
      → Keeps known status k (λ _. k) (store_broker_at w c group_id d url found)
  store_broker_at-Keeps w group_id d none found = raise-Keeps unsafe_article_target
  store_broker_at-Keeps w group_id d (some url) found =
      bind_Keeps (article_for-Keeps group_id d url found) λ a.
        bind_Keeps (reject-Keeps (not (a.listing_group_id == group_id)) article_group_conflict) λ _.
          bind_Keeps (update_article-Keeps d url a)
            λ _. add_article_snapshot-Keeps (article_snapshot w c.run.id a.id d)

  store_broker-Keeps :
      {k : ℕ} (w : World) (group_id : ℕ) (d : BrokerArticleDetail)
      → Keeps known status k (λ _. k) (store_broker w c group_id d)
  store_broker-Keeps w group_id d = record {
    holds = λ db.
        (store_broker_at-Keeps w group_id d (w.safe_url (href_of d))
            (article_named d.article_id db)).holds
          db;
  }

  store_each-Keeps :
      {k : ℕ} (w : World) (group_id : ℕ) (ds : List BrokerArticleDetail)
      → Keeps known status k (λ _. k) (store_each w c group_id ds)
  store_each-Keeps w group_id [] = return-Keeps tt refl
  store_each-Keeps w group_id (d ∷ ds) =
      bind_Keeps (store_broker-Keeps w group_id d) λ _. store_each-Keeps w group_id ds

  pub store_brokers-Keeps :
      {k : ℕ} (w : World) (group_id : ℕ) (l : ListingDetail)
      → Keeps known status k (λ _. k) (store_brokers w c group_id l)
  store_brokers-Keeps w group_id l = store_each-Keeps w group_id (sort_articles l.broker_articles)

  pub store_market_details-Keeps :
      {k : ℕ} (snapshot_id : ℕ) (m : Option MarketDetails)
      → Keeps known status k (λ _. k) (store_market_details snapshot_id m)
  store_market_details-Keeps snapshot_id none = return-Keeps tt refl
  store_market_details-Keeps snapshot_id (some m) =
      plain_Keeps (add_market_row snapshot_id m)
        λ db. unchanged_Kept db (add_market_row snapshot_id m db) refl refl refl refl

  add_event_row-Keeps :
      {k : ℕ} (event : ChangeEvent) (before after : Option (List (Text × JsonValue)))
      → Keeps known status k (λ _. k + 1) (write (add_event_row event before after))
  add_event_row-Keeps event before after = record {
    holds = λ db. record {
      runs = refl;
      events = omega arith;
      homes = λ i g e. e;
      states = states_refl known status db.states;
    };
  }

  notify-Keeps :
      {k : ℕ} (id : ℕ) (event : ChangeEvent)
      → Keeps known status k (λ _. k) (write (notify c id event))
  notify-Keeps id event =
      plain_Keeps (notify c id event)
        λ db. unchanged_Kept db (notify c id event db) refl refl refl refl

  -- An event is counted.
  pub add_event-Keeps :
      {k : ℕ} (group_id : ℕ) (event_type : EventType) (changed_fields : List Text)
      (before after : Option (List (Text × JsonValue)))
      → Keeps known status k
          (λ _. k + 1)
          (add_event c group_id event_type changed_fields before after)
  add_event-Keeps group_id event_type changed_fields before after = bind_Keeps draw_Keeps λ id.
      bind_Keeps draw_Keeps λ notification_id.
        bind_Keeps
          (add_event_row-Keeps (change_event id c group_id event_type changed_fields) before after)
          λ _. notify-Keeps notification_id (change_event id c group_id event_type changed_fields)

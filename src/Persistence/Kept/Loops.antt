-- ===== src/Persistence/Kept/Loops.antt =====
-- The loop of `persist` over the listings keeps what each part keeps, and counts the events.
use wisdom_qj_auction_servic.Prelude.{ℕ, ◌+◌, refl, Option, none, some, List, [], ◌∷◌, if_cases}
use wisdom_qj_auction_servic.Prelude.Texts.{Text}
use wisdom_qj_auction_servic.Models.{RunStatus, EventType, new, changed, missing, removed, restored}
use wisdom_qj_auction_servic.Listings.{transition_presence}
use wisdom_qj_auction_servic.Listings.Compare.{ComparableListing, ListingChange}
use wisdom_qj_auction_servic.Persistence.Rows.{
  World, persistence_failed, integrity_error, SourceListingState, ListingDetail, ListingGroup,
  ListingSnapshot, AggregatedListingInfo, Store,
}
use wisdom_qj_auction_servic.Persistence.Records.{ExistingRecord}
use wisdom_qj_auction_servic.Persistence.Comparables.{comparable_json}
use wisdom_qj_auction_servic.Persistence.Writes.{Context, requeried, insert_or_requery}
use wisdom_qj_auction_servic.Persistence.Groups.{
  see_again, present_state, group_for, group_with, new_group, is_in, Found, event_opt,
}
use wisdom_qj_auction_servic.Persistence.Saving.{
  add_snapshot, change_event_of, presence_event, json_of, save_found, save_listing, save_listings,
}
use wisdom_qj_auction_servic.Persistence.Kept.{
  Keeps, Holds, plain_Keeps, bind_Keeps, unchanged_Kept, return-Keeps, reject-Keeps, refuse-Keeps,
  draw_Keeps, shift_Keeps,
}
use wisdom_qj_auction_servic.Persistence.Kept.Rows.{IsUpdate}
use wisdom_qj_auction_servic.Persistence.Kept.Steps.{
  add_state-Keeps, set_state-Keeps, store_brokers-Keeps, store_market_details-Keeps,
  add_event-Keeps,
}

presence_IsUpdate :
    (known : Type 0) (status : RunStatus) (s : SourceListingState) (captured_at : ℕ)
    → IsUpdate known status
        (present_state (transition_presence s.visibility_state s.missing_count) captured_at)
unfolding transition_presence
presence_IsUpdate known status s captured_at = record {
  source = λ x. refl;
  group = λ x. refl;
  valid = λ k x. (refl, refl);
  shown = λ p x. refl;
}

module _ (c : Context) (known : Type 0) (status : RunStatus) where
  see_again-Keeps :
      (group_id : ℕ) (s : Option SourceListingState)
      → Keeps known status 0 (λ _. 0) (see_again c group_id s)
  see_again-Keeps group_id none =
      bind_Keeps (add_state-Keeps c known status group_id) λ _. return-Keeps (some new) refl
  see_again-Keeps group_id (some s) =
      bind_Keeps
        (set_state-Keeps c known status s.id
          (present_state (transition_presence s.visibility_state s.missing_count) c.captured_at)
          (presence_IsUpdate known status s c.captured_at))
        λ _.
          return-Keeps
            (event_opt (transition_presence s.visibility_state s.missing_count).event_type) refl

  requeried_group :
      (g : ListingGroup) (db : Store) (o : Option ListingGroup)
      → Holds known status 0
          (λ _. 0)
          db
          (requeried g (λ g db. record db { groups = g ∷ db.groups }) o db)
  requeried_group g db none =
      unchanged_Kept db (record db { groups = g ∷ db.groups }) refl refl refl refl
  requeried_group g db (some o) = unchanged_Kept db db refl refl refl refl

  requery_group_Keeps :
      (id : ℕ) (key : Text)
      → Keeps known status 0
          (λ _. 0)
          (insert_or_requery
            (new_group id c.apartment.id key c.captured_at)
            (group_with c.apartment.id key)
            (λ g db. record db { groups = g ∷ db.groups }))
  requery_group_Keeps id key = record {
    holds = λ db.
        requeried_group (new_group id c.apartment.id key c.captured_at) db
          (group_with c.apartment.id key db);
  }

  group_for-Keeps :
      (matched : List ℕ) (key : Text) (r : Option ExistingRecord)
      → Keeps known status 0 (λ _. 0) (group_for c matched key r)
  group_for-Keeps matched key none = bind_Keeps draw_Keeps λ id.
      bind_Keeps (requery_group_Keeps id key) λ p.
        bind_Keeps (reject-Keeps (is_in p.0.id matched) persistence_failed)
          λ _. bind_Keeps (add_state-Keeps c known status p.0.id) λ _. return-Keeps _ refl
  group_for-Keeps matched key (some r) =
      bind_Keeps (reject-Keeps (is_in r.group.id matched) persistence_failed)
        λ _. bind_Keeps (see_again-Keeps r.group.id r.source_listing_state) λ e. return-Keeps _ refl

  add_snapshot-Keeps :
      (s : ListingSnapshot) (info : AggregatedListingInfo)
      → Keeps known status 0 (λ _. 0) (add_snapshot s info)
  add_snapshot-Keeps s info =
      bind_Keeps (refuse-Keeps _ integrity_error)
        λ _. plain_Keeps _ λ db. unchanged_Kept db _ refl refl refl refl

  change_event_Keeps :
      (group_id : ℕ) (change : Option ListingChange)
      → Keeps known status 0 (λ n. n) (change_event_of c group_id change)
  change_event_Keeps group_id none = return-Keeps 0 refl
  change_event_Keeps group_id (some change) =
      if_cases (λ m. Keeps known status 0 (λ n. n) m) change.is_changed _ _
        (λ _.
          bind_Keeps
            (add_event-Keeps c known status group_id changed change.changed_fields
              (some change.before) (some change.after))
            λ _. return-Keeps 1 refl)
        (λ _. return-Keeps 0 refl)

  presence_event-Keeps :
      (group_id : ℕ) (event_type : Option EventType) (previous : Option ComparableListing)
      (current : ComparableListing) (change : Option ListingChange)
      → Keeps known status 0 (λ n. n) (presence_event c group_id event_type previous current change)
  presence_event-Keeps group_id none previous current change = change_event_Keeps group_id change
  presence_event-Keeps group_id (some changed) previous current change =
      change_event_Keeps group_id change
  presence_event-Keeps group_id (some missing) previous current change =
      change_event_Keeps group_id change
  presence_event-Keeps group_id (some removed) previous current change =
      change_event_Keeps group_id change
  presence_event-Keeps group_id (some new) previous current change =
      bind_Keeps
        (add_event-Keeps c known status group_id new [] (json_of previous)
          (some (comparable_json current)))
        λ _. return-Keeps 1 refl
  presence_event-Keeps group_id (some restored) previous current change =
      bind_Keeps
        (add_event-Keeps c known status group_id restored [] (json_of previous)
          (some (comparable_json current)))
        λ _. return-Keeps 1 refl

  save_found-Keeps :
      (w : World) (warnings : List Text) (l : ListingDetail) (f : Found)
      → Keeps known status 0 (λ n. n) (save_found w c warnings l f)
  save_found-Keeps w warnings l f = bind_Keeps draw_Keeps λ id.
      bind_Keeps (add_snapshot-Keeps _ _) λ _.
        bind_Keeps (store_brokers-Keeps c known status w f.group_id l) λ _.
          bind_Keeps (store_market_details-Keeps c known status id l.market_details)
            λ _. presence_event-Keeps f.group_id _ f.previous _ _

  save_listing-Keeps :
      (w : World) (warnings : List Text) (existing : List ExistingRecord) (matched : List ℕ)
      (l : ListingDetail)
      → Keeps known status 0 (λ p. p.1) (save_listing w c warnings existing matched l)
  save_listing-Keeps w warnings existing matched l =
      bind_Keeps (group_for-Keeps matched _ _)
        λ f. bind_Keeps (save_found-Keeps w warnings l f) λ n. return-Keeps (f.group_id, n) refl

  pub save_listings-Keeps :
      (w : World) (warnings : List Text) (existing : List ExistingRecord) (matched : List ℕ)
      (ls : List ListingDetail)
      → Keeps known status 0 (λ p. p.1) (save_listings w c warnings existing matched ls)
  save_listings-Keeps w warnings existing matched [] = return-Keeps (matched, 0) refl
  save_listings-Keeps w warnings existing matched (l ∷ ls) =
      bind_Keeps (save_listing-Keeps w warnings existing matched l) λ p.
        bind_Keeps (shift_Keeps p.1 (save_listings-Keeps w warnings existing (p.0 ∷ matched) ls))
          λ q. return-Keeps (q.0, p.1 + q.1) refl

-- ===== src/Persistence/Persist.antt =====
-- `PersistenceService.persist` of backend/app/services/persistence_service.py, as one transaction
-- from the lock of the run to the commit.
use wisdom_qj_auction_servic.Prelude.{
  ℕ, ◌+◌, Bool, true, false, Option, none, some, List, [], ◌∷◌, ◌&&◌, ◌||◌, ◌==◌, not, where_,
  length, ltb, if◌then◌else◌,
}
use Prim.Native.String.{String}
use wisdom_qj_auction_servic.Prelude.Texts.{Text, text_eq}
use wisdom_qj_auction_servic.Prelude.Tables.{find, update_where}
use wisdom_qj_auction_servic.Models.{
  Apartment, CrawlRun, RunStatus, TrackedSource, is_terminal_status,
}
use wisdom_qj_auction_servic.Runs.{has_id, finish_run}
use wisdom_qj_auction_servic.Notifications.{has_completed_baseline, is_completed}
use wisdom_qj_auction_servic.Persistence.Rows.{
  World, Store, M, ◌>>=◌, ◌>>◌, return, write, read, run_not_found, source_complex_mismatch,
  CrawlPayload, ok, err,
}
use wisdom_qj_auction_servic.Persistence.Records.{existing_records}
use wisdom_qj_auction_servic.Persistence.Writes.{Context, reject}
use wisdom_qj_auction_servic.Persistence.Apartments.{save_apartment, add_apartment_snapshot}
use wisdom_qj_auction_servic.Persistence.Saving.{save_listings}
use wisdom_qj_auction_servic.Persistence.Groups.{is_in}
use wisdom_qj_auction_servic.Persistence.Absences.{save_absences, source_group_ids, sort_ids}

-- `previous_successful_run_id`: the latest to finish, then the latest created, then the largest id;
-- a run that has no time of its finish comes last.
abbrev pub finish_of : Option ℕ → ℕ
finish_of none = 0
finish_of (some t) = t + 1

abbrev pub is_later_success : CrawlRun → CrawlRun → Bool
is_later_success r s =
    ltb (finish_of s.finished_at) (finish_of r.finished_at)
    || (finish_of s.finished_at == finish_of r.finished_at
        && (ltb s.created_at r.created_at || (s.created_at == r.created_at && ltb s.id r.id)))

abbrev pub later_success : CrawlRun → Option CrawlRun → CrawlRun
later_success r none = r
later_success r (some s) = if is_later_success s r then s else r

abbrev pub latest_success : (source_id current_run_id : ℕ) → List CrawlRun → Option CrawlRun
latest_success source_id current_run_id [] = none
latest_success source_id current_run_id (r ∷ rs) =
    let best = latest_success source_id current_run_id rs in
    if r.source_id == source_id && (not (r.id == current_run_id) && is_completed r.status)
    then some (later_success r best)
    else best

abbrev pub id_of_run : Option CrawlRun → Option ℕ
id_of_run none = none
id_of_run (some r) = some r.id

abbrev pub previous_successful_run_id : (source_id current_run_id : ℕ) → List CrawlRun → Option ℕ
previous_successful_run_id source_id current_run_id runs =
    id_of_run (latest_success source_id current_run_id runs)

pub record PersistenceOutcome : Type 0 where
  pub run_id : ℕ
  pub status : RunStatus
  pub apartment_id : Option ℕ
  pub listing_count : ℕ
  pub event_count : ℕ
  pub already_terminal : Bool

abbrev pub terminal_outcome : CrawlRun → PersistenceOutcome
terminal_outcome r = record {
  run_id = r.id;
  status = r.status;
  apartment_id = none;
  listing_count = 0;
  event_count = 0;
  already_terminal = true;
}

abbrev pub is_mismatch : Option Text → Text → Bool
is_mismatch none complex_id = false
is_mismatch (some id) complex_id = not (text_eq id complex_id)

-- `source.naver_complex_id = apartment.naver_complex_id`
abbrev pub set_complex : (source_id : ℕ) → Text → Store → Store
set_complex source_id complex_id db = record db {
  sources =
      update_where (λ s. s.id == source_id) (λ s. record s { naver_complex_id = some complex_id })
        db.sources;
}

-- Both loops.
abbrev pub save_all : World → Context → CrawlPayload → M ℕ
save_all w c payload = do
  existing ←
      read (existing_records c.apartment.id c.apartment.naver_complex_id c.source.id c.run.id)
  source_groups ← read (source_group_ids c.source.id)
  add_apartment_snapshot w c.run.id c.apartment.id payload.apartment
      (w.normalize_details payload.apartment.details)
  (matched, n) ← save_listings w c payload.warnings existing [] payload.listings
  k ←
      save_absences c payload.status existing
        (sort_ids (where_ (λ g. not (is_in g matched)) source_groups))
  return (n + k)

abbrev pub saved_outcome : (run_id apartment_id event_count : ℕ) → CrawlPayload → PersistenceOutcome
saved_outcome run_id apartment_id event_count payload = record {
  run_id = run_id;
  status = payload.status;
  apartment_id = some apartment_id;
  listing_count = length payload.listings;
  event_count = event_count;
  already_terminal = false;
}

abbrev pub context_of :
    (run : CrawlRun) → TrackedSource → Apartment → Bool → Option ℕ → (captured_at : ℕ) → Context
context_of run source apartment baseline compare_run_id captured_at = record {
  run = run;
  source = source;
  apartment = apartment;
  notification_baseline = baseline;
  compare_run_id = compare_run_id;
  captured_at = captured_at;
}

-- With the run and the source, up to the update of the run: the apartment's id, and the events.
abbrev pub save_tables :
    World
    → CrawlPayload
    → CrawlRun
    → TrackedSource
    → (baseline : Bool) → (compare_run_id : Option ℕ) → M (ℕ × ℕ)
save_tables w payload run source baseline compare_run_id = do
  reject (is_mismatch source.naver_complex_id payload.apartment.complex_id) source_complex_mismatch
  apartment ←
      save_apartment w payload.apartment (w.normalize_details payload.apartment.details)
        payload.captured_at
  write (set_complex source.id apartment.naver_complex_id)
  n ←
      save_all w (context_of run source apartment baseline compare_run_id payload.captured_at)
        payload
  return (apartment.id, n)

abbrev pub finish : (version : String) → CrawlPayload → (run_id : ℕ) → Store → Store
finish version payload run_id db = record db {
  runs = finish_run run_id payload.captured_at payload.status version db.runs;
}

abbrev pub save_payload :
    World
    → (version : String) → CrawlPayload
    → CrawlRun
    → TrackedSource
    → (baseline : Bool) → (compare_run_id : Option ℕ) → M PersistenceOutcome
save_payload w version payload run source baseline compare_run_id = do
  (apartment_id, n) ← save_tables w payload run source baseline compare_run_id
  write (finish version payload run.id)
  return (saved_outcome run.id apartment_id n payload)

abbrev pub persist_for :
    World
    → (version : String) → CrawlPayload
    → CrawlRun
    → Option TrackedSource
    → M PersistenceOutcome
persist_for w version payload run none db = err run_not_found
persist_for w version payload run (some source) db =
    save_payload w version payload run source (not (has_completed_baseline source.id db.runs))
      (previous_successful_run_id source.id run.id db.runs) db

abbrev pub persist_run :
    World → (version : String) → CrawlPayload → Option CrawlRun → M PersistenceOutcome
persist_run w version payload none db = err run_not_found
persist_run w version payload (some run) db =
    if is_terminal_status run.status
    then ok (terminal_outcome run) db
    else persist_for w version payload run (find (λ s. s.id == run.source_id) db.sources) db

-- An error rolls the transaction back: the tables are then what they were.
unfoldable pub persist :
    World → (version : String) → (run_id : ℕ) → CrawlPayload → M PersistenceOutcome
persist w version run_id payload db =
    persist_run w version payload (find (has_id run_id) db.runs) db

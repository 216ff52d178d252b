-- ===== src/Schedules/Lookup.antt =====
-- The lookup of the source of a new schedule.
use wisdom_qj_auction_servic.Prelude.{
  ℕ, ◌==◌, ◌≡◌, refl, Bool, true, false, Option, none, some, ◌&&◌, if_cases, if◌then◌else◌,
}
use wisdom_qj_auction_servic.Prelude.Tables.{find}
use wisdom_qj_auction_servic.Prelude.Texts.{Text, text_eq}
use wisdom_qj_auction_servic.Models.{TrackedSource}
use wisdom_qj_auction_servic.Analysis.{SourceUrlIdentity}
use wisdom_qj_auction_servic.Schedules.{
  invalid_source_url, matching_source, active_source, source_by_url, truthy, ScheduleError,
  no_next_run, source_not_found, Result, ok, err, Store, ScheduleCreate, source_for,
}

abbrev pub is_no_next_run : ScheduleError → Bool
is_no_next_run no_next_run = true
is_no_next_run _ = false

-- No lookup of a source fails for want of a next run.
abbrev pub IsFound : Result TrackedSource → Type 0
IsFound (ok s) = Unit
IsFound (err e) = is_no_next_run e ≡ false

identified-IsFound :
    (s : TrackedSource) (o : Option SourceUrlIdentity)
    → IsFound (elim o [
      | none ↦ err invalid_source_url
      | some identity ↦ if text_eq s.url_hash identity.url_hash then ok s else err source_not_found
    ])
identified-IsFound s none = refl
identified-IsFound s (some identity) =
    if_cases IsFound (text_eq s.url_hash identity.url_hash) (ok s) (err source_not_found) (λ _. tt)
      (λ _. refl)

matching_source-IsFound :
    (normalize : Text → Option SourceUrlIdentity) (source_url : Option Text) (s : TrackedSource)
    → IsFound (matching_source normalize source_url s)
matching_source-IsFound normalize none s = tt
matching_source-IsFound normalize (some source_url) s = identified-IsFound s (normalize source_url)

active_source-IsFound :
    (normalize : Text → Option SourceUrlIdentity) (source_url : Option Text)
    (o : Option TrackedSource)
    → IsFound (active_source normalize source_url o)
active_source-IsFound normalize source_url none = refl
active_source-IsFound normalize source_url (some s) =
    if_cases IsFound s.is_active _ (err source_not_found)
      (λ _. matching_source-IsFound normalize source_url s) (λ _. refl)

by_url-IsFound :
    (normalize : Text → Option SourceUrlIdentity) (source_url : Text) (o : Option SourceUrlIdentity)
    (rows : SourceUrlIdentity → Option TrackedSource)
    → IsFound (elim o [
      | none ↦ err invalid_source_url
      | some identity ↦ active_source normalize (some source_url) (rows identity)
    ])
by_url-IsFound normalize source_url none rows = refl
by_url-IsFound normalize source_url (some identity) rows =
    active_source-IsFound normalize (some source_url) (rows identity)

source_by_url-IsFound :
    (normalize : Text → Option SourceUrlIdentity) (actor : ℕ) (source_url : Option Text)
    (db : Store)
    → IsFound (source_by_url normalize actor source_url db)
source_by_url-IsFound normalize actor none db = refl
source_by_url-IsFound normalize actor (some source_url) db =
    by_url-IsFound normalize source_url (normalize source_url) (λ identity.
      find (λ s. s.owner_user_id == actor && text_eq s.url_hash identity.url_hash) db.sources)

named-IsFound :
    (normalize : Text → Option SourceUrlIdentity) (actor : ℕ) (source_url : Option Text)
    (db : Store) (o : Option ℕ)
    → IsFound (elim o [
      | some source_id ↦
          active_source normalize source_url
            (find (λ s. s.id == source_id && s.owner_user_id == actor) db.sources)
      | none ↦ source_by_url normalize actor source_url db
    ])
named-IsFound normalize actor source_url db none =
    source_by_url-IsFound normalize actor source_url db
named-IsFound normalize actor source_url db (some source_id) =
    active_source-IsFound normalize source_url
      (find (λ s. s.id == source_id && s.owner_user_id == actor) db.sources)

pub source_for-IsFound :
    (normalize : Text → Option SourceUrlIdentity) (actor : ℕ) (p : ScheduleCreate) (db : Store)
    → IsFound (source_for normalize actor p db)
source_for-IsFound normalize actor p db =
    named-IsFound normalize actor (truthy p.source_url) db p.source_id

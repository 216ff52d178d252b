-- ===== src/Schedules/Upkeep.antt =====
-- Stored schedules are always ones for which the next run can be calculated, and it is.
use wisdom_qj_auction_servic.Prelude.{
  ◌⊎◌, inr, inl, ℕ, ◌<◌, ◌≡◌, refl, sym, ◌∙◌, subst, true, false, Option, none, some, List, ◌&&◌,
  arith, any, is_none, if_cases, if◌then◌else◌,
}
use wisdom_qj_auction_servic.Prelude.Texts.{Text}
use wisdom_qj_auction_servic.Models.{TrackedSource, CrawlSchedule, Cadence, daily, weekdays, weekly}
use wisdom_qj_auction_servic.NextRun.{
  search_from, Zone, IsForward, aware, at, day, calculate_next_run,
}
use wisdom_qj_auction_servic.NextRun.Occurrence.{IsNext, IsSchedule, calculate_next_run_first}
use wisdom_qj_auction_servic.Analysis.{SourceUrlIdentity}
use wisdom_qj_auction_servic.Schedules.Lookup.{is_no_next_run, IsFound, source_for-IsFound}
use wisdom_qj_auction_servic.Schedules.{
  conflict, Result, ok, err, Store, ScheduleCreate, is_weekly, weekday_in_range, validate_create,
  of_source, new_schedule, create_timed, create_found, create, source_for, next_of, insert_schedule,
}

-- A row for which the calculation of the next run has an answer.
pub record IsPlanned (s : CrawlSchedule) : Type 0 where
  pub in_range : weekday_in_range s.weekday ≡ true
  pub named : (is_weekly s.cadence && is_none s.weekday) ≡ false
  pub time : s.time_of_day < day

-- The stored next run is the first occurrence after `now`.
pub record IsTimed (zone : Zone) (now : ℕ) (s : CrawlSchedule) : Type 0 where
  pub wall : ℕ
  pub next : IsNext s.cadence s.weekday s.time_of_day (zone.to_local now) wall
  pub instant : s.next_run_at ≡ zone.to_instant wall
  pub later : now < s.next_run_at

tested-IsSchedule :
    (c : Cadence) (weekday : Option ℕ)
    → (is_weekly c && is_none weekday) ≡ false
    → weekday_in_range weekday ≡ true
    → IsSchedule c weekday
tested-IsSchedule daily weekday h k = tt
tested-IsSchedule weekdays weekday h k = tt
tested-IsSchedule weekly none h k = cc
tested-IsSchedule weekly (some d) h k = (d, refl, ground (arith))

same_next :
    (zone : Zone) (c : Cadence) (t now : ℕ) (weekday : Option ℕ)
    → calculate_next_run zone (some c) t (aware now) weekday
      ≡ calculate_next_run zone (some c) t (aware now) (if is_weekly c then weekday else none)
unfolding calculate_next_run search_from
same_next zone daily t now weekday = refl
same_next zone weekdays t now weekday = refl
same_next zone weekly t now weekday = refl

-- The answer for a planned row.
pub planned-IsNext :
    (zone : Zone) (now : ℕ) (s : CrawlSchedule)
    → IsForward zone
    → IsPlanned s
    → (w : ℕ) × (next_of zone now s ≡ at w)
      × IsNext s.cadence s.weekday s.time_of_day (zone.to_local now) w
      × (now < zone.to_instant w)
planned-IsNext zone now s forward p =
    calculate_next_run_first zone s.cadence s.weekday s.time_of_day now forward p.time
      (tested-IsSchedule s.cadence s.weekday p.named p.in_range)

-- A new row is planned and timed, and stands before what others had committed; an error leaves
-- the tables to the others.
abbrev pub CreateOutcome : Zone → ℕ → Store → Store → Result CrawlSchedule × Store → Type 0
CreateOutcome zone now db others (ok s, after) =
    IsPlanned s × IsTimed zone now s × (insert_schedule s others.schedules ≡ some after.schedules)
CreateOutcome zone now db others (err e, after) =
    (is_no_next_run e ≡ false) × ((after ≡ db) ⊎ (after ≡ others))

commit_schedule-Outcome :
    (zone : Zone) (now : ℕ) (s : CrawlSchedule) (before db : Store)
    (o : Option (List CrawlSchedule))
    → IsPlanned s
    → IsTimed zone now s
    → insert_schedule s db.schedules ≡ o
    → CreateOutcome zone now before db (elim o [
      | none ↦ (err conflict, db)
      | some schedules ↦ (ok s, record db { schedules = schedules })
    ])
commit_schedule-Outcome zone now s before db none p t h = (refl, inr refl)
commit_schedule-Outcome zone now s before db (some l) p t h = (p, t, h)

new_schedule-IsPlanned :
    (id source_id next_run_at : ℕ) (p : ScheduleCreate)
    → validate_create p ≡ true
    → IsPlanned (new_schedule id source_id next_run_at p)
new_schedule-IsPlanned id source_id next_run_at p v = record {
  in_range =
      if_cases (λ o. weekday_in_range o ≡ true) (is_weekly p.cadence) p.weekday none
        (λ _. ground (arith)) (λ _. refl);
  named = ground (arith);
  time = ground (arith);
}

timed-Outcome :
    (zone : Zone) (others : Store → Store) (id now source_id wall : ℕ) (p : ScheduleCreate)
    (db : Store)
    → validate_create p ≡ true
    → IsNext p.cadence
        (if is_weekly p.cadence then p.weekday else none)
        p.time_of_day
        (zone.to_local now)
        wall
    → now < zone.to_instant wall
    → CreateOutcome zone now db (others db) (create_timed zone others id source_id p (at wall) db)
timed-Outcome zone others id now source_id wall p db v n l =
    let s = new_schedule id source_id (zone.to_instant wall) p in
    commit_schedule-Outcome zone now s db (others db) (insert_schedule s (others db).schedules)
      (new_schedule-IsPlanned id source_id (zone.to_instant wall) p v)
      (record { wall = wall; next = n; instant = refl; later = l }) refl

create_timed-Outcome :
    (zone : Zone) (others : Store → Store) (id now source_id : ℕ) (p : ScheduleCreate) (db : Store)
    → IsForward zone
    → validate_create p ≡ true
    → CreateOutcome zone now db (others db) (
        create_timed zone others id source_id p
          (calculate_next_run zone (some p.cadence) p.time_of_day (aware now) p.weekday)
          db)
create_timed-Outcome zone others id now source_id p db forward v =
    let (w, e, n, l) =
      planned-IsNext zone now (new_schedule id source_id 0 p) forward
        (new_schedule-IsPlanned id source_id 0 p v) in
    subst
      (λ f. CreateOutcome zone now db (others db) (create_timed zone others id source_id p f db))
      (sym (same_next zone p.cadence p.time_of_day now p.weekday ∙ e))
      (timed-Outcome zone others id now source_id w p db v n l)

found-Outcome :
    (zone : Zone) (others : Store → Store) (id now : ℕ) (p : ScheduleCreate)
    (r : Result TrackedSource) (db : Store)
    → IsForward zone
    → validate_create p ≡ true
    → IsFound r
    → CreateOutcome zone now db (others db) (create_found zone others id now p r db)
found-Outcome zone others id now p (err e) db forward v k = (k, inl refl)
found-Outcome zone others id now p (ok s) db forward v k =
    if_cases (CreateOutcome zone now db (others db)) (any (of_source s.id) db.schedules)
      (err conflict, db) _ (λ _. (refl, inl refl))
      (λ _. create_timed-Outcome zone others id now s.id p db forward v)

-- For a payload that the schema accepts, the next run is always found: a new row can be planned,
-- its next run is the first occurrence after now, and no other schedule has its source.
pub create-Outcome :
    (zone : Zone) (normalize : Text → Option SourceUrlIdentity) (others : Store → Store)
    (id now actor : ℕ) (p : ScheduleCreate) (db : Store)
    → IsForward zone
    → validate_create p ≡ true
    → CreateOutcome zone now db (others db) (create zone normalize others id now actor p db)
unfolding create
create-Outcome zone normalize others id now actor p db forward v =
    found-Outcome zone others id now p (source_for normalize actor p db) db forward v
      (source_for-IsFound normalize actor p db)

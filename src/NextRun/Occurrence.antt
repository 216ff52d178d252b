-- ===== src/NextRun/Occurrence.antt =====
-- What `calculate_next_run` promises the schedules.
use wisdom_qj_auction_servic.Prelude.{
  if◌then◌else◌, ◌-◌, inr, inl, ◌⊎◌, ℕ, ◌+◌, ◌*◌, ◌/◌, ◌%◌, ◌<◌, ◌≤◌, ◌≡◌, refl, false, Option,
  none, some, arith, leb, opt_eq, not,
}
use wisdom_qj_auction_servic.Models.{Cadence, daily, weekdays, weekly}
use wisdom_qj_auction_servic.NextRun.{
  Zone, IsForward, aware, NextRunError, Found, at, refused, day, search_from, check_cadence,
  calculate_next_run,
}
use wisdom_qj_auction_servic.NextRun.Search.{IsOpen, IsFirst, search_finds, search_fails}

-- The schedule fires at this wall clock: the time of day is its own, and so is the weekday.
abbrev pub Fires : Cadence → Option ℕ → ℕ → ℕ → Type 0
Fires daily weekday tod wall = wall % day ≡ tod
Fires weekdays weekday tod wall = (wall % day ≡ tod) × (wall / day % 7 < 5)
Fires weekly weekday tod wall = (wall % day ≡ tod) × (weekday ≡ some (wall / day % 7))

-- The first wall clock after `now` at which the schedule fires.
pub record IsNext (c : Cadence) (weekday : Option ℕ) (tod now w : ℕ) : Type 0 where
  pub later : now < w
  pub fires : Fires c weekday tod w
  pub first : (v : ℕ) → now < v → Fires c weekday tod v → w ≤ v

date_of : (date tod : ℕ) → tod < day → (date * day + tod) / day ≡ date
date_of date tod t = omega arith

time_of : (date tod : ℕ) → tod < day → (date * day + tod) % day ≡ tod
time_of date tod t = omega arith

IsOpen-Fires :
    (c : Cadence) (weekday : Option ℕ) (tod now date : ℕ)
    → tod < day
    → IsOpen c weekday tod now date
    → Fires c weekday tod (date * day + tod)
IsOpen-Fires daily weekday tod now date t o = time_of date tod t
IsOpen-Fires weekdays weekday tod now date t o =
    rw (date_of date tod t) (time_of date tod t, ground arith)
IsOpen-Fires weekly none tod now date t o = cc o.0
IsOpen-Fires weekly (some k) tod now date t o =
    rw (date_of date tod t) (time_of date tod t, ground arith)

split_wall : (v tod : ℕ) → v % day ≡ tod → v / day * day + tod ≡ v
split_wall v tod h = omega arith

on_time : (now v tod : ℕ) → now < v → v % day ≡ tod → now < v / day * day + tod
on_time now v tod l h = omega arith

Fires-IsOpen :
    (c : Cadence) (weekday : Option ℕ) (tod now v : ℕ)
    → now < v
    → Fires c weekday tod v
    → IsOpen c weekday tod now (v / day)
Fires-IsOpen daily weekday tod now v l f = (refl, on_time now v tod l f)
Fires-IsOpen weekdays weekday tod now v l f =
    (weekday_open (v / day % 7) f.1, on_time now v tod l f.0)
  where
    weekday_open : (k : ℕ) → k < 5 → leb 5 k ≡ false
    weekday_open k h = ground arith
Fires-IsOpen weekly none tod now v l f = cc f.1
Fires-IsOpen weekly (some k) tod now v l f = (same_day k (v / day % 7) f.1, on_time now v tod l f.0)
  where
    same_day : (k j : ℕ) → some k ≡ some j → not (opt_eq (some j) (some k)) ≡ false
    same_day k j h = ground arith

Fires-time : (c : Cadence) (weekday : Option ℕ) (tod v : ℕ) → Fires c weekday tod v → v % day ≡ tod
Fires-time daily weekday tod v f = f
Fires-time weekdays weekday tod v f = f.0
Fires-time weekly weekday tod v f = f.0

later_date : (now v tod : ℕ) → now < v → v % day ≡ tod → now / day + 0 ≤ v / day
later_date now v tod l h = omega arith

IsFirst-IsNext :
    (c : Cadence) (weekday : Option ℕ) (tod now w : ℕ)
    → tod < day
    → IsFirst c weekday tod now (now / day + 0) w
    → IsNext c weekday tod now w
IsFirst-IsNext c weekday tod now w t (date, eq, o, least) = record {
  later = rw eq o.1;
  fires = rw eq (IsOpen-Fires c weekday tod now date t o);
  first = λ v l f.
      let time = Fires-time c weekday tod v f in
      let bound =
        least (v / day) (later_date now v tod l time) (Fires-IsOpen c weekday tod now v l f) in
      rw (eq, ← split_wall v tod time) (same_time date (v / day) tod bound);
}
  where
    same_time : (a b tod : ℕ) → a ≤ b → a * day + tod ≤ b * day + tod
    same_time a b tod h = omega arith

-- A schedule that the API and the table accept: a weekly one names one of the seven weekdays.
abbrev pub IsSchedule : Cadence → Option ℕ → Type 0
IsSchedule daily weekday = Unit
IsSchedule weekdays weekday = Unit
IsSchedule weekly weekday = (k : ℕ) × (weekday ≡ some k) × (k < 7)

days_to_workday : ℕ → ℕ
days_to_workday b = if leb 5 ((b + 1) % 7) then (if leb 5 ((b + 2) % 7) then 3 else 2) else 1

days_to_workday_lem :
    (b : ℕ) → let j = days_to_workday b in (0 < j) × (j < 8) × (leb 5 ((b + 0 + j) % 7) ≡ false)
unfolding days_to_workday
days_to_workday_lem b = (ground arith, ground arith, ground arith)

days_to_weekday_lem :
    (b k : ℕ)
    → k < 7
    → let j = 1 + (k + 13 - b % 7) % 7 in (0 < j) × (j < 8) × ((b + 0 + j) % 7 ≡ k)
days_to_weekday_lem b k lt = (omega arith, omega arith, omega arith)

ahead_on_time : (now tod j : ℕ) → 0 < j → now < (now / day + 0 + j) * day + tod
ahead_on_time now tod j h = omega arith

-- One of the dates one to seven days ahead is open.
some-IsOpen :
    (c : Cadence) (weekday : Option ℕ) (tod now : ℕ)
    → IsSchedule c weekday
    → (j : ℕ) × (j < 8) × IsOpen c weekday tod now (now / day + 0 + j)
some-IsOpen daily weekday tod now s = (1, omega arith, (refl, omega arith))
some-IsOpen weekdays weekday tod now s =
    let (pos, lt, works) = days_to_workday_lem (now / day) in
    (_, lt, (works, ahead_on_time now tod _ pos))
some-IsOpen weekly weekday tod now (k, e, lt) =
    let (pos, below, same) = days_to_weekday_lem (now / day) k lt in
    (_, below, (not_skipped _ k weekday e same, ahead_on_time now tod _ pos))
  where
    not_skipped :
        (a k : ℕ) (weekday : Option ℕ)
        → weekday ≡ some k
        → a ≡ k
        → not (opt_eq (some a) weekday) ≡ false
    not_skipped a k weekday e same = rw (e, same) (ground arith)

Found-cases : (f : Found) → ((w : ℕ) × (f ≡ at w)) ⊎ ((e : NextRunError) × (f ≡ refused e))
Found-cases (at w) = inl (w, refl)
Found-cases (refused e) = inr (e, refl)

search_total :
    (c : Cadence) (weekday : Option ℕ) (tod now : ℕ)
    → IsSchedule c weekday
    → (w : ℕ) × (search_from c weekday tod now 8 0 ≡ at w)
search_total c weekday tod now s = elim (Found-cases (search_from c weekday tod now 8 0)) [
  | inl found ↦ found
  | inr (e, h) ↦
      let (j, lt, o) = some-IsOpen c weekday tod now s in
      absurd (search_fails c weekday tod now 8 0 e h j lt o)
]

schedule_passes :
    (c : Cadence) (weekday : Option ℕ)
    → IsSchedule c weekday
    → check_cadence (some c) weekday ≡ none
schedule_passes daily weekday s = refl
schedule_passes weekdays weekday s = refl
schedule_passes weekly weekday (k, e, lt) = rw e

-- For a schedule that the API accepts and a time of day within a day, the next run is always found
-- within the eight dates that the loop looks at. It is the first wall clock after the given instant
-- that has the schedule's time of day and falls on a day that its cadence allows; and, if the time
-- zone is forward, it stands for a later instant.
pub calculate_next_run_first :
    (zone : Zone) (c : Cadence) (weekday : Option ℕ) (tod instant : ℕ)
    → IsForward zone
    → tod < day
    → IsSchedule c weekday
    → (w : ℕ) × (calculate_next_run zone (some c) tod (aware instant) weekday ≡ at w)
      × IsNext c weekday tod (zone.to_local instant) w
      × (instant < zone.to_instant w)
unfolding calculate_next_run
calculate_next_run_first zone c weekday tod instant forward t s =
    let (w, h) = search_total c weekday tod (zone.to_local instant) s in
    let next =
      IsFirst-IsNext c weekday tod (zone.to_local instant) w t
        (search_finds c weekday tod (zone.to_local instant) 8 0 w h) in
    (w, rw (schedule_passes c weekday s, calculate_next_run) h, next, forward instant w next.later)

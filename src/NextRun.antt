-- ===== src/NextRun.antt =====
-- `calculate_next_run` of backend/app/services/schedule_service.py.
-- An instant counts microseconds from an origin; a local date and time counts the microseconds of
-- the wall clock since 0001-01-01T00:00, a Monday, so a date is a number of days and its weekday is
-- that number modulo 7. (The limit of Python's dates, the year 9999, is not modelled.)
pub mod Search
pub mod Occurrence
mod Tests
use wisdom_qj_auction_servic.Prelude.{
  ℕ, zero, suc, ◌+◌, ◌*◌, ◌-◌, ◌/◌, ◌%◌, ◌<◌, Bool, true, false, Option, none, some, not, ltb, leb,
  opt_eq, if◌then◌else◌,
}
use wisdom_qj_auction_servic.Models.{Cadence, daily, weekdays, weekly}

-- The time zone database: wall clocks of instants, and back (`astimezone`).
pub record Zone : Type 0 where
  pub to_local : ℕ → ℕ
  pub to_instant : ℕ → ℕ

-- What the code relies on: a wall clock later than that of an instant stands for a later instant.
abbrev pub IsForward : Zone → Type 0
IsForward z = (instant wall : ℕ) → z.to_local instant < wall → instant < z.to_instant wall

-- Asia/Seoul, nine hours ahead all year.
abbrev pub seoul : Zone
seoul = record { to_local = λ i. i + 32_400_000_000; to_instant = λ w. w - 32_400_000_000 }

-- A `datetime` with or without a UTC offset.
pub data DateTime : Type 0 where
  naive aware : ℕ → DateTime

pub data NextRunError : Type 0 where
  after_not_aware unsupported_cadence weekday_required no_occurrence : NextRunError

pub data Found : Type 0 where
  at : ℕ → Found
  refused : NextRunError → Found

abbrev pub day : ℕ
day = 86_400_000_000

-- The `continue` tests of the loop: `candidate_date.weekday()` against the cadence.
abbrev pub skips : Cadence → Option ℕ → ℕ → Bool
skips daily weekday date = false
skips weekdays weekday date = leb 5 (date % 7)
skips weekly weekday date = not (opt_eq (some (date % 7)) weekday)

-- `for offset in range(8)`, with `left` rounds to go.
unfoldable pub search_from : Cadence → Option ℕ → (time_of_day local_after left offset : ℕ) → Found
search_from cadence weekday time_of_day local_after zero offset = refused no_occurrence
search_from cadence weekday time_of_day local_after (suc left) offset =
    let rest = search_from cadence weekday time_of_day local_after left (suc offset) in
    let date = local_after / day + offset in
    let candidate = date * day + time_of_day in
    if skips cadence weekday date
    then rest
    else if ltb local_after candidate
    then at candidate
    else rest

-- The checks before the loop; a cadence outside the three is `none`.
abbrev pub check_cadence : Option Cadence → Option ℕ → Option NextRunError
check_cadence none weekday = some unsupported_cadence
check_cadence (some weekly) none = some weekday_required
check_cadence (some _) _ = none

abbrev pub or_daily : Option Cadence → Cadence
or_daily (some c) = c
or_daily none = daily

-- The result is the wall clock in the zone.
unfoldable pub calculate_next_run :
    Zone → Option Cadence → (time_of_day : ℕ) → DateTime → Option ℕ → Found
unfolding search_from
calculate_next_run zone cadence time_of_day (naive w) weekday = refused after_not_aware
calculate_next_run zone cadence time_of_day (aware instant) weekday =
    elim (check_cadence cadence weekday) [
      | some e ↦ refused e
      | none ↦ search_from (or_daily cadence) weekday time_of_day (zone.to_local instant) 8 0
    ]

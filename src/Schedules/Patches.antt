-- ===== src/Schedules/Patches.antt =====
-- What a patch asks for, said of the fields of the payload and of the row.
use wisdom_qj_auction_servic.Prelude.{
  ℕ, ◌≡◌, ◌≢◌, ◌↔◌, refl, true, false, Option, none, some, Bool, arith, if◌then◌else◌,
}
use wisdom_qj_auction_servic.Models.{CrawlSchedule, Cadence, daily, weekdays, weekly}
use wisdom_qj_auction_servic.Schedules.{
  Field, unset, given, SchedulePatch, value, is_set, or_else, is_weekly, patched, reschedules,
}

-- A field that is left out or null keeps the value, any other gives it.
abbrev pub Follows : {A : Type 0} → Field A → (old new : A) → Type 0
Follows unset old new = new ≡ old
Follows (given none) old new = new ≡ old
Follows (given (some a)) old new = new ≡ a

-- Only a weekly schedule has a weekday: that of the patch, also when it is null, or else its own.
abbrev pub FollowsWeekday : Cadence → Field ℕ → (old new : Option ℕ) → Type 0
FollowsWeekday daily f old new = new ≡ none
FollowsWeekday weekdays f old new = new ≡ none
FollowsWeekday weekly unset old new = new ≡ old
FollowsWeekday weekly (given o) old new = new ≡ o

-- The row with the payload applied; its next run is not said.
pub record IsPatched (p : SchedulePatch) (old new : CrawlSchedule) : Type 0 where
  pub id : new.id ≡ old.id
  pub source_id : new.source_id ≡ old.source_id
  pub timezone : new.timezone ≡ old.timezone
  pub cadence : Follows p.cadence old.cadence new.cadence
  pub time_of_day : Follows p.time_of_day old.time_of_day new.time_of_day
  pub weekday : FollowsWeekday new.cadence p.weekday old.weekday new.weekday
  pub enabled : Follows p.enabled old.enabled new.enabled
  pub collect_broker_details :
      Follows p.collect_broker_details old.collect_broker_details new.collect_broker_details
  pub interaction_delay_preset :
      Follows p.interaction_delay_preset old.interaction_delay_preset new.interaction_delay_preset

-- Nothing that the next run depends on is in the payload, and the schedule is not enabled by it.
pub record IsUntimed (p : SchedulePatch) : Type 0 where
  pub cadence : p.cadence ≡ unset
  pub time_of_day : p.time_of_day ≡ unset
  pub timezone : p.timezone ≡ unset
  pub weekday : p.weekday ≡ unset
  pub enabled : p.enabled ≢ given (some true)

or_else-Follows : {A : Type 0} (f : Field A) (a : A) → Follows f a (or_else (value f) a)
or_else-Follows unset a = refl
or_else-Follows (given none) a = refl
or_else-Follows (given (some b)) a = refl

weekday-Follows :
    (c : Cadence) (f : Field ℕ) (w : Option ℕ)
    → FollowsWeekday c f w (if is_weekly c then (if is_set f then value f else w) else none)
weekday-Follows daily f w = refl
weekday-Follows weekdays f w = refl
weekday-Follows weekly unset w = refl
weekday-Follows weekly (given o) w = refl

pub patched-IsPatched : (p : SchedulePatch) (s : CrawlSchedule) → IsPatched p s (patched p s)
patched-IsPatched p s = record {
  id = refl;
  source_id = refl;
  timezone = refl;
  cadence = or_else-Follows p.cadence s.cadence;
  time_of_day = or_else-Follows p.time_of_day s.time_of_day;
  weekday = weekday-Follows (or_else (value p.cadence) s.cadence) p.weekday s.weekday;
  enabled = or_else-Follows p.enabled s.enabled;
  collect_broker_details = or_else-Follows p.collect_broker_details s.collect_broker_details;
  interaction_delay_preset = or_else-Follows p.interaction_delay_preset s.interaction_delay_preset;
}

-- Another next run does not matter.
pub retimed-IsPatched :
    (p : SchedulePatch) (old new : CrawlSchedule) (t : ℕ)
    → IsPatched p old new
    → IsPatched p old (record new { next_run_at = t })
retimed-IsPatched p old new t a = record {
  id = a.id;
  source_id = a.source_id;
  timezone = a.timezone;
  cadence = a.cadence;
  time_of_day = a.time_of_day;
  weekday = a.weekday;
  enabled = a.enabled;
  collect_broker_details = a.collect_broker_details;
  interaction_delay_preset = a.interaction_delay_preset;
}

unset_of : {A : Type 0} (f : Field A) → is_set f ≡ false → f ≡ unset
unset_of unset h = refl
unset_of (given o) h = cc

not_enabled : (f : Field Bool) → (or_else (value f) false ≡ false) ↔ (f ≢ given (some true))
not_enabled unset = (λ h e. cc, λ h. refl)
not_enabled (given none) = (λ h e. cc, λ h. refl)
not_enabled (given (some false)) = (λ h e. cc, λ h. refl)
not_enabled (given (some true)) = (λ h e. cc, λ h. absurd (h refl))

-- The code's test for a new next run.
pub reschedules-IsUntimed : (p : SchedulePatch) → (reschedules p ≡ false) ↔ IsUntimed p
reschedules-IsUntimed p = (
  λ h. record {
    cadence = unset_of p.cadence (ground (arith));
    time_of_day = unset_of p.time_of_day (ground (arith));
    timezone = unset_of p.timezone (ground (arith));
    weekday = unset_of p.weekday (ground (arith));
    enabled = (not_enabled p.enabled).0 (ground (arith));
  },
  λ u. rw (u.cadence, u.time_of_day, u.timezone, u.weekday) ((not_enabled p.enabled).1 u.enabled),
)

-- ===== src/Schedules/Changes.antt =====
-- What a patch of a schedule leaves behind.
use wisdom_qj_auction_servic.Prelude.{
  ℕ, ◌==◌, ◌≡◌, ◌⊎◌, inl, inr, refl, sym, ◌∙◌, subst, true, false, Option, none, some, ◌&&◌, arith,
  not, any, All, is_none, if_cases,
}
use wisdom_qj_auction_servic.Prelude.Tables.{update_where, find-All}
use wisdom_qj_auction_servic.Models.{CrawlSchedule}
use wisdom_qj_auction_servic.NextRun.{Zone, IsForward, Found}
use wisdom_qj_auction_servic.Schedules.{
  source_not_found, value_error, Result, ok, err, Store, SchedulePatch, is_weekly, validate_patch,
  has_schedule_id, final_cadence, given_weekday, patched, reschedules, rescheduled, next_of,
  patch_found, patch, get_schedule, owned_schedule,
}
use wisdom_qj_auction_servic.Schedules.Patches.{
  IsPatched, IsUntimed, patched-IsPatched, retimed-IsPatched, reschedules-IsUntimed,
}
use wisdom_qj_auction_servic.Schedules.Lookup.{is_no_next_run}
use wisdom_qj_auction_servic.Schedules.Upkeep.{IsPlanned, IsTimed, planned-IsNext}

-- A patch that succeeds leaves a planned row, which is the old one with the payload applied. It
-- keeps its next run when the patch says nothing of the time, and is timed otherwise. A patch that
-- fails changes nothing, and it never fails for want of a next run.
abbrev pub PatchOutcome :
    Zone
    → (now actor schedule_id : ℕ) → SchedulePatch
    → Store
    → Result CrawlSchedule × Store
    → Type 0
PatchOutcome zone now actor schedule_id p db (ok s, after) =
    (old : CrawlSchedule) × (get_schedule actor schedule_id db ≡ some old)
    × IsPatched p old s
    × IsPlanned s
    × ((IsUntimed p × (s.next_run_at ≡ old.next_run_at)) ⊎ ((¬ IsUntimed p) × IsTimed zone now s))
    × (after.schedules ≡ update_where (has_schedule_id s.id) (λ _. s) db.schedules)
PatchOutcome zone now actor schedule_id p db (err e, after) =
    (is_no_next_run e ≡ false) × (after ≡ db)

patched-IsPlanned :
    (p : SchedulePatch) (s : CrawlSchedule)
    → validate_patch p ≡ true
    → IsPlanned s
    → (is_weekly (final_cadence p s) && is_none (given_weekday p s)) ≡ false
    → IsPlanned (patched p s)
patched-IsPlanned p s v k h =
    let a = k.in_range in
    let b = k.time in
    record { in_range = ground (arith); named = ground (arith); time = ground (arith) }

module _ (zone : Zone) (now actor schedule_id : ℕ) (p : SchedulePatch) (db : Store)
    (forward : IsForward zone) where
  timed_write :
      (old s : CrawlSchedule) (f : Found)
      → get_schedule actor schedule_id db ≡ some old
      → IsPatched p old s
      → (¬ IsUntimed p)
      → IsPlanned s
      → next_of zone now s ≡ f
      → PatchOutcome zone now actor schedule_id p db (rescheduled zone s f db)
  timed_write old s f g a timed k e =
      let (w, found, n, l) = planned-IsNext zone now s forward k in
      subst (λ h. PatchOutcome zone now actor schedule_id p db (rescheduled zone s h db))
        (sym found ∙ e)
        (
          old,
          g,
          retimed-IsPatched p old s (zone.to_instant w) a,
          record { in_range = k.in_range; named = k.named; time = k.time },
          inr (timed, record { wall = w; next = n; instant = refl; later = l }),
          refl,
        )

  found-Outcome :
      (s : CrawlSchedule)
      → get_schedule actor schedule_id db ≡ some s
      → validate_patch p ≡ true
      → IsPlanned s
      → PatchOutcome zone now actor schedule_id p db (patch_found zone now p (some s) db)
  found-Outcome s g v k =
      let P = PatchOutcome zone now actor schedule_id p db in
      if_cases P (not (any (λ x. x.id == s.source_id) db.sources)) (err source_not_found, db) _
        (λ _. (refl, refl))
        (λ _.
          if_cases P (is_weekly (final_cadence p s) && is_none (given_weekday p s))
            (err value_error, db) _ (λ _. (refl, refl))
            (λ h.
              let planned = patched-IsPlanned p s v k h in
              let a = patched-IsPatched p s in
              if_cases P (reschedules p) _ _
                (λ on.
                  timed_write s (patched p s) (next_of zone now (patched p s)) g a
                    (λ u. let off = (reschedules-IsUntimed p).1 u in cc (on, off)) planned refl)
                (λ off. (s, g, a, planned, inl ((reschedules-IsUntimed p).0 off, refl), refl))))

  lookup-Outcome :
      (o : Option CrawlSchedule)
      → get_schedule actor schedule_id db ≡ o
      → validate_patch p ≡ true
      → ((s : CrawlSchedule) → o ≡ some s → IsPlanned s)
      → PatchOutcome zone now actor schedule_id p db (patch_found zone now p o db)
  lookup-Outcome none g v k = (refl, refl)
  lookup-Outcome (some s) g v k = found-Outcome s g v (k s refl)

-- An accepted patch on a table of planned rows. When it succeeds, the row of the user that the id
-- names is written with exactly the payload applied: a field that is left out or null keeps its
-- value, any other gives it, and only a weekly schedule keeps a weekday. The written row is planned.
-- If the patch says nothing of the cadence, the time, the zone or the weekday, and does not enable
-- the schedule, the next run stays; otherwise it is the first occurrence after now. A patch that
-- fails changes nothing, and none fails for want of a next run.
pub patch-Outcome :
    (zone : Zone) (now actor schedule_id : ℕ) (p : SchedulePatch) (db : Store)
    → IsForward zone
    → validate_patch p ≡ true
    → All IsPlanned db.schedules
    → PatchOutcome zone now actor schedule_id p db (patch zone now actor schedule_id p db)
unfolding patch
patch-Outcome zone now actor schedule_id p db forward v k =
    lookup-Outcome zone now actor schedule_id p db forward (get_schedule actor schedule_id db) refl
      v
      (λ s f.
        find-All IsPlanned (λ x. has_schedule_id schedule_id x && owned_schedule actor db.sources x)
          db.schedules s k f)

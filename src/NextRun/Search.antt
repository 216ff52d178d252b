-- ===== src/NextRun/Search.antt =====
-- The loop over eight dates finds the first occurrence, and always finds one.
use wisdom_qj_auction_servic.Prelude.{
  lt→ltb, ==_iff, ltb→lt, ◌==◌, subst, ℕ, zero, suc, ◌+◌, ◌*◌, ◌/◌, ◌<◌, ◌≤◌, ◌≡◌, refl, true,
  false, Option, ltb, arith, inl, inr, Bool-cases,
}
use wisdom_qj_auction_servic.Models.{Cadence}
use wisdom_qj_auction_servic.NextRun.{NextRunError, day, skips, search_from, at, refused}

module _ (cadence : Cadence) (weekday : Option ℕ) (tod now : ℕ) where
  -- A date that the schedule runs on, at an hour that is still to come.
  abbrev pub IsOpen : ℕ → Type 0
  IsOpen date = (skips cadence weekday date ≡ false) × (now < date * day + tod)

  closed_skipped : (date : ℕ) → skips cadence weekday date ≡ true → ¬ IsOpen date
  closed_skipped date e o = cc (e, o.0)

  closed_past : (date : ℕ) → ltb now (date * day + tod) ≡ false → ¬ IsOpen date
  closed_past date e o = ground arith

  one_more :
      (first date : ℕ)
      → ¬ IsOpen first
      → ((e : ℕ) → suc first ≤ e → IsOpen e → date ≤ e)
      → (e : ℕ) → first ≤ e
      → IsOpen e
      → date ≤ e
  one_more first date closed least e le o = elim (Bool-cases (e == first)) [
    | inl same ↦ absurd (closed (subst IsOpen ((==_iff e first).0 same) o))
    | inr other ↦ least e (ground arith) o
  ]

  -- A date is open, and none from `first` on is earlier.
  abbrev pub IsFirst : ℕ → ℕ → Type 0
  IsFirst first w =
      (date : ℕ) × (w ≡ date * day + tod)
      × IsOpen date
      × ((e : ℕ) → first ≤ e → IsOpen e → date ≤ e)

  past_closed : (first w : ℕ) → ¬ IsOpen first → IsFirst (suc first) w → IsFirst first w
  past_closed first w closed (date, eq, o, least) = (date, eq, o, one_more first date closed least)

  -- What the loop finds is open, and no earlier date from its first one on is.
  pub search_finds :
      (left offset w : ℕ)
      → search_from cadence weekday tod now left offset ≡ at w
      → IsFirst (now / day + offset) w
  unfolding search_from
  search_finds zero offset w h = cc
  search_finds (suc left) offset w h =
      let date = now / day + offset in
      let later = λ (e : search_from cadence weekday tod now left (suc offset) ≡ at w).
        subst (λ first. IsFirst first w) (shift offset) (search_finds left (suc offset) w e) in
      elim (Bool-cases (skips cadence weekday date)) [
        | inl skipped ↦ past_closed date w (closed_skipped date skipped) (later (rw skipped at h))
        | inr runs ↦ elim (Bool-cases (ltb now (date * day + tod))) [
          | inl future ↦
              (date, cc (rw (runs, future) at h), (runs, ltb→lt _ _ future), λ e le o. le)
          | inr past ↦ past_closed date w (closed_past date past) (later (rw (runs, past) at h))
        ]
      ]
    where
      shift : (offset : ℕ) → now / day + suc offset ≡ suc (now / day + offset)
      shift offset = omega arith

  search_hits :
      (left offset : ℕ)
      → IsOpen (now / day + offset)
      → search_from cadence weekday tod now (suc left) offset
        ≡ at ((now / day + offset) * day + tod)
  unfolding search_from
  search_hits left offset o = rw (o.0, lt→ltb _ _ o.1) refl

  rest_refused :
      (left offset : ℕ) (e : NextRunError)
      → search_from cadence weekday tod now (suc left) offset ≡ refused e
      → search_from cadence weekday tod now left (suc offset) ≡ refused e
  unfolding search_from
  rest_refused left offset e h = elim (Bool-cases (skips cadence weekday (now / day + offset))) [
    | inl skipped ↦ rw skipped at h
    | inr runs ↦ elim (Bool-cases (ltb now ((now / day + offset) * day + tod))) [
      | inl future ↦ cc (rw (runs, future) at h)
      | inr past ↦ rw (runs, past) at h
    ]
  ]

  -- If the loop finds nothing, no date that it looks at is open.
  pub search_fails :
      (left offset : ℕ) (e : NextRunError)
      → search_from cadence weekday tod now left offset ≡ refused e
      → (j : ℕ) → j < left
      → ¬ IsOpen (now / day + offset + j)
  search_fails zero offset e h j lt = elim lt [ ]
  search_fails (suc left) offset e h zero lt =
      λ o. cc (h, search_hits left offset (subst IsOpen (omega arith) o))
  search_fails (suc left) offset e h (suc j) lt = λ o.
      search_fails left (suc offset) e (rest_refused left offset e h) j (omega arith)
        (subst IsOpen (omega arith) o)

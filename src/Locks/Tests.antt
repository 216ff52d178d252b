-- ===== src/Locks/Tests.antt =====
-- Small runs of the lock manager, and its theorems at concrete inputs.
use wisdom_qj_auction_servic.Prelude.{ℕ, ◌≡◌, refl, none, some, List, [], ◌∷◌, inl, inr, arith}
use wisdom_qj_auction_servic.Locks.{
  Lock, Manager, init, acquire, release, Call, acquire_call, release_call, run,
}
use wisdom_qj_auction_servic.Locks.Exclusion.{
  IsValid, run-IsValid, mutual_exclusion, release-acquire,
}

abbrev lock : ℕ → ℕ → Lock
lock s t = record { source_id = s; token = t }

-- Another task tries source 1, releases a stale lock of it, and uses source 2.
abbrev others : List Call
others =
    acquire_call 1 11 ∷ release_call (lock 1 9) ∷ acquire_call 2 12 ∷ release_call (lock 2 12) ∷ []

abbrev held : Manager
held = record { locked_sources = 1 ∷ []; tokens = (1, 10) ∷ [] }

run-others : run others held ≡ held
unfolding run acquire release
run-others = refl

init-IsValid : IsValid init
init-IsValid k = refl

run-IsValid_example : IsValid (run others init)
run-IsValid_example = run-IsValid others init init-IsValid

mutual_exclusion_example :
    let later = run others (acquire 1 10 init).1 in acquire 1 13 later ≡ (none, later)
unfolding acquire
mutual_exclusion_example =
    mutual_exclusion 1 10 init (lock 1 10) others 13 init-IsValid refl
      (tt, (inr (omega arith), (tt, (inl (omega arith), tt))))

release-acquire_example :
    (l : Lock) × (m' : Manager) × (acquire 1 10 init ≡ (some l, m')) × (release l m' ≡ init)
release-acquire_example = release-acquire 1 10 init init-IsValid refl

-- ===== src/Locks/Exclusion.antt =====
-- Mutual exclusion of the in-process source locks.
use wisdom_qj_auction_servic.Prelude.{
  ℕ, ◌≡◌, ◌≢◌, ◌⊎◌, refl, Bool, true, false, none, some, List, [], ◌∷◌, ◌==◌, arith, All, is_some,
  ==_iff, opt_eq_iff, if◌then◌else◌,
}
use wisdom_qj_auction_servic.Locks.{
  Lock, Manager, token_of, without_key, member, discard, acquire, release, Call, acquire_call,
  release_call, step, run,
}
use wisdom_qj_auction_servic.Locks.Contract.{SourceLockManager}

-- The set of locked sources and the keys of the token table are the same.
abbrev pub IsValid : Manager → Type 0
IsValid m = (k : ℕ) → member k m.locked_sources ≡ is_some (token_of k m.tokens)

pub token_of-without_key :
    (k j : ℕ) (d : List (ℕ × ℕ))
    → token_of j (without_key k d) ≡ (if k == j then none else token_of j d)
token_of-without_key k j [] = ground arith
token_of-without_key k j ((i, t) ∷ d) = ground (arith, token_of-without_key k j d)

pub member-discard :
    (k j : ℕ) (xs : List ℕ) → member j (discard k xs) ≡ (if k == j then false else member j xs)
member-discard k j [] = ground arith
member-discard k j (x ∷ xs) = ground (arith, member-discard k j xs)

without_key_absent : (k : ℕ) (d : List (ℕ × ℕ)) → token_of k d ≡ none → without_key k d ≡ d
without_key_absent k [] h = refl
without_key_absent k ((i, t) ∷ d) h = ground (arith, without_key_absent k d)

discard_absent : (k : ℕ) (xs : List ℕ) → member k xs ≡ false → discard k xs ≡ xs
discard_absent k [] h = refl
discard_absent k (x ∷ xs) h = ground (arith, discard_absent k xs)

acquire-IsValid : (s t : ℕ) (m : Manager) → IsValid m → IsValid (acquire s t m).1
unfolding acquire
acquire-IsValid s t m v k = ground (arith, v k, v s, token_of-without_key s k m.tokens)

release-IsValid : (l : Lock) (m : Manager) → IsValid m → IsValid (release l m)
unfolding release
release-IsValid l m v k = ground (
  arith,
  v k,
  token_of-without_key l.source_id k m.tokens,
  member-discard l.source_id k m.locked_sources,
)

step-IsValid : (c : Call) (m : Manager) → IsValid m → IsValid (step c m)
step-IsValid (acquire_call s t) m v = acquire-IsValid s t m v
step-IsValid (release_call l) m v = release-IsValid l m v

-- After any calls by any tasks, in any order, from a state in which the set of locked sources and
-- the keys of the token table are the same, they are the same.
pub run-IsValid : (cs : List Call) (m : Manager) → IsValid m → IsValid (run cs m)
unfolding run
run-IsValid [] m v = v
run-IsValid (c ∷ cs) m v = run-IsValid cs (step c m) (step-IsValid c m v)

-- `l` holds its source.
abbrev pub Holds : Lock → Manager → Type 0
Holds l m = token_of l.source_id m.tokens ≡ some l.token

-- A call that is not the release of `l` itself. (Another token may be given for the same source.)
abbrev pub IsOther : Lock → Call → Type 0
IsOther l (acquire_call s t) = Unit
IsOther l (release_call r) = (r.source_id ≢ l.source_id) ⊎ (r.token ≢ l.token)

acquire-Holds :
    (l : Lock) (s t : ℕ) (m : Manager) → IsValid m → Holds l m → Holds l (acquire s t m).1
unfolding acquire
acquire-Holds l s t m v h = ground (arith, v s, token_of-without_key s l.source_id m.tokens)

step-Holds :
    (l : Lock) (c : Call) (m : Manager) → IsValid m → IsOther l c → Holds l m → Holds l (step c m)
unfolding release
step-Holds l (acquire_call s t) m v o h = acquire-Holds l s t m v h
step-Holds l (release_call r) m v o h = ground (
  arith,
  token_of-without_key r.source_id l.source_id m.tokens,
  opt_eq_iff (token_of r.source_id m.tokens) (some r.token),
)

run-Holds :
    (l : Lock) (cs : List Call) (m : Manager)
    → IsValid m
    → All (IsOther l) cs
    → Holds l m
    → Holds l (run cs m)
unfolding run
run-Holds l [] m v o h = h
run-Holds l (c ∷ cs) m v o h =
    run-Holds l cs (step c m) (step-IsValid c m v) o.1 (step-Holds l c m v o.0 h)

acquire_held :
    (l : Lock) (s t : ℕ) (m : Manager)
    → IsValid m
    → l.source_id ≡ s
    → Holds l m
    → acquire s t m ≡ (none, m)
unfolding acquire
acquire_held l s t m v e h = ground (arith, v s)

acquired :
    (s t : ℕ) (m : Manager) (l : Lock)
    → (acquire s t m).0 ≡ some l
    → (l.source_id ≡ s) × Holds l (acquire s t m).1
unfolding acquire
acquired s t m l h = ground (arith, ==_iff s s)

-- Mutual exclusion: a lock, once acquired on a sound state, refuses every later acquisition of its
-- source and leaves the state alone, whatever calls other tasks make in between, stale and foreign
-- releases of that source included, as long as that lock itself is not released.
pub mutual_exclusion :
    (s t : ℕ) (m : Manager) (l : Lock) (cs : List Call) (u : ℕ)
    → IsValid m
    → (acquire s t m).0 ≡ some l
    → All (IsOther l) cs
    → let later = run cs (acquire s t m).1 in acquire s u later ≡ (none, later)
mutual_exclusion s t m l cs u v got o =
    let (source_eq, held) = acquired s t m l got in
    acquire_held l s u (run cs (acquire s t m).1)
      (run-IsValid cs (acquire s t m).1 (acquire-IsValid s t m v)) source_eq
      (run-Holds l cs (acquire s t m).1 (acquire-IsValid s t m v) o held)

-- On a sound state a free source can be acquired, and releasing that lock at once gives back the
-- state as it was.
pub release-acquire :
    (s t : ℕ) (m : Manager)
    → IsValid m
    → member s m.locked_sources ≡ false
    → (l : Lock) × (m' : Manager) × (acquire s t m ≡ (some l, m')) × (release l m' ≡ m)
unfolding acquire release
release-acquire s t m v free = (
  record { source_id = s; token = t },
  (acquire s t m).1,
  ground arith,
  ground (
    arith,
    v s,
    ==_iff s s,
    without_key_absent s m.tokens,
    without_key_absent s (without_key s m.tokens),
    discard_absent s m.locked_sources,
  ),
)

pub acquire_member :
    (s t : ℕ) (m : Manager) → member s m.locked_sources ≡ true → acquire s t m ≡ (none, m)
unfolding acquire
acquire_member s t m h = rw h

pub false_of_not_true : (b : Bool) → ¬ (b ≡ true) → b ≡ false
false_of_not_true b h = ground arith

-- The in-process manager keeps the promise of `SourceLockManager`.
abbrev pub local_manager : SourceLockManager
local_manager = record {
  State = Manager;
  Handle = Lock;
  IsSound = IsValid;
  Held = λ s m. member s m.locked_sources ≡ true;
  acquire = acquire;
  release = release;
  acquire_held = acquire_member;
  acquire_free = λ s t m v free. release-acquire s t m v (false_of_not_true _ free);
}

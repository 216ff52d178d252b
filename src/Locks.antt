-- ===== src/Locks.antt =====
-- The in-process source locks (backend/app/runtime/local_locks.py) and the promise that the
-- schedule services rely on (`SourceLockManager` of backend/app/services/schedule_service.py).
-- A source id and a token are UUIDs, modelled by numbers; the token that `uuid4` draws is an
-- argument. The `asyncio.Lock` around each method makes the method one step.
pub mod Contract
pub mod Exclusion
mod Tests
use wisdom_qj_auction_servic.Prelude.{
  ℕ, Bool, true, false, Option, none, some, List, [], ◌∷◌, not, ◌==◌, opt_eq, any, if◌then◌else◌,
}

pub record Lock : Type 0 where
  pub source_id : ℕ
  pub token : ℕ

pub record Manager : Type 0 where
  pub locked_sources : List ℕ
  pub tokens : List (ℕ × ℕ)

abbrev pub init : Manager
init = record { locked_sources = []; tokens = [] }

-- `tokens.get(source_id)`
abbrev pub token_of : ℕ → List (ℕ × ℕ) → Option ℕ
token_of k [] = none
token_of k ((j, t) ∷ d) = if j == k then some t else token_of k d

-- `tokens.pop(source_id, None)`
abbrev pub without_key : ℕ → List (ℕ × ℕ) → List (ℕ × ℕ)
without_key k [] = []
without_key k ((j, t) ∷ d) = if j == k then without_key k d else (j, t) ∷ without_key k d

-- `tokens[source_id] = token`
abbrev pub with_key : ℕ → ℕ → List (ℕ × ℕ) → List (ℕ × ℕ)
with_key k t d = (k, t) ∷ without_key k d

-- `source_id in locked_sources`
abbrev pub member : ℕ → List ℕ → Bool
member k xs = any (λ x. x == k) xs

-- `locked_sources.discard(source_id)`
abbrev pub discard : ℕ → List ℕ → List ℕ
discard k [] = []
discard k (x ∷ xs) = if x == k then discard k xs else x ∷ discard k xs

pub acquire : (source_id token : ℕ) → Manager → Option Lock × Manager
acquire source_id token m = if member source_id m.locked_sources then (none, m) else (
  some (record { source_id = source_id; token = token }),
  record {
    locked_sources = source_id ∷ m.locked_sources;
    tokens = with_key source_id token m.tokens;
  },
)

pub release : Lock → Manager → Manager
release lock m =
    if opt_eq (token_of lock.source_id m.tokens) (some lock.token)
    then record {
      locked_sources = discard lock.source_id m.locked_sources;
      tokens = without_key lock.source_id m.tokens;
    }
    else m

-- One call of a method by some task.
pub data Call : Type 0 where
  acquire_call : (source_id token : ℕ) → Call
  release_call : Lock → Call

abbrev pub step : Call → Manager → Manager
step (acquire_call s t) m = (acquire s t m).1
step (release_call l) m = release l m

-- The calls of all tasks, in the order in which the guard lets them in.
pub run : List Call → Manager → Manager
run [] m = m
run (c ∷ cs) m = run cs (step c m)

-- ===== src/Locks/Contract.antt =====
-- What a client of a source lock manager may rely on: `SourceLockManager` in
-- backend/app/services/schedule_service.py.
use wisdom_qj_auction_servic.Prelude.{ℕ, ◌≡◌, Option, none, some}

-- `Held s m`: some task holds source `s`.
pub record SourceLockManager : Type 1 where
  pub State : Type 0
  pub Handle : Type 0
  pub IsSound : State → Type 0
  pub Held : ℕ → State → Type 0
  pub acquire : (source_id token : ℕ) → State → Option Handle × State
  pub release : Handle → State → State
  pub acquire_held : (s t : ℕ) (m : State) → Held s m → acquire s t m ≡ (none, m)
  pub acquire_free :
      (s t : ℕ) (m : State)
      → IsSound m
      → ¬ Held s m
      → (l : Handle) × (m' : State) × (acquire s t m ≡ (some l, m')) × (release l m' ≡ m)

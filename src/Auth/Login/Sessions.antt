-- ===== src/Auth/Login/Sessions.antt =====
-- Which sessions authenticate, and what ends them.
use wisdom_qj_auction_servic.Prelude.{
  ℕ, ◌<◌, ◌≡◌, refl, subst, Bool, true, false, Option, none, some, List, [], ◌∷◌, ◌&&◌, ◌||◌, ◌==◌,
  arith, not, any, leb, is_none, if_cases, Bool-cases, inl, inr,
}
use wisdom_qj_auction_servic.Prelude.Tables.{find, update_where, find_passes}
use wisdom_qj_auction_servic.Prelude.Texts.{Text, is_empty}
use wisdom_qj_auction_servic.Models.{User, AuthSession}
use wisdom_qj_auction_servic.Auth.Core.{
  Result, ok, err, Store, Crypto, has_user_id, authentication_required, account_inactive,
  revoke_row,
}
use wisdom_qj_auction_servic.Auth.Login.{
  has_token, check_session, authenticate_row, authenticate, revoke_all_sessions,
}

abbrev seen : ℕ → AuthSession → AuthSession
seen now s = record s { last_seen_at = now }

-- What stands behind an authenticated request.
pub record IsAuthentic (c : Crypto) (ttl : ℕ) (token : Text) (now : ℕ) (db : Store) (u : User)
    (s : AuthSession) : Type 0 where
  pub found : find (has_token c ttl token) db.sessions ≡ some s
  pub owner : find (has_user_id s.user_id) db.users ≡ some u
  pub not_revoked : s.revoked_at ≡ none
  pub not_expired : now < s.expires_at
  pub active : u.is_active ≡ true
  pub human : u.is_system ≡ false

module _ (c : Crypto) (ttl : ℕ) where
  abbrev pub Outcome : Text → ℕ → Store → Result (User × AuthSession) × Store → Type 0
  Outcome token now db (err e, after) = after ≡ db
  Outcome token now db (ok (u, s), after) =
      (stored : AuthSession) × IsAuthentic c ttl token now db u stored
      × (s ≡ seen now stored)
      × (after.users ≡ db.users)

  check_session-Outcome :
      (token : Text) (now : ℕ) (u : User) (s : AuthSession) (db : Store)
      → find (has_token c ttl token) db.sessions ≡ some s
      → find (has_user_id s.user_id) db.users ≡ some u
      → Outcome token now db (check_session c ttl now u s db)
  check_session-Outcome token now u s db f o =
      if_cases (Outcome token now db) (not (is_none s.revoked_at) || leb s.expires_at now)
        (err authentication_required, db) _ (λ _. refl)
        (λ live.
          if_cases (Outcome token now db) (not u.is_active || u.is_system)
            (err account_inactive, db) _ (λ _. refl)
            (λ active. (
              s,
              record {
                found = f;
                owner = o;
                not_revoked = ground (arith);
                not_expired = ground (arith);
                active = ground (arith);
                human = ground (arith);
              },
              refl,
              refl,
            )))

  joined-Outcome :
      (token : Text) (now : ℕ) (s : AuthSession) (db : Store) (o : Option User)
      → find (has_token c ttl token) db.sessions ≡ some s
      → find (has_user_id s.user_id) db.users ≡ o
      → Outcome token now db
          (authenticate_row c ttl now (elim o [ none ↦ none | some u ↦ some (u, s) ]) db)
  joined-Outcome token now s db none f o = refl
  joined-Outcome token now s db (some u) f o = check_session-Outcome token now u s db f o

  row-Outcome :
      (token : Text) (now : ℕ) (db : Store) (o : Option AuthSession)
      → find (has_token c ttl token) db.sessions ≡ o
      → Outcome token now db (
          authenticate_row c ttl now
            (elim o [
              | none ↦ none
              | some s ↦ elim (find (has_user_id s.user_id) db.users) [
                | none ↦ none
                | some u ↦ some (u, s)
              ]
            ])
            db)
  row-Outcome token now db none f = refl
  row-Outcome token now db (some s) f =
      joined-Outcome token now s db (find (has_user_id s.user_id) db.users) f refl

  -- Whoever authenticates has a stored session of that token that is neither revoked nor expired,
  -- and an active account of a person; a refusal changes nothing.
  pub authenticate-Outcome :
      (token : Text) (now : ℕ) (db : Store)
      → Outcome token now db (authenticate c ttl (some token) now db)
  unfolding authenticate
  authenticate-Outcome token now db =
      if_cases (Outcome token now db) (is_empty token) (err authentication_required, db) _
        (λ _. refl) (λ _. row-Outcome token now db (find (has_token c ttl token) db.sessions) refl)

-- The sessions of a user that are not revoked.
abbrev pub is_live_of : ℕ → AuthSession → Bool
is_live_of user_id s = s.user_id == user_id && is_none s.revoked_at

pub update_where_clears {ℓ} :
    {A : Type ℓ} (p : A → Bool) (f : A → A) (xs : List A)
    → ((x : A) → p (f x) ≡ false)
    → any p (update_where p f xs) ≡ false
update_where_clears p f [] h = refl
update_where_clears p f (x ∷ xs) h = ground (arith, h x, update_where_clears p f xs h)

revoke_row-is_live_of :
    (user_id now : ℕ) (s : AuthSession) → is_live_of user_id (revoke_row now s) ≡ false
revoke_row-is_live_of user_id now s = ground (arith)

pub revoke_all_sessions-none :
    (user_id now : ℕ) (db : Store)
    → any (is_live_of user_id) (revoke_all_sessions user_id now db).sessions ≡ false
unfolding revoke_all_sessions
revoke_all_sessions-none user_id now db =
    update_where_clears (is_live_of user_id) (revoke_row now) db.sessions
      (revoke_row-is_live_of user_id now)

-- A row that a select finds passes no test that no row passes.
found_fails {ℓ} :
    {A : Type ℓ} (p q : A → Bool) (xs : List A) (x : A)
    → find p xs ≡ some x
    → any q xs ≡ false
    → q x ≡ false
found_fails p q [] x f h = cc
found_fails p q (y ∷ xs) x f h = elim (Bool-cases (p y)) [
  | inl e ↦ (let same : y ≡ x = ground (arith) in subst (λ z. q z ≡ false) same (ground (arith)))
  | inr e ↦ ground (arith, found_fails p q xs x)
]

-- The request is refused or is somebody else's.
abbrev pub IsNotOf : ℕ → Result (User × AuthSession) → Type 0
IsNotOf user_id (err e) = Unit
IsNotOf user_id (ok (u, s)) = has_user_id user_id u ≡ false

-- A user without a live session is nobody who authenticates.
pub no_session_refuses :
    (c : Crypto) (ttl user_id : ℕ) (token : Text) (now : ℕ) (db : Store)
    (r : Result (User × AuthSession) × Store)
    → any (is_live_of user_id) db.sessions ≡ false
    → Outcome c ttl token now db r
    → IsNotOf user_id r.0
no_session_refuses c ttl user_id token now db (err e, after) h o = tt
no_session_refuses c ttl user_id token now db (ok (u, s), after) h (stored, a, _, _) =
    let dead =
      found_fails (has_token c ttl token) (is_live_of user_id) db.sessions stored a.found h in
    let own = find_passes (has_user_id stored.user_id) db.users u a.owner in
    let open_ = a.not_revoked in ground (arith)

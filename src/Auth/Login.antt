-- ===== src/Auth/Login.antt =====
-- Logging in, authenticating a request, and ending sessions.
pub mod Lockout
pub mod Sessions
use wisdom_qj_auction_servic.Prelude.{
  ℕ, ◌+◌, Bool, true, false, Option, none, some, List, [], ◌∷◌, ◌&&◌, ◌||◌, ◌==◌, not, any, ltb,
  leb, is_none, if◌then◌else◌,
}
use wisdom_qj_auction_servic.Prelude.Tables.{find, update_where}
use wisdom_qj_auction_servic.Prelude.Texts.{Text, text_eq, is_empty}
use wisdom_qj_auction_servic.Models.{User, AuthSession}
use wisdom_qj_auction_servic.Auth.Core.{
  Result, ok, err, Store, Crypto, verify_password, constant_time_equal, normalize_email, has_email,
  has_user_id, revoke_row, invalid_credentials, account_inactive, authentication_required,
  csrf_invalid, integrity_error,
}

-- Fifteen minutes, in microseconds.
abbrev pub lock_time : ℕ
lock_time = 900_000_000

-- `user.locked_until is not None and user.locked_until > current_time`
abbrev pub is_locked : ℕ → Option ℕ → Bool
is_locked now none = false
is_locked now (some t) = ltb now t

abbrev pub failed_user : ℕ → User → User
failed_user now u = record u {
  failed_login_count = u.failed_login_count + 1;
  locked_until =
      if leb 5 (u.failed_login_count + 1) then some (now + lock_time) else u.locked_until;
}

abbrev pub welcomed : User → User
welcomed u = record u { failed_login_count = 0; locked_until = none }

abbrev pub update_user_row : ℕ → (User → User) → List User → List User
update_user_row user_id f users = update_where (has_user_id user_id) f users

-- `LoginResult`
pub record LoginResult : Type 0 where
  pub user : User
  pub session : AuthSession
  pub session_token : Text
  pub csrf_token : Text

-- The two tokens and the session id are drawn at random.
pub record Draw : Type 0 where
  pub session_id : ℕ
  pub session_token : Text
  pub csrf_token : Text

-- An address that is not valid is looked up as the empty text.
abbrev pub or_empty : Option Text → Text
or_empty none = []
or_empty (some e) = e

abbrev pub same_session : AuthSession → AuthSession → Bool
same_session s x = x.id == s.id || text_eq x.token_hash s.token_hash

module _ (c : Crypto) (ttl : ℕ) where
  abbrev pub new_session : Draw → ℕ → User → AuthSession
  new_session d now u = record {
    id = d.session_id;
    user_id = u.id;
    token_hash = c.hash_token d.session_token;
    csrf_hash = c.hash_token d.csrf_token;
    created_at = now;
    last_seen_at = now;
    expires_at = now + ttl;
    revoked_at = none;
  }

  -- The checks after the row was found, with its password hash. Two sessions with one id or one
  -- token hash violate a constraint of the table, which undoes the transaction.
  abbrev pub login_user : Draw → Text → ℕ → User → Text → Store → Result LoginResult × Store
  login_user d password now u hash db =
      if is_locked now u.locked_until
      then (err invalid_credentials, db)
      else if not u.is_active
      then (err account_inactive, db)
      else if not (verify_password c password hash)
      then (
        err invalid_credentials,
        record db { users = update_user_row u.id (failed_user now) db.users },
      )
      else if any (same_session (new_session d now u)) db.sessions
      then (err integrity_error, db)
      else (
        ok (record {
          user = welcomed u;
          session = new_session d now u;
          session_token = d.session_token;
          csrf_token = d.csrf_token;
        }),
        record db {
          users = update_user_row u.id welcomed db.users;
          sessions = new_session d now u ∷ db.sessions;
        },
      )

  abbrev pub login_found : Draw → Text → ℕ → Option User → Store → Result LoginResult × Store
  login_found d password now none db = (err invalid_credentials, db)
  login_found d password now (some u) db =
      if u.is_system then (err invalid_credentials, db) else elim u.password_hash [
        | none ↦ (err invalid_credentials, db)
        | some hash ↦ login_user d password now u hash db
      ]

  pub login : Draw → (email password : Text) → (now : ℕ) → Store → Result LoginResult × Store
  login d email password now db =
      login_found d password now (find (has_email (or_empty (normalize_email c email))) db.users) db

  abbrev pub has_token : Text → AuthSession → Bool
  has_token token s = text_eq s.token_hash (c.hash_token token)

  abbrev pub check_session : ℕ → User → AuthSession → Store → Result (User × AuthSession) × Store
  check_session now u s db =
      if not (is_none s.revoked_at) || leb s.expires_at now
      then (err authentication_required, db)
      else if not u.is_active || u.is_system
      then (err account_inactive, db)
      else (
        ok (u, record s { last_seen_at = now }),
        record db {
          sessions =
              update_where (λ x. x.id == s.id) (λ x. record x { last_seen_at = now }) db.sessions;
        },
      )

  -- The join of the session with its user.
  abbrev pub session_row : Text → Store → Option (User × AuthSession)
  session_row token db = elim (find (has_token token) db.sessions) [
    | none ↦ none
    | some s ↦ elim (find (has_user_id s.user_id) db.users) [ none ↦ none | some u ↦ some (u, s) ]
  ]

  abbrev pub authenticate_row :
      ℕ → Option (User × AuthSession) → Store → Result (User × AuthSession) × Store
  authenticate_row now none db = (err authentication_required, db)
  authenticate_row now (some (u, s)) db = check_session now u s db

  unfoldable pub authenticate :
      Option Text → (now : ℕ) → Store → Result (User × AuthSession) × Store
  authenticate none now db = (err authentication_required, db)
  authenticate (some token) now db =
      if is_empty token
      then (err authentication_required, db)
      else authenticate_row now (session_row token db) db

  abbrev pub csrf_matches : AuthSession → Text → Text → Bool
  csrf_matches s cookie header =
      not (is_empty cookie)
      && not (is_empty header)
      && constant_time_equal cookie header
      && constant_time_equal (c.hash_token header) s.csrf_hash

  -- `validate_csrf`; the error is CsrfInvalidError.
  unfoldable pub validate_csrf : AuthSession → (cookie header : Option Text) → Result (Unit {0})
  validate_csrf s (some cookie) (some header) =
      if csrf_matches s cookie header then ok tt else err csrf_invalid
  validate_csrf s _ _ = err csrf_invalid

pub revoke_session : AuthSession → (now : ℕ) → Store → Store
revoke_session s now db = record db {
  sessions = update_where (λ x. x.id == s.id) (revoke_row now) db.sessions;
}

-- Only the sessions that are not revoked yet.
unfoldable pub revoke_all_sessions : (user_id now : ℕ) → Store → Store
revoke_all_sessions user_id now db = record db {
  sessions =
      update_where (λ x. x.user_id == user_id && is_none x.revoked_at) (revoke_row now) db.sessions;
}

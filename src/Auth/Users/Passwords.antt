-- ===== src/Auth/Users/Passwords.antt =====
-- A new password and a deactivation end every session of the account.
use wisdom_qj_auction_servic.Prelude.{
  ℕ, ◌≡◌, subst, Bool, true, false, some, arith, any, if_cases, not, if◌then◌else◌,
}
use wisdom_qj_auction_servic.Prelude.Texts.{Text}
use wisdom_qj_auction_servic.Models.{User}
use wisdom_qj_auction_servic.Auth.Core.{
  Result, ok, err, Store, Crypto, validate_password, value_error, invalid_credentials,
  system_user_immutable, last_active_admin,
}
use wisdom_qj_auction_servic.Auth.Login.{authenticate, update_user_row, revoke_all_sessions}
use wisdom_qj_auction_servic.Auth.Login.Sessions.{
  is_live_of, revoke_all_sessions-none, no_session_refuses, IsNotOf, authenticate-Outcome,
}
use wisdom_qj_auction_servic.Auth.Users.{
  Changes, change_password, set_temporary_password, update_user, set_password, with_password,
  knows_password, changed, is_deactivation, is_unknown_role, protect_last_admin, is_blank,
}

-- The operations that end the sessions of a user, each after it succeeded.
pub data EndsSessions (c : Crypto) (u : User) (db : Store) : Store → Type 0 where
  password_changed :
      (salt now : ℕ) (current_password new_password : Text) (after : Store)
      → change_password c salt now u current_password new_password db ≡ (ok tt, after)
      → EndsSessions c u db after
  password_reset :
      (salt now : ℕ) (password : Text) (after : Store)
      → set_temporary_password c salt now u password db ≡ (ok tt, after)
      → EndsSessions c u db after
  deactivated :
      (now : ℕ) (ch : Changes) (v : User) (after : Store)
      → ch.is_active ≡ some false
      → update_user now u ch db ≡ (ok v, after)
      → EndsSessions c u db after

-- A result that is no error has no live session of the user.
abbrev Ended : {A : Type 0} → ℕ → Result A × Store → Type 0
Ended user_id (err e, after) = Unit
Ended user_id (ok a, after) = any (is_live_of user_id) after.sessions ≡ false

set_password-Ended :
    (c : Crypto) (salt now : ℕ) (password : Text) (u : User) (db : Store)
    → any (is_live_of u.id) (set_password c salt now password u db).sessions ≡ false
set_password-Ended c salt now password u db = revoke_all_sessions-none u.id now (record db {
  users = update_user_row u.id (with_password (c.hash_password salt password)) db.users;
})

change_password-Ended :
    (c : Crypto) (salt now : ℕ) (u : User) (current_password new_password : Text) (db : Store)
    → Ended u.id (change_password c salt now u current_password new_password db)
unfolding change_password
change_password-Ended c salt now u current_password new_password db =
    if_cases (Ended u.id) (not (validate_password new_password)) (err value_error, db) _ (λ _. tt)
      (λ _.
        if_cases (Ended u.id) (not (knows_password c u current_password))
          (err invalid_credentials, db) _ (λ _. tt)
          (λ _. set_password-Ended c salt now new_password u db))

set_temporary_password-Ended :
    (c : Crypto) (salt now : ℕ) (u : User) (password : Text) (db : Store)
    → Ended u.id (set_temporary_password c salt now u password db)
unfolding set_temporary_password
set_temporary_password-Ended c salt now u password db =
    if_cases (Ended u.id) u.is_system (err system_user_immutable, db) _ (λ _. tt)
      (λ _.
        if_cases (Ended u.id) (not (validate_password password)) (err value_error, db) _ (λ _. tt)
          (λ _. set_password-Ended c salt now password u db))

ended :
    (b : Bool) (now : ℕ) (db : Store) (user_id : ℕ)
    → b ≡ true
    → any (is_live_of user_id) (if b then revoke_all_sessions user_id now db else db).sessions
      ≡ false
ended b now db user_id on = rw (on, any) (revoke_all_sessions-none user_id now db)

deactivation-Ended :
    (now : ℕ) (ch : Changes) (u : User) (db : Store)
    → ch.is_active ≡ some false
    → Ended u.id (update_user now u ch db)
unfolding update_user
deactivation-Ended now ch u db off =
    if_cases (Ended u.id) u.is_system (err system_user_immutable, db) _ (λ _. tt)
      (λ _.
        if_cases (Ended u.id) (is_unknown_role ch) (err value_error, db) _ (λ _. tt)
          (λ _.
            if_cases (Ended u.id) (not (protect_last_admin u ch db)) (err last_active_admin, db) _
              (λ _. tt)
              (λ _.
                if_cases (Ended u.id) (is_blank ch.display_name) (err value_error, db) _ (λ _. tt)
                  (λ _.
                    ended (is_deactivation ch) now
                      (record db { users = update_user_row u.id (changed ch) db.users }) u.id
                      (ground (arith))))))

EndsSessions-none :
    (c : Crypto) (u : User) (db after : Store)
    → EndsSessions c u db after
    → any (is_live_of u.id) after.sessions ≡ false
EndsSessions-none c u db _ (password_changed salt now current new after h) =
    subst (Ended u.id) h (change_password-Ended c salt now u current new db)
EndsSessions-none c u db _ (password_reset salt now password after h) =
    subst (Ended u.id) h (set_temporary_password-Ended c salt now u password db)
EndsSessions-none c u db _ (deactivated now ch v after off h) =
    subst (Ended u.id) h (deactivation-Ended now ch u db off)

-- After a new password or a deactivation no session token authenticates the user any more.
pub EndsSessions-authenticate :
    (c : Crypto) (ttl : ℕ) (u : User) (db after : Store) (token : Text) (later : ℕ)
    → EndsSessions c u db after
    → IsNotOf u.id (authenticate c ttl (some token) later after).0
EndsSessions-authenticate c ttl u db after token later e =
    no_session_refuses c ttl u.id token later after (authenticate c ttl (some token) later after)
      (EndsSessions-none c u db after e) (authenticate-Outcome c ttl token later after)

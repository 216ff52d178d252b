-- ===== src/Auth/Core.antt =====
-- The tables, the errors and the external cryptography of the account service.
use wisdom_qj_auction_servic.Prelude.{
  ℕ, Bool, true, false, Option, none, some, List, ◌∷◌, ◌&&◌, ◌||◌, ◌==◌, ◌≡◌, not, any, length, ltb,
  leb, if◌then◌else◌,
}
use wisdom_qj_auction_servic.Prelude.Texts.{Text, text_eq, strip, is_empty, starts_with, ends_with}
use wisdom_qj_auction_servic.Models.{User, AuthSession, TrackedSource}

pub data AuthError : Type 0 where
  bootstrap_completed bootstrap_unavailable invalid_credentials authentication_required : AuthError
  account_inactive csrf_invalid user_conflict user_not_found last_active_admin : AuthError
  system_user_immutable value_error integrity_error : AuthError

pub data Result (A : Type 0) : Type 0 where
  ok : A → Result A
  err : AuthError → Result A

pub record Store : Type 0 where
  pub users : List User
  pub sessions : List AuthSession
  pub sources : List TrackedSource

-- What comes from outside: Unicode lower case, `pwdlib` and SHA-256. A password hash depends on a
-- random salt; `verify` is `none` where the library raises TypeError or ValueError.
pub record Crypto : Type 0 where
  pub lower : Text → Text
  pub hash_password : (salt : ℕ) → Text → Text
  pub verify : (password hash : Text) → Option Bool
  pub hash_token : Text → Text

-- A password matches its own hash.
abbrev pub IsFaithful : Crypto → Type 0
IsFaithful c =
    (salt : ℕ) (password : Text) → c.verify password (c.hash_password salt password) ≡ some true

-- `verify_password` of backend/app/core/security.py: a TypeError or ValueError counts as a
-- mismatch; no other exception of the library is modelled.
abbrev pub verify_password : Crypto → Text → Text → Bool
verify_password c password hash = elim (c.verify password hash) [ none ↦ false | some b ↦ b ]

-- `constant_time_equal`
abbrev pub constant_time_equal : Text → Text → Bool
constant_time_equal a b = text_eq a b

-- `AuthService.normalize_email`; `none` is the ValueError. 64 is the code of the at sign.
unfoldable pub normalize_email : Crypto → Text → Option Text
normalize_email c email =
    let normalized = c.lower (strip email) in
    if is_empty normalized
      || ltb 320 (length normalized)
      || starts_with 64 normalized
      || ends_with 64 normalized
      || not (any (λ x. x == 64) normalized)
    then none
    else some normalized

-- `AuthService.validate_password`; false is the ValueError.
abbrev pub validate_password : Text → Bool
validate_password password = leb 12 (length password) && leb (length password) 128

abbrev pub has_email : Text → User → Bool
has_email email u = text_eq u.email email

abbrev pub has_user_id : ℕ → User → Bool
has_user_id user_id u = u.id == user_id

-- INSERT under the primary key and the unique e-mail address.
unfoldable pub insert_user : User → List User → Option (List User)
insert_user u users =
    if any (λ x. has_user_id u.id x || has_email u.email x) users then none else some (u ∷ users)

abbrev pub revoke_row : ℕ → AuthSession → AuthSession
revoke_row now s = record s { revoked_at = some now }

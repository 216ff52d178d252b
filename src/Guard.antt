-- ===== src/Guard.antt =====
-- backend/app/api/dependencies/auth.py: who may make a request.
-- Of an HTTP error the code of its detail and the status are kept; `clears` says whether the
-- cookies of the session are deleted.
pub mod Admission
mod Tests
use wisdom_qj_auction_servic.Prelude.{
  ℕ, Bool, true, false, Option, none, some, List, [], ◌∷◌, ◌&&◌, ◌==◌, not, any, if◌then◌else◌,
}
use Prim.Native.String.{String}
use wisdom_qj_auction_servic.Prelude.Texts.{Text, text_eq}
use wisdom_qj_auction_servic.Models.{User, AuthSession, Role, admin}
use wisdom_qj_auction_servic.Auth.Core.{
  Crypto, Store, Result, ok, err, AuthError, account_inactive, authentication_required,
  csrf_invalid,
}
use wisdom_qj_auction_servic.Auth.Login.{authenticate, validate_csrf}

pub data Method : Type 0 where
  get head options post put patch delete : Method

-- `MUTATING_METHODS`
abbrev pub is_mutating : Method → Bool
is_mutating post = true
is_mutating patch = true
is_mutating delete = true
is_mutating _ = false

-- The method, the headers `origin` and `x-csrf-token`, and the two cookies.
pub record Request : Type 0 where
  pub method : Method
  pub origin : Option Text
  pub session_cookie : Option Text
  pub csrf_cookie : Option Text
  pub csrf_header : Option Text

pub record Settings : Type 0 where
  pub auth_allowed_origins : List Text
  pub auth_session_ttl : ℕ

pub data Answer (A : Type 0) : Type 0 where
  admitted : A → Answer A
  refused : (code : String) → (http_status : ℕ) → (clears : Bool) → Answer A

-- `s.rstrip("/")`; 47 is the code of the slash.
unfoldable pub without_slashes : Text → Text
without_slashes [] = []
without_slashes (c ∷ s) =
    let rest = without_slashes s in
    elim rest [ [] ↦ (if c == 47 then [] else c ∷ []) | d ∷ r ↦ c ∷ d ∷ r ]

-- The test of `require_allowed_origin`.
abbrev pub is_allowed_origin : Settings → Option Text → Bool
is_allowed_origin settings none = false
is_allowed_origin settings (some origin) =
    any (λ allowed. text_eq (without_slashes allowed) (without_slashes origin))
      settings.auth_allowed_origins

-- The other errors are not raised here, and would be the error 500 of the framework.
abbrev pub code_of : AuthError → String
code_of account_inactive = "account_inactive"
code_of authentication_required = "authentication_required"
code_of csrf_invalid = "csrf_invalid"
code_of _ = "internal_error"

abbrev pub status_of : AuthError → ℕ
status_of account_inactive = 401
status_of authentication_required = 401
status_of csrf_invalid = 403
status_of _ = 500

abbrev pub is_cleared : AuthError → Bool
is_cleared account_inactive = true
is_cleared authentication_required = true
is_cleared _ = false

abbrev pub of_error : {A : Type 0} → AuthError → Answer A
of_error e = refused (code_of e) (status_of e) (is_cleared e)

module _ (c : Crypto) (settings : Settings) where
  abbrev pub after_csrf : User → AuthSession → Result (Unit {0}) → Answer (User × AuthSession)
  after_csrf u s (ok tt) = admitted (u, s)
  after_csrf u s (err e) = of_error e

  -- The session is committed as seen before the CSRF token is tested.
  abbrev pub authenticated :
      Request → Result (User × AuthSession) × Store → Answer (User × AuthSession) × Store
  authenticated r (err e, db) = (of_error e, db)
  authenticated r (ok (u, s), db) = (
    (if is_mutating r.method
        then after_csrf u s
            (validate_csrf c settings.auth_session_ttl s r.csrf_cookie r.csrf_header)
        else admitted (u, s)),
    db,
  )

  -- `current_auth`
  unfoldable pub current_auth : Request → (now : ℕ) → Store → Answer (User × AuthSession) × Store
  current_auth r now db =
      if is_mutating r.method && not (is_allowed_origin settings r.origin)
      then (refused "origin_invalid" 403 false, db)
      else authenticated r (authenticate c settings.auth_session_ttl r.session_cookie now db)

  abbrev pub is_admin : Role → Bool
  is_admin admin = true
  is_admin _ = false

  abbrev pub of_admin : Answer (User × AuthSession) → Answer User
  of_admin (refused code http_status clears) = refused code http_status clears
  of_admin (admitted (u, s)) =
      if is_admin u.role then admitted u else refused "admin_required" 403 false

  -- `current_admin`, after `current_auth`.
  unfoldable pub current_admin : Request → (now : ℕ) → Store → Answer User × Store
  current_admin r now db = let (answer, after) = current_auth r now db in (of_admin answer, after)

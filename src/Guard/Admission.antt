-- ===== src/Guard/Admission.antt =====
-- Whom the dependencies of backend/app/api/dependencies/auth.py admit.
use wisdom_qj_auction_servic.Prelude.{
  ℕ, ◌≡◌, refl, ap, ◌∙◌, true, false, Option, none, some, ◌&&◌, not, arith, if_cases, ◌⊎◌, inl, inr,
}
use wisdom_qj_auction_servic.Prelude.Texts.{Text, text_eq_iff}
use wisdom_qj_auction_servic.Models.{User, AuthSession, Role, admin}
use wisdom_qj_auction_servic.Auth.Core.{Crypto, Store, Result, ok, err}
use wisdom_qj_auction_servic.Auth.Login.{authenticate, validate_csrf}
use wisdom_qj_auction_servic.Auth.Login.Sessions.{IsAuthentic, Outcome, authenticate-Outcome}
use wisdom_qj_auction_servic.Guard.{
  Request, Settings, Answer, admitted, refused, is_mutating, is_allowed_origin, after_csrf,
  authenticated, current_auth, current_admin, of_admin, is_admin,
}

-- The CSRF token of a request: cookie and header are the same text, and its hash is the session's.
pub record HasToken (c : Crypto) (r : Request) (s : AuthSession) : Type 0 where
  pub token : Text
  pub cookie : r.csrf_cookie ≡ some token
  pub header : r.csrf_header ≡ some token
  pub hashed : c.hash_token token ≡ s.csrf_hash

-- A request that is not mutating, or has an allowed origin and the CSRF token.
abbrev pub IsSafe : Crypto → Settings → Request → AuthSession → Type 0
IsSafe c settings r s =
    (is_mutating r.method ≡ false) ⊎ ((is_allowed_origin settings r.origin ≡ true) × HasToken c r s)

module _ (c : Crypto) (settings : Settings) (r : Request) (now : ℕ) (db : Store) where
  pub record IsAdmitted (u : User) (s : AuthSession) (after : Store) : Type 0 where
    pub token : Text
    pub session_cookie : r.session_cookie ≡ some token
    pub stored : AuthSession
    pub authentic : IsAuthentic c settings.auth_session_ttl token now db u stored
    pub seen : s ≡ record stored { last_seen_at = now }
    pub users : after.users ≡ db.users
    pub safe : IsSafe c settings r s

  abbrev pub Admission : Answer (User × AuthSession) × Store → Type 0
  Admission (refused code http_status clears, after) = after.users ≡ db.users
  Admission (admitted (u, s), after) = IsAdmitted u s after

  csrf_HasToken :
      (s : AuthSession) (cookie header : Option Text)
      → r.csrf_cookie ≡ cookie
      → r.csrf_header ≡ header
      → validate_csrf c settings.auth_session_ttl s cookie header ≡ ok tt
      → HasToken c r s
  unfolding validate_csrf
  csrf_HasToken s none header p q h = cc
  csrf_HasToken s (some k) none p q h = cc
  csrf_HasToken s (some k) (some t) p q h = record {
    token = t;
    cookie = p ∙ ap some ((text_eq_iff k t).0 (ground (arith, h)));
    header = q;
    hashed = (text_eq_iff (c.hash_token t) s.csrf_hash).0 (ground (arith, h));
  }

  tested_Admission :
      (u : User) (s : AuthSession) (after : Store) (v : Result (Unit {0}))
      → validate_csrf c settings.auth_session_ttl s r.csrf_cookie r.csrf_header ≡ v
      → (IsSafe c settings r s → IsAdmitted u s after)
      → is_allowed_origin settings r.origin ≡ true
      → after.users ≡ db.users
      → Admission (after_csrf c settings u s v, after)
  tested_Admission u s after (err e) q k a g = g
  tested_Admission u s after (ok tt) q k a g =
      k (inr (a, csrf_HasToken s r.csrf_cookie r.csrf_header refl refl q))

  IsAdmitted-if_safe :
      (token : Text) (u : User) (s : AuthSession) (after : Store)
      → r.session_cookie ≡ some token
      → Outcome c settings.auth_session_ttl token now db (ok (u, s), after)
      → IsSafe c settings r s
      → IsAdmitted u s after
  IsAdmitted-if_safe token u s after p (stored, a, q, g) safe = record {
    token = token;
    session_cookie = p;
    stored = stored;
    authentic = a;
    seen = q;
    users = g;
    safe = safe;
  }

  Outcome-users :
      (token : Text) (u : User) (s : AuthSession) (after : Store)
      → Outcome c settings.auth_session_ttl token now db (ok (u, s), after)
      → after.users ≡ db.users
  Outcome-users token u s after (stored, a, q, g) = g

  authenticated-Admission :
      (token : Text) (o : Result (User × AuthSession) × Store)
      → r.session_cookie ≡ some token
      → (is_mutating r.method && not (is_allowed_origin settings r.origin)) ≡ false
      → Outcome c settings.auth_session_ttl token now db o
      → Admission (authenticated c settings r o)
  authenticated-Admission token (err e, after) p g h = ap (λ d. d.users) h
  authenticated-Admission token (ok (u, s), after) p g h =
      if_cases (λ x. Admission (x, after)) (is_mutating r.method) _ (admitted (u, s))
        (λ m.
          tested_Admission u s after _ refl (IsAdmitted-if_safe token u s after p h)
            (ground (arith, m, g)) (Outcome-users token u s after h))
        (λ m. IsAdmitted-if_safe token u s after p h (inl m))

  cookie_Admission :
      (cookie : Option Text)
      → r.session_cookie ≡ cookie
      → (is_mutating r.method && not (is_allowed_origin settings r.origin)) ≡ false
      → Admission
          (authenticated c settings r (authenticate c settings.auth_session_ttl cookie now db))
  unfolding authenticate
  cookie_Admission none p g = refl
  cookie_Admission (some token) p g =
      authenticated-Admission token (authenticate c settings.auth_session_ttl (some token) now db) p
        g (authenticate-Outcome c settings.auth_session_ttl token now db)

  -- Whoever is admitted has an authentic session, whose cookie the request carries; a POST, PATCH or
  -- DELETE has an allowed origin as well, and the CSRF token of the session in a header and in a
  -- cookie. Neither an admission nor a refusal changes an account.
  pub current_auth-Admission : Admission (current_auth c settings r now db)
  unfolding current_auth
  current_auth-Admission =
      if_cases Admission (is_mutating r.method && not (is_allowed_origin settings r.origin))
        (refused "origin_invalid" 403 false, db) _ (λ e. refl)
        (λ e. cookie_Admission r.session_cookie refl e)

  abbrev pub AdminAdmission : Answer User × Store → Type 0
  AdminAdmission (refused code http_status clears, after) = after.users ≡ db.users
  AdminAdmission (admitted u, after) = (u.role ≡ admin) × ((s : AuthSession) × IsAdmitted u s after)

  role_admin : (x : Role) → is_admin c settings x ≡ true → x ≡ admin
  role_admin x h = ground arith

  of_admin-Admission :
      (o : Answer (User × AuthSession)) (after : Store)
      → Admission (o, after)
      → AdminAdmission (of_admin c settings o, after)
  of_admin-Admission (refused code http_status clears) after h = h
  of_admin-Admission (admitted (u, s)) after h =
      if_cases (λ x. AdminAdmission (x, after)) (is_admin c settings u.role) (admitted u)
        (refused "admin_required" 403 false) (λ e. (role_admin u.role e, (s, h))) (λ e. h.users)

  -- Whoever is admitted as administrator has that role, and is admitted as any user is.
  pub current_admin-Admission : AdminAdmission (current_admin c settings r now db)
  unfolding current_admin
  current_admin-Admission =
      let (answer, after) = current_auth c settings r now db in
      of_admin-Admission answer after current_auth-Admission

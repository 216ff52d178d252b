-- ===== src/Guard/Tests.antt =====
-- Examples: a POST with everything it needs.
use wisdom_qj_auction_servic.Prelude.{◌≡◌, refl, some, [], ◌∷◌}
use wisdom_qj_auction_servic.Prelude.Texts.{codes}
use wisdom_qj_auction_servic.Auth.Samples.{crypto, anna, session, two_admins}
use wisdom_qj_auction_servic.Auth.Login.{authenticate, validate_csrf}
use wisdom_qj_auction_servic.Guard.{
  Request, Settings, post, current_auth, current_admin, without_slashes, admitted,
}
use wisdom_qj_auction_servic.Guard.Admission.{
  Admission, AdminAdmission, current_auth-Admission, current_admin-Admission,
}

abbrev settings : Settings
settings = record {
  auth_allowed_origins = codes "https://example.com/" ∷ [];
  auth_session_ttl = 1000;
}

abbrev request : Request
request = record {
  method = post;
  origin = some (codes "https://example.com");
  session_cookie = some (codes "token");
  csrf_cookie = some (codes "csrf");
  csrf_header = some (codes "csrf");
}

admits :
    (current_auth crypto settings request 6 two_admins).0
    ≡ admitted (anna, record session { last_seen_at = 6 })
unfolding current_auth authenticate validate_csrf without_slashes
admits = refl

current_auth-Admission_example :
    Admission crypto settings request 6 two_admins
      (current_auth crypto settings request 6 two_admins)
current_auth-Admission_example = current_auth-Admission crypto settings request 6 two_admins

current_admin-Admission_example :
    AdminAdmission crypto settings request 6 two_admins
      (current_admin crypto settings request 6 two_admins)
current_admin-Admission_example = current_admin-Admission crypto settings request 6 two_admins

-- ===== src/Auth/Samples.antt =====
-- Accounts and sessions that the examples share.
use wisdom_qj_auction_servic.Prelude.{ℕ, Bool, true, false, Option, none, some, [], ◌∷◌}
use wisdom_qj_auction_servic.Prelude.Texts.{Text, text_eq, codes}
use wisdom_qj_auction_servic.Models.{User, AuthSession, TrackedSource, admin}
use wisdom_qj_auction_servic.Auth.Core.{Crypto, Store}

abbrev pub check : Text → Text → Option Bool
check password [] = none
check password (salt ∷ hashed) = some (text_eq password hashed)

abbrev pub crypto : Crypto
crypto = record {
  lower = λ s. s;
  hash_password = λ salt password. salt ∷ password;
  verify = check;
  hash_token = λ token. 7 ∷ token;
}

abbrev pub password : Text
password = codes "correct horse battery"

abbrev pub person : ℕ → Text → User
person i email = record {
  id = i;
  email = email;
  display_name = codes "Kim";
  password_hash = some (1 ∷ password);
  role = admin;
  is_active = true;
  is_system = false;
  failed_login_count = 0;
  locked_until = none;
  created_at = 0;
}

abbrev pub anna : User
anna = person 10 (codes "anna@example.com")

abbrev pub ben : User
ben = person 11 (codes "ben@example.com")

abbrev pub session : AuthSession
session = record {
  id = 20;
  user_id = 10;
  token_hash = 7 ∷ codes "token";
  csrf_hash = 7 ∷ codes "csrf";
  created_at = 0;
  last_seen_at = 0;
  expires_at = 1000;
  revoked_at = none;
}

abbrev pub orphan : TrackedSource
orphan = record {
  id = 30;
  source_url = codes "https://example.com/1";
  normalized_url = codes "https://example.com/1";
  url_hash = codes "h1";
  owner_user_id = 1;
  naver_complex_id = none;
  created_at = 0;
  is_active = true;
}

abbrev pub two_admins : Store
two_admins = record { users = anna ∷ ben ∷ []; sessions = session ∷ []; sources = [] }

abbrev pub fresh : Store
fresh = record { users = []; sessions = []; sources = orphan ∷ [] }

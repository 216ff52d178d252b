-- ===== src/Auth/Tests.antt =====
-- Examples: the theorems on accounts and sessions at concrete tables.
use wisdom_qj_auction_servic.Prelude.{
  ℕ, ◌≡◌, refl, true, false, none, some, List, [], ◌∷◌, any, arith,
}
use wisdom_qj_auction_servic.Prelude.Texts.{Text, codes, strip}
use wisdom_qj_auction_servic.Models.{User, admin}
use wisdom_qj_auction_servic.Auth.Core.{
  AuthError, Result, ok, err, Store, normalize_email, insert_user, invalid_credentials,
}
use wisdom_qj_auction_servic.Auth.Samples.{crypto, password, anna, session, two_admins, fresh}
use wisdom_qj_auction_servic.Auth.Login.{login, authenticate}
use wisdom_qj_auction_servic.Auth.Login.Lockout.{Attempt, attempts, Finds, five_failures_lock}
use wisdom_qj_auction_servic.Auth.Login.Sessions.{Outcome, authenticate-Outcome, IsNotOf}
use wisdom_qj_auction_servic.Auth.Users.{
  NewUser, Changes, is_active_admin, patch_user, bootstrap_admin, human, set_temporary_password,
}
use wisdom_qj_auction_servic.Auth.Users.Admins.{HasUniqueIds, patch_user_admin}
use wisdom_qj_auction_servic.Auth.Users.Bootstrap.{
  BootstrapOutcome, bootstrap_admin-Outcome, bootstrap_once,
}
use wisdom_qj_auction_servic.Auth.Users.Passwords.{
  EndsSessions, password_reset, EndsSessions-authenticate,
}

two_admins-HasUniqueIds : HasUniqueIds two_admins
two_admins-HasUniqueIds i = ground (arith)

abbrev demotion : Changes
demotion = record { display_name = none; role = some (codes "member"); is_active = some false }

patch_user_admin_example : any is_active_admin (patch_user 10 5 demotion two_admins).1.users ≡ true
patch_user_admin_example = patch_user_admin 10 5 demotion two_admins two_admins-HasUniqueIds refl

abbrev newcomer : ℕ → NewUser
newcomer i = record {
  id = i;
  salt = 3;
  email = codes "  root@example.com ";
  display_name = codes "Root";
  password = password;
  now = 4;
}

bootstrap_admin-Outcome_example :
    BootstrapOutcome fresh (bootstrap_admin crypto (newcomer 40) fresh)
bootstrap_admin-Outcome_example = bootstrap_admin-Outcome crypto (newcomer 40) fresh

abbrev bootstrapped : Result User × Store
bootstrapped = bootstrap_admin crypto (newcomer 40) fresh

abbrev first_admin : User
first_admin = human crypto (newcomer 40) (codes "root@example.com") admin

bootstrapped-ok : bootstrap_admin crypto (newcomer 40) fresh ≡ (ok first_admin, bootstrapped.1)
unfolding bootstrap_admin normalize_email insert_user strip
bootstrapped-ok = refl

bootstrap_once_example :
    (e : AuthError) × (bootstrap_admin crypto (newcomer 41) bootstrapped.1
      ≡ (err e, bootstrapped.1))
bootstrap_once_example =
    bootstrap_once crypto (newcomer 40) (newcomer 41) fresh bootstrapped.1 first_admin
      bootstrapped-ok

authenticate-Outcome_example :
    Outcome crypto 1000
      (codes "token")
      6
      two_admins
      (authenticate crypto 1000 (some (codes "token")) 6 two_admins)
authenticate-Outcome_example = authenticate-Outcome crypto 1000 (codes "token") 6 two_admins

authenticates :
    (authenticate crypto 1000 (some (codes "token")) 6 two_admins).0
    ≡ ok (anna, record session { last_seen_at = 6 })
unfolding authenticate
authenticates = refl

abbrev reset : Result (Unit {0}) × Store
reset = set_temporary_password crypto 2 8 anna (codes "another password") two_admins

reset-EndsSessions : EndsSessions crypto anna two_admins reset.1
unfolding set_temporary_password
reset-EndsSessions = password_reset 2 8 (codes "another password") reset.1 refl

EndsSessions-authenticate_example :
    IsNotOf 10 (authenticate crypto 1000 (some (codes "token")) 9 reset.1).0
EndsSessions-authenticate_example =
    EndsSessions-authenticate crypto 1000 anna two_admins reset.1 (codes "token") 9
      reset-EndsSessions

abbrev attempt : Text → ℕ → Attempt
attempt p t = record {
  draw = record { session_id = 50; session_token = codes "s"; csrf_token = codes "c" };
  password = p;
  time = t;
}

abbrev four_wrong : List Attempt
four_wrong = attempt [] 1 ∷ attempt [] 2 ∷ attempt [] 3 ∷ attempt [] 4 ∷ []

abbrev email : Text
email = codes "anna@example.com"

found_anna : Finds crypto email anna two_admins
unfolding normalize_email strip
found_anna = refl

five_failures_lock_example :
    let db5 =
      (login crypto 1000
        (attempt [] 5).draw
        email
        []
        5
        (attempts crypto 1000 email four_wrong two_admins)).1 in
    login crypto 1000 (attempt password 6).draw email password 6 db5
    ≡ (err invalid_credentials, db5)
five_failures_lock_example =
    five_failures_lock crypto 1000 email (1 ∷ password) anna two_admins four_wrong (attempt [] 5)
      (attempt password 6) found_anna (record { human = refl; active = refl; hashed = refl }) refl
      refl (refl, (refl, (refl, (refl, tt)))) refl (omega arith)

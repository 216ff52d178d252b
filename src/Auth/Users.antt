-- ===== src/Auth/Users.antt =====
-- Accounts: the first administrator, new accounts, changes of accounts and passwords.
pub mod Admins
pub mod Bootstrap
pub mod Passwords
use wisdom_qj_auction_servic.Prelude.{
  ℕ, ◌+◌, Bool, true, false, Option, none, some, List, [], ◌∷◌, ◌&&◌, ◌||◌, ◌==◌, not, any, is_none,
  if◌then◌else◌,
}
use wisdom_qj_auction_servic.Prelude.Tables.{find, update_where}
use wisdom_qj_auction_servic.Prelude.Texts.{Text, text_eq, is_empty, codes, strip}
use wisdom_qj_auction_servic.Auth.Core.{
  Result, ok, err, Store, Crypto, verify_password, normalize_email, has_email, has_user_id,
  insert_user, validate_password, invalid_credentials, value_error, integrity_error,
  bootstrap_unavailable, bootstrap_completed, user_conflict, user_not_found, system_user_immutable,
  last_active_admin,
}
use wisdom_qj_auction_servic.Auth.Login.{update_user_row, revoke_all_sessions}
use wisdom_qj_auction_servic.Models.{User, AuthSession, TrackedSource, Role, admin, member}

-- `LEGACY_SYSTEM_USER_ID`, `LEGACY_SYSTEM_USER_EMAIL`
abbrev pub legacy_system_user_id : ℕ
legacy_system_user_id = 1

abbrev pub legacy_system_user_email : Text
legacy_system_user_email = codes "legacy-system@wisdom.invalid"

abbrev pub legacy_user : ℕ → User
legacy_user now = record {
  id = legacy_system_user_id;
  email = legacy_system_user_email;
  display_name = codes "Legacy system owner";
  password_hash = none;
  role = member;
  is_active = false;
  is_system = true;
  failed_login_count = 0;
  locked_until = none;
  created_at = now;
}

abbrev pub is_admin : Role → Bool
is_admin admin = true
is_admin member = false

abbrev pub is_human_admin : User → Bool
is_human_admin u = is_admin u.role && not u.is_system

abbrev pub bootstrap_required : Store → Bool
bootstrap_required db = not (any is_human_admin db.users)

abbrev pub ensure_legacy_system_user : ℕ → Store → Result Store
ensure_legacy_system_user now db = elim (find (has_user_id legacy_system_user_id) db.users) [
  | some u ↦ ok db
  | none ↦ elim (insert_user (legacy_user now) db.users) [
    | none ↦ err integrity_error
    | some users ↦ ok (record db { users = users })
  ]
]

-- What a request for a new account carries, with the id, the salt and the time that are drawn.
pub record NewUser : Type 0 where
  pub id : ℕ
  pub salt : ℕ
  pub email : Text
  pub display_name : Text
  pub password : Text
  pub now : ℕ

abbrev pub human : Crypto → NewUser → Text → Role → User
human c n email role = record {
  id = n.id;
  email = email;
  display_name = strip n.display_name;
  password_hash = some (c.hash_password n.salt n.password);
  role = role;
  is_active = true;
  is_system = false;
  failed_login_count = 0;
  locked_until = none;
  created_at = n.now;
}

-- A transaction that ends in an exception leaves the tables as they were.
abbrev pub commit : {A : Type 0} → Result (A × Store) → Store → Result A × Store
commit (ok (a, after)) db = (ok a, after)
commit (err e) db = (err e, db)

abbrev pub is_legacy_source : TrackedSource → Bool
is_legacy_source s = s.owner_user_id == legacy_system_user_id

abbrev pub given_to : ℕ → TrackedSource → TrackedSource
given_to user_id s = record s { owner_user_id = user_id }

-- The UPDATE of the owners and the count of the sources it left.
abbrev pub transfer : User → Store → Result (User × Store)
transfer u db =
    let sources = update_where is_legacy_source (given_to u.id) db.sources in
    if any is_legacy_source sources
    then err bootstrap_unavailable
    else ok (u, record db { sources = sources })

abbrev pub add_admin : Crypto → NewUser → Text → Store → Result (User × Store)
add_admin c n email db =
    if not (bootstrap_required db)
    then err bootstrap_completed
    else if any (has_email email) db.users
    then err user_conflict
    else elim (insert_user (human c n email admin) db.users) [
      | none ↦ err integrity_error
      | some users ↦ transfer (human c n email admin) (record db { users = users })
    ]

abbrev pub bootstrap_body : Crypto → NewUser → Store → Result (User × Store)
bootstrap_body c n db = elim (normalize_email c n.email) [
  | none ↦ err value_error
  | some email ↦
      if not (validate_password n.password) || is_empty (strip n.display_name)
      then err value_error
      else elim (ensure_legacy_system_user n.now db) [
        | err e ↦ err e
        | ok db1 ↦ add_admin c n email db1
      ]
]

unfoldable pub bootstrap_admin : Crypto → NewUser → Store → Result User × Store
bootstrap_admin c n db = commit (bootstrap_body c n db) db

-- `none` for a role that is not one of the two.
abbrev pub parse_role : Text → Option Role
parse_role role =
    if text_eq role (codes "admin")
    then some admin
    else if text_eq role (codes "member")
    then some member
    else none

abbrev pub create_body : Crypto → NewUser → Text → Store → Result (User × Store)
create_body c n role db = elim (normalize_email c n.email) [
  | none ↦ err value_error
  | some email ↦ elim (parse_role role) [
    | none ↦ err value_error
    | some r ↦
        if not (validate_password n.password) || is_empty (strip n.display_name)
        then err value_error
        else if any (has_email email) db.users
        then err user_conflict
        else elim (insert_user (human c n email r) db.users) [
          | none ↦ err integrity_error
          | some users ↦ ok (human c n email r, record db { users = users })
        ]
  ]
]

pub create_user : Crypto → NewUser → (role : Text) → Store → Result User × Store
create_user c n role db = commit (create_body c n role db) db

abbrev pub human_found : Option User → Result User
human_found none = err user_not_found
human_found (some u) = if u.is_system then err user_not_found else ok u

pub get_human_user : (user_id : ℕ) → Store → Result User
get_human_user user_id db = human_found (find (has_user_id user_id) db.users)

-- The arguments of `update_user`; none leaves the field alone.
pub record Changes : Type 0 where
  pub display_name : Option Text
  pub role : Option Text
  pub is_active : Option Bool

abbrev pub is_demotion : Changes → Bool
is_demotion ch =
    elim ch.role [ none ↦ false | some role ↦ text_eq role (codes "member") ]
    || elim ch.is_active [ none ↦ false | some b ↦ not b ]

abbrev pub is_unknown_role : Changes → Bool
is_unknown_role ch = elim ch.role [ none ↦ false | some role ↦ is_none (parse_role role) ]

abbrev pub is_active_admin : User → Bool
is_active_admin u = is_admin u.role && u.is_active && not u.is_system

-- `_protect_last_admin`; false is the LastActiveAdminError.
abbrev pub protect_last_admin : User → Changes → Store → Bool
protect_last_admin u ch db =
    not (is_admin u.role && u.is_active && is_demotion ch)
    || any (λ x. is_active_admin x && not (has_user_id u.id x)) db.users

abbrev pub or_else {ℓ} : {A : Type ℓ} → Option A → A → A
or_else none a = a
or_else (some b) a = b

abbrev pub changed : Changes → User → User
changed ch u = record u {
  display_name = elim ch.display_name [ none ↦ u.display_name | some n ↦ strip n ];
  role = elim ch.role [ none ↦ u.role | some role ↦ or_else (parse_role role) u.role ];
  is_active = or_else ch.is_active u.is_active;
}

abbrev pub is_blank : Option Text → Bool
is_blank none = false
is_blank (some n) = is_empty (strip n)

abbrev pub is_deactivation : Changes → Bool
is_deactivation ch = elim ch.is_active [ none ↦ false | some b ↦ not b ]

unfoldable pub update_user : (now : ℕ) → User → Changes → Store → Result User × Store
update_user now u ch db =
    if u.is_system
    then (err system_user_immutable, db)
    else if is_unknown_role ch
    then (err value_error, db)
    else if not (protect_last_admin u ch db)
    then (err last_active_admin, db)
    else if is_blank ch.display_name
    then (err value_error, db)
    else let after = record db { users = update_user_row u.id (changed ch) db.users } in
      (
        ok (changed ch u),
        (if is_deactivation ch then revoke_all_sessions u.id now after else after),
      )

abbrev pub patch_found : ℕ → Changes → Store → Result User → Result User × Store
patch_found now ch db (err e) = (err e, db)
patch_found now ch db (ok u) = update_user now u ch db

-- The handler of PATCH /admin/users/{user_id}.
pub patch_user : (user_id now : ℕ) → Changes → Store → Result User × Store
patch_user user_id now ch db = patch_found now ch db (get_human_user user_id db)

abbrev pub with_password : Text → User → User
with_password hash u = record u { password_hash = some hash }

abbrev pub set_password : Crypto → (salt now : ℕ) → Text → User → Store → Store
set_password c salt now password u db = revoke_all_sessions u.id now (record db {
  users = update_user_row u.id (with_password (c.hash_password salt password)) db.users;
})

abbrev pub knows_password : Crypto → User → Text → Bool
knows_password c u password = elim u.password_hash [
  | none ↦ false
  | some hash ↦ verify_password c password hash
]

pub change_password :
    Crypto
    → (salt now : ℕ) → User
    → (current_password new_password : Text) → Store
    → Result (Unit {0}) × Store
change_password c salt now u current_password new_password db =
    if not (validate_password new_password)
    then (err value_error, db)
    else if not (knows_password c u current_password)
    then (err invalid_credentials, db)
    else (ok tt, set_password c salt now new_password u db)

unfoldable pub set_temporary_password :
    Crypto → (salt now : ℕ) → User → (password : Text) → Store → Result (Unit {0}) × Store
set_temporary_password c salt now u password db =
    if u.is_system
    then (err system_user_immutable, db)
    else if not (validate_password password)
    then (err value_error, db)
    else (ok tt, set_password c salt now password u db)

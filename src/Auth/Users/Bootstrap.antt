-- ===== src/Auth/Users/Bootstrap.antt =====
-- The first administrator: made once, and given the sources that nobody owned.
use wisdom_qj_auction_servic.Prelude.{
  ℕ, ◌≡◌, refl, sym, ap, ◌∙◌, subst, true, false, Option, none, some, List, ◌∷◌, ◌||◌, arith, not,
  any, if_cases, if◌then◌else◌,
}
use wisdom_qj_auction_servic.Prelude.Tables.{find, update_where}
use wisdom_qj_auction_servic.Prelude.Texts.{Text, is_empty, strip}
use wisdom_qj_auction_servic.Models.{User, admin}
use wisdom_qj_auction_servic.Auth.Core.{
  AuthError, Result, ok, err, Store, Crypto, has_user_id, has_email, insert_user, normalize_email,
  validate_password, value_error, integrity_error, bootstrap_completed, bootstrap_unavailable,
  user_conflict,
}
use wisdom_qj_auction_servic.Auth.Users.{
  NewUser, human, commit, is_human_admin, is_active_admin, is_legacy_source, given_to,
  bootstrap_required, transfer, add_admin, ensure_legacy_system_user, bootstrap_body,
  bootstrap_admin, legacy_user, legacy_system_user_id,
}

-- What a new administrator finds and leaves behind.
pub record IsFirst (db : Store) (u : User) (after : Store) : Type 0 where
  pub required : bootstrap_required db ≡ true
  pub completed : bootstrap_required after ≡ false
  pub active : is_active_admin u ≡ true
  pub found : find (has_user_id u.id) after.users ≡ some u
  pub sources : after.sources ≡ update_where is_legacy_source (given_to u.id) db.sources
  pub no_legacy : any is_legacy_source after.sources ≡ false

abbrev pub BodyBootstrapOutcome : Store → Result (User × Store) → Type 0
BodyBootstrapOutcome db (ok (u, after)) = IsFirst db u after
BodyBootstrapOutcome db (err e) = Unit

abbrev pub BootstrapOutcome : Store → Result User × Store → Type 0
BootstrapOutcome db (ok u, after) = IsFirst db u after
BootstrapOutcome db (err e, after) = after ≡ db

inserted_head : (u : User) (us users : List User) → insert_user u us ≡ some users → users ≡ u ∷ us
unfolding insert_user
inserted_head u us users i = ground (arith)

find_head : (u : User) (us : List User) → find (has_user_id u.id) (u ∷ us) ≡ some u
find_head u us = ground (arith)

transfer-Outcome :
    (c : Crypto) (n : NewUser) (email : Text) (db : Store) (users : List User)
    → bootstrap_required db ≡ true
    → insert_user (human c n email admin) db.users ≡ some users
    → BodyBootstrapOutcome db (transfer (human c n email admin) (record db { users = users }))
transfer-Outcome c n email db users r i =
    if_cases (BodyBootstrapOutcome db)
      (any is_legacy_source (update_where is_legacy_source (given_to n.id) db.sources))
      (err bootstrap_unavailable) _ (λ _. tt)
      (λ e. record {
        required = r;
        completed =
            subst (λ l. not (any is_human_admin l) ≡ false)
              (sym (inserted_head (human c n email admin) db.users users i)) refl;
        active = refl;
        found =
            subst (λ l. find (has_user_id n.id) l ≡ some (human c n email admin))
              (sym (inserted_head (human c n email admin) db.users users i))
              (find_head (human c n email admin) db.users);
        sources = refl;
        no_legacy = e;
      })

inserted-Outcome :
    (c : Crypto) (n : NewUser) (email : Text) (db : Store) (o : Option (List User))
    → bootstrap_required db ≡ true
    → insert_user (human c n email admin) db.users ≡ o
    → BodyBootstrapOutcome db (elim o [
      | none ↦ err integrity_error
      | some users ↦ transfer (human c n email admin) (record db { users = users })
    ])
inserted-Outcome c n email db none r i = tt
inserted-Outcome c n email db (some users) r i = transfer-Outcome c n email db users r i

add_admin-Outcome :
    (c : Crypto) (n : NewUser) (email : Text) (db : Store)
    → BodyBootstrapOutcome db (add_admin c n email db)
add_admin-Outcome c n email db =
    if_cases (BodyBootstrapOutcome db) (not (bootstrap_required db)) (err bootstrap_completed) _
      (λ _. tt)
      (λ r.
        if_cases (BodyBootstrapOutcome db) (any (has_email email) db.users) (err user_conflict) _
          (λ _. tt)
          (λ _.
            inserted-Outcome c n email db (insert_user (human c n email admin) db.users)
              (ground (arith)) refl))

-- The legacy account is no administrator, and no source changes with it.
record IsPrepared (db db1 : Store) : Type 0 where
  required : bootstrap_required db1 ≡ bootstrap_required db
  sources : db1.sources ≡ db.sources

prepared :
    (db db1 : Store) (r : Result (User × Store))
    → IsPrepared db db1
    → BodyBootstrapOutcome db1 r
    → BodyBootstrapOutcome db r
prepared db db1 (err e) p o = tt
prepared db db1 (ok (u, after)) p o = record {
  required = sym p.required ∙ o.required;
  completed = o.completed;
  active = o.active;
  found = o.found;
  sources = o.sources ∙ ap (λ l. update_where is_legacy_source (given_to u.id) l) p.sources;
  no_legacy = o.no_legacy;
}

ok_value : {A : Type 0} (a b : A) → Result.ok a ≡ Result.ok b → a ≡ b
ok_value a b h = cc

made-IsPrepared :
    (now : ℕ) (db db1 : Store) (o : Option (List User))
    → insert_user (legacy_user now) db.users ≡ o
    → elim o [ none ↦ err integrity_error | some users ↦ ok (record db { users = users }) ] ≡ ok db1
    → IsPrepared db db1
made-IsPrepared now db db1 none i h = cc
made-IsPrepared now db db1 (some users) i h =
    subst (IsPrepared db) (ok_value (record db { users = users }) db1 h) (record {
      required =
          ap (λ l. not (any is_human_admin l)) (inserted_head (legacy_user now) db.users users i);
      sources = refl;
    })

sought-IsPrepared :
    (now : ℕ) (db db1 : Store) (o : Option User)
    → elim o [
      | some u ↦ ok db
      | none ↦ elim (insert_user (legacy_user now) db.users) [
        | none ↦ err integrity_error
        | some users ↦ ok (record db { users = users })
      ]
    ]
      ≡ ok db1
    → IsPrepared db db1
sought-IsPrepared now db db1 none h =
    made-IsPrepared now db db1 (insert_user (legacy_user now) db.users) refl h
sought-IsPrepared now db db1 (some u) h =
    subst (IsPrepared db) (ok_value db db1 h) (record { required = refl; sources = refl })

legacy-IsPrepared :
    (now : ℕ) (db db1 : Store) → ensure_legacy_system_user now db ≡ ok db1 → IsPrepared db db1
legacy-IsPrepared now db db1 h =
    sought-IsPrepared now db db1 (find (has_user_id legacy_system_user_id) db.users) h

ensured-Outcome :
    (c : Crypto) (n : NewUser) (email : Text) (db : Store) (r : Result Store)
    → ensure_legacy_system_user n.now db ≡ r
    → BodyBootstrapOutcome db (elim r [ err e ↦ err e | ok db1 ↦ add_admin c n email db1 ])
ensured-Outcome c n email db (err e) h = tt
ensured-Outcome c n email db (ok db1) h =
    prepared db db1 (add_admin c n email db1) (legacy-IsPrepared n.now db db1 h)
      (add_admin-Outcome c n email db1)

body-Outcome :
    (c : Crypto) (n : NewUser) (db : Store) (o : Option Text)
    → BodyBootstrapOutcome db (elim o [
      | none ↦ err value_error
      | some email ↦
          if not (validate_password n.password) || is_empty (strip n.display_name)
          then err value_error
          else elim (ensure_legacy_system_user n.now db) [
            | err e ↦ err e
            | ok db1 ↦ add_admin c n email db1
          ]
    ])
body-Outcome c n db none = tt
body-Outcome c n db (some email) =
    if_cases (BodyBootstrapOutcome db)
      (not (validate_password n.password) || is_empty (strip n.display_name)) (err value_error) _
      (λ _. tt) (λ _. ensured-Outcome c n email db (ensure_legacy_system_user n.now db) refl)

commit-Outcome :
    (db : Store) (r : Result (User × Store))
    → BodyBootstrapOutcome db r
    → BootstrapOutcome db (commit r db)
commit-Outcome db (err e) o = refl
commit-Outcome db (ok (u, after)) o = o

refused :
    (db : Store) (r : Result User × Store)
    → bootstrap_required db ≡ false
    → BootstrapOutcome db r
    → (e : AuthError) × (r ≡ (err e, db))
refused db (ok u, after) done o = cc (done, o.required)
refused db (err e, after) done o = (e, ap (λ s. (err e, s)) o)

-- A bootstrap that succeeds ran on a system without an administrator and leaves an active one, who
-- owns the sources of the legacy account; one that fails changes nothing.
pub bootstrap_admin-Outcome :
    (c : Crypto) (n : NewUser) (db : Store) → BootstrapOutcome db (bootstrap_admin c n db)
unfolding bootstrap_admin
bootstrap_admin-Outcome c n db =
    commit-Outcome db (bootstrap_body c n db) (body-Outcome c n db (normalize_email c n.email))

-- After a bootstrap that succeeded every other one fails and changes nothing.
pub bootstrap_once :
    (c : Crypto) (first second : NewUser) (db after : Store) (u : User)
    → bootstrap_admin c first db ≡ (ok u, after)
    → (e : AuthError) × (bootstrap_admin c second after ≡ (err e, after))
bootstrap_once c first second db after u h =
    refused after (bootstrap_admin c second after)
      (subst (BootstrapOutcome db) h (bootstrap_admin-Outcome c first db)).completed
      (bootstrap_admin-Outcome c second after)

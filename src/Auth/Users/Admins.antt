-- ===== src/Auth/Users/Admins.antt =====
-- Changes of accounts never leave the system without an administrator who can log in.
use wisdom_qj_auction_servic.Prelude.{
  sym, subst, Option, if_cases, ℕ, ◌≤◌, ◌≡◌, refl, Bool, true, false, none, some, List, [], ◌∷◌,
  ◌&&◌, arith, not, any, count, Bool-cases, inl, inr, ap, if◌then◌else◌,
}
use wisdom_qj_auction_servic.Prelude.Tables.{find, update_where, find_passes}
use wisdom_qj_auction_servic.Models.{User}
use wisdom_qj_auction_servic.Auth.Core.{user_not_found, Result, ok, err, Store, has_user_id}
use wisdom_qj_auction_servic.Auth.Login.{update_user_row, revoke_all_sessions}
use wisdom_qj_auction_servic.Auth.Users.{
  Changes, is_active_admin, is_demotion, is_unknown_role, is_deactivation, is_blank, changed,
  protect_last_admin, update_user, patch_user, get_human_user, patch_found, human_found,
}

-- At most one row for each id.
abbrev pub HasUniqueIds : Store → Type 0
HasUniqueIds db = (i : ℕ) → count (has_user_id i) db.users ≤ 1

pub update_where_none {ℓ} :
    {A : Type ℓ} (p : A → Bool) (f : A → A) (xs : List A)
    → count p xs ≡ 0
    → update_where p f xs ≡ xs
update_where_none p f [] h = refl
update_where_none p f (x ∷ xs) h = elim (Bool-cases (p x)) [
  | inl e ↦ ground (arith)
  | inr e ↦ rw e (ap (λ l. x ∷ l) (update_where_none p f xs (ground (arith))))
]

others_remain :
    (i : ℕ) (q : User → Bool) (f : User → User) (us : List User)
    → any (λ x. q x && not (has_user_id i x)) us ≡ true
    → any q (update_user_row i f us) ≡ true
others_remain i q f [] h = h
others_remain i q f (x ∷ xs) h = ground (arith, others_remain i q f xs)

head_remains :
    (i : ℕ) (q : User → Bool) (f : User → User) (x u : User) (xs : List User)
    → x ≡ u
    → (q u ≡ true → q (f u) ≡ true)
    → count (has_user_id i) (x ∷ xs) ≤ 1
    → has_user_id i x ≡ true
    → any q (x ∷ xs) ≡ true
    → any q (update_user_row i f (x ∷ xs)) ≡ true
head_remains i q f x u xs same keep one here h =
    let rest = update_where_none (has_user_id i) f xs (ground (arith)) in
    rw (here, rest) (ground (arith, keep, same))

row_remains :
    (i : ℕ) (q : User → Bool) (f : User → User) (u : User) (us : List User)
    → find (has_user_id i) us ≡ some u
    → (q u ≡ true → q (f u) ≡ true)
    → count (has_user_id i) us ≤ 1
    → any q us ≡ true
    → any q (update_user_row i f us) ≡ true
row_remains i q f u [] found keep one h = h
row_remains i q f u (x ∷ xs) found keep one h = elim (Bool-cases (has_user_id i x)) [
  | inl here ↦ head_remains i q f x u xs (ground (arith)) keep one here h
  | inr later ↦ ground (arith, row_remains i q f u xs, keep)
]

changed_keeps :
    (ch : Changes) (u : User)
    → is_unknown_role ch ≡ false
    → is_demotion ch ≡ false
    → is_active_admin u ≡ true
    → is_active_admin (changed ch u) ≡ true
changed_keeps ch u known keep h = ground (arith)

update_user-users :
    (now : ℕ) (ch : Changes) (u : User) (db : Store)
    → (if is_deactivation ch then revoke_all_sessions u.id now db else db).users ≡ db.users
unfolding revoke_all_sessions
update_user-users now ch u db = ground (arith)

no_demotion :
    (u : User) (ch : Changes) (db : Store)
    → is_active_admin u ≡ true
    → any (λ x. is_active_admin x && not (has_user_id u.id x)) db.users ≡ false
    → protect_last_admin u ch db ≡ true
    → is_demotion ch ≡ false
no_demotion u ch db q e safe = ground (arith)

-- An accepted change leaves an administrator who can log in.
accepted_remains :
    (ch : Changes) (u : User) (db : Store)
    → find (has_user_id u.id) db.users ≡ some u
    → HasUniqueIds db
    → is_unknown_role ch ≡ false
    → protect_last_admin u ch db ≡ true
    → any is_active_admin db.users ≡ true
    → any is_active_admin (update_user_row u.id (changed ch) db.users) ≡ true
accepted_remains ch u db f one known safe h =
    elim (Bool-cases (any (λ x. is_active_admin x && not (has_user_id u.id x)) db.users)) [
      | inl e ↦ others_remain u.id is_active_admin (changed ch) db.users e
      | inr e ↦
          row_remains u.id is_active_admin (changed ch) u db.users f
            (λ q. changed_keeps ch u known (no_demotion u ch db q e safe) q) (one u.id) h
    ]

update_admin_remains :
    (now : ℕ) (ch : Changes) (u : User) (db : Store)
    → find (has_user_id u.id) db.users ≡ some u
    → HasUniqueIds db
    → any is_active_admin db.users ≡ true
    → any is_active_admin (update_user now u ch db).1.users ≡ true
unfolding update_user
update_admin_remains now ch u db f one h =
    let P = λ (r : Result User × Store). any is_active_admin r.1.users ≡ true in
    if_cases P u.is_system _ _ (λ _. h)
      (λ _.
        if_cases P (is_unknown_role ch) _ _ (λ _. h)
          (λ known.
            if_cases P (not (protect_last_admin u ch db)) _ _ (λ _. h)
              (λ safe.
                if_cases P (is_blank ch.display_name) _ _ (λ _. h)
                  (λ _.
                    subst (λ l. any is_active_admin l ≡ true)
                      (sym (
                        update_user-users now ch u
                          (record db { users = update_user_row u.id (changed ch) db.users })))
                      (accepted_remains ch u db f one known (ground (arith)) h)))))

own_id :
    (user_id : ℕ) (u : User) (db : Store)
    → find (has_user_id user_id) db.users ≡ some u
    → find (has_user_id u.id) db.users ≡ some u
own_id user_id u db f =
    let same : u.id ≡ user_id = ground (arith, find_passes (has_user_id user_id) db.users u f) in
    subst (λ i. find (has_user_id i) db.users ≡ some u) (sym same) f

found_admin_remains :
    (user_id now : ℕ) (ch : Changes) (db : Store) (o : Option User)
    → find (has_user_id user_id) db.users ≡ o
    → HasUniqueIds db
    → any is_active_admin db.users ≡ true
    → any is_active_admin (patch_found now ch db (human_found o)).1.users ≡ true
found_admin_remains user_id now ch db none f one h = h
found_admin_remains user_id now ch db (some u) f one h =
    if_cases (λ (r : Result User). any is_active_admin (patch_found now ch db r).1.users ≡ true)
      u.is_system (err user_not_found) (ok u) (λ _. h)
      (λ _. update_admin_remains now ch u db (own_id user_id u db f) one h)

-- If some administrator can log in, then one still can after any change of an account.
pub patch_user_admin :
    (user_id now : ℕ) (ch : Changes) (db : Store)
    → HasUniqueIds db
    → any is_active_admin db.users ≡ true
    → any is_active_admin (patch_user user_id now ch db).1.users ≡ true
unfolding patch_user get_human_user
patch_user_admin user_id now ch db one h =
    found_admin_remains user_id now ch db (find (has_user_id user_id) db.users) refl one h

-- ===== src/Auth/Login/Lockout.antt =====
-- Five wrong passwords in a row lock an account for fifteen minutes.
use wisdom_qj_auction_servic.Prelude.{
  subst, sym, ℕ, ◌+◌, ◌<◌, ◌≤◌, ◌≡◌, refl, true, false, none, some, List, [], ◌∷◌, arith, All,
  length, ==_refl, Bool-cases, Option-cases, inl, inr,
}
use wisdom_qj_auction_servic.Prelude.Tables.{find}
use wisdom_qj_auction_servic.Prelude.Texts.{Text}
use wisdom_qj_auction_servic.Models.{User}
use wisdom_qj_auction_servic.Auth.Core.{
  err, Store, Crypto, verify_password, normalize_email, has_email, invalid_credentials,
}
use wisdom_qj_auction_servic.Auth.Login.{
  lock_time, failed_user, Draw, or_empty, login, update_user_row,
}

-- The row that a login with this address reads.
abbrev pub Finds : Crypto → Text → User → Store → Type 0
Finds c email u db = find (has_email (or_empty (normalize_email c email))) db.users ≡ some u

head-find :
    (key : Text) (x : User) (xs : List User) (u : User)
    → has_email key x ≡ true
    → find (has_email key) (x ∷ xs) ≡ some u
    → x ≡ u
head-find key x xs u here h = ground (arith)

self_here :
    (key : Text) (f : User → User) (x : User) (xs : List User) (u : User)
    → ((x : User) → ((f x).email ≡ x.email) × ((f x).id ≡ x.id))
    → has_email key x ≡ true
    → x ≡ u
    → find (has_email key) (update_user_row u.id f (x ∷ xs)) ≡ some (f u)
self_here key f x xs u keep here same = rw (sym same) (ground (arith, keep x, ==_refl x.id))

-- An update of the row that was found is what the next login finds.
pub find-update_self :
    (key : Text) (f : User → User) (users : List User) (u : User)
    → ((x : User) → ((f x).email ≡ x.email) × ((f x).id ≡ x.id))
    → find (has_email key) users ≡ some u
    → find (has_email key) (update_user_row u.id f users) ≡ some (f u)
find-update_self key f [] u keep h = cc
find-update_self key f (x ∷ xs) u keep h = elim (Bool-cases (has_email key x)) [
  | inl here ↦ self_here key f x xs u keep here (head-find key x xs u here h)
  | inr later ↦ ground (arith, keep x, find-update_self key f xs u keep)
]

-- A person's account that may log in, with its password hash.
pub record IsUsable (u : User) (hash : Text) : Type 0 where
  pub human : u.is_system ≡ false
  pub active : u.is_active ≡ true
  pub hashed : u.password_hash ≡ some hash

module _ (c : Crypto) (ttl : ℕ) (email : Text) where
  -- While an account is locked every password is refused, the right one too, and nothing changes.
  locked_refuses :
      (d : Draw) (password : Text) (now until : ℕ) (u : User) (db : Store)
      → Finds c email u db
      → u.locked_until ≡ some until
      → now < until
      → login c ttl d email password now db ≡ (err invalid_credentials, db)
  unfolding login
  locked_refuses d password now until u db f l lt =
      rw f (elim (Option-cases u.password_hash) [
        | inl e ↦ ground (arith)
        | inr (h, e) ↦ ground (arith)
      ])

  wrong_password :
      (d : Draw) (password hash : Text) (now : ℕ) (u : User) (db : Store)
      → Finds c email u db
      → IsUsable u hash
      → u.locked_until ≡ none
      → verify_password c password hash ≡ false
      → login c ttl d email password now db ≡ (
        err invalid_credentials,
        record db { users = update_user_row u.id (failed_user now) db.users },
      )
  unfolding login
  wrong_password d password hash now u db f usable l w =
      let a = usable.human in
      let b = usable.active in let e = usable.hashed in rw f (ground (arith))

  -- One login with a wrong password leaves the row with one more failure.
  next_find :
      (now : ℕ) (u : User) (db : Store)
      → Finds c email u db
      → Finds c email
          (failed_user now u)
          (record db { users = update_user_row u.id (failed_user now) db.users })
  next_find now u db f =
      find-update_self (or_empty (normalize_email c email)) (failed_user now) db.users u
        (λ _. (refl, refl)) f

-- An attempt to log in: the draw, the password and the time.
pub record Attempt : Type 0 where
  pub draw : Draw
  pub password : Text
  pub time : ℕ

-- The store after the attempts, the first of the list first.
abbrev pub attempts : Crypto → ℕ → Text → List Attempt → Store → Store
attempts c ttl email [] db = db
attempts c ttl email (a ∷ rest) db =
    attempts c ttl email rest ((login c ttl a.draw email a.password a.time db).1)

abbrev pub IsWrong : Crypto → Text → Attempt → Type 0
IsWrong c hash a = verify_password c a.password hash ≡ false

-- The row as it stands before the fifth failure.
pub record IsCounted (c : Crypto) (email hash : Text) (n : ℕ) (db : Store) : Type 0 where
  pub row : User
  pub found : Finds c email row db
  pub usable : IsUsable row hash
  pub unlocked : row.locked_until ≡ none
  pub count : row.failed_login_count ≡ n

module _ (c : Crypto) (ttl : ℕ) (email hash : Text) where
  attempt-IsCounted :
      (n : ℕ) (a : Attempt) (db : Store)
      → n < 4
      → IsWrong c hash a
      → IsCounted c email hash n db
      → IsCounted c email hash (n + 1) ((login c ttl a.draw email a.password a.time db).1)
  attempt-IsCounted n a db lt w k =
      rw
        (wrong_password c ttl email a.draw a.password hash a.time k.row db k.found k.usable
          k.unlocked w)
        (record {
          row = failed_user a.time k.row;
          found = next_find c ttl email a.time k.row db k.found;
          usable = record {
            human = k.usable.human;
            active = k.usable.active;
            hashed = k.usable.hashed;
          };
          unlocked = let h = k.count in let l = k.unlocked in ground (arith);
          count = let h = k.count in omega (arith);
        })

  attempts-IsCounted :
      (n : ℕ) (rest : List Attempt) (db : Store)
      → n + length rest ≤ 4
      → All (IsWrong c hash) rest
      → IsCounted c email hash n db
      → IsCounted c email hash (n + length rest) (attempts c ttl email rest db)
  attempts-IsCounted n [] db le w k = subst (λ m. IsCounted c email hash m db) (omega arith) k
  attempts-IsCounted n (a ∷ rest) db le (w, ws) k =
      subst (λ m. IsCounted c email hash m (attempts c ttl email (a ∷ rest) db)) (omega arith)
        (attempts-IsCounted (n + 1) rest ((login c ttl a.draw email a.password a.time db).1)
          (omega arith) ws (attempt-IsCounted n a db (omega arith) w k))

  -- The fifth failure in a row sets the lock.
  fifth_locks :
      (db : Store) (fifth later : Attempt)
      → IsCounted c email hash 4 db
      → IsWrong c hash fifth
      → later.time < fifth.time + lock_time
      → let db5 = (login c ttl fifth.draw email fifth.password fifth.time db).1 in
        login c ttl later.draw email later.password later.time db5 ≡ (err invalid_credentials, db5)
  fifth_locks db fifth later k w lt =
      rw
        (wrong_password c ttl email fifth.draw fifth.password hash fifth.time k.row db k.found
          k.usable k.unlocked w)
        (locked_refuses c ttl email later.draw later.password later.time (fifth.time + lock_time)
          (failed_user fifth.time k.row)
          (record db { users = update_user_row k.row.id (failed_user fifth.time) db.users })
          (next_find c ttl email fifth.time k.row db k.found) (let h = k.count in ground (arith))
          lt)

  -- After five wrong passwords no password opens the account for fifteen minutes.
  pub five_failures_lock :
      (u : User) (db : Store) (before : List Attempt) (fifth later : Attempt)
      → Finds c email u db
      → IsUsable u hash
      → u.locked_until ≡ none
      → u.failed_login_count + length before ≡ 4
      → All (IsWrong c hash) before
      → IsWrong c hash fifth
      → later.time < fifth.time + lock_time
      → let db5 =
          (login c ttl fifth.draw email fifth.password fifth.time
            (attempts c ttl email before db)).1 in
        login c ttl later.draw email later.password later.time db5 ≡ (err invalid_credentials, db5)
  five_failures_lock u db before fifth later f usable l n ws w lt =
      fifth_locks (attempts c ttl email before db) fifth later
        (subst (λ m. IsCounted c email hash m (attempts c ttl email before db)) n
          (attempts-IsCounted u.failed_login_count before db (omega arith) ws
            (record { row = u; found = f; usable = usable; unlocked = l; count = refl })))
        w lt

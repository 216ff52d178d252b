-- ===== src/Persistence/Kept.antt =====
-- What every part of the transaction of backend/app/services/persistence_service.py keeps.
pub mod Rows
pub mod Steps
pub mod Loops
pub mod Absences
use wisdom_qj_auction_servic.Prelude.{
  ℕ, ◌+◌, ◌≤◌, ◌≡◌, refl, sym, ap, ◌∙◌, subst, Bool, true, false, Option, none, some, List, ◌==◌,
  not, count, where_, length, arith, All, is_some,
}
use wisdom_qj_auction_servic.Prelude.Texts.{Text, text_eq}
use wisdom_qj_auction_servic.Prelude.Tables.{find}
use wisdom_qj_auction_servic.Models.{RunStatus}
use wisdom_qj_auction_servic.Listings.{
  ListingState, missing, removed, is_absent, is_removed, is_completed,
}
use wisdom_qj_auction_servic.Persistence.Rows.{
  raise, write, ◌>>◌, PersistenceError, draw_id, ◌>>=◌, read, return, Store, SourceListingState,
  BrokerArticle, Result, ok, err, M,
}
use wisdom_qj_auction_servic.Persistence.Records.{is_state_of}
use wisdom_qj_auction_servic.Persistence.Writes.{reject, refuse}

-- One row for each source and group.
abbrev pub IsUnique : List SourceListingState → Type 0
IsUnique states = (source_id group_id : ℕ) → count (is_state_of source_id group_id) states ≤ 1

abbrev pub expected_count : ListingState → ℕ
expected_count missing = 1
expected_count removed = 2
expected_count _ = 0

-- The time of the removal stands in the removed rows only; a missing row counts one absence, a
-- removed one two, and any other none.
abbrev pub IsConsistent : SourceListingState → Type 0
IsConsistent s =
    (is_some s.removed_at ≡ is_removed s.visibility_state)
    × (s.missing_count ≡ expected_count s.visibility_state)

abbrev pub is_hidden : SourceListingState → Bool
is_hidden s = is_absent s.visibility_state

-- The group of an article.
abbrev pub group_of : Option BrokerArticle → Option ℕ
group_of none = none
group_of (some a) = some a.listing_group_id

abbrev pub home : Text → List BrokerArticle → Option ℕ
home article_id articles = group_of (find (λ a. text_eq a.naver_article_id article_id) articles)

abbrev pub KeepsHomes : List BrokerArticle → List BrokerArticle → Type 0
KeepsHomes before after =
    (article_id : Text) (group_id : ℕ)
    → home article_id before ≡ some group_id
    → home article_id after ≡ some group_id

-- How the states change: a run that did not complete hides no listing. What is known of the rows
-- that were read may be used for the consistency.
pub record KeepsStates (known : Type 0) (status : RunStatus)
    (before after : List SourceListingState) : Type 0 where
  pub unique : IsUnique before → IsUnique after
  pub consistent : known → All IsConsistent before → All IsConsistent after
  pub hidden : is_completed status ≡ false → count is_hidden after ≤ count is_hidden before

-- `k` events less than `n` are added.
pub record Kept (known : Type 0) (status : RunStatus) (k n : ℕ) (before after : Store)
    : Type 0 where
  pub runs : after.runs ≡ before.runs
  pub events : length after.events + k ≡ length before.events + n
  pub homes : KeepsHomes before.articles after.articles
  pub states : KeepsStates known status before.states after.states

module _ (known : Type 0) (status : RunStatus) where
  pub states_refl : (l : List SourceListingState) → KeepsStates known status l l
  states_refl l = record { unique = λ u. u; consistent = λ k c. c; hidden = λ p. omega arith }

  states_trans :
      {a b c : List SourceListingState}
      → KeepsStates known status a b
      → KeepsStates known status b c
      → KeepsStates known status a c
  states_trans h g = record {
    unique = λ u. g.unique (h.unique u);
    consistent = λ k c. g.consistent k (h.consistent k c);
    hidden = λ p. omega (arith, g.hidden p, h.hidden p);
  }

  pub Kept-trans :
      {a b c : Store} {k n m : ℕ}
      → Kept known status k n a b
      → Kept known status n m b c
      → Kept known status k m a c
  Kept-trans h g = record {
    runs = g.runs ∙ h.runs;
    events = omega (arith, h.events, g.events);
    homes = λ i j e. g.homes i j (h.homes i j e);
    states = states_trans h.states g.states;
  }

  abbrev pub Holds : {A : Type 0} → (k : ℕ) → (A → ℕ) → Store → Result A → Type 0
  Holds k n before (ok a after) = Kept known status k (n a) before after
  Holds k n before (err e) = Unit

  -- A part of the transaction that has no error keeps what `Kept` says.
  pub record Keeps {A : Type 0} (k : ℕ) (n : A → ℕ) (m : M A) : Type 0 where
    pub holds : (db : Store) → Holds k n db (m db)

  Holds-after :
      {B : Type 0} (k m : ℕ) (p : B → ℕ) (db after : Store) (r : Result B)
      → Kept known status k m db after
      → Holds m p after r
      → Holds k p db r
  Holds-after k m p db after (ok b last) h g = Kept-trans h g
  Holds-after k m p db after (err e) h g = tt

  Holds-bind :
      {A B : Type 0} (k : ℕ) (n : A → ℕ) (p : B → ℕ) (db : Store) (r : Result A) (f : A → M B)
      → Holds k n db r
      → ((a : A) (after : Store) → Holds (n a) p after (f a after))
      → Holds k p db (elim r [ ok a after ↦ f a after | err e ↦ err e ])
  Holds-bind k n p db (ok a after) f h g = Holds-after k (n a) p db after (f a after) h (g a after)
  Holds-bind k n p db (err e) f h g = tt

  rejected_then :
      {B : Type 0} (k : ℕ) (n : B → ℕ) (e : PersistenceError) (m : M B) (db : Store) (b : Bool)
      → (b ≡ false → Holds k n db (m db))
      → Holds k n db ((reject b e >> m) db)
  unfolding ◌>>=◌
  rejected_then k n e m db true h = tt
  rejected_then k n e m db false h = h refl

  shifted :
      {A : Type 0} (k : ℕ) (n : A → ℕ) (db : Store) (r : Result A)
      → Holds 0 n db r
      → Holds k (λ a. k + n a) db r
  shifted k n db (ok a after) g = record {
    runs = g.runs;
    events = omega (arith, g.events);
    homes = g.homes;
    states = g.states;
  }
  shifted k n db (err e) g = tt

module _ {known : Type 0} {status : RunStatus} where
  pub bind_Keeps :
      {A B : Type 0} {k : ℕ} {n : A → ℕ} {p : B → ℕ} {m : M A} {f : A → M B}
      → Keeps known status k n m
      → ((a : A) → Keeps known status (n a) p (f a))
      → Keeps known status k p (m >>= f)
  unfolding ◌>>=◌
  bind_Keeps {k = k} {n = n} {p = p} {m = m} {f = f} h g = record {
    holds = λ db. Holds-bind known status k n p db (m db) f (h.holds db) (λ a. (g a).holds);
  }

  -- Only the states, the articles, the runs and the number of events matter.
  pub unchanged_Kept :
      {k : ℕ} (before after : Store)
      → after.runs ≡ before.runs
      → length after.events ≡ length before.events
      → after.articles ≡ before.articles
      → after.states ≡ before.states
      → Kept known status k k before after
  unchanged_Kept before after r e a s = record {
    runs = r;
    events = omega (arith, e);
    homes = λ i j h. ap (home i) a ∙ h;
    states =
        subst (λ l. KeepsStates known status before.states l) (sym s)
          (states_refl known status before.states);
  }

  -- A write of other tables.
  pub plain_Keeps :
      {k : ℕ} (f : Store → Store)
      → ((db : Store) → Kept known status k k db (f db))
      → Keeps known status k (λ _. k) (write f)
  plain_Keeps f h = record { holds = h }

  pub return-Keeps :
      {A : Type 0} {k : ℕ} {n : A → ℕ} (a : A) → n a ≡ k → Keeps known status k n (return a)
  return-Keeps {k = k} a h = record {
    holds = λ db.
        subst (λ j. Kept known status k j db db) (sym h) (unchanged_Kept db db refl refl refl refl);
  }

  pub raise-Keeps :
      {A : Type 0} {k : ℕ} {n : A → ℕ} (e : PersistenceError) → Keeps known status k n (raise e)
  raise-Keeps e = record { holds = λ db. tt }

  pub reject-Keeps :
      {k : ℕ} (b : Bool) (e : PersistenceError) → Keeps known status k (λ _. k) (reject b e)
  reject-Keeps true e = raise-Keeps e
  reject-Keeps false e = return-Keeps tt refl

  pub refuse-Keeps :
      {k : ℕ} (p : Store → Bool) (e : PersistenceError) → Keeps known status k (λ _. k) (refuse p e)
  refuse-Keeps p e = record { holds = λ db. (reject-Keeps (p db) e).holds db }

  -- What follows a test may use that the test failed.
  pub refuse_then_Keeps :
      {B : Type 0} {k : ℕ} {n : B → ℕ} (p : Store → Bool) (e : PersistenceError) (m : M B)
      → ((db : Store) → p db ≡ false → Holds known status k n db (m db))
      → Keeps known status k n (refuse p e >> m)
  unfolding ◌>>=◌
  refuse_then_Keeps {k = k} {n = n} p e m h = record {
    holds = λ db. rejected_then known status k n e m db (p db) (h db);
  }

  pub draw_Keeps : {k : ℕ} → Keeps known status k (λ _. k) draw_id
  draw_Keeps = record {
    holds = λ db. unchanged_Kept db (record db { next_id = db.next_id + 1 }) refl refl refl refl;
  }

  pub read-Keeps : {A : Type 0} {k : ℕ} (f : Store → A) → Keeps known status k (λ _. k) (read f)
  read-Keeps f = record { holds = λ db. unchanged_Kept db db refl refl refl refl }

  -- The events so far.
  pub shift_Keeps :
      {A : Type 0} (k : ℕ) {n : A → ℕ} {m : M A}
      → Keeps known status 0 n m
      → Keeps known status k (λ a. k + n a) m
  shift_Keeps k {n = n} {m = m} h = record {
    holds = λ db. shifted known status k n db (m db) (h.holds db);
  }

-- What follows a read may use what the tables that were read say of their states.
Holds-known :
    {A : Type 0} (status : RunStatus) (k : ℕ) (n : A → ℕ) (db : Store) (r : Result A)
    → Holds (All IsConsistent db.states) status k n db r
    → Holds (Unit {0}) status k n db r
Holds-known status k n db (ok a after) g = record {
  runs = g.runs;
  events = g.events;
  homes = g.homes;
  states = record {
    unique = g.states.unique;
    consistent = λ _ c. g.states.consistent c c;
    hidden = g.states.hidden;
  };
}
Holds-known status k n db (err e) g = tt

pub read_then_Keeps :
    {A B : Type 0} {status : RunStatus} {k : ℕ} {n : B → ℕ} (f : Store → A) (g : A → M B)
    → ((db : Store) → Keeps (All IsConsistent db.states) status k n (g (f db)))
    → Keeps (Unit {0}) status k n (read f >>= g)
unfolding ◌>>=◌
read_then_Keeps {status = status} {k = k} {n = n} f g h = record {
  holds = λ db. Holds-known status k n db (g (f db) db) ((h db).holds db);
}

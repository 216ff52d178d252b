-- ===== src/Persistence/Apartments.antt =====
-- The apartment of `PersistenceService.persist` in backend/app/services/persistence_service.py.
use wisdom_qj_auction_servic.Prelude.{
  ℕ, Bool, false, Option, none, some, [], ◌∷◌, ◌&&◌, ◌==◌, any, all, if◌then◌else◌,
}
use wisdom_qj_auction_servic.Prelude.Texts.{Text, text_eq, strip, is_empty}
use wisdom_qj_auction_servic.Prelude.Tables.{find, update_where}
use wisdom_qj_auction_servic.Models.{Apartment, Details}
use wisdom_qj_auction_servic.Persistence.Rows.{
  World, Store, M, ◌>>=◌, ◌>>◌, return, write, draw_id, integrity_error, ComplexDetail,
}
use wisdom_qj_auction_servic.Persistence.Writes.{refuse}

-- A dict's `update` and equality.
abbrev pub value_at : Text → Details → Option Text
value_at key [] = none
value_at key ((k, v) ∷ es) = if text_eq k key then some v else value_at key es

abbrev pub set_entry : Text × Text → Details → Details
set_entry (k, v) [] = (k, v) ∷ []
set_entry (k, v) ((j, u) ∷ es) =
    let rest = set_entry (k, v) es in if text_eq j k then (j, v) ∷ es else (j, u) ∷ rest

abbrev pub dict_update : Details → Details → Details
dict_update current [] = current
dict_update current (e ∷ es) = dict_update (set_entry e current) es

abbrev pub has_entry : Details → Text × Text → Bool
has_entry es (k, v) = elim (value_at k es) [ none ↦ false | some u ↦ text_eq u v ]

abbrev pub dict_eq : Details → Details → Bool
dict_eq a b = all (has_entry b) a && all (has_entry a) b

-- `_merge_current_apartment_details`
abbrev pub merge_details : World → (current incoming : Details) → Details
merge_details w current incoming =
    dict_update (w.normalize_details current) (w.normalize_details incoming)

abbrev pub updated_apartment :
    World → ComplexDetail → (incoming : Details) → (captured_at : ℕ) → Apartment → Apartment
updated_apartment w d incoming captured_at a =
    let merged = merge_details w a.details_json incoming in
    let same = dict_eq merged a.details_json in
    record a {
      name = d.name;
      address = if is_empty (strip d.address) then a.address else d.address;
      details_json = if same then a.details_json else merged;
      details_updated_at = if same then a.details_updated_at else some captured_at;
      updated_at = captured_at;
    }

abbrev pub time_of_details : Details → ℕ → Option ℕ
time_of_details [] captured_at = none
time_of_details (e ∷ es) captured_at = some captured_at

abbrev pub new_apartment : (id : ℕ) → ComplexDetail → (incoming : Details) → ℕ → Apartment
new_apartment id d incoming captured_at = record {
  id = id;
  naver_complex_id = d.complex_id;
  name = d.name;
  address = d.address;
  details_json = incoming;
  details_updated_at = time_of_details incoming captured_at;
  created_at = captured_at;
  updated_at = captured_at;
}

abbrev pub apartment_of : Text → Store → Option Apartment
apartment_of complex_id db = find (λ a. text_eq a.naver_complex_id complex_id) db.apartments

-- The apartment, updated when it was there.
abbrev pub save_apartment_at :
    World
    → ComplexDetail
    → (incoming : Details) → (captured_at : ℕ) → Option Apartment
    → M Apartment
save_apartment_at w d incoming captured_at (some a) = do
  let b = updated_apartment w d incoming captured_at a
  write (λ db. record db { apartments = update_where (λ x. x.id == a.id) (λ _. b) db.apartments })
  return b
save_apartment_at w d incoming captured_at none = do
  id ← draw_id
  let a = new_apartment id d incoming captured_at
  write (λ db. record db { apartments = a ∷ db.apartments })
  return a

abbrev pub save_apartment :
    World → ComplexDetail → (incoming : Details) → (captured_at : ℕ) → M Apartment
save_apartment w d incoming captured_at db =
    save_apartment_at w d incoming captured_at (apartment_of d.complex_id db) db

abbrev pub add_apartment_snapshot :
    World → (run_id apartment_id : ℕ) → ComplexDetail → (incoming : Details) → M (Unit {0})
add_apartment_snapshot w run_id apartment_id d incoming = do
  id ← draw_id
  refuse
      (λ db. any (λ s. s.run_id == run_id && s.apartment_id == apartment_id) db.apartment_snapshots)
      integrity_error
  write (λ db. record db {
    apartment_snapshots =
        record {
          id = id;
          run_id = run_id;
          apartment_id = apartment_id;
          details_json = w.apartment_json d incoming;
          captured_at = d.captured_at;
        }
        ∷ db.apartment_snapshots;
  })

-- ===== src/HashTable/Storing.antt =====
-- Step two and three of `hev_hash_table_insert_node` of src/hev-hash-table.c: the arrays part where
-- they have to, and the value is put at its place.
use hev_lib.Base.{
  zero, suc, [], ◌∷◌, ℕ, ◌<◌, ◌≡◌, ◌≢◌, inl, inr, refl, ◌∙◌, Bool, true, false, none, some, List,
  arith, ltb, ◌==◌, length, get_or, set, take, take_all, length-set, get_or-set_self, get_or-set_ne,
  Option-cases, Bool-cases,
}
use hev_lib.HashTable.{HashTable, ok, values_of, set_value}
use hev_lib.HashTable.Update.{split_arrays}
use hev_lib.HashTable.Valid.{key_at}
use hev_lib.HashTable.Search.{read-ok}
use hev_lib.HashTable.Removing.{held, set_value-shared, set_value-own}

-- A table that differs in nothing but the value at a place.
pub record Valued (u u' : HashTable) (i value : ℕ) : Type 0 where
  pub size : u'.size ≡ u.size
  pub mask : u'.mask ≡ u.mask
  pub prime : u'.mod_prime ≡ u.mod_prime
  pub nnodes : u'.nnodes ≡ u.nnodes
  pub noccupied : u'.noccupied ≡ u.noccupied
  pub hashes : u'.hashes ≡ u.hashes
  pub keys_length : length u'.keys ≡ u.size
  pub values_length : length (values_of u') ≡ u.size
  pub keys : (j : ℕ) → key_at u' j ≡ key_at u j
  pub here : held u' i ≡ value
  pub others : (j : ℕ) → i ≢ j → held u' j ≡ held u j

pub record Stored (served : ℕ → Bool) (u : HashTable) (i value : ℕ) : Type 0 where
  pub middle : HashTable
  pub after : HashTable
  pub splits : split_arrays served u i value ≡ ok middle
  pub sets : set_value middle i value ≡ ok after
  pub valued : Valued u after i value

-- Writing what is there already.
pub set_present : (xs : List ℕ) (i j : ℕ) → get_or (set xs i (get_or xs i 0)) j 0 ≡ get_or xs j 0
set_present [] i j = refl
set_present (x ∷ xs) zero zero = refl
set_present (x ∷ xs) zero (suc j) = refl
set_present (x ∷ xs) (suc i) zero = refl
set_present (x ∷ xs) (suc i) (suc j) = set_present xs i j

module _ (served : ℕ → Bool) (u : HashTable) (i value : ℕ) (memory : served 3 ≡ true)
    (inside : i < u.size) (keys : length u.keys ≡ u.size)
    (values : length (values_of u) ≡ u.size) where
  own-Stored : (vs : List ℕ) → u.values ≡ some vs → Stored served u i value
  unfolding split_arrays
  own-Stored vs e =
      let sized : length vs ≡ u.size = rw e at values in
      let low : ltb i (length vs) ≡ true = ground arith in
      record {
        middle = u;
        after = record u { values = some (set vs i value) };
        splits = rw e;
        sets = set_value-own u vs i value e low;
        valued = record {
          size = refl;
          mask = refl;
          prime = refl;
          nnodes = refl;
          noccupied = refl;
          hashes = refl;
          keys_length = keys;
          values_length = length-set vs i value ∙ sized;
          keys = λ j. refl;
          here = get_or-set_self vs i value 0 (omega arith);
          others = λ j ne. rw e (get_or-set_ne vs i j value 0 ne);
        };
      }

  -- The key is the value, so one array does.
  shared-Stored : u.values ≡ none → (key_at u i == value) ≡ true → Stored served u i value
  unfolding split_arrays
  shared-Stored e same =
      let low : ltb i (length u.keys) ≡ true = ground arith in
      let eq : value ≡ key_at u i = ground arith in
      record {
        middle = u;
        after = record u { keys = set u.keys i value };
        splits = rw (e, read-ok u.keys i (omega arith), same);
        sets = set_value-shared u i value e low;
        valued = record {
          size = refl;
          mask = refl;
          prime = refl;
          nnodes = refl;
          noccupied = refl;
          hashes = refl;
          keys_length = length-set u.keys i value ∙ keys;
          values_length = rw e (length-set u.keys i value ∙ keys);
          keys = λ j. rw eq (set_present u.keys i j);
          here = rw e (get_or-set_self u.keys i value 0 (omega arith));
          others = λ j ne. rw e (get_or-set_ne u.keys i j value 0 ne);
        };
      }

  -- The values get an array of their own, a copy of the keys.
  parted-Stored : u.values ≡ none → (key_at u i == value) ≡ false → Stored served u i value
  unfolding split_arrays
  parted-Stored e differ =
      let whole : take u.size u.keys ≡ u.keys = take_all u.size u.keys (omega arith) in
      let low : ltb i (length u.keys) ≡ true = ground arith in
      record {
        middle = record u { values = some u.keys };
        after = record u { values = some (set u.keys i value) };
        splits = rw (e, read-ok u.keys i (omega arith), differ, memory, whole);
        sets = set_value-own (record u { values = some u.keys }) u.keys i value refl low;
        valued = record {
          size = refl;
          mask = refl;
          prime = refl;
          nnodes = refl;
          noccupied = refl;
          hashes = refl;
          keys_length = keys;
          values_length = length-set u.keys i value ∙ keys;
          keys = λ j. refl;
          here = get_or-set_self u.keys i value 0 (omega arith);
          others = λ j ne. rw e (get_or-set_ne u.keys i j value 0 ne);
        };
      }

  pub store-Stored : Stored served u i value
  store-Stored = elim (Option-cases u.values) [
    | inl e ↦ elim (Bool-cases (key_at u i == value)) [
      | inl same ↦ shared-Stored e same
      | inr differ ↦ parted-Stored e differ
    ]
    | inr (vs, e) ↦ own-Stored vs e
  ]

-- ===== src/HashTable/Making.antt =====
-- `hev_hash_table_new_full` and `hev_hash_table_new` of src/hev-hash-table.c: what they make.
use hev_lib.Base.{
  ◌%◌, ◌^◌, ℕ, zero, suc, ◌≡◌, inl, inr, refl, ap, Bool, true, false, Option, none, some, List,
  arith, get_or, replicate,
}
use hev_lib.HashTable.{HashTable, Settings, is_real}
use hev_lib.HashTable.Hash.{direct_hash}
use hev_lib.HashTable.Shift.{set_shift, mask_loop}
use hev_lib.HashTable.Update.{new_full, new}
use hev_lib.HashTable.Valid.{hash_at, count, IsValid}
use hev_lib.HashTable.View.{IsLawful, entry, entry-cases, hash_of-real}

pub get_or-replicate : (n i d : ℕ) → get_or (replicate n d) i d ≡ d
get_or-replicate zero i d = refl
get_or-replicate (suc n) zero d = refl
get_or-replicate (suc n) (suc i) d = get_or-replicate n i d

abbrev empty_array : List ℕ
empty_array = replicate 8 0

-- Eight places without an entry.
abbrev empty_table : HashTable
empty_table = record {
  size = 8;
  mod_prime = 7;
  mask = 7;
  nnodes = 0;
  noccupied = 0;
  ref_count = 1;
  keys = empty_array;
  hashes = empty_array;
  values = none;
}

-- What the table is to use: `direct_hash` where no hash function is passed.
abbrev pub chosen :
    (hash_func : Option (ℕ → ℕ)) (key_equal_func : Option (ℕ → ℕ → Bool))
    (key_destroy value_destroy : Bool)
    → Settings
chosen none e k v = record {
  hash = λ key. key % 2 ^ 32;
  equal = e;
  key_destroy = k;
  value_destroy = v;
}
chosen (some f) e k v = record { hash = f; equal = e; key_destroy = k; value_destroy = v }

new_full-eq :
    (served : ℕ → Bool)
    → served 0 ≡ true
    → served 1 ≡ true
    → served 2 ≡ true
    → (h : Option (ℕ → ℕ)) (e : Option (ℕ → ℕ → Bool)) (k v : Bool)
    → new_full h e k v served ≡ some (chosen h e k v, empty_table)
unfolding new_full mask_loop set_shift direct_hash
new_full-eq served a b d none e k v = rw (a, b, d)
new_full-eq served a b d (some f) e k v = rw (a, b, d)

not-real_empty : (i : ℕ) → is_real (hash_at empty_table i) ≡ false
not-real_empty i = ap is_real (get_or-replicate 8 i 0)

module _ (c : Settings) where
  empty-IsValid : IsValid c empty_table
  unfolding count
  empty-IsValid = record {
    shift = 3;
    sized = record {
      least = omega arith;
      most = omega arith;
      size = refl;
      mask = refl;
      prime = refl;
      keys = refl;
      hashes = refl;
      values = refl;
    };
    nnodes = refl;
    noccupied = refl;
    spare = omega arith;
    reachable = λ i h e. let no = not-real_empty i in cc;
    hashed = λ i h e. let no = not-real_empty i in cc;
    distinct = λ i j h k e d s. let no = not-real_empty i in cc;
  }

  empty-entry : IsLawful c → (key : ℕ) → entry c empty_table key ≡ none
  empty-entry lawful key = elim (entry-cases lawful empty-IsValid key) [
    | inl (i, m, e) ↦
        let no = not-real_empty i in
        let real : is_real (hash_at empty_table i) ≡ true =
          rw m.hash (hash_of-real lawful empty-IsValid key) in
        cc
    | inr (nowhere, e) ↦ e
  ]

-- A new table that uses the settings `c`: valid, held once, and without an entry.
pub record New (c : Settings) (made : Option (Settings × HashTable)) : Type 0 where
  pub table : HashTable
  pub returns : made ≡ some (c, table)
  pub valid : IsValid c table
  pub once : table.ref_count ≡ 1
  pub empty : (key : ℕ) → entry c table key ≡ none

-- When the allocator has the memory, `new_full` makes a table that uses the functions that were
-- passed, each in its place, or the key modulo 2 ^ 32 as its hash value where no hash function was;
-- where these are lawful, the table is valid, held once, and has no entry under any key. `new` makes
-- the one without destroy functions.
pub new_full-New :
    (hash_func : Option (ℕ → ℕ)) (equal_func : Option (ℕ → ℕ → Bool))
    (key_destroy value_destroy : Bool) (served : ℕ → Bool)
    → IsLawful (chosen hash_func equal_func key_destroy value_destroy)
    → served 0 ≡ true
    → served 1 ≡ true
    → served 2 ≡ true
    → New
        (chosen hash_func equal_func key_destroy value_destroy)
        (new_full hash_func equal_func key_destroy value_destroy served)
      × (new hash_func equal_func served ≡ new_full hash_func equal_func false false served)
unfolding new
new_full-New h e k v served lawful a b d = (
  record {
    table = empty_table;
    returns = new_full-eq served a b d h e k v;
    valid = empty-IsValid (chosen h e k v);
    once = refl;
    empty = empty-entry (chosen h e k v) lawful;
  },
  refl,
)

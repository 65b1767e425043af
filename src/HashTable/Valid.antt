-- ===== src/HashTable/Valid.antt =====
-- The invariant of the tables of src/hev-hash-table.c.
use hev_lib.Base.{
  ℕ, zero, suc, ◌+◌, ◌-◌, ◌%◌, ◌^◌, ◌≤◌, ◌<◌, ◌≡◌, ◌≢◌, refl, Bool, true, List, [], ◌∷◌, arith, leb,
  if◌then◌else◌, length, get_or,
}
use hev_lib.HashTable.{HashTable, values_of, Settings, is_real}
use hev_lib.HashTable.Shift.{prime_mod, min_shift}
use hev_lib.HashTable.Probe.{same_key, hash_of}
use hev_lib.HashTable.Cover.{triangle}

-- the places of an array that satisfy a test
unfoldable pub count : (ℕ → Bool) → List ℕ → ℕ
count p [] = 0
count p (x ∷ xs) = if p x then suc (count p xs) else count p xs

abbrev pub is_occupied : ℕ → Bool
is_occupied h = leb 1 h

-- The hash value, the key and the value at a place.
abbrev pub hash_at : HashTable → ℕ → ℕ
hash_at t i = get_or t.hashes i 0

abbrev pub key_at : HashTable → ℕ → ℕ
key_at t i = get_or t.keys i 0

-- Where the probe sequence of a hash value stands after `s` steps.
abbrev pub stop : HashTable → (hash s : ℕ) → ℕ
stop t hash s = (hash % t.mod_prime + triangle s) % t.size

-- the arrays of a table of shift `k` and its measures
pub record IsSized (t : HashTable) (k : ℕ) : Type 0 where
  pub least : min_shift ≤ k
  pub most : k < 31
  pub size : t.size ≡ 2 ^ k
  pub mask : t.mask ≡ 2 ^ k - 1
  pub prime : t.mod_prime ≡ get_or prime_mod k 0
  pub keys : length t.keys ≡ t.size
  pub hashes : length t.hashes ≡ t.size
  pub values : length (values_of t) ≡ t.size

-- Place `i` holds an entry whose key is the given one.
pub record Matches (c : Settings) (t : HashTable) (key i : ℕ) : Type 0 where
  pub inside : i < t.size
  pub hash : hash_at t i ≡ hash_of c key
  pub same : same_key c (key_at t i) key ≡ true

-- On the way from where the hash value's probe sequence starts to place `i` no place is unused.
pub record Reachable (t : HashTable) (hash i : ℕ) : Type 0 where
  pub steps : ℕ
  pub near : steps < t.size
  pub lands : stop t hash steps ≡ i
  pub busy : (r : ℕ) → r < steps → hash_at t (stop t hash r) ≢ 0

-- What `hev_hash_table_lookup_node` relies on: an unused place, and every entry reachable.
pub record IsValid (c : Settings) (t : HashTable) : Type 0 where
  pub shift : ℕ
  pub sized : IsSized t shift
  pub nnodes : count is_real t.hashes ≡ t.nnodes
  pub noccupied : count is_occupied t.hashes ≡ t.noccupied
  pub spare : t.noccupied < t.size
  pub reachable : (i : ℕ) → i < t.size → is_real (hash_at t i) ≡ true → Reachable t (hash_at t i) i
  pub hashed :
      (i : ℕ) → i < t.size → is_real (hash_at t i) ≡ true → hash_at t i ≡ hash_of c (key_at t i)
  pub distinct :
      (i j : ℕ)
      → i < t.size
      → j < t.size
      → is_real (hash_at t i) ≡ true
      → is_real (hash_at t j) ≡ true
      → same_key c (key_at t i) (key_at t j) ≡ true
      → i ≡ j

-- A table that is not full has an unused place.
pub unused_place :
    (hs : List ℕ)
    → count is_occupied hs < length hs
    → (i : ℕ) × (i < length hs) × (get_or hs i 0 ≡ 0)
unfolding count
unused_place [] h = absurd (omega arith)
unused_place (zero ∷ hs) h = (0, omega arith, refl)
unused_place (suc x ∷ hs) h =
    let (i, l, e) = unused_place hs (ground arith) in (suc i, omega arith, e)

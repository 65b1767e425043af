-- ===== src/HashTable.antt =====
-- src/hev-hash-table.c: the table's state, its settings, and access to its arrays.
--
-- A pointer is a number, NULL is 0. An array is a list, and NULL the empty one, so an access
-- through NULL and one out of range are the same `fault`. `values` is `none` while it is the array
-- `keys` itself, as in a table that is used as a set. An `int` is a number; the counters stay far
-- below the range of `int`.
pub mod Hash
pub mod Shift
pub mod Probe
pub mod Resize
pub mod Update
pub mod Query
pub mod Sweep
pub mod Cover
pub mod Mask
pub mod Valid
pub mod Search
pub mod View
pub mod Removing
pub mod Forgetting
pub mod Deleting
pub mod Storing
pub mod Putting
pub mod Filling
pub mod Making
pub mod Entries
pub mod Walking
pub mod Sizing
pub mod Vacancy
pub mod Moving
pub mod Carrying
pub mod Bare
pub mod Resizing
pub mod Replacing
pub mod Inserting
pub mod Shrinking
mod Tests
use hev_lib.Base.{
  ℕ, ◌-◌, ◌<◌, Bool, true, false, Option, none, some, List, [], ◌∷◌, ◌++◌, ltb, leb, ◌==◌,
  if◌then◌else◌, get_elem?, set, length, drop, replicate,
}

pub record HashTable : Type 0 where
  pub size : ℕ
  pub mod_prime : ℕ
  pub mask : ℕ
  pub nnodes : ℕ
  pub noccupied : ℕ
  pub ref_count : ℕ
  pub keys : List ℕ
  pub hashes : List ℕ
  pub values : Option (List ℕ)

-- The function pointers of the struct. `equal` is `none` for NULL; the destroy functions are said
-- to be there or not, and their calls are recorded.
pub record Settings : Type 0 where
  pub hash : ℕ → ℕ
  pub equal : Option (ℕ → ℕ → Bool)
  pub key_destroy : Bool
  pub value_destroy : Bool

-- A call of a destroy function.
pub data Notice : Type 0 where
  key_destroyed : ℕ → Notice
  value_destroyed : ℕ → Notice

-- `fault` is an access outside an array; `stuck` is a probe loop that has used up its rounds.
pub data Run {ℓ} (A : Type ℓ) : Type ℓ where
  ok : A → Run A
  fault : Run A
  stuck : Run A

infixl 5 ◌>>=◌
abbrev pub ◌>>=◌ {ℓ κ} : {A : Type ℓ} {B : Type κ} → Run A → (A → Run B) → Run B
ok a >>= f = f a
fault >>= f = fault
stuck >>= f = stuck

unfoldable pub read : List ℕ → ℕ → Run ℕ
read xs i = elim (get_elem? xs i) [ some x ↦ ok x | none ↦ fault ]

unfoldable pub write : List ℕ → ℕ → ℕ → Run (List ℕ)
write xs i x = if ltb i (length xs) then ok (set xs i x) else fault

-- `memset (xs, 0, …)` over `n` entries
unfoldable pub clear : List ℕ → ℕ → Run (List ℕ)
clear xs n = if leb n (length xs) then ok (replicate n 0 ++ drop n xs) else fault

-- `HASH_IS_UNUSED`, `HASH_IS_TOMBSTONE` and `HASH_IS_REAL`
abbrev pub is_unused : ℕ → Bool
is_unused h = h == 0

abbrev pub is_tombstone : ℕ → Bool
is_tombstone h = h == 1

abbrev pub is_real : ℕ → Bool
is_real h = leb 2 h

-- `new0` for `n` entries; `served` says whether the allocator had the memory.
abbrev pub new0 : (served : Bool) → ℕ → List ℕ
new0 served n = if served then replicate n 0 else []

-- the array that `self->values` points to
abbrev pub values_of : HashTable → List ℕ
values_of t = elim t.values [ none ↦ t.keys | some vs ↦ vs ]

-- `self->values[i]`, and a write to it
abbrev pub value_at : HashTable → ℕ → Run ℕ
value_at t i = read (values_of t) i

unfoldable pub set_value : HashTable → ℕ → ℕ → Run HashTable
unfolding write
set_value t i x = elim t.values [
  | none ↦ write t.keys i x >>= λ ks. ok (record t { keys = ks })
  | some vs ↦ write vs i x >>= λ vs'. ok (record t { values = some vs' })
]

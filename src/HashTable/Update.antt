-- ===== src/HashTable/Update.antt =====
-- src/hev-hash-table.c: making a table, and inserting and removing one key.
use hev_lib.Base.{
  ℕ, ◌+◌, ◌-◌, ◌%◌, ◌^◌, Bool, true, false, not, ◌&&◌, Option, none, some, List, [], ◌∷◌, ◌++◌,
  take, ◌==◌, if◌then◌else◌,
}
use hev_lib.HashTable.{
  HashTable, Settings, Notice, key_destroyed, value_destroyed, Run, ok, ◌>>=◌, read, write,
  value_at, set_value, new0, is_unused, is_real,
}
use hev_lib.HashTable.Hash.{direct_hash}
use hev_lib.HashTable.Shift.{set_shift, min_shift}
use hev_lib.HashTable.Probe.{lookup_node}
use hev_lib.HashTable.Resize.{maybe_resize}

abbrev blank : HashTable
blank = record {
  size = 0;
  mod_prime = 0;
  mask = 0;
  nnodes = 0;
  noccupied = 0;
  ref_count = 1;
  keys = [];
  hashes = [];
  values = none;
}

-- The functions that are passed, NULL where there is none, and the table. Request 0 is for the struct,
-- 1 for the keys, 2 for the hashes.
unfoldable pub new_full :
    (hash_func : Option (ℕ → ℕ)) (key_equal_func : Option (ℕ → ℕ → Bool))
    (key_destroy value_destroy : Bool) (served : ℕ → Bool)
    → Option (Settings × HashTable)
unfolding set_shift
new_full hash_func key_equal_func key_destroy value_destroy served =
    if served 0
    then (let t = set_shift blank min_shift in
        some (
          record {
            hash = elim hash_func [ none ↦ direct_hash | some f ↦ f ];
            equal = key_equal_func;
            key_destroy = key_destroy;
            value_destroy = value_destroy;
          },
          record t { keys = new0 (served 1) t.size; hashes = new0 (served 2) t.size },
        ))
    else none

unfoldable pub new :
    (hash_func : Option (ℕ → ℕ)) (key_equal_func : Option (ℕ → ℕ → Bool)) (served : ℕ → Bool)
    → Option (Settings × HashTable)
unfolding new_full
new hash_func key_equal_func served = new_full hash_func key_equal_func false false served

unfoldable pub ref : Option HashTable → Option HashTable
ref none = none
ref (some t) = some (record t { ref_count = (t.ref_count + 1) % 2 ^ 32 })

-- The calls of the destroy functions that are there.
abbrev pub notices : Settings → (notify : Bool) → (key value : ℕ) → List Notice
notices c notify key value =
    (if notify && c.key_destroy then key_destroyed key ∷ [] else [])
    ++ (if notify && c.value_destroy then value_destroyed value ∷ [] else [])

-- Step two of `insert_node`: the arrays part where key and value differ. Request 3 is for the copy.
unfoldable pub split_arrays : (served : ℕ → Bool) → HashTable → (i value : ℕ) → Run HashTable
unfolding read
split_arrays served t i value = elim t.values [
  | some vs ↦ ok t
  | none ↦ read t.keys i >>= λ k.
      if k == value
      then ok t
      else ok (record t { values = some (if served 3 then take t.size t.keys else []) })
]

-- What `insert_node` frees of an entry that was there.
pub record Replaced : Type 0 where
  pub key_to_free : ℕ
  pub value_to_free : ℕ

-- Steps one to three where the place holds an entry.
unfoldable pub overwrite_node :
    (served : ℕ → Bool)
    → HashTable
    → (i key value : ℕ) → (keep_new_key : Bool) → Run (Replaced × HashTable)
unfolding split_arrays read write set_value
overwrite_node served t i key value keep = do
  old_value ← value_at t i
  old_key ← read t.keys i
  ks ← (if keep then write t.keys i key else ok t.keys)
  t' ← split_arrays served (record t { keys = ks }) i value
  t'' ← set_value t' i value
  ok (record { key_to_free = if keep then old_key else key; value_to_free = old_value }, t'')

-- Steps one to three where it does not.
unfoldable pub fill_node : (served : ℕ → Bool) → HashTable → (i hash key value : ℕ) → Run HashTable
unfolding split_arrays read write set_value
fill_node served t i hash key value = do
  hs ← write t.hashes i hash
  ks ← write t.keys i key
  t' ← split_arrays served (record t { hashes = hs; keys = ks }) i value
  set_value t' i value

-- The counters, after an entry was added at a place that held `old_hash`.
unfoldable pub count_node : (served : ℕ → Bool) → HashTable → (old_hash : ℕ) → Run HashTable
unfolding maybe_resize
count_node served t old_hash =
    if is_unused old_hash
    then maybe_resize served (record t { nnodes = t.nnodes + 1; noccupied = t.noccupied + 1 })
    else ok (record t { nnodes = t.nnodes + 1 })

unfoldable pub insert_node :
    Settings
    → (served : ℕ → Bool) → HashTable
    → (i hash key value : ℕ) → (keep_new_key reusing_key : Bool)
    → Run (Bool × HashTable × List Notice)
unfolding read overwrite_node fill_node count_node
insert_node c served t i hash key value keep reusing = read t.hashes i >>= λ old_hash.
    if is_real old_hash
    then (overwrite_node served t i key value keep >>= λ r. ok (
      false,
      r.1,
      (if c.key_destroy && not reusing then key_destroyed r.0.key_to_free ∷ [] else [])
          ++ (if c.value_destroy then value_destroyed r.0.value_to_free ∷ [] else []),
    ))
    else (fill_node served t i hash key value >>= λ t'.
        count_node served t' old_hash >>= λ t''. ok (true, t'', []))

unfoldable pub insert_internal :
    Settings
    → (served : ℕ → Bool) → HashTable
    → (key value : ℕ) → (keep_new_key : Bool) → Run (Bool × HashTable × List Notice)
unfolding lookup_node insert_node
insert_internal c served t key value keep =
    lookup_node c t key >>= λ n. insert_node c served t n.0 n.1 key value keep false

unfoldable pub insert :
    Settings
    → (served : ℕ → Bool) → HashTable
    → (key value : ℕ) → Run (Bool × HashTable × List Notice)
unfolding insert_internal
insert c served t key value = insert_internal c served t key value false

unfoldable pub replace :
    Settings
    → (served : ℕ → Bool) → HashTable
    → (key value : ℕ) → Run (Bool × HashTable × List Notice)
unfolding insert_internal
replace c served t key value = insert_internal c served t key value true

unfoldable pub add :
    Settings → (served : ℕ → Bool) → HashTable → (key : ℕ) → Run (Bool × HashTable × List Notice)
unfolding insert_internal
add c served t key = insert_internal c served t key key true

unfoldable pub remove_node :
    Settings → HashTable → (i : ℕ) → (notify : Bool) → Run (HashTable × List Notice)
unfolding read write set_value
remove_node c t i notify = do
  key ← read t.keys i
  value ← value_at t i
  hs ← write t.hashes i 1
  ks ← write t.keys i 0
  t' ← set_value (record t { hashes = hs; keys = ks }) i 0
  ok (record t' { nnodes = t'.nnodes - 1 }, notices c notify key value)

unfoldable pub remove_internal :
    Settings
    → (served : ℕ → Bool) → HashTable
    → (key : ℕ) → (notify : Bool) → Run (Bool × HashTable × List Notice)
unfolding lookup_node read remove_node maybe_resize
remove_internal c served t key notify = lookup_node c t key >>= λ n. read t.hashes n.0 >>= λ h.
    if is_real h
    then (remove_node c t n.0 notify >>= λ r. maybe_resize served r.0 >>= λ t'. ok (true, t', r.1))
    else ok (false, t, [])

unfoldable pub remove :
    Settings → (served : ℕ → Bool) → HashTable → (key : ℕ) → Run (Bool × HashTable × List Notice)
unfolding remove_internal
remove c served t key = remove_internal c served t key true

unfoldable pub steal :
    Settings → (served : ℕ → Bool) → HashTable → (key : ℕ) → Run (Bool × HashTable × List Notice)
unfolding remove_internal
steal c served t key = remove_internal c served t key false

-- ===== src/HashTable/Resize.antt =====
-- src/hev-hash-table.c: `hev_hash_table_resize` and `hev_hash_table_maybe_resize`.
use hev_lib.Base.{
  ℕ, zero, suc, ◌+◌, ◌*◌, ◌/◌, ◌%◌, ◌^◌, Bool, ◌&&◌, ◌||◌, Option, none, some, List, leb, ltb,
  if◌then◌else◌,
}
use hev_lib.HashTable.{
  HashTable, Run, ok, stuck, ◌>>=◌, read, write, value_at, new0, is_unused, is_real,
}
use hev_lib.HashTable.Shift.{set_shift_from_size, min_shift}
use hev_lib.HashTable.Probe.{next_index}

-- `new_keys`, `new_values` and `new_hashes`
pub record Arrays : Type 0 where
  pub keys : List ℕ
  pub values : Option (List ℕ)
  pub hashes : List ℕ

-- The loop that looks for an unused place of the new arrays.
unfoldable pub vacant : (mask : ℕ) → List ℕ → (rounds index step : ℕ) → Run ℕ
unfolding read
vacant mask hashes zero i step = stuck
vacant mask hashes (suc f) i step =
    let next = vacant mask hashes f (next_index mask i (step + 1)) (step + 1) in
    read hashes i >>= λ h. if is_unused h then ok i else next

-- `new_values[i] = v`, where the array may be `new_keys`
unfoldable pub set_new_value : Arrays → ℕ → ℕ → Run Arrays
unfolding write
set_new_value a i v = elim a.values [
  | none ↦ write a.keys i v >>= λ ks. ok (record a { keys = ks })
  | some vs ↦ write vs i v >>= λ vs'. ok (record a { values = some vs' })
]

unfoldable pub move_node : (size mod_prime mask hash key value : ℕ) → Arrays → Run Arrays
unfolding vacant set_new_value write
move_node size p mask hash key value a = do
  i ← vacant mask a.hashes size (hash % p) 0
  hs ← write a.hashes i hash
  ks ← write a.keys i key
  set_new_value (record a { hashes = hs; keys = ks }) i value

-- `for (i = 0; i < old_size; i++)`, with `left` rounds to go; `new` is the table after
-- `set_shift_from_size`, which still has the old arrays.
unfoldable pub move_nodes : (new : HashTable) → (left i : ℕ) → Arrays → Run Arrays
unfolding move_node read
move_nodes new zero i a = ok a
move_nodes new (suc left) i a = read new.hashes i >>= λ h.
    if is_real h
    then (do
      k ← read new.keys i
      v ← value_at new i
      b ← move_node new.size new.mod_prime new.mask h k v a
      move_nodes new left (i + 1) b)
    else move_nodes new left (i + 1) a

-- The arrays that `new0` makes; `new_values` is `new_keys` where the old ones were one array.
unfoldable pub fresh_arrays : (served : ℕ → Bool) → HashTable → Arrays
fresh_arrays served new = record {
  keys = new0 (served 0) new.size;
  values = elim new.values [ none ↦ none | some vs ↦ some (new0 (served 1) new.size) ];
  hashes = new0 (served 2) new.size;
}

-- `served i` says whether the allocator has the memory for the i-th request.
unfoldable pub resize : (served : ℕ → Bool) → HashTable → Run HashTable
unfolding set_shift_from_size move_nodes fresh_arrays
resize served t =
    let new = set_shift_from_size t (t.nnodes * 2) in
    move_nodes new t.size 0 (fresh_arrays served new) >>= λ a.
    ok (record new { keys = a.keys; values = a.values; hashes = a.hashes; noccupied = t.nnodes })

unfoldable pub wants_resize : HashTable → Bool
wants_resize t =
    (ltb (t.nnodes * 4) t.size && ltb (2 ^ min_shift) t.size)
    || leb t.size (t.noccupied + t.noccupied / 16)

unfoldable pub maybe_resize : (served : ℕ → Bool) → HashTable → Run HashTable
unfolding resize wants_resize
maybe_resize served t = if wants_resize t then resize served t else ok t

-- ===== src/HashTable/Probe.antt =====
-- src/hev-hash-table.c: `hev_hash_table_lookup_node`, the search for a key's place.
use Prim.Native.Nat.{bit_and}
use hev_lib.Base.{ℕ, zero, suc, ◌+◌, ◌%◌, ◌^◌, Bool, Option, none, some, ◌==◌, if◌then◌else◌}
use hev_lib.HashTable.{
  HashTable, Settings, Run, ok, stuck, ◌>>=◌, read, is_unused, is_tombstone, is_real,
}

-- `node_index += step; node_index &= self->mask;`
abbrev pub next_index : (mask index step : ℕ) → ℕ
next_index mask index step = bit_and ((index + step) % 2 ^ 32) mask

-- the key test: the function, or pointer equality where it is NULL
unfoldable pub same_key : Settings → (node_key key : ℕ) → Bool
same_key c node_key key = elim c.equal [ none ↦ node_key == key | some equal ↦ equal node_key key ]

unfoldable pub hash_of : Settings → ℕ → ℕ
hash_of c key = let h = c.hash key % 2 ^ 32 in if is_real h then h else 2

abbrev pub or_index : Option ℕ → ℕ → ℕ
or_index none i = i
or_index (some t) i = t

-- `have_tombstone` and `first_tombstone`
abbrev pub note_tombstone : ℕ → ℕ → Option ℕ → Option ℕ
note_tombstone h i (some t) = some t
note_tombstone h i none = if is_tombstone h then some i else none

module _ (c : Settings) (t : HashTable) (key hash_value : ℕ) where
  -- The loop, from the place `i` that it looks at after `step` steps.
  unfoldable pub probe : (rounds i step : ℕ) → Option ℕ → Run ℕ
  probe zero i step tomb = stuck
  probe (suc f) i step tomb =
      let next = λ (found : Option ℕ). probe f (next_index t.mask i (step + 1)) (step + 1) found in
      read t.hashes i >>= λ node_hash.
      if is_unused node_hash
      then ok (or_index tomb i)
      else if node_hash == hash_value
      then (read t.keys i >>= λ node_key. if same_key c node_key key then ok i else next tomb)
      else next (note_tombstone node_hash i tomb)

-- The place, and the hash value that goes through `hash_return`. The loop gets a round for each
-- place of the table.
unfoldable pub lookup_node : Settings → HashTable → ℕ → Run (ℕ × ℕ)
unfolding probe hash_of
lookup_node c t key =
    let h = hash_of c key in probe c t key h t.size (h % t.mod_prime) 0 none >>= λ i. ok (i, h)

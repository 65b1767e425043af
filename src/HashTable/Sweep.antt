-- ===== src/HashTable/Sweep.antt =====
-- src/hev-hash-table.c: the calls that go through the whole table and remove entries.
use hev_lib.Base.{
  ℕ, zero, suc, ◌+◌, ◌-◌, ◌%◌, ◌^◌, Bool, true, false, not, ◌&&◌, ◌||◌, Option, none, some, List,
  [], ◌++◌, ◌==◌, if◌then◌else◌,
}
use hev_lib.HashTable.{
  HashTable, Settings, Notice, Run, ok, ◌>>=◌, read, write, clear, value_at, set_value,
  is_tombstone, is_real,
}
use hev_lib.HashTable.Resize.{maybe_resize}
use hev_lib.HashTable.Update.{remove_node, notices}

-- The loop of `remove_all_nodes`, from place `i` with `left` places to go.
unfoldable pub unset_nodes :
    Settings → (left i : ℕ) → HashTable → List Notice → Run (HashTable × List Notice)
unfolding read write set_value
unset_nodes c zero i t calls = ok (t, calls)
unset_nodes c (suc left) i t calls = read t.hashes i >>= λ h.
    if is_real h
    then (do
      key ← read t.keys i
      value ← value_at t i
      hs ← write t.hashes i 0
      ks ← write t.keys i 0
      t' ← set_value (record t { hashes = hs; keys = ks }) i 0
      unset_nodes c left (i + 1) t' (calls ++ notices c true key value))
    else if is_tombstone h
    then (write t.hashes i 0 >>= λ hs. unset_nodes c left (i + 1) (record t { hashes = hs }) calls)
    else unset_nodes c left (i + 1) t calls

-- `memset` of the values, which may be the keys
unfoldable pub clear_values : HashTable → Run HashTable
unfolding clear
clear_values t = elim t.values [
  | none ↦ clear t.keys t.size >>= λ ks. ok (record t { keys = ks })
  | some vs ↦ clear vs t.size >>= λ vs'. ok (record t { values = some vs' })
]

unfoldable pub remove_all_nodes :
    Settings → HashTable → (notify : Bool) → Run (HashTable × List Notice)
unfolding unset_nodes clear_values clear
remove_all_nodes c t notify =
    let t₀ = record t { nnodes = 0; noccupied = 0 } in
    if not notify || (not c.key_destroy && not c.value_destroy)
    then (do
      hs ← clear t.hashes t.size
      ks ← clear t.keys t.size
      t' ← clear_values (record t₀ { hashes = hs; keys = ks })
      ok (t', []))
    else unset_nodes c t.size 0 t₀ []

unfoldable pub remove_all :
    Settings → (served : ℕ → Bool) → HashTable → Run (HashTable × List Notice)
unfolding remove_all_nodes maybe_resize
remove_all c served t =
    remove_all_nodes c t true >>= λ r. maybe_resize served r.0 >>= λ t'. ok (t', r.1)

unfoldable pub steal_all :
    Settings → (served : ℕ → Bool) → HashTable → Run (HashTable × List Notice)
unfolding remove_all_nodes maybe_resize
steal_all c served t =
    remove_all_nodes c t false >>= λ r. maybe_resize served r.0 >>= λ t'. ok (t', r.1)

-- The table is `none` once its memory is given back.
unfoldable pub unref : Settings → HashTable → Run (Option HashTable × List Notice)
unfolding remove_all_nodes
unref c t =
    let count = (t.ref_count + (2 ^ 32 - 1)) % 2 ^ 32 in
    if count == 0
    then (remove_all_nodes c (record t { ref_count = 0 }) true >>= λ r. ok (none, r.1))
    else ok (some (record t { ref_count = count }), [])

-- The loop of `foreach_remove_or_steal`, with the number of entries removed so far.
unfoldable pub remove_matching :
    Settings
    → (func : ℕ → ℕ → Bool) → (notify : Bool) → (left i : ℕ) → HashTable
    → (deleted : ℕ) → List Notice
    → Run (ℕ × HashTable × List Notice)
unfolding read remove_node
remove_matching c func notify zero i t deleted calls = ok (deleted, t, calls)
remove_matching c func notify (suc left) i t deleted calls = read t.hashes i >>= λ h.
    read t.keys i >>= λ k. value_at t i >>= λ v.
    if is_real h && func k v
    then (remove_node c t i notify >>= λ r.
        remove_matching c func notify left (i + 1) r.0 (deleted + 1) (calls ++ r.1))
    else remove_matching c func notify left (i + 1) t deleted calls

unfoldable pub foreach_remove_or_steal :
    Settings
    → (served : ℕ → Bool) → (func : ℕ → ℕ → Bool) → HashTable
    → (notify : Bool) → Run (ℕ × HashTable × List Notice)
unfolding remove_matching maybe_resize
foreach_remove_or_steal c served func t notify =
    remove_matching c func notify t.size 0 t 0 [] >>= λ r.
    maybe_resize served r.1 >>= λ t'. ok (r.0, t', r.2)

unfoldable pub foreach_remove :
    Settings
    → (served : ℕ → Bool) → (func : ℕ → ℕ → Bool) → HashTable
    → Run (ℕ × HashTable × List Notice)
unfolding foreach_remove_or_steal
foreach_remove c served func t = foreach_remove_or_steal c served func t true

unfoldable pub foreach_steal :
    Settings
    → (served : ℕ → Bool) → (func : ℕ → ℕ → Bool) → HashTable
    → Run (ℕ × HashTable × List Notice)
unfolding foreach_remove_or_steal
foreach_steal c served func t = foreach_remove_or_steal c served func t false

-- ===== src/HashTable/Query.antt =====
-- src/hev-hash-table.c: the calls that leave the table as it is.
use hev_lib.Base.{ℕ, zero, suc, ◌+◌, Bool, false, Option, none, some, List, [], ◌∷◌, if◌then◌else◌}
use hev_lib.HashTable.{HashTable, Settings, Run, ok, ◌>>=◌, read, value_at, is_real}
use hev_lib.HashTable.Probe.{lookup_node}

unfoldable pub contains : Settings → HashTable → ℕ → Run Bool
unfolding lookup_node read
contains c t key = do n ← lookup_node c t key; h ← read t.hashes n.0; ok (is_real h)

-- A null table is `none`.
unfoldable pub size : Option HashTable → ℕ
size none = 0
size (some t) = t.nnodes

unfoldable pub lookup : Settings → HashTable → ℕ → Run ℕ
unfolding lookup_node read
lookup c t key = lookup_node c t key >>= λ n.
    read t.hashes n.0 >>= λ h. if is_real h then value_at t n.0 else ok 0

-- `some` of what goes through `orig_key` and `value`, where the function returns true.
unfoldable pub lookup_extended : Settings → HashTable → ℕ → Run (Option (ℕ × ℕ))
unfolding lookup_node read
lookup_extended c t key = lookup_node c t key >>= λ n. read t.hashes n.0 >>= λ h.
    if is_real h then (do k ← read t.keys n.0; v ← value_at t n.0; ok (some (k, v))) else ok none

-- The entries in the order of the places, from place `i` on with `left` places to go. This is the
-- loop of `foreach`: the entries that it calls `func` with.
unfoldable pub entries_from : HashTable → (left i : ℕ) → Run (List (ℕ × ℕ))
unfolding read
entries_from t zero i = ok []
entries_from t (suc left) i = read t.hashes i >>= λ h. read t.keys i >>= λ k. value_at t i >>= λ v.
    entries_from t left (i + 1) >>= λ rest. ok (if is_real h then (k, v) ∷ rest else rest)

unfoldable pub foreach : HashTable → Run (List (ℕ × ℕ))
unfolding entries_from
foreach t = entries_from t t.size 0

-- `match` is set again only by a real entry, and the loop returns as soon as it is true.
unfoldable pub find_from : (predicate : ℕ → ℕ → Bool) → HashTable → (left i : ℕ) → Run ℕ
unfolding read
find_from p t zero i = ok 0
find_from p t (suc left) i = read t.hashes i >>= λ h. read t.keys i >>= λ k. value_at t i >>= λ v.
    if (if is_real h then p k v else false) then ok v else find_from p t left (i + 1)

unfoldable pub find : (predicate : ℕ → ℕ → Bool) → HashTable → Run ℕ
unfolding find_from
find p t = find_from p t t.size 0

-- `hev_list_prepend` of src/hev-list.c by the items: it returns NULL where there is no memory for the
-- node.
abbrev pub prepended : (fits : Bool) → ℕ → List ℕ → List ℕ
prepended fits x self = if fits then x ∷ self else []

-- The list that is built so far comes as `retval`, and `k` is the number of requests for a node so
-- far: `served` says which of them get memory.
unfoldable pub collect :
    (served : ℕ → Bool) (pick : HashTable → ℕ → Run ℕ)
    → HashTable
    → (left i k : ℕ) → List ℕ
    → Run (List ℕ)
unfolding read
collect served pick t zero i k retval = ok retval
collect served pick t (suc left) i k retval = read t.hashes i >>= λ h.
    if is_real h
    then (pick t i >>= λ x.
        collect served pick t left (i + 1) (k + 1) (prepended (served k) x retval))
    else collect served pick t left (i + 1) k retval

unfoldable pub get_keys : (served : ℕ → Bool) → HashTable → Run (List ℕ)
unfolding collect read
get_keys served t = collect served (λ s i. read s.keys i) t t.size 0 0 []

unfoldable pub get_values : (served : ℕ → Bool) → HashTable → Run (List ℕ)
unfolding collect
get_values served t = collect served value_at t t.size 0 0 []

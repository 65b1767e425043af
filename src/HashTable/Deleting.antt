-- ===== src/HashTable/Deleting.antt =====
-- `hev_hash_table_remove` and `hev_hash_table_steal` of src/hev-hash-table.c, where the table
-- keeps its size.
use hev_lib.Base.{
  ℕ, ◌-◌, ◌<◌, ◌≡◌, inl, inr, sym, ap, ◌∙◌, Bool, true, false, none, some, List, [], if◌then◌else◌,
  arith, Bool-cases,
}
use hev_lib.HashTable.{HashTable, Settings, Notice, Run, ok, read, is_real}
use hev_lib.HashTable.Probe.{same_key, lookup_node}
use hev_lib.HashTable.Resize.{wants_resize, maybe_resize}
use hev_lib.HashTable.Update.{remove_internal, notices}
use hev_lib.HashTable.Valid.{hash_at, key_at, Matches, IsValid}
use hev_lib.HashTable.Search.{read-ok, Found, present, missing, lookup_node-Found}
use hev_lib.HashTable.View.{IsLawful, entry, entry-cases, Matches-entry, hash_of-real}
use hev_lib.HashTable.Removing.{held, Erased, remove_node-Erased, Erased-IsValid}
use hev_lib.HashTable.Forgetting.{Erased-entry}

-- What a removal returns and leaves: it finds nothing under the key, or takes the entry out.
pub data Deleted (c : Settings) (t : HashTable) (key : ℕ) (notify : Bool)
    (run : Run (Bool × HashTable × List Notice)) : Type 0 where
  absent : entry c t key ≡ none → run ≡ ok (false, t, []) → Deleted c t key notify run
  deleted :
      (k v : ℕ) (t' : HashTable)
      → entry c t key ≡ some (k, v)
      → run ≡ ok (true, t', notices c notify k v)
      → IsValid c t'
      → ((other : ℕ) → entry c t' other ≡ (if same_key c key other then none else entry c t other))
      → Deleted c t key notify run

kept_size :
    (served : ℕ → Bool) (t t' : HashTable) (i : ℕ)
    → Erased t t' i
    → wants_resize (record t { nnodes = t.nnodes - 1 }) ≡ false
    → maybe_resize served t' ≡ ok t'
unfolding maybe_resize wants_resize
kept_size served t t' i gone h = rw (gone.nnodes, gone.noccupied, gone.size, h)

pub same_key_trans :
    {c : Settings}
    → IsLawful c
    → (a b other : ℕ) → same_key c a b ≡ true
    → same_key c a other ≡ same_key c b other
same_key_trans {c} lawful a b other s = elim (Bool-cases (same_key c a other)) [
  | inl y ↦ y ∙ sym (lawful.transitive b a other (lawful.symmetric a b s) y)
  | inr n ↦ elim (Bool-cases (same_key c b other)) [
    | inl y ↦ let z = lawful.transitive a b other s y in cc
    | inr m ↦ n ∙ sym m
  ]
]

module _ {c : Settings} {t : HashTable} (lawful : IsLawful c) (valid : IsValid c t)
    (served : ℕ → Bool) (key : ℕ) (notify : Bool) where
  pub place-ok : (i : ℕ) → i < t.size → read t.hashes i ≡ ok (hash_at t i)
  place-ok i h = read-ok t.hashes i (omega (arith, valid.sized.hashes))

  pub no_entry :
      (i h : ℕ)
      → lookup_node c t key ≡ ok (i, h)
      → i < t.size
      → is_real (hash_at t i) ≡ false
      → ((j : ℕ) → ¬ Matches c t key j)
      → Deleted c t key notify (remove_internal c served t key notify)
  unfolding remove_internal
  no_entry i h run inside unreal nowhere =
      let none_there : entry c t key ≡ none = elim (entry-cases lawful valid key) [
        | inl (j, m, e) ↦ absurd (nowhere j m)
        | inr (never, e) ↦ e
      ] in
      absent none_there (rw (run, place-ok i inside, unreal))

  with_entry :
      (i h : ℕ)
      → lookup_node c t key ≡ ok (i, h)
      → Matches c t key i
      → wants_resize (record t { nnodes = t.nnodes - 1 }) ≡ false
      → Deleted c t key notify (remove_internal c served t key notify)
  unfolding remove_internal
  with_entry i h run m keeps =
      let real : is_real (hash_at t i) ≡ true = rw m.hash (hash_of-real lawful valid key) in
      let (t', taken, gone) = remove_node-Erased valid i m.inside notify in
      deleted (key_at t i) (held t i) t' (Matches-entry lawful valid key i m)
        (rw (run, place-ok i m.inside, real, taken, kept_size served t t' i gone keeps))
        (Erased-IsValid valid i m.inside real gone)
        (λ other.
          Erased-entry lawful valid i m.inside real gone other
          ∙ ap (λ (b : Bool). if b then none else entry c t other)
              (same_key_trans lawful (key_at t i) key other m.same))

  by_place :
      (i h : ℕ)
      → lookup_node c t key ≡ ok (i, h)
      → Found c t key i
      → wants_resize (record t { nnodes = t.nnodes - 1 }) ≡ false
      → Deleted c t key notify (remove_internal c served t key notify)
  by_place i h run (present m) keeps = with_entry i h run m keeps
  by_place i h run (missing unreal inside way nowhere) keeps =
      no_entry i h run inside unreal nowhere

-- On a valid table with lawful functions that need not change its size without an entry, removing
-- a key neither faults nor runs on. Without an entry under the key it returns false and changes
-- nothing; otherwise it returns true, calls the destroy functions with the key and value of the
-- entry if it is asked to, and leaves a valid table with no entry under the key and the same
-- entries under the others.
pub remove_internal-Deleted :
    {c : Settings} {t : HashTable}
    → IsLawful c
    → IsValid c t
    → (served : ℕ → Bool) → (key : ℕ) → (notify : Bool)
    → wants_resize (record t { nnodes = t.nnodes - 1 }) ≡ false
    → Deleted c t key notify (remove_internal c served t key notify)
remove_internal-Deleted {c} {t} lawful valid served key notify keeps =
    let (i, run, found) = lookup_node-Found valid key in
    by_place lawful valid served key notify i _ run found keeps

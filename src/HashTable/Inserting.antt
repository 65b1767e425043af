-- ===== src/HashTable/Inserting.antt =====
-- `hev_hash_table_insert`, `_replace` and `_add` of src/hev-hash-table.c.
use hev_lib.Base.{
  refl, ℕ, ◌^◌, ◌+◌, ◌<◌, ◌≡◌, inl, inr, ◌∙◌, Bool, true, false, ◌&&◌, none, some, List, [], ◌∷◌,
  ◌++◌, if◌then◌else◌, arith, Bool-cases,
}
use hev_lib.HashTable.{
  HashTable, Settings, is_unused, Notice, key_destroyed, value_destroyed, Run, ok, read, is_real,
}
use hev_lib.HashTable.Probe.{same_key, hash_of, lookup_node}
use hev_lib.HashTable.Resizing.{maybe_resize-Fitted}
use hev_lib.HashTable.Update.{fill_node, count_node, insert_node, insert_internal}
use hev_lib.HashTable.Valid.{hash_at, key_at, Matches, Reachable, IsValid}
use hev_lib.HashTable.Search.{read-ok, Found, present, missing, lookup_node-Found}
use hev_lib.HashTable.View.{IsLawful, entry, entry-cases, Matches-entry, hash_of-real}
use hev_lib.HashTable.Removing.{held}
use hev_lib.HashTable.Putting.{Put, Put-IsValid, Put-entry}
use hev_lib.HashTable.Filling.{
  overwrite-Put, store, fill_node-ok, counted_unused, counted_tombstone,
}
use hev_lib.HashTable.Replacing.{real, replaced-IsValid, replaced-entry}

-- The calls of the destroy functions when the entry of `k` and `v` is replaced under `key`.
abbrev pub freed : Settings → (keep_new_key : Bool) → (k v key : ℕ) → List Notice
freed c keep k v key =
    (if c.key_destroy then key_destroyed (if keep then k else key) ∷ [] else [])
    ++ (if c.value_destroy then value_destroyed v ∷ [] else [])

and_true : (b : Bool) → (b && true) ≡ b
and_true true = refl
and_true false = refl

-- What an insertion returns and leaves: it replaces the entry under the key, or adds one.
pub data Inserted (c : Settings) (t : HashTable) (key value : ℕ) (keep : Bool)
    (run : Run (Bool × HashTable × List Notice)) : Type 0 where
  replaced :
      (k v : ℕ) (t' : HashTable)
      → entry c t key ≡ some (k, v)
      → run ≡ ok (false, t', freed c keep k v key)
      → IsValid c t'
      → ((other : ℕ)
          → entry c t' other ≡ (
              if same_key c key other
              then some (if keep then key else k, value)
              else entry c t other))
      → Inserted c t key value keep run
  added :
      (t' : HashTable)
      → entry c t key ≡ none
      → run ≡ ok (true, t', [])
      → IsValid c t'
      → ((other : ℕ)
          → entry c t' other
            ≡ (if same_key c key other then some (key, value) else entry c t other))
      → Inserted c t key value keep run

module _ {c : Settings} {t : HashTable} (lawful : IsLawful c) (valid : IsValid c t)
    (served : ℕ → Bool) (key value : ℕ) (keep : Bool) (memory : (i : ℕ) → served i ≡ true) where
  place-ok : (i : ℕ) → i < t.size → read t.hashes i ≡ ok (hash_at t i)
  place-ok i h = read-ok t.hashes i (omega (arith, valid.sized.hashes))

  by_entry :
      (i h : ℕ)
      → lookup_node c t key ≡ ok (i, h)
      → Matches c t key i
      → Inserted c t key value keep (insert_internal c served t key value keep)
  unfolding insert_internal insert_node
  by_entry i h run m =
      let (t', done, put) = overwrite-Put valid served i key value (memory 3) m.inside keep in
      replaced (key_at t i) (held t i) t' (Matches-entry lawful valid key i m)
        (rw (run, place-ok i m.inside, real lawful valid key i m, done, and_true c.key_destroy))
        (replaced-IsValid lawful valid key i m value keep put)
        (replaced-entry lawful valid key i m value keep put)

  module _ (i : ℕ) (run : lookup_node c t key ≡ ok (i, hash_of c key)) (inside : i < t.size)
      (unreal : is_real (hash_at t i) ≡ false) (way : Reachable t (hash_of c key) i)
      (nowhere : (j : ℕ) → ¬ Matches c t key j) where
    unreal_was : is_real (hash_at t i) ≡ true → same_key c (key_at t i) key ≡ true
    unreal_was r = absurd cc

    -- The entry was put, and the table may have changed its size.
    Put-Inserted :
        (filled counted t' : HashTable)
        → fill_node served t i (hash_of c key) key value ≡ ok filled
        → count_node served filled (hash_at t i) ≡ ok t'
        → Put t counted i (hash_of c key) key value
        → IsValid c t'
        → ((other : ℕ) → entry c t' other ≡ entry c counted other)
        → Inserted c t key value keep (insert_internal c served t key value keep)
    unfolding insert_internal insert_node
    Put-Inserted filled counted t' fills counts put fine same =
        let none_there : entry c t key ≡ none = elim (entry-cases lawful valid key) [
          | inl (j, m, e) ↦ absurd (nowhere j m)
          | inr (never, e) ↦ e
        ] in
        added t' none_there (rw (run, place-ok i inside, unreal, fills, counts)) fine (λ other.
          same other
          ∙ Put-entry lawful valid i key value inside way (λ j ne. nowhere j) unreal_was put other)

    put-IsValid :
        (counted : HashTable) → Put t counted i (hash_of c key) key value → IsValid c counted
    put-IsValid counted put =
        Put-IsValid lawful valid i key value inside way (λ j ne. nowhere j) unreal_was put

    by_gap :
        t.noccupied + 1 < t.size
        → t.nnodes + 1 < 2 ^ 29
        → Inserted c t key value keep (insert_internal c served t key value keep)
    unfolding count_node
    by_gap room few =
        let live = hash_of-real lawful valid key in
        let s = store valid served i key value (memory 3) inside (hash_of c key) unreal live room in
        let fills =
          fill_node-ok valid served i key value (memory 3) inside (hash_of c key) unreal live
            room in
        elim (Bool-cases (is_unused (hash_at t i))) [
          | inl e ↦
              let put =
                counted_unused valid served i key value (memory 3) inside (hash_of c key) unreal
                  live room e in
              let fit =
                maybe_resize-Fitted lawful
                  (put-IsValid
                    (record (s.after) {
                      nnodes = s.after.nnodes + 1;
                      noccupied = s.after.noccupied + 1;
                    })
                    put)
                  served memory (omega (arith, s.valued.nnodes, few)) in
              Put-Inserted s.after
                (record (s.after) {
                  nnodes = s.after.nnodes + 1;
                  noccupied = s.after.noccupied + 1;
                })
                fit.table fills (rw e fit.returns) put fit.valid fit.entries
          | inr e ↦
              let put =
                counted_tombstone valid served i key value (memory 3) inside (hash_of c key) unreal
                  live room e in
              Put-Inserted s.after (record (s.after) { nnodes = s.after.nnodes + 1 })
                (record (s.after) { nnodes = s.after.nnodes + 1 }) fills (rw e) put
                (put-IsValid (record (s.after) { nnodes = s.after.nnodes + 1 }) put) (λ other. refl)
        ]

  by_place :
      (i : ℕ)
      → lookup_node c t key ≡ ok (i, hash_of c key)
      → Found c t key i
      → t.noccupied + 1 < t.size
      → t.nnodes + 1 < 2 ^ 29
      → Inserted c t key value keep (insert_internal c served t key value keep)
  by_place i run (present m) room few = by_entry i _ run m
  by_place i run (missing unreal inside way nowhere) room few =
      by_gap i run inside unreal way nowhere room few

-- On a valid table with lawful functions, with two places that are unused, fewer than 2 ^ 29
-- entries after it and memory for new arrays, inserting a key with a value neither faults nor runs
-- on, whether the table changes its size or not. With an entry under the key it returns false,
-- calls the destroy functions with its old value and with the key that is dropped, and the entry
-- has the new value and, if asked to, the new key; otherwise it returns true and the table has the
-- new entry. The table is valid, with the same entries under the other keys.
pub insert_internal-Inserted :
    {c : Settings} {t : HashTable}
    → IsLawful c
    → IsValid c t
    → (served : ℕ → Bool) → ((i : ℕ) → served i ≡ true)
    → (key value : ℕ) → (keep : Bool) → t.noccupied + 1 < t.size
    → t.nnodes + 1 < 2 ^ 29
    → Inserted c t key value keep (insert_internal c served t key value keep)
insert_internal-Inserted {c} {t} lawful valid served memory key value keep room few =
    let (i, run, found) = lookup_node-Found valid key in
    by_place lawful valid served key value keep memory i run found room few

-- ===== src/HashTable/Shrinking.antt =====
-- `hev_hash_table_remove` and `hev_hash_table_steal` of src/hev-hash-table.c, where the table may
-- change its size.
use hev_lib.Base.{ℕ, ◌^◌, ◌<◌, ◌≡◌, ap, ◌∙◌, Bool, true, none, if◌then◌else◌, arith}
use hev_lib.HashTable.{HashTable, Settings, ok, is_real}
use hev_lib.HashTable.Probe.{lookup_node}
use hev_lib.HashTable.Update.{remove_internal}
use hev_lib.HashTable.Valid.{hash_at, key_at, Matches, IsValid}
use hev_lib.HashTable.Search.{Found, present, missing, lookup_node-Found}
use hev_lib.HashTable.View.{IsLawful, entry, Matches-entry, hash_of-real}
use hev_lib.HashTable.Removing.{held, remove_node-Erased, Erased-IsValid}
use hev_lib.HashTable.Forgetting.{Erased-entry}
use hev_lib.HashTable.Deleting.{Deleted, deleted, no_entry, place-ok, same_key_trans}
use hev_lib.HashTable.Resizing.{maybe_resize-Fitted}

module _ {c : Settings} {t : HashTable} (lawful : IsLawful c) (valid : IsValid c t)
    (served : ℕ → Bool) (key : ℕ) (notify : Bool) (memory : (i : ℕ) → served i ≡ true)
    (few : t.nnodes < 2 ^ 29) where
  taken_out :
      (i h : ℕ)
      → lookup_node c t key ≡ ok (i, h)
      → Matches c t key i
      → Deleted c t key notify (remove_internal c served t key notify)
  unfolding remove_internal
  taken_out i h run m =
      let real : is_real (hash_at t i) ≡ true = rw m.hash (hash_of-real lawful valid key) in
      let (t', taken, gone) = remove_node-Erased valid i m.inside notify in
      let fit =
        maybe_resize-Fitted lawful (Erased-IsValid valid i m.inside real gone) served memory
          (omega (arith, gone.nnodes, few)) in
      deleted (key_at t i) (held t i) fit.table (Matches-entry lawful valid key i m)
        (rw (run, place-ok lawful valid served key notify i m.inside, real, taken, fit.returns))
        fit.valid
        (λ other.
          fit.entries other
          ∙ Erased-entry lawful valid i m.inside real gone other
          ∙ ap (λ (b : Bool). if b then none else entry c t other)
              (same_key_trans lawful (key_at t i) key other m.same))

  by_place :
      (i h : ℕ)
      → lookup_node c t key ≡ ok (i, h)
      → Found c t key i
      → Deleted c t key notify (remove_internal c served t key notify)
  by_place i h run (present m) = taken_out i h run m
  by_place i h run (missing unreal inside way nowhere) =
      no_entry lawful valid served key notify i h run inside unreal nowhere

-- On a valid table with lawful functions and fewer than 2 ^ 29 entries, and with memory for new
-- arrays, removing a key neither faults nor runs on, whether the table changes its size or not.
-- Without an entry under the key it returns false and changes nothing; otherwise it returns true,
-- calls the destroy functions with the key and value of the entry if it is asked to, and leaves a
-- valid table with no entry under the key and the same entries under the others.
pub resized_removal-Deleted :
    {c : Settings} {t : HashTable}
    → IsLawful c
    → IsValid c t
    → (served : ℕ → Bool) → (key : ℕ) → (notify : Bool) → ((i : ℕ) → served i ≡ true)
    → t.nnodes < 2 ^ 29
    → Deleted c t key notify (remove_internal c served t key notify)
resized_removal-Deleted {c} {t} lawful valid served key notify memory few =
    let (i, run, found) = lookup_node-Found valid key in
    by_place lawful valid served key notify memory few i _ run found

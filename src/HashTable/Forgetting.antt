-- ===== src/HashTable/Forgetting.antt =====
-- What the tables of src/hev-hash-table.c map keys to after `hev_hash_table_remove_node`.
use hev_lib.Base.{
  ℕ, ◌<◌, ◌≡◌, ◌≢◌, ◌==◌, inl, inr, sym, ap, ◌∙◌, Bool, true, false, none, if◌then◌else◌, arith,
  Bool-cases,
}
use hev_lib.HashTable.{HashTable, Settings, ok, is_real}
use hev_lib.HashTable.Probe.{same_key}
use hev_lib.HashTable.Update.{remove_node, notices}
use hev_lib.HashTable.Valid.{hash_at, key_at, Matches, IsValid}
use hev_lib.HashTable.View.{
  IsLawful, entry, entry-cases, Matches-entry, real-Matches, Matches-eq, hash_of-real,
}
use hev_lib.HashTable.Removing.{
  held, Erased, remove_node-Erased, Erased-IsValid, hash_at-other, other,
}

module _ {c : Settings} {t : HashTable} (lawful : IsLawful c) (valid : IsValid c t) (i : ℕ)
    (inside : i < t.size) (real : is_real (hash_at t i) ≡ true) {t' : HashTable}
    (gone : Erased t t' i) (key : ℕ) where
  abbrev valid' : IsValid c t'
  valid' = Erased-IsValid valid i inside real gone

  Matches-before : (j : ℕ) → Matches c t' key j → (i ≢ j) × Matches c t key j
  Matches-before j m =
      let live : is_real (hash_at t' j) ≡ true = rw m.hash (hash_of-real lawful valid' key) in
      let ne = other valid i inside real gone j live in
      (
        ne,
        record {
          inside = rw gone.size at m.inside;
          hash = sym (hash_at-other valid i inside real gone j ne) ∙ m.hash;
          same = rw (gone.keys j ne) at m.same;
        },
      )

  Matches-after : (j : ℕ) → i ≢ j → Matches c t key j → Matches c t' key j
  Matches-after j ne m = record {
    inside = rw gone.size m.inside;
    hash = hash_at-other valid i inside real gone j ne ∙ m.hash;
    same = rw (gone.keys j ne) m.same;
  }

  nowhere-entry :
      same_key c (key_at t i) key ≡ false → ((j : ℕ) → ¬ Matches c t' key j) → entry c t key ≡ none
  nowhere-entry differs nowhere = elim (entry-cases lawful valid key) [
    | inl (j, m, e) ↦ elim (Bool-cases (i == j)) [
      | inl same ↦
          let eq : j ≡ i = ground arith in
          let k : same_key c (key_at t i) key ≡ true =
            ap (λ (x : ℕ). same_key c (key_at t x) key) (sym eq) ∙ m.same in
          cc
      | inr apart ↦ absurd (nowhere j (Matches-after j (λ e. ground arith) m))
    ]
    | inr (never, e) ↦ e
  ]

  pub Erased-entry : entry c t' key ≡ (if same_key c (key_at t i) key then none else entry c t key)
  Erased-entry = elim (Bool-cases (same_key c (key_at t i) key)) [
    | inl same ↦
        let here = real-Matches lawful valid key i inside real same in
        elim (entry-cases lawful valid' key) [
          | inl (j, m, e) ↦
              let (ne, before) = Matches-before j m in
              absurd (ne (Matches-eq lawful valid key i j here before))
          | inr (nowhere, e) ↦ rw same e
        ]
    | inr differs ↦ rw differs (elim (entry-cases lawful valid' key) [
      | inl (j, m, e) ↦
          let (ne, before) = Matches-before j m in
          e ∙ rw (gone.keys j ne, gone.values j ne) (sym (Matches-entry lawful valid key j before))
      | inr (nowhere, e) ↦ e ∙ sym (nowhere-entry differs nowhere)
    ])
  ]

-- What is left once the entry at place `i` is taken out.
pub record Forgotten (c : Settings) (t : HashTable) (i : ℕ) (notify : Bool) : Type 0 where
  pub table : HashTable
  pub returns : remove_node c t i notify ≡ ok (table, notices c notify (key_at t i) (held t i))
  pub valid : IsValid c table
  pub entries :
      (key : ℕ) → entry c table key ≡ (if same_key c (key_at t i) key then none else entry c t key)

-- On a valid table with lawful functions, `remove_node` at a place that holds an entry neither
-- faults nor runs on, calls the destroy functions with the entry's key and value if it is asked
-- to, and leaves a valid table that has no entry under the key and the same entries as before
-- under the others.
pub remove_node-Forgotten :
    {c : Settings} {t : HashTable}
    → IsLawful c
    → IsValid c t
    → (i : ℕ) → (notify : Bool) → i < t.size
    → is_real (hash_at t i) ≡ true
    → Forgotten c t i notify
remove_node-Forgotten lawful valid i notify inside real =
    let (t', run, gone) = remove_node-Erased valid i inside notify in
    record {
      table = t';
      returns = run;
      valid = Erased-IsValid valid i inside real gone;
      entries = Erased-entry lawful valid i inside real gone;
    }

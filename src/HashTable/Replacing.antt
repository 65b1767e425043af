-- ===== src/HashTable/Replacing.antt =====
-- An entry is replaced in `hev_hash_table_insert_node` of src/hev-hash-table.c: the table stays
-- valid.
use hev_lib.Base.{subst, ℕ, ◌≡◌, sym, ap, ◌∙◌, Bool, true, false, some, if◌then◌else◌, ◌≢◌}
use hev_lib.HashTable.{HashTable, Settings, is_real}
use hev_lib.HashTable.Probe.{same_key, hash_of}
use hev_lib.HashTable.Valid.{hash_at, key_at, Matches, Reachable, IsValid}
use hev_lib.HashTable.View.{IsLawful, entry, hash_of-real, Matches-eq}
use hev_lib.HashTable.Deleting.{same_key_trans}
use hev_lib.HashTable.Putting.{Put, Put-IsValid, Put-entry}

-- The key that the entry has in the end: the new one, or the old one that is equal to it.
module _ {c : Settings} {t : HashTable} (lawful : IsLawful c) (valid : IsValid c t) (key i : ℕ)
    (m : Matches c t key i) where
  abbrev pub chosen : Bool → ℕ
  chosen keep = if keep then key else key_at t i

  chosen-same_key : (keep : Bool) → same_key c (chosen keep) key ≡ true
  chosen-same_key true = lawful.reflexive key
  chosen-same_key false = m.same

  pub real : is_real (hash_at t i) ≡ true
  real = rw m.hash (hash_of-real lawful valid key)

  hash_of-chosen : (keep : Bool) → hash_at t i ≡ hash_of c (chosen keep)
  hash_of-chosen true = m.hash
  hash_of-chosen false = valid.hashed i m.inside real

  others_chosen : (keep : Bool) (j : ℕ) → i ≢ j → ¬ Matches c t (chosen keep) j
  others_chosen keep j ne n = ne (
      Matches-eq lawful valid key i j m (record {
        inside = n.inside;
        hash = n.hash ∙ sym (hash_of-chosen keep) ∙ m.hash;
        same = lawful.transitive (key_at t j) (chosen keep) key n.same (chosen-same_key keep);
      }))

  module _ (value : ℕ) (keep : Bool) {t' : HashTable}
      (put : Put t t' i (hash_at t i) (chosen keep) value) where
    here : Put t t' i (hash_of c (chosen keep)) (chosen keep) value
    here = subst (λ (h : ℕ). Put t t' i h (chosen keep) value) (hash_of-chosen keep) put

    way : Reachable t (hash_of c (chosen keep)) i
    way = subst (λ (h : ℕ). Reachable t h i) (hash_of-chosen keep) (valid.reachable i m.inside real)

    was : is_real (hash_at t i) ≡ true → same_key c (key_at t i) (chosen keep) ≡ true
    was live =
        lawful.transitive (key_at t i) key (chosen keep) m.same
          (lawful.symmetric (chosen keep) key (chosen-same_key keep))

    pub replaced-IsValid : IsValid c t'
    replaced-IsValid =
        Put-IsValid lawful valid i (chosen keep) value m.inside way (others_chosen keep) was here

    pub replaced-entry :
        (other : ℕ)
        → entry c t' other
          ≡ (if same_key c key other then some (chosen keep, value) else entry c t other)
    replaced-entry other =
        Put-entry lawful valid i (chosen keep) value m.inside way (others_chosen keep) was here
          other
        ∙ ap (λ (b : Bool). if b then some (chosen keep, value) else entry c t other)
            (same_key_trans lawful (chosen keep) key other (chosen-same_key keep))

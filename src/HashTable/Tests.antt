-- ===== src/HashTable/Tests.antt =====
-- The theorems on src/hev-hash-table.c at a concrete table, and runs of the code.
use hev_lib.Base.{
  not, ◌==◌, ℕ, zero, suc, ◌≡◌, refl, sym, ◌∙◌, ◌⊎◌, inl, inr, true, false, none, some, [], ◌∷◌,
  arith,
}
use hev_lib.HashTable.{HashTable, Settings, ok, is_real}
use hev_lib.HashTable.Probe.{same_key, hash_of, lookup_node}
use hev_lib.HashTable.Query.{get_keys, contains, lookup, lookup_extended}
use hev_lib.HashTable.Valid.{IsValid, IsSized, Reachable, hash_at, key_at, count}
use hev_lib.HashTable.Search.{Found, lookup_node-Found}
use hev_lib.HashTable.Cover.{triangle}
use hev_lib.HashTable.View.{IsLawful, entry, place_of, lookups-entry}
use hev_lib.HashTable.Walking.{Walks, walk-Walks}
use hev_lib.HashTable.Resize.{resize}
use hev_lib.HashTable.Update.{new_full, new, remove_internal, insert_internal}
use hev_lib.HashTable.Shrinking.{resized_removal-Deleted}
use hev_lib.HashTable.Resizing.{Resized, resize-Resized}
use hev_lib.HashTable.Inserting.{Inserted, insert_internal-Inserted}
use hev_lib.HashTable.Deleting.{Deleted}
use hev_lib.HashTable.Making.{New, chosen, new_full-New}

-- Keys are their own hash values and are compared as pointers.
abbrev plain : Settings
plain = record { hash = λ k. k; equal = none; key_destroy = false; value_destroy = false }

-- Eight places: key 9 at its own place 2, and key 16, whose place it took, one step on.
abbrev small : HashTable
small = record {
  size = 8;
  mod_prime = 7;
  mask = 7;
  nnodes = 2;
  noccupied = 3;
  ref_count = 1;
  keys = 0 ∷ 0 ∷ 9 ∷ 16 ∷ 0 ∷ 0 ∷ 0 ∷ 0 ∷ [];
  hashes = 0 ∷ 1 ∷ 9 ∷ 16 ∷ 0 ∷ 0 ∷ 0 ∷ 0 ∷ [];
  values = some (0 ∷ 0 ∷ 90 ∷ 160 ∷ 0 ∷ 0 ∷ 0 ∷ 0 ∷ []);
}

plain-IsLawful : IsLawful plain
unfolding same_key
plain-IsLawful = record {
  reflexive = λ a. ground arith;
  symmetric = λ a b e. ground arith;
  transitive = λ a b d e h. ground arith;
  hashed = λ a b e. ground arith;
}

small-IsSized : IsSized small 3
small-IsSized = record {
  least = omega arith;
  most = omega arith;
  size = refl;
  mask = refl;
  prime = refl;
  keys = refl;
  hashes = refl;
  values = refl;
}

-- The places with an entry.
small-places : (i : ℕ) → is_real (hash_at small i) ≡ true → (i ≡ 2) ⊎ (i ≡ 3)
small-places zero e = cc
small-places (suc zero) e = cc
small-places (suc (suc zero)) e = inl refl
small-places (suc (suc (suc zero))) e = inr refl
small-places (suc (suc (suc (suc zero)))) e = cc
small-places (suc (suc (suc (suc (suc zero))))) e = cc
small-places (suc (suc (suc (suc (suc (suc zero)))))) e = cc
small-places (suc (suc (suc (suc (suc (suc (suc zero))))))) e = cc
small-places (suc (suc (suc (suc (suc (suc (suc (suc i)))))))) e = cc

small-Reachable : (i : ℕ) → (i ≡ 2) ⊎ (i ≡ 3) → Reachable small (hash_at small i) i
unfolding triangle
small-Reachable i (inl e) =
    rw e record { steps = 0; near = omega arith; lands = refl; busy = λ r h. absurd (omega arith) }
small-Reachable i (inr e) = rw e record {
  steps = 1;
  near = omega arith;
  lands = refl;
  busy = λ r h. let z : r ≡ 0 = omega arith in rw z (λ e. cc);
}

small-hashed : (i : ℕ) → (i ≡ 2) ⊎ (i ≡ 3) → hash_at small i ≡ hash_of plain (key_at small i)
unfolding hash_of
small-hashed i (inl e) = rw e
small-hashed i (inr e) = rw e

small-distinct :
    (i j : ℕ)
    → (i ≡ 2) ⊎ (i ≡ 3)
    → (j ≡ 2) ⊎ (j ≡ 3)
    → same_key plain (key_at small i) (key_at small j) ≡ true
    → i ≡ j
unfolding same_key
small-distinct i j (inl e) (inl d) h = e ∙ sym d
small-distinct i j (inl e) (inr d) h = let k : false ≡ true = rw (e, d) at h in cc
small-distinct i j (inr e) (inl d) h = let k : false ≡ true = rw (e, d) at h in cc
small-distinct i j (inr e) (inr d) h = e ∙ sym d

small-IsValid : IsValid plain small
unfolding count
small-IsValid = record {
  shift = 3;
  sized = small-IsSized;
  nnodes = refl;
  noccupied = refl;
  spare = omega arith;
  reachable = λ i h e. small-Reachable i (small-places i e);
  hashed = λ i h e. small-hashed i (small-places i e);
  distinct = λ i j h k d e s. small-distinct i j (small-places i d) (small-places j e) s;
}

lookup_node-Found_example :
    (i : ℕ) × (lookup_node plain small 16 ≡ ok (i, hash_of plain 16)) × Found plain small 16 i
lookup_node-Found_example = lookup_node-Found small-IsValid 16

lookups-entry_example :
    (contains plain small 16 ≡ ok true)
    × (lookup plain small 16 ≡ ok 160)
    × (lookup_extended plain small 16 ≡ ok (some (16, 160)))
unfolding entry place_of same_key
lookups-entry_example = lookups-entry plain-IsLawful small-IsValid 16

-- There is no memory for the first node.
walk-Walks_example : Walks plain small (λ k. not (k == 0))
walk-Walks_example = walk-Walks small-IsValid (λ k. not (k == 0))

get_keys-small : get_keys (λ _. true) small ≡ ok (16 ∷ 9 ∷ [])
unfolding get_keys
get_keys-small = refl

get_keys-refused : get_keys (λ k. not (k == 1)) small ≡ ok []
unfolding get_keys
get_keys-refused = refl

-- No hash function, and keys that are compared as pointers.
direct-IsLawful : IsLawful (chosen none none true false)
unfolding same_key
direct-IsLawful = record {
  reflexive = λ a. ground arith;
  symmetric = λ a b e. ground arith;
  transitive = λ a b d e h. ground arith;
  hashed = λ a b e. (let same : a ≡ b = ground arith in rw same);
}

new_full-New_example :
    New (chosen none none true false) (new_full none none true false (λ _. true))
    × (new none none (λ _. true) ≡ new_full none none false false (λ _. true))
new_full-New_example = new_full-New none none true false (λ _. true) direct-IsLawful refl refl refl

insert_internal-Inserted_example :
    Inserted plain small 30 300 true (insert_internal plain (λ _. true) small 30 300 true)
insert_internal-Inserted_example =
    insert_internal-Inserted plain-IsLawful small-IsValid (λ _. true) (λ i. refl) 30 300 true
      (omega arith) (omega arith)

resize-Resized_example : Resized plain small (resize (λ _. true) small)
resize-Resized_example =
    resize-Resized plain-IsLawful small-IsValid (λ _. true) refl refl refl (omega arith)

resized_removal-Deleted_example :
    Deleted plain small 16 true (remove_internal plain (λ _. true) small 16 true)
resized_removal-Deleted_example =
    resized_removal-Deleted plain-IsLawful small-IsValid (λ _. true) 16 true (λ i. refl)
      (omega arith)

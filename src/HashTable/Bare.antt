-- ===== src/HashTable/Bare.antt =====
-- The new arrays of `hev_hash_table_resize` of src/hev-hash-table.c before any entry is moved.
use hev_lib.Base.{
  ℕ, zero, suc, ◌≡◌, refl, ap, Bool, true, false, none, some, inl, inr, arith, length, replicate,
  length-replicate, Option-cases,
}
use hev_lib.HashTable.{new0, HashTable, Settings, values_of, is_real}
use hev_lib.HashTable.Resize.{Arrays, fresh_arrays}
use hev_lib.HashTable.Valid.{count, is_occupied, hash_at, IsValid}
use hev_lib.HashTable.View.{IsLawful, entry, entry-cases, hash_of-real}
use hev_lib.HashTable.Making.{get_or-replicate}
use hev_lib.HashTable.Sizing.{Sized}
use hev_lib.HashTable.Moving.{table_of}

count-replicate : (p : ℕ → Bool) (n : ℕ) → p 0 ≡ false → count p (replicate n 0) ≡ 0
unfolding count
count-replicate p zero e = refl
count-replicate p (suc n) e = rw (e, count-replicate p n e)

module _ (new : HashTable) (size : ℕ) (sized : Sized new size) where
  -- The new arrays before any entry is moved.
  abbrev pub bare : Arrays
  bare = record {
    keys = replicate new.size 0;
    values = elim new.values [ none ↦ none | some vs ↦ some (replicate new.size 0) ];
    hashes = replicate new.size 0;
  }

  bare_values : length (values_of (table_of new bare 0)) ≡ new.size
  bare_values = elim (Option-cases new.values) [
    | inl e ↦ rw e (length-replicate new.size 0)
    | inr (vs, e) ↦ rw e (length-replicate new.size 0)
  ]

  pub bare_single : bare.values ≡ none → new.values ≡ none
  bare_single k = elim (Option-cases new.values) [
    | inl e ↦ e
    | inr (vs, e) ↦ let z = rw e at k in absurd cc
  ]

  pub fresh-bare :
      (served : ℕ → Bool)
      → served 0 ≡ true
      → served 1 ≡ true
      → served 2 ≡ true
      → fresh_arrays served new ≡ bare
  unfolding fresh_arrays
  fresh-bare served a b d = λ i. record {
    keys = new0 (a i) new.size;
    values = elim new.values [ none ↦ none | some vs ↦ some (new0 (b i) new.size) ];
    hashes = new0 (d i) new.size;
  }

  bare_hash : (i : ℕ) → hash_at (table_of new bare 0) i ≡ 0
  bare_hash i = get_or-replicate new.size i 0

  module _ (c : Settings) where
    pub bare-IsValid : IsValid c (table_of new bare 0)
    bare-IsValid = record {
      shift = sized.shift;
      sized = record {
        least = sized.least;
        most = sized.most;
        size = sized.power;
        mask = sized.ones;
        prime = sized.prime;
        keys = length-replicate new.size 0;
        hashes = length-replicate new.size 0;
        values = bare_values;
      };
      nnodes = count-replicate is_real new.size refl;
      noccupied = count-replicate is_occupied new.size refl;
      spare = omega (arith, sized.room);
      reachable = λ i h e.
          let z : is_real (hash_at (table_of new bare 0) i) ≡ false = ap is_real (bare_hash i) in
          absurd cc;
      hashed = λ i h e.
          let z : is_real (hash_at (table_of new bare 0) i) ≡ false = ap is_real (bare_hash i) in
          absurd cc;
      distinct = λ i j h k e d s.
          let z : is_real (hash_at (table_of new bare 0) i) ≡ false = ap is_real (bare_hash i) in
          absurd cc;
    }

    pub bare-entry : IsLawful c → (key : ℕ) → entry c (table_of new bare 0) key ≡ none
    bare-entry lawful key = elim (entry-cases lawful bare-IsValid key) [
      | inl (i, m, e) ↦
          let z : is_real (hash_at (table_of new bare 0) i) ≡ false = ap is_real (bare_hash i) in
          let real : is_real (hash_at (table_of new bare 0) i) ≡ true =
            rw m.hash (hash_of-real lawful bare-IsValid key) in
          absurd cc
      | inr (nowhere, e) ↦ e
    ]

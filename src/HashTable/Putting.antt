-- ===== src/HashTable/Putting.antt =====
-- A table of src/hev-hash-table.c with an entry put at a place: it stays valid, and what it maps
-- keys to.
use hev_lib.Base.{
  ℕ, ◌<◌, ◌≡◌, ◌≢◌, inl, inr, sym, ap, ◌∙◌, true, false, some, ◌==◌, if◌then◌else◌, length, arith,
  Bool-cases,
}
use hev_lib.HashTable.{HashTable, Settings, is_real, values_of}
use hev_lib.HashTable.Probe.{same_key, hash_of}
use hev_lib.HashTable.Valid.{
  count, is_occupied, hash_at, key_at, stop, IsSized, Matches, Reachable, IsValid,
}
use hev_lib.HashTable.View.{IsLawful, entry, entry-cases, Matches-entry, real-Matches, hash_of-real}
use hev_lib.HashTable.Removing.{held}

-- The table has the entry of `key` and `value` at place `i`, and the other places as before.
pub record Put (t t' : HashTable) (i hash key value : ℕ) : Type 0 where
  pub size : t'.size ≡ t.size
  pub mask : t'.mask ≡ t.mask
  pub prime : t'.mod_prime ≡ t.mod_prime
  pub hashes_length : length t'.hashes ≡ t.size
  pub keys_length : length t'.keys ≡ t.size
  pub values_length : length (values_of t') ≡ t.size
  pub nnodes : count is_real t'.hashes ≡ t'.nnodes
  pub noccupied : count is_occupied t'.hashes ≡ t'.noccupied
  pub spare : t'.noccupied < t.size
  pub hash_here : hash_at t' i ≡ hash
  pub key_here : key_at t' i ≡ key
  pub value_here : held t' i ≡ value
  pub hashes : (j : ℕ) → i ≢ j → hash_at t' j ≡ hash_at t j
  pub keys : (j : ℕ) → i ≢ j → key_at t' j ≡ key_at t j
  pub values : (j : ℕ) → i ≢ j → held t' j ≡ held t j

module _ {c : Settings} {t : HashTable} (lawful : IsLawful c) (valid : IsValid c t)
    (i key value : ℕ) (inside : i < t.size) (way : Reachable t (hash_of c key) i)
    (alone : (j : ℕ) → i ≢ j → ¬ Matches c t key j)
    (was : is_real (hash_at t i) ≡ true → same_key c (key_at t i) key ≡ true) {t' : HashTable}
    (put : Put t t' i (hash_of c key) key value) where
  real_key : is_real (hash_of c key) ≡ true
  real_key = hash_of-real lawful valid key

  stop-same : (h s : ℕ) → stop t' h s ≡ stop t h s
  stop-same h s = rw (put.prime, put.size)

  busy : (j : ℕ) → hash_at t j ≢ 0 → hash_at t' j ≢ 0
  busy j ne e = elim (Bool-cases (i == j)) [
    | inl same ↦
        let eq : i ≡ j = ground arith in
        let z : hash_of c key ≡ 0 = sym put.hash_here ∙ ap (λ (x : ℕ). hash_at t' x) eq ∙ e in
        let r : is_real 0 ≡ true = ap is_real (sym z) ∙ real_key in cc
    | inr diff ↦ ne (sym (put.hashes j (λ e. ground arith)) ∙ e)
  ]

  Reachable-same : (h j : ℕ) → Reachable t h j → Reachable t' h j
  Reachable-same h j r = record {
    steps = r.steps;
    near = rw put.size r.near;
    lands = stop-same h r.steps ∙ r.lands;
    busy = λ s l. rw (stop-same h s) (busy (stop t h s) (r.busy s l));
  }

  Put-IsSized : IsSized t' valid.shift
  Put-IsSized =
      let size = valid.sized in
      record {
        least = size.least;
        most = size.most;
        size = put.size ∙ size.size;
        mask = put.mask ∙ size.mask;
        prime = put.prime ∙ size.prime;
        keys = put.keys_length ∙ sym put.size;
        hashes = put.hashes_length ∙ sym put.size;
        values = put.values_length ∙ sym put.size;
      }

  -- No other place has the key.
  apart :
      (j : ℕ)
      → i ≢ j
      → j < t'.size
      → is_real (hash_at t' j) ≡ true
      → same_key c (key_at t' j) key ≡ true
      → ⊥
  apart j ne l live same = alone j ne (
      real-Matches lawful valid key j (rw put.size at l) (rw (put.hashes j ne) at live)
        (rw (put.keys j ne) at same))

  distinct :
      (j k : ℕ)
      → j < t'.size
      → k < t'.size
      → is_real (hash_at t' j) ≡ true
      → is_real (hash_at t' k) ≡ true
      → same_key c (key_at t' j) (key_at t' k) ≡ true
      → j ≡ k
  distinct j k l m a b s = elim (Bool-cases (i == j)) [
    | inl hit ↦ elim (Bool-cases (i == k)) [
      | inl hit' ↦ ground arith
      | inr miss' ↦
          let eq : j ≡ i = ground arith in
          let first : key_at t' j ≡ key = ap (λ (x : ℕ). key_at t' x) eq ∙ put.key_here in
          absurd
            (apart k (λ e. ground arith) m b (lawful.symmetric key (key_at t' k) (rw first at s)))
    ]
    | inr miss ↦ elim (Bool-cases (i == k)) [
      | inl hit' ↦
          let eq : k ≡ i = ground arith in
          let second : key_at t' k ≡ key = ap (λ (x : ℕ). key_at t' x) eq ∙ put.key_here in
          absurd (apart j (λ e. ground arith) l a (rw second at s))
      | inr miss' ↦
          let ne : i ≢ j = λ e. ground arith in
          let ne' : i ≢ k = λ e. ground arith in
          valid.distinct j k (rw put.size at l) (rw put.size at m) (rw (put.hashes j ne) at a)
            (rw (put.hashes k ne') at b) (rw (put.keys j ne, put.keys k ne') at s)
    ]
  ]

  pub Put-IsValid : IsValid c t'
  Put-IsValid = record {
    shift = valid.shift;
    sized = Put-IsSized;
    nnodes = put.nnodes;
    noccupied = put.noccupied;
    spare = rw put.size put.spare;
    reachable = λ j l live. elim (Bool-cases (i == j)) [
      | inl hit ↦
          let eq : j ≡ i = ground arith in
          rw (eq, put.hash_here) (Reachable-same (hash_of c key) i way)
      | inr miss ↦
          let e = put.hashes j (λ e. ground arith) in
          rw e
            (Reachable-same (hash_at t j) j (valid.reachable j (rw put.size at l) (rw e at live)))
    ];
    hashed = λ j l live. elim (Bool-cases (i == j)) [
      | inl hit ↦ let eq : j ≡ i = ground arith in rw (eq, put.hash_here, put.key_here)
      | inr miss ↦
          let ne : i ≢ j = λ e. ground arith in
          put.hashes j ne
          ∙ valid.hashed j (rw put.size at l) (rw (put.hashes j ne) at live)
          ∙ ap (hash_of c) (sym (put.keys j ne))
    ];
    distinct = distinct;
  }

  module _ (other : ℕ) where
    Matches-before : (j : ℕ) → i ≢ j → Matches c t' other j → Matches c t other j
    Matches-before j ne m = record {
      inside = rw put.size at m.inside;
      hash = sym (put.hashes j ne) ∙ m.hash;
      same = rw (put.keys j ne) at m.same;
    }

    Matches-after : (j : ℕ) → i ≢ j → Matches c t other j → Matches c t' other j
    Matches-after j ne m = record {
      inside = rw put.size m.inside;
      hash = put.hashes j ne ∙ m.hash;
      same = rw (put.keys j ne) m.same;
    }

    -- The place holds no key that differs from the one put there, before and after.
    elsewhere : same_key c key other ≡ false → (j : ℕ) → Matches c t other j → i ≢ j
    elsewhere differs j m e =
        let real : is_real (hash_at t i) ≡ true =
          rw e (rw m.hash (hash_of-real lawful valid other)) in
        let same : same_key c (key_at t i) other ≡ true = rw e m.same in
        let k =
          lawful.transitive key (key_at t i) other (lawful.symmetric (key_at t i) key (was real))
            same in
        cc

    elsewhere' : same_key c key other ≡ false → (j : ℕ) → Matches c t' other j → i ≢ j
    elsewhere' differs j m e =
        let k : same_key c key other ≡ true = rw (sym put.key_here) (rw e m.same) in cc

    pub Put-entry :
        entry c t' other ≡ (if same_key c key other then some (key, value) else entry c t other)
    Put-entry = elim (Bool-cases (same_key c key other)) [
      | inl same ↦
          let m : Matches c t' other i =
            real-Matches lawful Put-IsValid other i (rw put.size inside) (rw put.hash_here real_key)
              (rw put.key_here same) in
          Matches-entry lawful Put-IsValid other i m ∙ rw (same, put.key_here, put.value_here)
      | inr differs ↦ rw differs (elim (entry-cases lawful Put-IsValid other) [
        | inl (j, m, e) ↦
            let ne = elsewhere' differs j m in
            e
            ∙ rw (put.keys j ne, put.values j ne)
                (sym (Matches-entry lawful valid other j (Matches-before j ne m)))
        | inr (nowhere, e) ↦ elim (entry-cases lawful valid other) [
          | inl (j, m, e') ↦ absurd (nowhere j (Matches-after j (elsewhere differs j m) m))
          | inr (never, e') ↦ e ∙ sym e'
        ]
      ])
    ]

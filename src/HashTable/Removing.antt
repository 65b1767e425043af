-- ===== src/HashTable/Removing.antt =====
-- What `hev_hash_table_remove_node` of src/hev-hash-table.c leaves of a valid table.
use hev_lib.Base.{
  ℕ, zero, suc, ◌-◌, ◌<◌, ◌≡◌, ◌≢◌, inl, inr, refl, sym, ap, ◌∙◌, Bool, true, false, none, some,
  List, [], ◌∷◌, arith, ltb, ◌==◌, length, get_or, set, length-set, get_or-set_self, get_or-set_ne,
  Option-cases, Bool-cases,
}
use hev_lib.HashTable.{HashTable, Settings, ok, values_of, write, set_value, is_real}
use hev_lib.HashTable.Update.{remove_node, notices}
use hev_lib.HashTable.Probe.{hash_of}
use hev_lib.HashTable.Valid.{count, is_occupied, hash_at, key_at, stop, IsSized, Reachable, IsValid}
use hev_lib.HashTable.Search.{read-ok}

pub write-ok : (xs : List ℕ) (i x : ℕ) → i < length xs → write xs i x ≡ ok (set xs i x)
unfolding write
write-ok xs i x h = let e : ltb i (length xs) ≡ true = ground arith in rw e

-- Setting an entry that satisfies a test to one that does not, the other way round, and to one
-- with the same answer.
module _ (p : ℕ → Bool) (v : ℕ) where
  count-set_off :
      (xs : List ℕ) (i : ℕ)
      → i < length xs
      → p (get_or xs i 0) ≡ true
      → p v ≡ false
      → suc (count p (set xs i v)) ≡ count p xs
  unfolding count
  count-set_off [] i h a b = absurd (omega arith)
  count-set_off (x ∷ xs) zero h a b = rw (a, b)
  count-set_off (x ∷ xs) (suc i) h a b =
      let e = count-set_off xs i (omega arith) a b in ground (arith, e)

  pub count-set_on :
      (xs : List ℕ) (i : ℕ)
      → i < length xs
      → p (get_or xs i 0) ≡ false
      → p v ≡ true
      → count p (set xs i v) ≡ suc (count p xs)
  unfolding count
  count-set_on [] i h a b = absurd (omega arith)
  count-set_on (x ∷ xs) zero h a b = rw (a, b)
  count-set_on (x ∷ xs) (suc i) h a b =
      let e = count-set_on xs i (omega arith) a b in ground (arith, e)

  pub count-set_same :
      (xs : List ℕ) (i : ℕ)
      → i < length xs
      → p (get_or xs i 0) ≡ p v
      → count p (set xs i v) ≡ count p xs
  unfolding count
  count-set_same [] i h a = absurd (omega arith)
  count-set_same (x ∷ xs) zero h a = rw a
  count-set_same (x ∷ xs) (suc i) h a = let e = count-set_same xs i (omega arith) a in rw e

-- The value at a place.
abbrev pub held : HashTable → ℕ → ℕ
held t i = get_or (values_of t) i 0

-- The table after the entry at place `i` was taken out: a tombstone stands there, and the entries
-- of the other places are as they were.
pub record Erased (t t' : HashTable) (i : ℕ) : Type 0 where
  pub size : t'.size ≡ t.size
  pub mask : t'.mask ≡ t.mask
  pub prime : t'.mod_prime ≡ t.mod_prime
  pub nnodes : t'.nnodes ≡ t.nnodes - 1
  pub noccupied : t'.noccupied ≡ t.noccupied
  pub hashes : t'.hashes ≡ set t.hashes i 1
  pub keys_length : length t'.keys ≡ length t.keys
  pub values_length : length (values_of t') ≡ length (values_of t)
  pub keys : (j : ℕ) → i ≢ j → key_at t' j ≡ key_at t j
  pub values : (j : ℕ) → i ≢ j → held t' j ≡ held t j

pub set_value-shared :
    (t : HashTable) (i x : ℕ)
    → t.values ≡ none
    → ltb i (length t.keys) ≡ true
    → set_value t i x ≡ ok (record t { keys = set t.keys i x })
unfolding set_value
set_value-shared t i x e h = rw (e, h)

pub set_value-own :
    (t : HashTable) (vs : List ℕ) (i x : ℕ)
    → t.values ≡ some vs
    → ltb i (length vs) ≡ true
    → set_value t i x ≡ ok (record t { values = some (set vs i x) })
unfolding set_value
set_value-own t vs i x e h = rw (e, h)

-- Clearing an entry twice keeps the others.
cleared_twice : (xs : List ℕ) (i j : ℕ) → i ≢ j → get_or (set (set xs i 0) i 0) j 0 ≡ get_or xs j 0
cleared_twice xs i j ne = get_or-set_ne (set xs i 0) i j 0 0 ne ∙ get_or-set_ne xs i j 0 0 ne

length-cleared_twice : (xs : List ℕ) (i : ℕ) → length (set (set xs i 0) i 0) ≡ length xs
length-cleared_twice xs i = length-set (set xs i 0) i 0 ∙ length-set xs i 0

module _ {c : Settings} {t : HashTable} (valid : IsValid c t) (i : ℕ) (inside : i < t.size) where
  -- Taking out an entry neither faults nor touches another one, and calls the destroy functions
  -- with its key and its value.
  pub remove_node-Erased :
      (notify : Bool)
      → (t' : HashTable) × (remove_node c t i notify
          ≡ ok (t', notices c notify (key_at t i) (held t i)))
        × Erased t t' i
  unfolding remove_node
  remove_node-Erased notify =
      let size = valid.sized in
      let k = read-ok t.keys i (omega (arith, size.keys)) in
      let v = read-ok (values_of t) i (omega (arith, size.values)) in
      let hs : ltb i (length t.hashes) ≡ true = ground (arith, size.hashes) in
      let ks : ltb i (length t.keys) ≡ true = ground (arith, size.keys) in
      elim (Option-cases t.values) [
        | inl e ↦
            let ks₂ : ltb i (length (set t.keys i 0)) ≡ true = rw (length-set t.keys i 0) ks in
            (
              record t {
                hashes = set t.hashes i 1;
                keys = set (set t.keys i 0) i 0;
                nnodes = t.nnodes - 1;
              },
              rw (
                k,
                v,
                hs,
                ks,
                set_value-shared (record t { hashes = set t.hashes i 1; keys = set t.keys i 0 }) i 0
                    e ks₂,
              ),
              record {
                size = refl;
                mask = refl;
                prime = refl;
                nnodes = refl;
                noccupied = refl;
                hashes = refl;
                keys_length = length-cleared_twice t.keys i;
                values_length = rw e (length-cleared_twice t.keys i);
                keys = λ j ne. cleared_twice t.keys i j ne;
                values = λ j ne. rw e (cleared_twice t.keys i j ne);
              },
            )
        | inr (vs, e) ↦
            let sized : length vs ≡ t.size = rw e at size.values in
            let vl : ltb i (length vs) ≡ true = ground arith in
            (
              record t {
                hashes = set t.hashes i 1;
                keys = set t.keys i 0;
                values = some (set vs i 0);
                nnodes = t.nnodes - 1;
              },
              rw (
                k,
                v,
                hs,
                ks,
                set_value-own (record t { hashes = set t.hashes i 1; keys = set t.keys i 0 }) vs i 0
                    e vl,
              ),
              record {
                size = refl;
                mask = refl;
                prime = refl;
                nnodes = refl;
                noccupied = refl;
                hashes = refl;
                keys_length = length-set t.keys i 0;
                values_length = rw e (length-set vs i 0);
                keys = λ j ne. get_or-set_ne t.keys i j 0 0 ne;
                values = λ j ne. rw e (get_or-set_ne vs i j 0 0 ne);
              },
            )
      ]

  -- A table without the entry at a place.
  module _ (real : is_real (hash_at t i) ≡ true) {t' : HashTable} (gone : Erased t t' i) where
    inside_hashes : i < length t.hashes
    inside_hashes = omega (arith, valid.sized.hashes)

    pub hash_at-gone : hash_at t' i ≡ 1
    hash_at-gone = rw gone.hashes (get_or-set_self t.hashes i 1 0 inside_hashes)

    pub hash_at-other : (j : ℕ) → i ≢ j → hash_at t' j ≡ hash_at t j
    hash_at-other j ne = rw gone.hashes (get_or-set_ne t.hashes i j 1 0 ne)

    pub other : (j : ℕ) → is_real (hash_at t' j) ≡ true → i ≢ j
    other j live e =
        let h : is_real 1 ≡ true =
          ap is_real (sym (ap (λ x. hash_at t' x) (sym e) ∙ hash_at-gone)) ∙ live in
        cc

    stop-same : (h s : ℕ) → stop t' h s ≡ stop t h s
    stop-same h s = rw (gone.prime, gone.size)

    busy : (j : ℕ) → hash_at t j ≢ 0 → hash_at t' j ≢ 0
    busy j ne e = elim (Bool-cases (i == j)) [
      | inl same ↦
          let eq : i ≡ j = ground arith in
          let z : hash_at t' j ≡ 1 = ap (λ (x : ℕ). hash_at t' x) (sym eq) ∙ hash_at-gone in
          absurd (omega arith)
      | inr diff ↦ ne (sym (hash_at-other j (λ e. ground arith)) ∙ e)
    ]

    Reachable-same : (h j : ℕ) → Reachable t h j → Reachable t' h j
    Reachable-same h j r = record {
      steps = r.steps;
      near = rw gone.size r.near;
      lands = stop-same h r.steps ∙ r.lands;
      busy = λ s l. rw (stop-same h s) (busy (stop t h s) (r.busy s l));
    }

    Erased-IsSized : IsSized t' valid.shift
    Erased-IsSized =
        let size = valid.sized in
        record {
          least = size.least;
          most = size.most;
          size = gone.size ∙ size.size;
          mask = gone.mask ∙ size.mask;
          prime = gone.prime ∙ size.prime;
          keys = gone.keys_length ∙ size.keys ∙ sym gone.size;
          hashes = ap length gone.hashes ∙ length-set t.hashes i 1 ∙ size.hashes ∙ sym gone.size;
          values = gone.values_length ∙ size.values ∙ sym gone.size;
        }

    -- The table stays valid when an entry is taken out.
    pub Erased-IsValid : IsValid c t'
    Erased-IsValid = record {
      shift = valid.shift;
      sized = Erased-IsSized;
      nnodes = rw gone.hashes (
          omega (
            arith,
            count-set_off is_real 1 t.hashes i inside_hashes real refl,
            valid.nnodes,
            gone.nnodes,
          ));
      noccupied =
          ap (count is_occupied) gone.hashes
          ∙ count-set_same is_occupied 1 t.hashes i inside_hashes (ground arith)
          ∙ valid.noccupied
          ∙ sym gone.noccupied;
      spare = rw (gone.noccupied, gone.size) valid.spare;
      reachable = λ j l live.
          let e = hash_at-other j (other j live) in
          rw e
            (Reachable-same (hash_at t j) j (valid.reachable j (rw gone.size at l) (rw e at live)));
      hashed = λ j l live.
          let e = hash_at-other j (other j live) in
          e
          ∙ valid.hashed j (rw gone.size at l) (rw e at live)
          ∙ ap (hash_of c) (sym (gone.keys j (other j live)));
      distinct = λ j k l m a b s.
          valid.distinct j k (rw gone.size at l) (rw gone.size at m)
            (rw (hash_at-other j (other j a)) at a) (rw (hash_at-other k (other k b)) at b)
            (rw (gone.keys j (other j a), gone.keys k (other k b)) at s);
    }

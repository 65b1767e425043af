-- ===== src/HashTable/Moving.antt =====
-- One entry is moved to the new arrays, in `hev_hash_table_resize` of src/hev-hash-table.c.
use hev_lib.Base.{
  subst, ℕ, ◌+◌, ◌<◌, ◌≡◌, ◌≢◌, refl, sym, ap, ◌∙◌, true, false, none, some, List, inl, inr, arith,
  length, set, get_or, length-set, get_or-set_self, get_or-set_ne, Option-cases,
}
use hev_lib.HashTable.{HashTable, Settings, ok, values_of, is_real}
use hev_lib.HashTable.Resize.{Arrays, set_new_value, move_node}
use hev_lib.HashTable.Valid.{is_occupied, IsValid}
use hev_lib.HashTable.Removing.{held, write-ok, count-set_on}
use hev_lib.HashTable.Storing.{set_present}
use hev_lib.HashTable.Putting.{Put}
use hev_lib.HashTable.Vacancy.{Vacant}

-- The new table with `n` entries in its arrays so far, and no tombstone.
abbrev pub table_of : (new : HashTable) → Arrays → (n : ℕ) → HashTable
table_of new a n = record new {
  keys = a.keys;
  values = a.values;
  hashes = a.hashes;
  nnodes = n;
  noccupied = n;
}

set_new_value-shared :
    (a : Arrays) (i v : ℕ)
    → a.values ≡ none
    → i < length a.keys
    → set_new_value a i v ≡ ok (record a { keys = set a.keys i v })
unfolding set_new_value
set_new_value-shared a i v e h = rw (e, write-ok a.keys i v h)

set_new_value-own :
    (a : Arrays) (vs : List ℕ) (i v : ℕ)
    → a.values ≡ some vs
    → i < length vs
    → set_new_value a i v ≡ ok (record a { values = some (set vs i v) })
unfolding set_new_value
set_new_value-own a vs i v e h = rw (e, write-ok vs i v h)

module _ {c : Settings} (new : HashTable) (a : Arrays) (n : ℕ)
    (valid : IsValid c (table_of new a n)) (hash key value : ℕ) (real : is_real hash ≡ true)
    (room : n + 1 < new.size) (single : a.values ≡ none → value ≡ key)
    (gap : Vacant (table_of new a n) hash) where
  abbrev hs : List ℕ
  hs = set a.hashes gap.place hash

  abbrev ks : List ℕ
  ks = set a.keys gap.place key

  inside_hashes : gap.place < length a.hashes
  inside_hashes = omega (arith, gap.inside, valid.sized.hashes)

  inside_keys : gap.place < length a.keys
  inside_keys = omega (arith, gap.inside, valid.sized.keys)

  filled-Put :
      (b : Arrays)
      → b.hashes ≡ hs
      → length b.keys ≡ length a.keys
      → length (values_of (table_of new b (n + 1))) ≡ new.size
      → ((j : ℕ) → get_or b.keys j 0 ≡ get_or ks j 0)
      → held (table_of new b (n + 1)) gap.place ≡ value
      → ((j : ℕ) → gap.place ≢ j → held (table_of new b (n + 1)) j ≡ held (table_of new a n) j)
      → Put (table_of new a n) (table_of new b (n + 1)) gap.place hash key value
  filled-Put b he kl vl keys here others =
      let off : is_real (get_or a.hashes gap.place 0) ≡ false = ap is_real gap.free in
      let off' : is_occupied (get_or a.hashes gap.place 0) ≡ false = ap is_occupied gap.free in
      let on : is_occupied hash ≡ true = ground arith in
      record {
        size = refl;
        mask = refl;
        prime = refl;
        hashes_length = ap length he ∙ length-set a.hashes gap.place hash ∙ valid.sized.hashes;
        keys_length = kl ∙ valid.sized.keys;
        values_length = vl;
        nnodes = rw he (
            omega (
              arith,
              count-set_on is_real hash a.hashes gap.place inside_hashes off real,
              valid.nnodes,
            ));
        noccupied = rw he (
            omega (
              arith,
              count-set_on is_occupied hash a.hashes gap.place inside_hashes off' on,
              valid.noccupied,
            ));
        spare = room;
        hash_here = rw he (get_or-set_self a.hashes gap.place hash 0 inside_hashes);
        key_here = keys gap.place ∙ get_or-set_self a.keys gap.place key 0 inside_keys;
        value_here = here;
        hashes = λ j ne. rw he (get_or-set_ne a.hashes gap.place j hash 0 ne);
        keys = λ j ne. keys j ∙ get_or-set_ne a.keys gap.place j key 0 ne;
        values = others;
      }

  pub move_node-Put :
      (b : Arrays) × (move_node new.size new.mod_prime new.mask hash key value a ≡ ok b)
      × (b.values ≡ none → a.values ≡ none)
      × Put (table_of new a n) (table_of new b (n + 1)) gap.place hash key value
  unfolding move_node
  move_node-Put =
      let wh = write-ok a.hashes gap.place hash inside_hashes in
      let wk = write-ok a.keys gap.place key inside_keys in
      elim (Option-cases a.values) [
        | inl e ↦
            let low : gap.place < length ks =
              omega (arith, inside_keys, length-set a.keys gap.place key) in
            let same = single e in
            let twice : (j : ℕ) → get_or (set ks gap.place value) j 0 ≡ get_or ks j 0 = λ j.
              subst (λ (w : ℕ). get_or (set ks gap.place w) j 0 ≡ get_or ks j 0)
                (get_or-set_self a.keys gap.place key 0 inside_keys ∙ sym same)
                (set_present ks gap.place j) in
            let len : length (set ks gap.place value) ≡ length a.keys =
              length-set ks gap.place value ∙ length-set a.keys gap.place key in
            (
              record a { keys = set ks gap.place value; hashes = hs },
              rw (
                gap.run,
                wh,
                wk,
                set_new_value-shared (record a { hashes = hs; keys = ks }) gap.place value e low,
              ),
              λ k. e,
              filled-Put (record a { keys = set ks gap.place value; hashes = hs }) refl len
                  (rw e (len ∙ valid.sized.keys)) twice
                  (rw e (get_or-set_self ks gap.place value 0 low))
                  (λ j ne. rw e (twice j ∙ get_or-set_ne a.keys gap.place j key 0 ne)),
            )
        | inr (vs, e) ↦
            let sizes : length (values_of (table_of new a n)) ≡ new.size = valid.sized.values in
            let sized : length vs ≡ new.size = rw e at sizes in
            let low : gap.place < length vs = omega (arith, gap.inside) in
            (
              record { keys = ks; values = some (set vs gap.place value); hashes = hs },
              rw (
                gap.run,
                wh,
                wk,
                set_new_value-own (record a { hashes = hs; keys = ks }) vs gap.place value e low,
              ),
              λ k. absurd cc,
              filled-Put (record { keys = ks; values = some (set vs gap.place value); hashes = hs })
                  refl (length-set a.keys gap.place key) (length-set vs gap.place value ∙ sized)
                  (λ j. refl) (get_or-set_self vs gap.place value 0 low)
                  (λ j ne. rw e (get_or-set_ne vs gap.place j value 0 ne)),
            )
      ]

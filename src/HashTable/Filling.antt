-- ===== src/HashTable/Filling.antt =====
-- The two ways in which `hev_hash_table_insert_node` of src/hev-hash-table.c puts an entry, before
-- the table may change its size.
use hev_lib.Base.{
  ℕ, ◌+◌, ◌<◌, ◌≡◌, ◌≢◌, inl, inr, refl, sym, ap, ◌∙◌, Bool, true, false, List, if◌then◌else◌,
  arith, length, get_or, set, length-set, get_or-set_self, get_or-set_ne, Option-cases,
}
use hev_lib.HashTable.{HashTable, Settings, ok, values_of, is_real, is_unused}
use hev_lib.HashTable.Update.{overwrite_node, fill_node}
use hev_lib.HashTable.Valid.{count, is_occupied, hash_at, key_at, IsValid}
use hev_lib.HashTable.Search.{read-ok}
use hev_lib.HashTable.Removing.{held, write-ok, count-set_on, count-set_same}
use hev_lib.HashTable.Storing.{Valued, Stored, store-Stored}
use hev_lib.HashTable.Putting.{Put}

module _ {c : Settings} {t : HashTable} (valid : IsValid c t) (served : ℕ → Bool) (i key value : ℕ)
    (memory : served 3 ≡ true) (inside : i < t.size) where
  inside_keys : i < length t.keys
  inside_keys = omega (arith, valid.sized.keys)

  -- The values, where only the key at the place was changed.
  held-keys :
      (u : HashTable)
      → u.values ≡ t.values
      → ((j : ℕ) → i ≢ j → key_at u j ≡ key_at t j)
      → (j : ℕ) → i ≢ j
      → held u j ≡ held t j
  held-keys u e k j ne = elim (Option-cases t.values) [
    | inl n ↦ rw (e, n, k j ne)
    | inr (vs, s) ↦ rw (e, s)
  ]

  values_length-keys :
      (u : HashTable)
      → u.values ≡ t.values
      → length u.keys ≡ length t.keys
      → length (values_of u) ≡ t.size
  values_length-keys u e k =
      let sizes = valid.sized.values in
      elim (Option-cases t.values) [
        | inl n ↦ rw (e, n, k, valid.sized.keys)
        | inr (vs, s) ↦ rw (e, s) (rw s at sizes)
      ]

  abbrev Overwritten : (keep : Bool) → Type 0
  Overwritten keep =
      (t' : HashTable) × (overwrite_node served t i key value keep
        ≡ ok (
          record { key_to_free = if keep then key_at t i else key; value_to_free = held t i },
          t',
        ))
      × Put t t' i (hash_at t i) (if keep then key else key_at t i) value

  -- The entry that is there once the value is written.
  stored-Put :
      (h k : ℕ) (hs ks : List ℕ) (u' : HashTable) (nodes occupied : ℕ)
      → Valued (record t { hashes = hs; keys = ks }) u' i value
      → length hs ≡ t.size
      → length ks ≡ t.size
      → get_or hs i 0 ≡ h
      → get_or ks i 0 ≡ k
      → ((j : ℕ) → i ≢ j → get_or hs j 0 ≡ hash_at t j)
      → ((j : ℕ) → i ≢ j → get_or ks j 0 ≡ key_at t j)
      → count is_real hs ≡ nodes
      → count is_occupied hs ≡ occupied
      → occupied < t.size
      → Put t (record u' { nnodes = nodes; noccupied = occupied }) i h k value
  stored-Put h k hs ks u' nodes occupied v hl kl here mine hashes keys real full spare = record {
    size = v.size;
    mask = v.mask;
    prime = v.prime;
    hashes_length = ap length v.hashes ∙ hl;
    keys_length = v.keys_length;
    values_length = v.values_length;
    nnodes = rw v.hashes real;
    noccupied = rw v.hashes full;
    spare = spare;
    hash_here = rw v.hashes here;
    key_here = v.keys i ∙ mine;
    value_here = v.here;
    hashes = λ j ne. rw v.hashes (hashes j ne);
    keys = λ j ne. v.keys j ∙ keys j ne;
    values = λ j ne. v.others j ne ∙ held-keys (record t { hashes = hs; keys = ks }) refl keys j ne;
  }

  -- The same with the counters as they were.
  kept-Put :
      (k : ℕ) (ks : List ℕ) (u' : HashTable)
      → Valued (record t { keys = ks }) u' i value
      → length ks ≡ t.size
      → get_or ks i 0 ≡ k
      → ((j : ℕ) → i ≢ j → get_or ks j 0 ≡ key_at t j)
      → Put t u' i (hash_at t i) k value
  kept-Put k ks u' v kl mine keys =
      stored-Put (hash_at t i) k t.hashes ks u' u'.nnodes u'.noccupied v valid.sized.hashes kl refl
        mine (λ j ne. refl) keys (valid.nnodes ∙ sym v.nnodes) (valid.noccupied ∙ sym v.noccupied)
        (omega (arith, v.noccupied, valid.spare))

  pub overwrite-Put : (keep : Bool) → Overwritten keep
  unfolding overwrite_node
  overwrite-Put true =
      let same = length-set t.keys i key in
      let s : Stored served (record t { keys = set t.keys i key }) i value =
        store-Stored served (record t { keys = set t.keys i key }) i value memory inside
          (same ∙ valid.sized.keys)
          (values_length-keys (record t { keys = set t.keys i key }) refl same) in
      (
        s.after,
        rw (
          read-ok (values_of t) i (omega (arith, valid.sized.values)),
          read-ok t.keys i inside_keys,
          write-ok t.keys i key inside_keys,
          s.splits,
          s.sets,
        ),
        kept-Put key (set t.keys i key) s.after s.valued (same ∙ valid.sized.keys)
            (get_or-set_self t.keys i key 0 inside_keys)
            (λ j ne. get_or-set_ne t.keys i j key 0 ne),
      )
  overwrite-Put false =
      let s : Stored served t i value =
        store-Stored served t i value memory inside valid.sized.keys valid.sized.values in
      (
        s.after,
        rw (
          read-ok (values_of t) i (omega (arith, valid.sized.values)),
          read-ok t.keys i inside_keys,
          s.splits,
          s.sets,
        ),
        kept-Put (key_at t i) t.keys s.after s.valued valid.sized.keys refl (λ j ne. refl),
      )

  -- A new entry: what `fill_node` and `count_node` make of the table.
  module _ (hash : ℕ) (unreal : is_real (hash_at t i) ≡ false) (real : is_real hash ≡ true)
      (room : t.noccupied + 1 < t.size) where
    abbrev hs : List ℕ
    hs = set t.hashes i hash

    abbrev ks : List ℕ
    ks = set t.keys i key

    inside_hashes : i < length t.hashes
    inside_hashes = omega (arith, valid.sized.hashes)

    filled-Put :
        (u' : HashTable) (occupied : ℕ)
        → Valued (record t { hashes = hs; keys = ks }) u' i value
        → count is_occupied hs ≡ occupied
        → occupied < t.size
        → Put t (record u' { nnodes = u'.nnodes + 1; noccupied = occupied }) i hash key value
    filled-Put u' occupied v full spare =
        stored-Put hash key hs ks u' (u'.nnodes + 1) occupied v
          (length-set t.hashes i hash ∙ valid.sized.hashes)
          (length-set t.keys i key ∙ valid.sized.keys)
          (get_or-set_self t.hashes i hash 0 inside_hashes)
          (get_or-set_self t.keys i key 0 inside_keys)
          (λ j ne. get_or-set_ne t.hashes i j hash 0 ne) (λ j ne. get_or-set_ne t.keys i j key 0 ne)
          (omega (
            arith,
            count-set_on is_real hash t.hashes i inside_hashes unreal real,
            valid.nnodes,
            v.nnodes,
          ))
          full spare

    pub store : Stored served (record t { hashes = hs; keys = ks }) i value
    store =
        store-Stored served (record t { hashes = hs; keys = ks }) i value memory inside
          (length-set t.keys i key ∙ valid.sized.keys)
          (values_length-keys (record t { hashes = hs; keys = ks }) refl (length-set t.keys i key))

    pub fill_node-ok : fill_node served t i hash key value ≡ ok store.after
    unfolding fill_node
    fill_node-ok = rw (
      write-ok t.hashes i hash inside_hashes,
      write-ok t.keys i key inside_keys,
      store.splits,
      store.sets,
    )

    -- The table with its counters, before it may change its size.
    pub counted_unused :
        is_unused (hash_at t i) ≡ true
        → Put t
            (record (store.after) {
              nnodes = store.after.nnodes + 1;
              noccupied = store.after.noccupied + 1;
            })
            i
            hash
            key
            value
    counted_unused e =
        let z : is_occupied (hash_at t i) ≡ false = ground arith in
        let o : is_occupied hash ≡ true = ground arith in
        let v = store.valued in
        filled-Put store.after (store.after.noccupied + 1) v
          (omega (
            arith,
            count-set_on is_occupied hash t.hashes i inside_hashes z o,
            valid.noccupied,
            v.noccupied,
          ))
          (omega (arith, room, v.noccupied))

    pub counted_tombstone :
        is_unused (hash_at t i) ≡ false
        → Put t (record (store.after) { nnodes = store.after.nnodes + 1 }) i hash key value
    counted_tombstone e =
        let z : is_occupied (hash_at t i) ≡ is_occupied hash = ground arith in
        let v = store.valued in
        filled-Put store.after store.after.noccupied v
          (count-set_same is_occupied hash t.hashes i inside_hashes z
            ∙ valid.noccupied
            ∙ sym v.noccupied)
          (omega (arith, room, v.noccupied))

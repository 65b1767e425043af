-- ===== src/HashTable/Search.antt =====
-- `hev_hash_table_lookup_node` of src/hev-hash-table.c on a valid table: it ends, stays within the
-- arrays, and finds the key if and only if it is there.
use native.Mathlib.Nat.{mod-add-mod, mod-lt, mod-eq_of_lt, one-le-pow, add-zero}
use native.Mathlib.Numerals.{add-one}
use hev_lib.Base.{
  ℕ, zero, suc, ◌+◌, ◌%◌, ◌≤◌, ◌<◌, ◌≡◌, ◌≢◌, inl, inr, refl, sym, ap, subst, ◌∙◌, true, false,
  Option, none, some, List, arith, ltb, ◌==◌, if◌then◌else◌, length, get_or, get_elem?-eq-get_or,
  Bool-cases,
}
use hev_lib.HashTable.{HashTable, Settings, ok, read, is_unused, is_tombstone, is_real}
use hev_lib.HashTable.Probe.{
  same_key, hash_of, probe, lookup_node, next_index, or_index, note_tombstone,
}
use hev_lib.HashTable.Cover.{triangle, covers}
use hev_lib.HashTable.Mask.{next_index-mod, prime_mod_bounds}
use hev_lib.HashTable.Valid.{
  count, is_occupied, hash_at, key_at, stop, IsSized, Matches, Reachable, IsValid, unused_place,
}

pub read-ok : (xs : List ℕ) (i : ℕ) → i < length xs → read xs i ≡ ok (get_or xs i 0)
unfolding read
read-ok xs i h = rw (get_elem?-eq-get_or xs i 0 h, read)

module _ {t : HashTable} {k : ℕ} (sized : IsSized t k) where
  pub stop-lt : (hash s : ℕ) → stop t hash s < t.size
  stop-lt hash s =
      mod-lt (hash % t.mod_prime + triangle s)
        (rw sized.size (omega (arith, one-le-pow k 2 (omega arith))))

  pub stop-suc :
      (hash s : ℕ) → s < t.size → next_index t.mask (stop t hash s) (s + 1) ≡ stop t hash (suc s)
  unfolding triangle
  stop-suc hash s h =
      let a = hash % t.mod_prime in
      ap (λ m. next_index m (stop t hash s) (s + 1)) sized.mask
      ∙ next_index-mod k (stop t hash s) (s + 1) (omega (arith, sized.most))
          (rw (← sized.size) (stop-lt hash s)) (omega (arith, sized.size))
      ∙ ap (λ m. (stop t hash s + (s + 1)) % m) (sym sized.size)
      ∙ mod-add-mod (a + triangle s) t.size (s + 1)
      ∙ ap (λ x. x % t.size) (omega arith)

  pub stop_start : (hash : ℕ) → hash % t.mod_prime ≡ stop t hash 0
  unfolding triangle
  stop_start hash =
      let (pos, le) = prime_mod_bounds k (omega (arith, sized.most)) in
      let below : hash % t.mod_prime < t.mod_prime = mod-lt hash (rw sized.prime pos) in
      let bound : t.mod_prime ≤ t.size = rw (sized.prime, sized.size) le in
      let zero_off = add-zero (hash % t.mod_prime) in
      sym (mod-eq_of_lt (omega (arith, zero_off)) ∙ zero_off)

  -- Some step before the last place meets an unused place.
  pub unused_stop :
      (hash : ℕ)
      → count is_occupied t.hashes < t.size
      → (s : ℕ) × (s < t.size) × (hash_at t (stop t hash s) ≡ 0)
  unused_stop hash spare =
      let (i, inside, free) = unused_place t.hashes (omega (arith, spare, sized.hashes)) in
      let (s, near, lands) =
        covers k (hash % t.mod_prime) i (omega (arith, sized.hashes, sized.size)) in
      (s, rw sized.size near, rw sized.size (rw lands free))

-- What the loop returns: the place of the key's entry, or a place where it can be put, which the
-- key's probe sequence reaches, where no place holds the key.
pub data Found (c : Settings) (t : HashTable) (key i : ℕ) : Type 0 where
  present : Matches c t key i → Found c t key i
  missing :
      is_real (hash_at t i) ≡ false
      → i < t.size
      → Reachable t (hash_of c key) i
      → ((j : ℕ) → ¬ Matches c t key j)
      → Found c t key i

module _ {c : Settings} {t : HashTable} (valid : IsValid c t) (key : ℕ) where
  abbrev hv : ℕ
  hv = hash_of c key

  abbrev at : ℕ → ℕ
  at s = stop t hv s

  -- what one round does, and the call for the next
  probe-round :
      (f s : ℕ) (tomb : Option ℕ)
      → s < t.size
      → let next = λ (found : Option ℕ). probe c t key hv f (at (suc s)) (suc s) found in
        let h = hash_at t (at s) in
        probe c t key hv (suc f) (at s) s tomb ≡ (
          if is_unused h
          then ok (or_index tomb (at s))
          else if h == hv
          then (if same_key c (key_at t (at s)) key then ok (at s) else next tomb)
          else next (note_tombstone h (at s) tomb))
  unfolding probe
  probe-round f s tomb h =
      let size = valid.sized in
      let inside = stop-lt size hv s in
      rw (
        read-ok t.hashes (at s) (omega (arith, size.hashes)),
        read-ok t.keys (at s) (omega (arith, size.keys)),
        stop-suc size hv s h,
        add-one,
      )

  -- what is known of a tombstone that was noted
  abbrev IsPlace : Option ℕ → Type 0
  IsPlace none = Unit
  IsPlace (some i) = (is_real (hash_at t i) ≡ false) × (i < t.size) × Reachable t hv i

  -- the places that the loop has passed
  record Passed (s : ℕ) : Type 0 where
    busy : (r : ℕ) → r < s → hash_at t (at r) ≢ 0
    other : (r : ℕ) → r < s → ¬ Matches c t key (at r)

  hv-real : 2 ≤ hv
  unfolding hash_of
  hv-real = ground arith

  here-Reachable : {s : ℕ} → Passed s → s < t.size → Reachable t hv (at s)
  here-Reachable {s} past h = record { steps = s; near = h; lands = refl; busy = past.busy }

  Passed-suc : {s : ℕ} → Passed s → hash_at t (at s) ≢ 0 → ¬ Matches c t key (at s) → Passed (suc s)
  Passed-suc {s} past ne miss = record {
    busy = λ r h. elim (Bool-cases (ltb r s)) [
      | inl l ↦ past.busy r (ground arith)
      | inr g ↦ let e : r ≡ s = ground arith in rw e ne
    ];
    other = λ r h. elim (Bool-cases (ltb r s)) [
      | inl l ↦ past.other r (ground arith)
      | inr g ↦ let e : r ≡ s = ground arith in rw e miss
    ];
  }

  -- Once the loop meets an unused place, no place holds the key.
  absent : (s : ℕ) → Passed s → hash_at t (at s) ≡ 0 → (j : ℕ) → ¬ Matches c t key j
  absent s past free j m =
      let real : is_real (hash_at t j) ≡ true = rw m.hash (let r = hv-real in ground arith) in
      let w = subst (λ x. Reachable t x j) m.hash (valid.reachable j m.inside real) in
      elim (Bool-cases (ltb w.steps s)) [
        | inl l ↦ past.other w.steps (ground arith) (subst (λ x. Matches c t key x) (sym w.lands) m)
        | inr g ↦ elim (Bool-cases (ltb s w.steps)) [
          | inl l ↦ w.busy s (ground arith) free
          | inr h ↦
              let e : w.steps ≡ s = ground arith in
              let z : hash_at t j ≡ 0 = ap (hash_at t) (sym w.lands ∙ ap at e) ∙ free in
              omega (arith, m.hash, z, hv-real)
        ]
      ]

  stop-Found :
      (s : ℕ) (tomb : Option ℕ)
      → Passed s
      → IsPlace tomb
      → s < t.size
      → hash_at t (at s) ≡ 0
      → Found c t key (or_index tomb (at s))
  stop-Found s none past place h free =
      missing (rw free) (stop-lt valid.sized hv s) (here-Reachable past h) (absent s past free)
  stop-Found s (some i) past place h free = missing place.0 place.1 place.2 (absent s past free)

  note-IsPlace :
      (s : ℕ) (tomb : Option ℕ)
      → Passed s
      → IsPlace tomb
      → s < t.size
      → IsPlace (note_tombstone (hash_at t (at s)) (at s) tomb)
  note-IsPlace s none past place h = elim (Bool-cases (is_tombstone (hash_at t (at s)))) [
    | inl e ↦ rw e (ground arith, stop-lt valid.sized hv s, here-Reachable past h)
    | inr e ↦ rw e tt
  ]
  note-IsPlace s (some i) past place h = place

  before-last :
      (s last : ℕ) → hash_at t (at s) ≢ 0 → s ≤ last → hash_at t (at last) ≡ 0 → suc s ≤ last
  before-last s last ne lo free = elim (Bool-cases (ltb s last)) [
    | inl l ↦ ground arith
    | inr g ↦ let e : s ≡ last = ground arith in absurd (ne (ap (λ x. hash_at t (at x)) e ∙ free))
  ]

  loop-Found :
      (f s last : ℕ) (tomb : Option ℕ)
      → Passed s
      → IsPlace tomb
      → s ≤ last
      → last < s + f
      → last < t.size
      → hash_at t (at last) ≡ 0
      → (i : ℕ) × (probe c t key hv f (at s) s tomb ≡ ok i) × Found c t key i
  loop-Found zero s last tomb past place lo hi inside free = absurd (omega arith)
  loop-Found (suc f) s last tomb past place lo hi inside free =
      let h = hash_at t (at s) in
      let round = probe-round f s tomb (omega arith) in
      elim (Bool-cases (is_unused h)) [
        | inl e ↦ (
          or_index tomb (at s),
          rw (round, e),
          stop-Found s tomb past place (omega arith) (ground arith),
        )
        | inr e ↦
            let ne : h ≢ 0 = ground arith in
            let more = before-last s last ne lo free in
            elim (Bool-cases (h == hv)) [
              | inl hit ↦ elim (Bool-cases (same_key c (key_at t (at s)) key)) [
                | inl same ↦ (
                  at s,
                  rw (round, e, hit, same),
                  present (record {
                    inside = stop-lt valid.sized hv s;
                    hash = ground arith;
                    same = same;
                  }),
                )
                | inr other ↦
                    let (i, run, found) =
                      loop-Found f (suc s) last tomb (Passed-suc past ne (λ m. cc)) place more
                        (omega arith) inside free in
                    (i, rw (round, e, hit, other) run, found)
              ]
              | inr miss ↦
                  let (i, run, found) =
                    loop-Found f (suc s) last (note_tombstone h (at s) tomb)
                      (Passed-suc past ne (λ m. ground arith))
                      (note-IsPlace s tomb past place (omega arith)) more (omega arith) inside
                      free in
                  (i, rw (round, e, miss) run, found)
            ]
      ]

  -- On a valid table `hev_hash_table_lookup_node` ends within as many rounds as there are places,
  -- with no access outside the arrays. It returns the hash value and the place of the key's entry,
  -- or, where no place holds the key, a place without an entry at which the key can be put.
  pub lookup_node-Found : (i : ℕ) × (lookup_node c t key ≡ ok (i, hv)) × Found c t key i
  unfolding lookup_node
  lookup_node-Found =
      let (s, near, free) =
        unused_stop valid.sized hv (omega (arith, valid.noccupied, valid.spare)) in
      let (i, run, found) =
        loop-Found t.size 0 s none
          (record { busy = λ r h. absurd (omega arith); other = λ r h. absurd (omega arith) }) tt
          (omega arith) (omega arith) near free in
      (i, rw (stop_start valid.sized hv, run), found)

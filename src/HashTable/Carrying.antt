-- ===== src/HashTable/Carrying.antt =====
-- The loop of `hev_hash_table_resize` of src/hev-hash-table.c: it carries every entry over.
use native.Mathlib.Numerals.{add-one}
use hev_lib.Base.{
  ap₂, subst, ℕ, zero, suc, ◌+◌, ◌*◌, ◌<◌, ◌≡◌, refl, sym, ap, ◌∙◌, Bool, true, false, Option, none,
  some, List, inl, inr, if◌then◌else◌, arith, length, get_or, drop, ◌==◌, Bool-cases,
}
use hev_lib.HashTable.{HashTable, Settings, ok, read, values_of, is_real}
use hev_lib.HashTable.Probe.{same_key, hash_of}
use hev_lib.HashTable.Resize.{Arrays, move_node, move_nodes}
use hev_lib.HashTable.Valid.{count, hash_at, key_at, Matches, Reachable, IsValid}
use hev_lib.HashTable.Search.{read-ok}
use hev_lib.HashTable.View.{IsLawful, entry, Matches-entry, real-Matches, Matches-eq, hash_of-real}
use hev_lib.HashTable.Removing.{held}
use hev_lib.HashTable.Putting.{Put, Put-IsValid, Put-entry}
use hev_lib.HashTable.Entries.{drop-cons}
use hev_lib.HashTable.Vacancy.{Vacant, vacant-Vacant}
use hev_lib.HashTable.Moving.{table_of, move_node-Put}

count-drop :
    (p : ℕ → Bool) (xs : List ℕ) (i : ℕ)
    → i < length xs
    → count p (drop i xs)
      ≡ (if p (get_or xs i 0) then suc (count p (drop (suc i) xs)) else count p (drop (suc i) xs))
unfolding count
count-drop p xs i h = rw (drop-cons xs i h)

module _ {c : Settings} {t : HashTable} (lawful : IsLawful c) (valid : IsValid c t) where
  -- A place with an entry matches its own key.
  own-Matches : (i : ℕ) → i < t.size → is_real (hash_at t i) ≡ true → Matches c t (key_at t i) i
  own-Matches i inside real =
      real-Matches lawful valid (key_at t i) i inside real (lawful.reflexive (key_at t i))

  module _ (new : HashTable) (hashes : new.hashes ≡ t.hashes) (keys : new.keys ≡ t.keys)
      (values : new.values ≡ t.values) (room : t.nnodes * 2 < new.size) where
    -- After the first `i` places: `n` entries are in the new arrays, and they are those of these places.
    pub record Moved (i n : ℕ) (a : Arrays) : Type 0 where
      pub fine : IsValid c (table_of new a n)
      pub left : n + count is_real (drop i t.hashes) ≡ t.nnodes
      pub single : a.values ≡ none → t.values ≡ none
      pub kept :
          (key j : ℕ)
          → Matches c t key j
          → j < i
          → entry c (table_of new a n) key ≡ some (key_at t j, held t j)
      pub rest :
          (key : ℕ)
          → ((j : ℕ) → j < i → ¬ Matches c t key j)
          → entry c (table_of new a n) key ≡ none

    -- A place without an entry is passed over.
    skip-Moved :
        (i n : ℕ) (a : Arrays)
        → i < t.size
        → is_real (hash_at t i) ≡ false
        → Moved i n a
        → Moved (suc i) n a
    skip-Moved i n a inside unreal moved = record {
      fine = moved.fine;
      left =
          (let d = count-drop is_real t.hashes i (omega (arith, valid.sized.hashes)) in
            let e : count is_real (drop i t.hashes) ≡ count is_real (drop (suc i) t.hashes) =
              rw unreal at d in
            omega (arith, e, moved.left));
      single = moved.single;
      kept = λ key j m l. elim (Bool-cases (j == i)) [
        | inl hit ↦
            let same : j ≡ i = ground arith in
            let real : is_real (hash_at t i) ≡ true =
              rw (sym same) (rw m.hash (hash_of-real lawful valid key)) in
            absurd cc
        | inr miss ↦ moved.kept key j m (ground arith)
      ];
      rest = λ key nowhere. moved.rest key (λ j l. nowhere j (omega arith));
    }

    module _ (i n : ℕ) (a : Arrays) (inside : i < t.size) (real : is_real (hash_at t i) ≡ true)
        (moved : Moved i n a) where
      one_left : n + 1 < new.size
      one_left =
          let d = count-drop is_real t.hashes i (omega (arith, valid.sized.hashes)) in
          let e : count is_real (drop i t.hashes) ≡ suc (count is_real (drop (suc i) t.hashes)) =
            rw real at d in
          omega (arith, e, moved.left, room)

      gap : Vacant (table_of new a n) (hash_at t i)
      gap =
          vacant-Vacant moved.fine.sized (hash_at t i)
            (omega (arith, moved.fine.noccupied, moved.fine.spare))

      -- No new place has the key yet.
      absent : (j : ℕ) → ¬ Matches c (table_of new a n) (key_at t i) j
      absent j m =
          let gone = moved.rest (key_at t i) (λ q l n.
            let same = Matches-eq lawful valid (key_at t i) q i n (own-Matches i inside real) in
            omega arith) in
          let there = Matches-entry lawful moved.fine (key_at t i) j m in cc

      module _ (b : Arrays)
          (put : Put
            (table_of new a n)
            (table_of new b (n + 1))
            gap.place
            (hash_at t i)
            (key_at t i)
            (held t i)) where
        own_hash : hash_at t i ≡ hash_of c (key_at t i)
        own_hash = valid.hashed i inside real

        here :
            Put
              (table_of new a n)
              (table_of new b (n + 1))
              gap.place
              (hash_of c (key_at t i))
              (key_at t i)
              (held t i)
        here =
            subst
              (λ (h : ℕ).
                Put (table_of new a n) (table_of new b (n + 1)) gap.place h (key_at t i) (held t i))
              own_hash put

        way : Reachable (table_of new a n) (hash_of c (key_at t i)) gap.place
        way = subst (λ (h : ℕ). Reachable (table_of new a n) h gap.place) own_hash gap.way

        was :
            is_real (hash_at (table_of new a n) gap.place) ≡ true
            → same_key c (key_at (table_of new a n) gap.place) (key_at t i) ≡ true
        was r =
            let z : is_real (hash_at (table_of new a n) gap.place) ≡ false = ap is_real gap.free in
            absurd cc

        put-IsValid : IsValid c (table_of new b (n + 1))
        put-IsValid =
            Put-IsValid lawful moved.fine gap.place (key_at t i) (held t i) gap.inside way
              (λ j ne. absent j) was here

        put-entry :
            (other : ℕ)
            → entry c (table_of new b (n + 1)) other ≡ (
                if same_key c (key_at t i) other
                then some (key_at t i, held t i)
                else entry c (table_of new a n) other)
        put-entry other =
            Put-entry lawful moved.fine gap.place (key_at t i) (held t i) gap.inside way
              (λ j ne. absent j) was here other

      step-Moved :
          (b : Arrays)
          → (b.values ≡ none → a.values ≡ none)
          → Put
              (table_of new a n)
              (table_of new b (n + 1))
              gap.place
              (hash_at t i)
              (key_at t i)
              (held t i)
          → Moved (suc i) (n + 1) b
      step-Moved b single put = record {
        fine = put-IsValid b put;
        left =
            (let d = count-drop is_real t.hashes i (omega (arith, valid.sized.hashes)) in
              let e : count is_real (drop i t.hashes)
                  ≡ suc (count is_real (drop (suc i) t.hashes)) =
                rw real at d in
              omega (arith, e, moved.left));
        single = λ e. moved.single (single e);
        kept = λ key j m l. elim (Bool-cases (j == i)) [
          | inl hit ↦
              let same : j ≡ i = ground arith in
              let eq : same_key c (key_at t i) key ≡ true = rw (sym same) m.same in
              put-entry b put key ∙ rw (eq, same)
          | inr miss ↦
              let differs : same_key c (key_at t i) key ≡ false =
                elim (Bool-cases (same_key c (key_at t i) key)) [
                  | inl eq ↦
                      let both =
                        Matches-eq lawful valid key j i m
                          (real-Matches lawful valid key i inside real eq) in
                      absurd (ground arith)
                  | inr apart ↦ apart
                ] in
              put-entry b put key ∙ rw differs (moved.kept key j m (ground arith))
        ];
        rest = λ key nowhere.
            let differs : same_key c (key_at t i) key ≡ false =
              elim (Bool-cases (same_key c (key_at t i) key)) [
                | inl eq ↦
                    absurd
                      (nowhere i (omega arith) (real-Matches lawful valid key i inside real eq))
                | inr apart ↦ apart
              ] in
            put-entry b put key ∙ rw differs (moved.rest key (λ j l. nowhere j (omega arith)));
      }

      -- One round that moves an entry.
      round-Moved :
          (b : Arrays) × (move_node new.size new.mod_prime new.mask
              (hash_at t i)
              (key_at t i)
              (held t i)
              a
            ≡ ok b)
          × Moved (suc i) (n + 1) b
      round-Moved =
          let (b, run, single, put) =
            move_node-Put new a n moved.fine (hash_at t i) (key_at t i) (held t i) real one_left
              (λ e. rw (moved.single e) refl) gap in
          (b, run, step-Moved b single put)

    same_values : values_of new ≡ values_of t
    same_values =
        ap₂ (λ (vs : Option (List ℕ)) (xs : List ℕ). elim vs [ none ↦ xs | some ys ↦ ys ]) values
          keys

    old_reads :
        (i : ℕ)
        → i < t.size
        → (read new.hashes i ≡ ok (hash_at t i))
          × (read new.keys i ≡ ok (key_at t i))
          × (read (values_of new) i ≡ ok (held t i))
    old_reads i inside = (
      rw hashes (read-ok t.hashes i (omega (arith, inside, valid.sized.hashes))),
      rw keys (read-ok t.keys i (omega (arith, inside, valid.sized.keys))),
      ap (λ (xs : List ℕ). read xs i) same_values
          ∙ read-ok (values_of t) i (omega (arith, inside, valid.sized.values)),
    )

    pub all-Moved :
        (left i n : ℕ) (a : Arrays)
        → i + left ≡ t.size
        → Moved i n a
        → (b : Arrays) × (m : ℕ) × (move_nodes new left i a ≡ ok b) × Moved t.size m b
    unfolding move_nodes
    all-Moved zero i n a e moved = (a, n, refl, subst (λ (k : ℕ). Moved k n a) (omega arith) moved)
    all-Moved (suc left) i n a e moved =
        let (h, k, v) = old_reads i (omega arith) in
        elim (Bool-cases (is_real (hash_at t i))) [
          | inl real ↦
              let (b, run, step) = round-Moved i n a (omega arith) real moved in
              let (d, m, runs, done) = all-Moved left (suc i) (n + 1) b (omega arith) step in
              (d, m, rw (h, real, k, v, run, add-one, runs), done)
          | inr unreal ↦
              let step = skip-Moved i n a (omega arith) unreal moved in
              let (d, m, runs, done) = all-Moved left (suc i) n a (omega arith) step in
              (d, m, rw (h, unreal, add-one, runs), done)
        ]

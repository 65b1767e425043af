-- ===== src/HashTable/View.antt =====
-- What a table of src/hev-hash-table.c maps a key to, told without hashing and probing, and the
-- lookups against it.
use hev_lib.Base.{
  ℕ, zero, suc, ◌≤◌, ◌<◌, ◌≡◌, ◌⊎◌, inl, inr, ap, ◌∙◌, Bool, true, false, ◌&&◌, Option, none, some,
  List, [], ◌∷◌, arith, if◌then◌else◌, length, get_or, Option-cases,
}
use hev_lib.HashTable.{HashTable, Settings, values_of, ok, is_real}
use hev_lib.HashTable.Probe.{same_key, hash_of}
use hev_lib.HashTable.Query.{contains, lookup, lookup_extended}
use hev_lib.HashTable.Valid.{hash_at, key_at, Matches, IsValid}
use hev_lib.HashTable.Search.{read-ok, Found, present, missing, lookup_node-Found}

-- What the file asks of the functions that it is given: equality is an equivalence, and equal keys
-- have equal hash values.
pub record IsLawful (c : Settings) : Type 0 where
  pub reflexive : (a : ℕ) → same_key c a a ≡ true
  pub symmetric : (a b : ℕ) → same_key c a b ≡ true → same_key c b a ≡ true
  pub transitive :
      (a b d : ℕ) → same_key c a b ≡ true → same_key c b d ≡ true → same_key c a d ≡ true
  pub hashed : (a b : ℕ) → same_key c a b ≡ true → c.hash a ≡ c.hash b

-- The first place with an entry under a key.
unfoldable pub place_of : Settings → ℕ → (hashes keys : List ℕ) → Option ℕ
place_of c key [] ks = none
place_of c key (h ∷ hs) [] = none
place_of c key (h ∷ hs) (k ∷ ks) =
    if is_real h && same_key c k key
    then some 0
    else elim (place_of c key hs ks) [ some i ↦ some (suc i) | none ↦ none ]

-- The key and the value of the entry under a key.
unfoldable pub entry : Settings → HashTable → ℕ → Option (ℕ × ℕ)
entry c t key = elim (place_of c key t.hashes t.keys) [
  | some i ↦ some (key_at t i, get_or (values_of t) i 0)
  | none ↦ none
]

pub entry-some :
    (c : Settings) (t : HashTable) (key i : ℕ)
    → place_of c key t.hashes t.keys ≡ some i
    → entry c t key ≡ some (key_at t i, get_or (values_of t) i 0)
unfolding entry
entry-some c t key i e = ground arith

pub entry-none :
    (c : Settings) (t : HashTable) (key : ℕ)
    → place_of c key t.hashes t.keys ≡ none
    → entry c t key ≡ none
unfolding entry
entry-none c t key e = ground arith

abbrev pub is_some : Option (ℕ × ℕ) → Bool
is_some none = false
is_some (some _) = true

abbrev pub value_or_null : Option (ℕ × ℕ) → ℕ
value_or_null none = 0
value_or_null (some e) = e.1

Found-inside : {c : Settings} {t : HashTable} {key i : ℕ} → Found c t key i → i < t.size
Found-inside (present m) = m.inside
Found-inside (missing unreal inside way nowhere) = inside

place_of-some :
    (c : Settings) (key : ℕ) (hs ks : List ℕ) (i : ℕ)
    → place_of c key hs ks ≡ some i
    → (i < length hs) × (is_real (get_or hs i 0) ≡ true) × (same_key c (get_or ks i 0) key ≡ true)
unfolding place_of
place_of-some c key [] ks i e = cc
place_of-some c key (h ∷ hs) [] i e = cc
place_of-some c key (h ∷ hs) (k ∷ ks) zero e = ground arith
place_of-some c key (h ∷ hs) (k ∷ ks) (suc i) e = ground (arith, place_of-some c key hs ks i)

place_of-none :
    (c : Settings) (key : ℕ) (hs ks : List ℕ) (i : ℕ)
    → place_of c key hs ks ≡ none
    → length hs ≤ length ks
    → i < length hs
    → (is_real (get_or hs i 0) && same_key c (get_or ks i 0) key) ≡ false
unfolding place_of
place_of-none c key [] ks i e le h = absurd (omega arith)
place_of-none c key (x ∷ hs) [] i e le h = absurd (omega arith)
place_of-none c key (x ∷ hs) (k ∷ ks) zero e le h = ground arith
place_of-none c key (x ∷ hs) (k ∷ ks) (suc i) e le h = ground (arith, place_of-none c key hs ks i)

module _ {c : Settings} {t : HashTable} (lawful : IsLawful c) (valid : IsValid c t) (key : ℕ) where
  pub real-Matches :
      (i : ℕ)
      → i < t.size
      → is_real (hash_at t i) ≡ true
      → same_key c (key_at t i) key ≡ true
      → Matches c t key i
  unfolding hash_of
  real-Matches i h real same = record {
    inside = h;
    hash = valid.hashed i h real ∙ unfold hash_of in rw (lawful.hashed (key_at t i) key same);
    same = same;
  }

  pub hash_of-real : is_real (hash_of c key) ≡ true
  unfolding hash_of
  hash_of-real = ground arith

  -- All places that hold the key are one.
  pub Matches-eq : (i j : ℕ) → Matches c t key i → Matches c t key j → i ≡ j
  Matches-eq i j m n =
      valid.distinct i j m.inside n.inside (rw m.hash hash_of-real) (rw n.hash hash_of-real) (
        lawful.transitive (key_at t i) key (key_at t j) m.same
          (lawful.symmetric (key_at t j) key n.same))

  place_of-Matches : (i : ℕ) → place_of c key t.hashes t.keys ≡ some i → Matches c t key i
  place_of-Matches i e =
      let (inside, real, same) = place_of-some c key t.hashes t.keys i e in
      real-Matches i (omega (arith, valid.sized.hashes)) real same

  none-Matches : (i : ℕ) → place_of c key t.hashes t.keys ≡ none → ¬ Matches c t key i
  none-Matches i e m =
      let size = valid.sized in
      let no =
        place_of-none c key t.hashes t.keys i e (omega (arith, size.hashes, size.keys))
          (omega (arith, m.inside, size.hashes)) in
      let real : is_real (hash_at t i) ≡ true = rw m.hash hash_of-real in ground (arith, m.same)

  -- A key's entry, or that no place holds the key.
  pub entry-cases :
      ((i : ℕ) × Matches c t key i × (entry c t key ≡ some (key_at t i, get_or (values_of t) i 0)))
      ⊎ (((j : ℕ) → ¬ Matches c t key j) × (entry c t key ≡ none))
  entry-cases = elim (Option-cases (place_of c key t.hashes t.keys)) [
    | inl e ↦ inr (λ j. none-Matches j e, entry-none c t key e)
    | inr (i, e) ↦ inl (i, place_of-Matches i e, entry-some c t key i e)
  ]

  pub Matches-entry :
      (i : ℕ) → Matches c t key i → entry c t key ≡ some (key_at t i, get_or (values_of t) i 0)
  Matches-entry i m = elim entry-cases [
    | inl (j, n, e) ↦ e ∙ ap (λ k. some (key_at t k, get_or (values_of t) k 0)) (Matches-eq j i n m)
    | inr (nowhere, e) ↦ absurd (nowhere i m)
  ]

  -- The entry that `lookup_node` leads to is the table's entry under the key.
  Found-place :
      (i : ℕ)
      → Found c t key i
      → ((place_of c key t.hashes t.keys ≡ some i) × (is_real (hash_at t i) ≡ true))
        ⊎ ((place_of c key t.hashes t.keys ≡ none) × (is_real (hash_at t i) ≡ false))
  Found-place i (present m) = elim (Option-cases (place_of c key t.hashes t.keys)) [
    | inl e ↦ absurd (none-Matches i e m)
    | inr (j, e) ↦
        inl (e ∙ ap some (Matches-eq j i (place_of-Matches j e) m), rw m.hash hash_of-real)
  ]
  Found-place i (missing unreal inside way nowhere) =
      elim (Option-cases (place_of c key t.hashes t.keys)) [
        | inl e ↦ inr (e, unreal)
        | inr (j, e) ↦ absurd (nowhere j (place_of-Matches j e))
      ]

  -- On a valid table with lawful functions the three lookups neither fault nor run on, and give
  -- the table's entry under the key: whether there is one, its value or NULL, and its key with its
  -- value.
  pub lookups-entry :
      (contains c t key ≡ ok (is_some (entry c t key)))
      × (lookup c t key ≡ ok (value_or_null (entry c t key)))
      × (lookup_extended c t key ≡ ok (entry c t key))
  unfolding contains lookup lookup_extended
  lookups-entry =
      let (i, run, found) = lookup_node-Found valid key in
      let inside = Found-inside found in
      let size = valid.sized in
      let h = read-ok t.hashes i (omega (arith, size.hashes)) in
      let k = read-ok t.keys i (omega (arith, size.keys)) in
      let v = read-ok (values_of t) i (omega (arith, size.values)) in
      elim (Found-place i found) [
        | inl (p, real) ↦
            let e = entry-some c t key i p in
            (rw (run, h, real, e), rw (run, h, real, v, e), rw (run, h, real, k, v, e))
        | inr (p, unreal) ↦
            let e = entry-none c t key p in
            (rw (run, h, unreal, e), rw (run, h, unreal, e), rw (run, h, unreal, e))
      ]

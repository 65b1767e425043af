-- ===== src/HashTable/Walking.antt =====
-- The walks of src/hev-hash-table.c over all places: `hev_hash_table_foreach`,
-- `hev_hash_table_find`,
-- `hev_hash_table_get_keys` and `hev_hash_table_get_values`.
use hev_lib.Base.{
  ◌++◌, if◌then◌else◌, refl, ℕ, zero, suc, ◌+◌, ◌<◌, ◌≡◌, sym, ap, ◌∙◌, Bool, true, false, List, [],
  ◌∷◌, arith, length, get_or, drop, Bool-cases, inl, inr,
}
use hev_lib.HashTable.{HashTable, Settings, Run, ok, values_of, value_at, read, is_real}
use hev_lib.HashTable.Query.{
  entries_from, foreach, prepended, collect, get_keys, get_values, find_from, find,
}
use hev_lib.HashTable.Valid.{IsSized, IsValid}
use hev_lib.HashTable.Search.{read-ok}
use hev_lib.HashTable.View.{entry}
use hev_lib.HashTable.Entries.{
  entries_of, first_entry, drop-cons, drop_all, length-entries_of, first_entry-entries_of,
  entry-entry_at, picked, picked-cons, all_served, first_match,
}

module _ {t : HashTable} {shift : ℕ} (size : IsSized t shift) where
  abbrev rest : ℕ → List (ℕ × ℕ)
  rest i = entries_of (drop i t.hashes) (drop i t.keys) (drop i (values_of t))

  -- what one round of a loop reads
  record Round (i : ℕ) : Type 0 where
    hash : read t.hashes i ≡ ok (get_or t.hashes i 0)
    key : read t.keys i ≡ ok (get_or t.keys i 0)
    value : read (values_of t) i ≡ ok (get_or (values_of t) i 0)
    unreal : is_real (get_or t.hashes i 0) ≡ false → rest i ≡ rest (suc i)
    real :
        is_real (get_or t.hashes i 0) ≡ true
        → rest i ≡ (get_or t.keys i 0, get_or (values_of t) i 0) ∷ rest (suc i)

  round : (i : ℕ) → i < t.size → Round i
  unfolding entries_of
  round i h =
      let hl : i < length t.hashes = omega (arith, size.hashes) in
      let kl : i < length t.keys = omega (arith, size.keys) in
      let vl : i < length (values_of t) = omega (arith, size.values) in
      let dh = drop-cons t.hashes i hl in
      let dk = drop-cons t.keys i kl in
      let dv = drop-cons (values_of t) i vl in
      record {
        hash = read-ok t.hashes i hl;
        key = read-ok t.keys i kl;
        value = read-ok (values_of t) i vl;
        unreal = λ r. rw (dh, dk, dv, r);
        real = λ r. rw (dh, dk, dv, r);
      }

  rest-end : rest t.size ≡ []
  unfolding entries_of
  rest-end = rw (drop_all t.hashes t.size (omega (arith, size.hashes)))

  entries_from-rest : (left i : ℕ) → i + left ≡ t.size → entries_from t left i ≡ ok (rest i)
  unfolding entries_from
  entries_from-rest zero i e =
      let same : i ≡ t.size = omega arith in rw same (ap (λ es. ok es) (sym rest-end))
  entries_from-rest (suc left) i e =
      let r = round i (omega arith) in
      let next = entries_from-rest left (suc i) (omega arith) in
      let step : i + 1 ≡ suc i = omega arith in
      elim (Bool-cases (is_real (get_or t.hashes i 0))) [
        | inl live ↦ rw (r.hash, r.key, r.value, step, next, live, r.real live)
        | inr dead ↦ rw (r.hash, r.key, r.value, step, next, dead, r.unreal dead)
      ]

  collect-rest :
      (pick : HashTable → ℕ → Run ℕ) (f : ℕ × ℕ → ℕ)
      → ((i : ℕ) → i < t.size → pick t i ≡ ok (f (get_or t.keys i 0, get_or (values_of t) i 0)))
      → (served : ℕ → Bool) (left i k : ℕ) (xs : List ℕ) → i + left ≡ t.size
      → collect served pick t left i k xs
        ≡ ok (picked served f k (rest i) ++ (if all_served served k (rest i) then xs else []))
  unfolding collect picked all_served
  collect-rest pick f picks served zero i k xs e =
      let same : i ≡ t.size = omega arith in rw (same, rest-end)
  collect-rest pick f picks served (suc left) i k xs e =
      let r = round i (omega arith) in
      let step : i + 1 ≡ suc i = omega arith in
      elim (Bool-cases (is_real (get_or t.hashes i 0))) [
        | inl live ↦
            let item : ℕ × ℕ = (get_or t.keys i 0, get_or (values_of t) i 0) in
            rw (r.hash, live, picks i (omega arith), step, r.real live)
              (collect-rest pick f picks served left (suc i) (k + 1)
                  (prepended (served k) (f item) xs) (omega arith)
                ∙ ap (λ (l : List ℕ). ok l) (picked-cons served f k item (rest (suc i)) xs))
        | inr dead ↦
            rw (r.hash, dead, step, r.unreal dead)
              (collect-rest pick f picks served left (suc i) k xs (omega arith))
      ]

  find_from-rest :
      (p : ℕ → ℕ → Bool) (left i : ℕ)
      → i + left ≡ t.size
      → find_from p t left i ≡ ok (first_match p (rest i))
  unfolding find_from first_match
  find_from-rest p zero i e = let same : i ≡ t.size = omega arith in rw (same, rest-end)
  find_from-rest p (suc left) i e =
      let r = round i (omega arith) in
      let next = find_from-rest p left (suc i) (omega arith) in
      let step : i + 1 ≡ suc i = omega arith in
      elim (Bool-cases (is_real (get_or t.hashes i 0))) [
        | inl live ↦ elim (Bool-cases (p (get_or t.keys i 0) (get_or (values_of t) i 0))) [
          | inl hit ↦ rw (r.hash, r.key, r.value, live, r.real live, hit)
          | inr miss ↦ rw (r.hash, r.key, r.value, live, r.real live, miss, step) next
        ]
        | inr dead ↦ rw (r.hash, r.key, r.value, dead, r.unreal dead, step) next
      ]

no_rest : (xs : List ℕ) (b : Bool) → xs ++ (if b then [] else []) ≡ xs
no_rest [] true = refl
no_rest [] false = refl
no_rest (x ∷ xs) b = ap (λ (l : List ℕ). x ∷ l) (no_rest xs b)

-- What the walks over a table give, with the memory that `served` says: they all tell of the same
-- entries.
pub record Walks (c : Settings) (t : HashTable) (served : ℕ → Bool) : Type 0 where
  pub entries : List (ℕ × ℕ)
  pub all : foreach t ≡ ok entries
  pub keys : get_keys served t ≡ ok (picked served (λ e. e.0) 0 entries)
  pub values : get_values served t ≡ ok (picked served (λ e. e.1) 0 entries)
  pub found : (p : ℕ → ℕ → Bool) → find p t ≡ ok (first_match p entries)
  pub number : length entries ≡ t.nnodes
  pub view : (key : ℕ) → first_entry c key entries ≡ entry c t key

-- On a valid table no walk faults, and all go over the same entries in the same order: `foreach`
-- calls its function with each, `find` returns the value of the first one that its predicate holds
-- of, or NULL. `get_keys` and `get_values` return the keys or values in the opposite order: with
-- memory for every node, of all entries, and otherwise only of those after the last entry that there
-- was no memory for. The entries are as many as `nnodes` says, and the first of them under a key is
-- the table's entry.
pub walk-Walks :
    {c : Settings} {t : HashTable} → IsValid c t → (served : ℕ → Bool) → Walks c t served
unfolding foreach get_keys get_values find
walk-Walks {c} {t} valid served =
    let size = valid.sized in
    let kl : length t.keys ≡ length t.hashes = size.keys ∙ sym size.hashes in
    let vl : length (values_of t) ≡ length t.hashes = size.values ∙ sym size.hashes in
    record {
      entries = entries_of t.hashes t.keys (values_of t);
      all = entries_from-rest size t.size 0 (omega arith);
      keys =
          collect-rest size (λ s i. read s.keys i) (λ e. e.0) (λ i h. (round size i h).key) served
            t.size 0 0 [] (omega arith)
          ∙ ap (λ (l : List ℕ). ok l) (no_rest _ _);
      values =
          collect-rest size value_at (λ e. e.1) (λ i h. (round size i h).value) served t.size 0 0 []
            (omega arith)
          ∙ ap (λ (l : List ℕ). ok l) (no_rest _ _);
      found = λ p. find_from-rest size p t.size 0 (omega arith);
      number = length-entries_of t.hashes t.keys (values_of t) kl vl ∙ valid.nnodes;
      view = λ key.
          first_entry-entries_of c key t.hashes t.keys (values_of t) kl vl
          ∙ sym (entry-entry_at c t key);
    }

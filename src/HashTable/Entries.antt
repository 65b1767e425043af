-- ===== src/HashTable/Entries.antt =====
-- The entries of a table of src/hev-hash-table.c as a list.
use hev_lib.Base.{
  ◌+◌, ◌++◌, ◌&&◌, append_assoc, true, ℕ, zero, suc, ◌<◌, ◌≤◌, ◌≡◌, refl, sym, ap, ◌∙◌, Bool,
  Option, none, some, List, [], ◌∷◌, arith, if◌then◌else◌, length, get_or, drop, length-drop,
  empty-of_length, Bool-cases, inl, inr, Option-cases,
}
use hev_lib.HashTable.{HashTable, Settings, values_of, is_real}
use hev_lib.HashTable.Probe.{same_key}
use hev_lib.HashTable.Valid.{count}
use hev_lib.HashTable.View.{entry, place_of, entry-some, entry-none}

-- The entries of three arrays, in the order of the places.
unfoldable pub entries_of : (hashes keys values : List ℕ) → List (ℕ × ℕ)
entries_of [] ks vs = []
entries_of (h ∷ hs) [] vs = []
entries_of (h ∷ hs) (k ∷ ks) [] = []
entries_of (h ∷ hs) (k ∷ ks) (v ∷ vs) =
    let rest = entries_of hs ks vs in if is_real h then (k, v) ∷ rest else rest

-- The first entry of a list under a key.
unfoldable pub first_entry : Settings → ℕ → List (ℕ × ℕ) → Option (ℕ × ℕ)
first_entry c key [] = none
first_entry c key (e ∷ es) = if same_key c e.0 key then some e else first_entry c key es

pub drop-cons : (xs : List ℕ) (i : ℕ) → i < length xs → drop i xs ≡ get_or xs i 0 ∷ drop (suc i) xs
drop-cons [] i h = absurd (omega arith)
drop-cons (x ∷ xs) zero h = refl
drop-cons (x ∷ xs) (suc i) h = drop-cons xs i (omega arith)

pub drop_all : (xs : List ℕ) (n : ℕ) → length xs ≤ n → drop n xs ≡ []
drop_all xs n h = empty-of_length (drop n xs) (omega (arith, length-drop n xs))

pub length-entries_of :
    (hs ks vs : List ℕ)
    → length ks ≡ length hs
    → length vs ≡ length hs
    → length (entries_of hs ks vs) ≡ count is_real hs
unfolding entries_of count
length-entries_of [] ks vs e d = refl
length-entries_of (h ∷ hs) [] vs e d = absurd (omega arith)
length-entries_of (h ∷ hs) (k ∷ ks) [] e d = absurd (omega arith)
length-entries_of (h ∷ hs) (k ∷ ks) (v ∷ vs) e d =
    let rest = length-entries_of hs ks vs (omega arith) (omega arith) in
    elim (Bool-cases (is_real h)) [ inl r ↦ rw (r, rest) | inr r ↦ rw (r, rest) ]

-- The entry at a place that was found.
abbrev pub entry_at : (keys values : List ℕ) → Option ℕ → Option (ℕ × ℕ)
entry_at ks vs none = none
entry_at ks vs (some i) = some (get_or ks i 0, get_or vs i 0)

entry_at-suc :
    (k v : ℕ) (ks vs : List ℕ) (found : Option ℕ)
    → entry_at (k ∷ ks) (v ∷ vs) (elim found [ none ↦ none | some i ↦ some (suc i) ])
      ≡ entry_at ks vs found
entry_at-suc k v ks vs none = refl
entry_at-suc k v ks vs (some i) = refl

pub first_entry-entries_of :
    (c : Settings) (key : ℕ) (hs ks vs : List ℕ)
    → length ks ≡ length hs
    → length vs ≡ length hs
    → first_entry c key (entries_of hs ks vs) ≡ entry_at ks vs (place_of c key hs ks)
unfolding entries_of place_of first_entry
first_entry-entries_of c key [] ks vs e d = refl
first_entry-entries_of c key (h ∷ hs) [] vs e d = absurd (omega arith)
first_entry-entries_of c key (h ∷ hs) (k ∷ ks) [] e d = absurd (omega arith)
first_entry-entries_of c key (h ∷ hs) (k ∷ ks) (v ∷ vs) e d =
    let rest = first_entry-entries_of c key hs ks vs (omega arith) (omega arith) in
    let later = sym (entry_at-suc k v ks vs (place_of c key hs ks)) in
    elim (Bool-cases (is_real h)) [
      | inl r ↦ elim (Bool-cases (same_key c k key)) [
        | inl s ↦ rw (r, s)
        | inr s ↦ rw (r, s) (rest ∙ later)
      ]
      | inr r ↦ rw r (rest ∙ later)
    ]

pub entry-entry_at :
    (c : Settings) (t : HashTable) (key : ℕ)
    → entry c t key ≡ entry_at t.keys (values_of t) (place_of c key t.hashes t.keys)
entry-entry_at c t key = elim (Option-cases (place_of c key t.hashes t.keys)) [
  | inl e ↦ entry-none c t key e ∙ ap (λ o. entry_at t.keys (values_of t) o) (sym e)
  | inr (i, e) ↦ entry-some c t key i e ∙ ap (λ o. entry_at t.keys (values_of t) o) (sym e)
]

-- The value of the first entry that a predicate holds of, or NULL.
unfoldable pub first_match : (ℕ → ℕ → Bool) → List (ℕ × ℕ) → ℕ
first_match p [] = 0
first_match p (e ∷ es) = if p e.0 e.1 then e.1 else first_match p es

-- Whether the requests for all entries get memory, counted from `k` on.
unfoldable pub all_served : (served : ℕ → Bool) → ℕ → List (ℕ × ℕ) → Bool
all_served served k [] = true
all_served served k (e ∷ es) = served k && all_served served (k + 1) es

-- The items that entries give, the last entry's first: of those whose own request and all later
-- ones get memory.
unfoldable pub picked : (served : ℕ → Bool) → (ℕ × ℕ → ℕ) → ℕ → List (ℕ × ℕ) → List ℕ
unfolding all_served
picked served f k [] = []
picked served f k (e ∷ es) =
    picked served f (k + 1) es ++ (if all_served served k (e ∷ es) then f e ∷ [] else [])

-- One more item, and then all that `picked` is of.
pub picked-cons :
    (served : ℕ → Bool) (f : ℕ × ℕ → ℕ) (k : ℕ) (e : ℕ × ℕ) (es : List (ℕ × ℕ)) (xs : List ℕ)
    → picked served f (k + 1) es
        ++ (if all_served served (k + 1) es then (if served k then f e ∷ xs else []) else [])
      ≡ picked served f k (e ∷ es) ++ (if all_served served k (e ∷ es) then xs else [])
unfolding picked all_served
picked-cons served f k e es xs =
    let before = picked served f (k + 1) es in
    elim (Bool-cases (served k)) [
      | inl a ↦ elim (Bool-cases (all_served served (k + 1) es)) [
        | inl b ↦ rw (a, b) (sym (append_assoc before (f e ∷ []) xs))
        | inr b ↦ rw (a, b) (sym (append_assoc before [] []))
      ]
      | inr a ↦ elim (Bool-cases (all_served served (k + 1) es)) [
        | inl b ↦ rw (a, b) (sym (append_assoc before [] []))
        | inr b ↦ rw (a, b) (sym (append_assoc before [] []))
      ]
    ]

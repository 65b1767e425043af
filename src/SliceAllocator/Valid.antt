-- ===== src/SliceAllocator/Valid.antt =====
-- The invariant of the allocator of src/hev-memory-allocator-slice.c.
use hev_lib.Base.{
  ℕ, zero, suc, ◌+◌, ◌≤◌, ◌<◌, ◌≡◌, ◌≢◌, refl, sym, ap, ap₂, ◌∙◌, Bool, true, false, ◌||◌, Option,
  none, some, List, [], ◌∷◌, arith, ◌==◌, length, Bool-cases, inl, inr,
}
use hev_lib.SliceAllocator.{
  max_cached_slice_size, max_cached_slice_count, Slice, Heap, Allocator, set_at,
}

abbrev pub among : ℕ → List ℕ → Bool
among p [] = false
among p (q ∷ qs) = (p == q) || among p qs

-- The list from `p` on: blocks of list `i`, each once, ending in NULL.
abbrev pub Chain : Heap → (i p : ℕ) → List ℕ → Type 0
Chain h i p [] = p ≡ 0
Chain h i p (q ∷ qs) =
    (p ≡ q)
    × (q ≢ 0)
    × (among q qs ≡ false)
    × (s : Slice) × (h q ≡ some s)
    × (s.owner ≡ some i)
    × Chain h i s.next qs

-- The number of blocks in the first `n` lists.
unfoldable pub total : ℕ → (ℕ → List ℕ) → ℕ
total zero cs = 0
total (suc n) cs = total n cs + length (cs n)

-- `cs` tells which blocks are in each list.
pub record IsValid (a : Allocator) (cs : ℕ → List ℕ) : Type 0 where
  pub chains : (i : ℕ) → Chain a.heap i (a.cached_mslices i) (cs i)
  pub null : a.heap 0 ≡ none
  pub counted : a.cached_count ≡ total max_cached_slice_size cs
  pub bounded : a.cached_count ≤ max_cached_slice_count
  pub owners :
      (p : ℕ) (s : Slice) (i : ℕ) → a.heap p ≡ some s → s.owner ≡ some i → i < max_cached_slice_size

-- A block that was handed out and not given back.
pub record InUse (a : Allocator) (cs : ℕ → List ℕ) (p : ℕ) : Type 0 where
  pub slice : Slice
  pub at : a.heap p ≡ some slice
  pub out : (i : ℕ) → among p (cs i) ≡ false

pub set_at_self : {A : Type 0} (f : ℕ → A) (p : ℕ) (c : A) → set_at f p c p ≡ c
set_at_self f p c = let e : (p == p) ≡ true = ground arith in rw e

pub set_at_ne : {A : Type 0} (f : ℕ → A) (p q : ℕ) (c : A) → q ≢ p → set_at f p c q ≡ f q
set_at_ne f p q c h = let e : (q == p) ≡ false = ground arith in rw e

-- What is among some blocks is live and of that list.
pub Chain-among :
    (h : Heap) (i p q : ℕ) (qs : List ℕ)
    → Chain h i p qs
    → among q qs ≡ true
    → (s : Slice) × (h q ≡ some s) × (s.owner ≡ some i)
Chain-among h i p q [] c m = cc
Chain-among h i p q (r ∷ qs) (e, live, out, s, at, own, c) m = elim (Bool-cases (q == r)) [
  | inl hit ↦ let same : q ≡ r = ground arith in (s, rw same at, own)
  | inr miss ↦ Chain-among h i s.next q qs c (ground arith)
]

pub frame :
    (h : Heap) (i p b : ℕ) (c : Option Slice) (qs : List ℕ)
    → Chain h i p qs
    → among b qs ≡ false
    → Chain (set_at h b c) i p qs
frame h i p b c [] e out = e
frame h i p b c (q ∷ qs) (e, live, alone, s, at, own, rest) out = (
  e,
  live,
  alone,
  s,
  set_at_ne h b q c (λ same. ground arith) ∙ at,
  own,
  frame h i s.next b c qs rest (ground arith),
)

-- What no block is at is among no list.
pub free_out :
    {a : Allocator} {cs : ℕ → List ℕ}
    → IsValid a cs
    → (p : ℕ) → a.heap p ≡ none
    → (i : ℕ) → among p (cs i) ≡ false
free_out {a} {cs} valid p free i = elim (Bool-cases (among p (cs i))) [
  | inl m ↦
      let (s, at, own) = Chain-among a.heap i (a.cached_mslices i) p (cs i) (valid.chains i) m in
      let k = sym free ∙ at in cc
  | inr o ↦ o
]

total-set_at_of_le :
    (n i : ℕ) (cs : ℕ → List ℕ) (xs : List ℕ) → n ≤ i → total n (set_at cs i xs) ≡ total n cs
unfolding total
total-set_at_of_le zero i cs xs h = refl
total-set_at_of_le (suc n) i cs xs h =
    ap₂ ◌+◌ (total-set_at_of_le n i cs xs (omega arith))
      (ap length (set_at_ne cs i n xs (λ e. omega arith)))

pub total-set_at :
    (n i : ℕ) (cs : ℕ → List ℕ) (xs : List ℕ)
    → i < n
    → total n (set_at cs i xs) + length (cs i) ≡ total n cs + length xs
unfolding total
total-set_at zero i cs xs h = absurd (omega arith)
total-set_at (suc n) i cs xs h = elim (Bool-cases (n == i)) [
  | inl e ↦
      let same : n ≡ i = ground arith in
      let here : length (set_at cs i xs n) ≡ length xs =
        rw same (ap length (set_at_self cs i xs)) in
      let old : length (cs n) ≡ length (cs i) = ap (λ (k : ℕ). length (cs k)) same in
      omega (arith, total-set_at_of_le n i cs xs (omega arith), here, old)
  | inr e ↦
      let ne : n ≢ i = λ s. ground arith in
      let here : length (set_at cs i xs n) ≡ length (cs n) = ap length (set_at_ne cs i n xs ne) in
      omega (arith, total-set_at n i cs xs (ground arith), here)
]

-- ===== src/SliceAllocator/Ending.antt =====
-- The end of an allocator of src/hev-memory-allocator-slice.c.
use hev_lib.Base.{
  ℕ, zero, suc, ◌+◌, ◌≤◌, ◌<◌, ◌≡◌, refl, sym, ap, ◌∙◌, Bool, true, false, ◌||◌, Option, none, some,
  List, [], ◌∷◌, arith, ◌==◌, if◌then◌else◌, length, Bool-cases, inl, inr,
}
use hev_lib.SliceAllocator.{
  max_cached_slice_size, max_cached_slice_count, Slice, Heap, Allocator, Run, ok, set_at, free_list,
  free_lists, destroy,
}
use hev_lib.SliceAllocator.Valid.{among, Chain, total, IsValid, InUse, Chain-among, frame}
use hev_lib.SliceAllocator.Blocks.{slice_at-ok}

-- A list of blocks is freed.
record Freed (h : Heap) (ps : List ℕ) (run : Run Heap) : Type 0 where
  pub heap : Heap
  pub returns : run ≡ ok heap
  pub now : (q : ℕ) → heap q ≡ (if among q ps then none else h q)

free_list-Freed :
    (ps : List ℕ) (f : ℕ) (h : Heap) (i p : ℕ)
    → Chain h i p ps
    → length ps < f
    → Freed h ps (free_list f h p)
unfolding free_list
free_list-Freed ps zero h i p c few = absurd (omega arith)
free_list-Freed [] (suc f) h i p e few =
    let done : (p == 0) ≡ true = ground arith in
    record { heap = h; returns = rw done refl; now = λ q. refl }
free_list-Freed (r ∷ ps) (suc f) h i p (e, live, alone, s, at, own, rest) few =
    let more : (p == 0) ≡ false = ground arith in
    let same : p ≡ r = e in
    let found : h p ≡ some s = ap h e ∙ at in
    let k =
      free_list-Freed ps f (set_at h r none) i s.next (frame h i s.next r none ps rest alone)
        (omega arith) in
    record {
      heap = k.heap;
      returns =
          rw (more, slice_at-ok h p s (λ z. live (sym e ∙ z)) found)
            (ap (λ b. free_list f (set_at h b none) s.next) e ∙ k.returns);
      now = λ q. k.now q ∙ elim (Bool-cases (q == r)) [
        | inl hit ↦ elim (Bool-cases (among q ps)) [
          | inl m ↦ rw (hit, m) refl
          | inr m ↦ rw (hit, m) refl
        ]
        | inr miss ↦ rw miss refl
      ];
    }

length-le-total : (n i : ℕ) (cs : ℕ → List ℕ) → i < n → length (cs i) ≤ total n cs
unfolding total
length-le-total zero i cs low = absurd (omega arith)
length-le-total (suc n) i cs low = elim (Bool-cases (i == n)) [
  | inl e ↦
      let same : length (cs i) ≡ length (cs n) = ap (λ (k : ℕ). length (cs k)) (ground arith) in
      omega arith
  | inr e ↦ omega (arith, length-le-total n i cs (ground arith))
]

-- What is in one of the first `n` lists.
swept : (ℕ → List ℕ) → ℕ → ℕ → Bool
swept cs zero q = false
swept cs (suc n) q = swept cs n q || among q (cs n)

swept-among :
    (cs : ℕ → List ℕ) (n q : ℕ) → swept cs n q ≡ true → (j : ℕ) × (j < n) × (among q (cs j) ≡ true)
unfolding swept
swept-among cs zero q e = absurd cc
swept-among cs (suc n) q e = elim (Bool-cases (among q (cs n))) [
  | inl m ↦ (n, omega arith, m)
  | inr m ↦ let (j, low, k) = swept-among cs n q (ground arith) in (j, omega arith, k)
]

among-swept : (cs : ℕ → List ℕ) (n j q : ℕ) → j < n → among q (cs j) ≡ true → swept cs n q ≡ true
unfolding swept
among-swept cs zero j q low m = absurd (omega arith)
among-swept cs (suc n) j q low m = elim (Bool-cases (j == n)) [
  | inl e ↦
      let here : among q (cs n) ≡ true = ap (λ (k : ℕ). among q (cs k)) (ground arith) ∙ m in
      ground arith
  | inr e ↦ let before = among-swept cs n j q (ground arith) m in ground arith
]

-- A chain needs its own blocks only.
Chain_ext :
    (h h' : Heap) (i p : ℕ) (qs : List ℕ)
    → ((q : ℕ) → among q qs ≡ true → h' q ≡ h q)
    → Chain h i p qs
    → Chain h' i p qs
Chain_ext h h' i p [] same e = e
Chain_ext h h' i p (r ∷ qs) same (e, live, alone, s, at, own, rest) = (
  e,
  live,
  alone,
  s,
  same r (ground arith) ∙ at,
  own,
  Chain_ext h h' i s.next qs (λ q m. same q (ground arith)) rest,
)

if_twice :
    (b c : Bool) (x : Option Slice)
    → (if c then none else if b then none else x) ≡ (if b || c then none else x)
if_twice true true x = refl
if_twice true false x = refl
if_twice false true x = refl
if_twice false false x = refl

module _ (a : Allocator) (cs : ℕ → List ℕ) (valid : IsValid a cs) where
  -- A block is in one list only.
  alone_in : (n i q : ℕ) → n ≤ i → among q (cs i) ≡ true → swept cs n q ≡ false
  alone_in n i q low m = elim (Bool-cases (swept cs n q)) [
    | inl e ↦
        let (j, below, m') = swept-among cs n q e in
        let (s, at, own) = Chain-among a.heap i (a.cached_mslices i) q (cs i) (valid.chains i) m in
        let (t, at', own') =
          Chain-among a.heap j (a.cached_mslices j) q (cs j) (valid.chains j) m' in
        let same : s ≡ t = let k = sym at ∙ at' in cc in
        let both : i ≡ j = let k = sym own ∙ ap (λ (x : Slice). x.owner) same ∙ own' in cc in
        absurd (omega arith)
    | inr e ↦ e
  ]

  -- The heap once the first `n` lists are freed.
  abbrev Swept : ℕ → Heap → Type 0
  Swept n h = (q : ℕ) → h q ≡ (if swept cs n q then none else a.heap q)

  Swept-at : (n m : ℕ) (h : Heap) → n ≡ m → Swept n h → Swept m h
  Swept-at n m h e k q = k q ∙ ap (λ j. if swept cs j q then none else a.heap q) e

  none-Swept : Swept 0 a.heap
  unfolding swept
  none-Swept q = refl

  free_lists-Swept :
      (f left i : ℕ) (h : Heap)
      → max_cached_slice_count < f
      → i + left ≡ max_cached_slice_size
      → Swept i h
      → (h' : Heap) × (free_lists f left i a h ≡ ok h') × Swept max_cached_slice_size h'
  unfolding free_lists swept
  free_lists-Swept f zero i h rounds count before =
      (h, refl, Swept-at i max_cached_slice_size h (omega arith) before)
  free_lists-Swept f (suc left) i h rounds count before =
      let still =
        Chain_ext a.heap h i (a.cached_mslices i) (cs i)
          (λ q m. before q ∙ (rw (alone_in i i q (omega arith) m) refl)) (valid.chains i) in
      let short = length-le-total max_cached_slice_size i cs (omega arith) in
      let k =
        free_list-Freed (cs i) f h i (a.cached_mslices i) still
          (omega (arith, short, valid.counted, valid.bounded)) in
      let next : Swept (suc i) k.heap = λ q.
        k.now q
        ∙ ap (λ (x : Option Slice). if among q (cs i) then none else x) (before q)
        ∙ if_twice (swept cs i q) (among q (cs i)) (a.heap q) in
      let (h', run, after) =
        free_lists-Swept f left (i + 1) k.heap rounds (omega arith)
          (Swept-at (suc i) (i + 1) k.heap (omega arith) next) in
      (h', rw k.returns run, after)

  -- What is left of an allocator.
  pub record Emptied (run : Run Heap) : Type 0 where
    pub heap : Heap
    pub returns : run ≡ ok heap
    pub freed : (q i : ℕ) → among q (cs i) ≡ true → heap q ≡ none
    pub kept : (q : ℕ) → InUse a cs q → heap q ≡ a.heap q
    pub only : (q : ℕ) (s : Slice) → heap q ≡ some s → InUse a cs q

  listed : (q i : ℕ) → among q (cs i) ≡ true → swept cs max_cached_slice_size q ≡ true
  listed q i m =
      let (s, at, own) = Chain-among a.heap i (a.cached_mslices i) q (cs i) (valid.chains i) m in
      among-swept cs max_cached_slice_size i q (valid.owners q s i at own) m

  -- With more than 1000 rounds for each list, `destroy` of a valid allocator ends: it frees each block
  -- that waits in a list, once, and leaves exactly the blocks that are in use, as they were.
  pub destroy-Emptied : (rounds : ℕ) → max_cached_slice_count < rounds → Emptied (destroy rounds a)
  unfolding destroy
  destroy-Emptied rounds enough =
      let (h, run, now) =
        free_lists-Swept rounds max_cached_slice_size 0 a.heap enough refl none-Swept in
      record {
        heap = h;
        returns = run;
        freed = λ q i m. now q ∙ rw (listed q i m) refl;
        kept = λ q used. now q ∙ elim (Bool-cases (swept cs max_cached_slice_size q)) [
          | inl e ↦
              let (j, low, m) = swept-among cs max_cached_slice_size q e in
              let o = used.out j in absurd cc
          | inr e ↦ rw e refl
        ];
        only = λ q s at. elim (Bool-cases (swept cs max_cached_slice_size q)) [
          | inl e ↦ let k : none ≡ some s = rw e at (sym (now q) ∙ at) in absurd cc
          | inr e ↦ record {
            slice = s;
            at = rw e at (sym (now q) ∙ at);
            out = λ i. elim (Bool-cases (among q (cs i))) [
              | inl m ↦ let l = listed q i m in absurd cc
              | inr m ↦ m
            ];
          }
        ];
      }

-- ===== src/SliceAllocator/Requests.antt =====
-- Requests to src/hev-memory-allocator-slice.c: which blocks are in use.
use hev_lib.Base.{
  ℕ, ◌+◌, ◌-◌, ◌≤◌, ◌<◌, ◌≡◌, ◌≢◌, ◌⊎◌, inl, inr, refl, ap, true, false, none, some, List, [], ◌∷◌,
  arith, ◌==◌, leb, Bool-cases, ◌^◌, ◌%◌, ltb,
}
use hev_lib.SliceAllocator.{
  header, with_header, max_cached_slice_size, Allocator, alloc_small, alloc_large, alloc,
}
use hev_lib.SliceAllocator.Valid.{Chain, IsValid}
use hev_lib.SliceAllocator.Blocks.{slice_at-ok, Given, null-Given, fresh-Given, popped-Given}

module _ (a : Allocator) (cs : ℕ → List ℕ) (valid : IsValid a cs) where
  small-Given :
      (i fresh : ℕ) (ps : List ℕ)
      → cs i ≡ ps
      → i < max_cached_slice_size
      → (fresh ≡ 0) ⊎ (a.heap fresh ≡ none)
      → Given a cs (i + 1) fresh (alloc_small a i fresh)
  unfolding alloc_small
  small-Given i fresh [] list low free =
      let chain : Chain a.heap i (a.cached_mslices i) [] = rw list at (valid.chains i) in
      let empty : (a.cached_mslices i == 0) ≡ true = rw chain in
      elim (Bool-cases (fresh == 0)) [
        | inl z ↦
            null-Given a cs valid (i + 1) fresh (alloc_small a i fresh) (rw (empty, z))
              (inr (ground arith))
        | inr n ↦
            let live : fresh ≢ 0 = λ e. ground arith in
            let unused : a.heap fresh ≡ none = elim free [ inl z ↦ absurd (live z) | inr u ↦ u ] in
            let fits : leb (i + 1) max_cached_slice_size ≡ true = ground arith in
            fresh-Given a cs valid fresh (some i) live unused (λ j e. ground arith) (i + 1)
              (alloc_small a i fresh) (rw (empty, n))
              (rw fits (ap (λ (k : ℕ). some k) (omega arith)))
      ]
  small-Given i fresh (p ∷ ps) list low free =
      let (e, live, alone, s, at, own, rest) = rw list at (valid.chains i) in
      let full : (a.cached_mslices i == 0) ≡ false = ground arith in
      popped-Given a cs valid i p ps s list live alone at own rest fresh (alloc_small a i fresh)
        (rw (full, e, slice_at-ok a.heap p s live at))

-- From a valid allocator, with a malloc that returns NULL or a block that is not live, and not NULL
-- for a request of more than 8192 bytes, which with its header is below 2 ^ 64, a request ends well and keeps the allocator valid. It is
-- refused only for 0 bytes or where malloc refuses; otherwise the block was not in use, is in use
-- then and has the size class of the request. The other blocks are in use just as before.
pub alloc-Given :
    (a : Allocator) (cs : ℕ → List ℕ) (size fresh : ℕ)
    → IsValid a cs
    → (fresh ≡ 0) ⊎ (a.heap fresh ≡ none)
    → (size ≤ max_cached_slice_size) ⊎ ((fresh ≢ 0) × (header + size < 2 ^ 64))
    → Given a cs size fresh (alloc a size fresh)
unfolding alloc alloc_large
alloc-Given a cs size fresh valid free large = elim (Bool-cases (size == 0)) [
  | inl z ↦ null-Given a cs valid size fresh (alloc a size fresh) (rw z) (inl (ground arith))
  | inr n ↦ elim (Bool-cases (leb size max_cached_slice_size)) [
    | inl fits ↦
        let pos : size ≢ 0 = λ z. ground arith in
        let same : size - 1 + 1 ≡ size = omega arith in
        let r = small-Given a cs valid (size - 1) fresh (cs (size - 1)) refl (ground arith) free in
        rw (n, fits) (rw same at r)
    | inr big ↦
        let enough : (fresh ≢ 0) × (header + size < 2 ^ 64) = elim large [
          | inl h ↦ absurd (ground arith)
          | inr l ↦ l
        ] in
        let live = enough.0 in
        let below = enough.1 in
        let whole : ltb (with_header size) header ≡ false =
          (let k : (header + size) % 2 ^ 64 ≡ header + size = omega arith in rw k (ground arith)) in
        let unused : a.heap fresh ≡ none = elim free [ inl z ↦ absurd (live z) | inr u ↦ u ] in
        let apart : (fresh == 0) ≡ false = ground arith in
        fresh-Given a cs valid fresh none live unused (λ i e. cc) size (alloc a size fresh)
          (rw (n, big, apart, whole) refl) (rw big)
  ]
]

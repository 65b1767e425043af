-- ===== src/SliceAllocator.antt =====
-- src/hev-memory-allocator-slice.c: an allocator that keeps freed blocks for the next request of the
-- same size.
--
-- A block starts with a header, `struct _HevMemorySlice`, and its address is that of the header; what
-- is handed out lies right behind it. NULL is 0. What malloc returns is an argument.
pub mod Valid
pub mod Blocks
pub mod Requests
pub mod Releases
pub mod RoundTrip
pub mod Ending
mod Tests
use hev_lib.Base.{
  ℕ, zero, suc, ◌+◌, ◌-◌, ◌*◌, ◌%◌, ◌^◌, Bool, true, false, Option, none, some, List, [], ◌∷◌, ◌||◌,
  leb, ltb, ◌==◌, if◌then◌else◌,
}

abbrev pub max_cached_slice_size : ℕ
max_cached_slice_size = 8192

abbrev pub max_cached_slice_count : ℕ
max_cached_slice_count = 1000

-- `owner` is the index of a list of the allocator, `none` for NULL. malloc writes nothing, so what
-- `next` is before it is set does not matter: the code reads it only after it was.
pub record Slice : Type 0 where
  pub next : ℕ
  pub owner : Option ℕ

abbrev pub Heap : Type 0
Heap = ℕ → Option Slice

-- `struct _HevMemoryAllocatorSlice`, with the blocks that malloc has given and free has not taken.
pub record Allocator : Type 0 where
  pub ref_count : ℕ
  pub cached_count : ℕ
  pub cached_mslices : ℕ → ℕ
  pub heap : Heap

-- `fault` is an access to what is no live block.
pub data Run (A : Type 0) : Type 0 where
  ok : A → Run A
  fault : Run A
  stuck : Run A

abbrev pub set_at {ℓ} : {A : Type ℓ} → (ℕ → A) → ℕ → A → ℕ → A
set_at f p c q = if q == p then c else f q

unfoldable pub slice_at : Heap → ℕ → Run Slice
slice_at h p = if p == 0 then fault else elim (h p) [ none ↦ fault | some s ↦ ok s ]

infixl 5 ◌>>=◌
abbrev pub ◌>>=◌ : {A B : Type 0} → Run A → (A → Run B) → Run B
ok a >>= f = f a
fault >>= f = fault
stuck >>= f = stuck

-- The allocator that malloc has memory for.
unfoldable pub slice_new : (served : Bool) → Option Allocator
slice_new served =
    if served
    then some
        (record { ref_count = 1; cached_count = 0; cached_mslices = λ i. 0; heap = λ p. none })
    else none

-- `sizeof (HevMemorySlice)`
abbrev pub header : ℕ
header = 16

-- `sizeof (HevMemorySlice) + size`, a `size_t`
abbrev pub with_header : (size : ℕ) → ℕ
with_header size = (header + size) % 2 ^ 64

-- malloc of `with_header size` bytes; a write to the header through NULL, or past a block that is too
-- small for it, is a fault.
unfoldable pub alloc_large : Allocator → (size fresh : ℕ) → Run (ℕ × Allocator)
alloc_large a size fresh =
    if (fresh == 0) || ltb (with_header size) header
    then fault
    else ok
        (fresh, record a { heap = set_at a.heap fresh (some (record { next = 0; owner = none })) })

unfoldable pub alloc_small : Allocator → (class fresh : ℕ) → Run (ℕ × Allocator)
alloc_small a i fresh =
    if a.cached_mslices i == 0
    then (if fresh == 0
        then ok (0, a)
        else ok (
          fresh,
          record a { heap = set_at a.heap fresh (some (record { next = 0; owner = some i })) },
        ))
    else (slice_at a.heap (a.cached_mslices i) >>= λ s. ok (
      a.cached_mslices i,
      record a {
        cached_mslices = set_at a.cached_mslices i s.next;
        cached_count = (a.cached_count + (2 ^ 32 - 1)) % 2 ^ 32;
      },
    ))

-- What `alloc` returns is the block's address, 0 for NULL.
unfoldable pub alloc : Allocator → (size fresh : ℕ) → Run (ℕ × Allocator)
unfolding alloc_small alloc_large
alloc a size fresh =
    if size == 0
    then ok (0, a)
    else if leb size max_cached_slice_size
    then alloc_small a (size - 1) fresh
    else alloc_large a size fresh

unfoldable pub release : Allocator → (block : ℕ) → Run Allocator
release a p = slice_at a.heap p >>= λ s. elim s.owner [
  | none ↦ ok (record a { heap = set_at a.heap p none })
  | some i ↦
      if leb max_cached_slice_count a.cached_count
      then ok (record a { heap = set_at a.heap p none })
      else ok (record a {
        heap = set_at a.heap p (some (record { next = a.cached_mslices i; owner = some i }));
        cached_mslices = set_at a.cached_mslices i p;
        cached_count = (a.cached_count + 1) % 2 ^ 32;
      })
]

-- The loop over one list of `destroy`.
unfoldable pub free_list : (rounds : ℕ) → Heap → (iter : ℕ) → Run Heap
free_list zero h p = stuck
free_list (suc f) h p =
    if p == 0 then ok h else (slice_at h p >>= λ s. free_list f (set_at h p none) s.next)

-- The lists from index `i` on, `left` of them.
unfoldable pub free_lists : (rounds left i : ℕ) → Allocator → Heap → Run Heap
unfolding free_list
free_lists f zero i a h = ok h
free_lists f (suc left) i a h =
    free_list f h (a.cached_mslices i) >>= λ h'. free_lists f left (i + 1) a h'

unfoldable pub destroy : (rounds : ℕ) → Allocator → Run Heap
unfolding free_lists
destroy f a = free_lists f max_cached_slice_size 0 a a.heap

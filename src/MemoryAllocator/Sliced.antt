-- ===== src/MemoryAllocator/Sliced.antt =====
-- src/hev-memory-allocator-slice.c as an allocator of src/hev-memory-allocator.c: its handlers, and
-- what the default allocator does with them.
use hev_lib.Base.{
  ℕ, ◌+◌, ◌-◌, ◌<◌, ◌≤◌, ◌≡◌, ◌≢◌, ◌⊎◌, refl, sym, ap, ◌∙◌, false, none, some, List, arith, ◌==◌,
  if◌then◌else◌, ◌^◌, ◌%◌,
}
use hev_lib.SliceAllocator
use hev_lib.SliceAllocator.{
  header, with_header, Allocator, Slice, Run, release, destroy, max_cached_slice_size,
  max_cached_slice_count,
}
use hev_lib.SliceAllocator.Valid.{IsValid, InUse}
use hev_lib.SliceAllocator.Blocks.{Given}
use hev_lib.SliceAllocator.Requests.{alloc-Given}
use hev_lib.SliceAllocator.Releases.{address}
use hev_lib.SliceAllocator.RoundTrip.{release-alloc}
use hev_lib.MemoryAllocator.{
  given, MemoryAllocator, World, Outcome, ok, fault, Cmd, Outside, hev_malloc, hev_free,
}
use hev_lib.MemoryAllocator.Defaults.{hev_malloc-there, hev_free-there}

-- `slice + 1`
abbrev pub user : (slice : ℕ) → ℕ
user b = if b == 0 then 0 else b + header

abbrev lift : {A B : Type 0} → Run A → (A → Outcome Allocator B) → Outcome Allocator B
lift (SliceAllocator.ok a) k = k a
lift SliceAllocator.fault k = fault
lift SliceAllocator.stuck k = fault

unfoldable pub slice_alloc : Outside Allocator → (size : ℕ) → Cmd Allocator ℕ
slice_alloc o size w =
    lift (SliceAllocator.alloc w.others size (o.malloc (with_header size) w))
      (λ r. ok (user r.0) (record w { others = r.1 }))

-- `(HevMemorySlice *) ptr - 1`, which wraps around for NULL
abbrev pub slice_of : (ptr : ℕ) → ℕ
slice_of p = (p + (2 ^ 64 - header)) % 2 ^ 64

unfoldable pub slice_free : (ptr : ℕ) → Cmd Allocator (Unit {0})
slice_free p w = lift (release w.others (slice_of p)) (λ a. ok tt (record w { others = a }))

unfoldable pub slice_destroy : (rounds : ℕ) → Cmd Allocator (Unit {0})
slice_destroy f w =
    lift (destroy f w.others) (λ h. ok tt (record w { others = record w.others { heap = h } }))

abbrev slice_alloc_at : ℕ
slice_alloc_at = 1

abbrev slice_free_at : ℕ
slice_free_at = 2

abbrev slice_destroy_at : ℕ
slice_destroy_at = 3

-- What `hev_memory_allocator_slice_new` puts into its base.
abbrev pub sliced : MemoryAllocator
sliced = record {
  alloc = given slice_alloc_at;
  free = given slice_free_at;
  destroy = some slice_destroy_at;
  ref_count = 1;
}

-- The handlers at their addresses.
abbrev pub installed : (rounds : ℕ) → Outside Allocator → Outside Allocator
installed rounds o = record o {
  alloc = λ f s size. if f == slice_alloc_at then slice_alloc o size else o.alloc f s size;
  free = λ f s p. if f == slice_free_at then slice_free p else o.free f s p;
  destroy = λ f s. if f == slice_destroy_at then slice_destroy rounds else o.destroy f s;
}

module _ (rounds : ℕ) (o : Outside Allocator) (w : World Allocator) (s c : ℕ) (live : s ≢ 0)
    (set : w.default_allocator ≡ s)
    (at : w.allocators s ≡ some (record sliced { ref_count = c })) where
  -- What `hev_malloc` returns is what the slice allocator gives, behind its header.
  pub record Handed (cs : ℕ → List ℕ) (size : ℕ) : Type 0 where
    pub given_back :
        Given w.others cs size
          (o.malloc (with_header size) w)
          (SliceAllocator.alloc w.others size (o.malloc (with_header size) w))
    pub returns :
        hev_malloc (installed rounds o) size w
        ≡ ok (user given_back.block) (record w { others = given_back.after })

  -- While the default allocator is a valid slice allocator, and malloc returns NULL or a block that is
  -- not live, `hev_malloc` for at most 8192 bytes, or where malloc has the memory and the size with its
  -- header is below 2 ^ 64, returns what lies behind the header of a block as the slice allocator
  -- promises it, with every other block as it was.
  pub hev_malloc-Handed :
      (cs : ℕ → List ℕ) (size : ℕ)
      → IsValid w.others cs
      → (o.malloc (with_header size) w ≡ 0) ⊎ (w.others.heap (o.malloc (with_header size) w) ≡ none)
      → (size ≤ max_cached_slice_size)
        ⊎ ((o.malloc (with_header size) w ≢ 0) × (header + size < 2 ^ 64))
      → Handed cs size
  unfolding slice_alloc
  hev_malloc-Handed cs size valid free large =
      let g = alloc-Given w.others cs size (o.malloc (with_header size) w) valid free large in
      record {
        given_back = g;
        returns =
            rw
              (
                hev_malloc-there (installed rounds o) w s (record sliced { ref_count = c }) live set
                    at size,
                g.returns,
              )
              refl;
      }

  -- A block that is given back and asked for again.
  pub record Reused (p i : ℕ) : Type 0 where
    pub between : World Allocator
    pub after : World Allocator
    pub freed : hev_free (installed rounds o) (user p) w ≡ ok tt between
    pub returns : hev_malloc (installed rounds o) (i + 1) between ≡ ok (user p) after
    pub count : after.others.cached_count ≡ w.others.cached_count
    pub heads : (j : ℕ) → after.others.cached_mslices j ≡ w.others.cached_mslices j
    pub block : (sl : Slice) × (after.others.heap p ≡ some sl) × (sl.owner ≡ some i)
    pub others : (q : ℕ) → q ≢ p → after.others.heap q ≡ w.others.heap q
    pub outside : record after { others = w.others } ≡ w

  -- While the default allocator is a valid slice allocator with fewer than 1000 blocks that wait,
  -- `hev_free` of a block of a size class and `hev_malloc` of that size return the same pointer. The
  -- block has its owner again, and the lists, their counter and every other block are as they were.
  pub free-malloc-Reused :
      (cs : ℕ → List ℕ) (p i : ℕ)
      → IsValid w.others cs
      → InUse w.others cs p
      → (sl : Slice) → w.others.heap p ≡ some sl
      → sl.owner ≡ some i
      → w.others.cached_count < max_cached_slice_count
      → p < 2 ^ 64
      → Reused p i
  unfolding slice_alloc slice_free
  free-malloc-Reused cs p i valid used sl held own room low =
      let first = release-alloc w.others cs p i 0 valid used sl held own room in
      let between : World Allocator = record w { others = first.between } in
      let fresh = o.malloc (with_header (i + 1)) between in
      let r = release-alloc w.others cs p i fresh valid used sl held own room in
      let same : r.between ≡ first.between = let k = sym r.released ∙ first.released in cc in
      let again : SliceAllocator.alloc first.between (i + 1) fresh
          ≡ SliceAllocator.ok (p, r.after) =
        ap (λ a. SliceAllocator.alloc a (i + 1) fresh) (sym same) ∙ r.requested in
      let there : p ≢ 0 = address w.others cs valid p used in
      let placed : (p == 0) ≡ false = ground arith in
      let front : slice_of (p + header) ≡ p = omega arith in
      let x : MemoryAllocator = record sliced { ref_count = c } in
      record {
        between = between;
        after = record w { others = r.after };
        freed =
            rw
              (
                placed,
                hev_free-there (installed rounds o) w s x live set at (p + header),
                front,
                first.released,
              )
              refl;
        returns =
            rw (hev_malloc-there (installed rounds o) between s x live set at (i + 1), again) refl;
        count = r.count;
        heads = r.heads;
        block = r.block;
        others = r.others;
        outside = refl;
      }

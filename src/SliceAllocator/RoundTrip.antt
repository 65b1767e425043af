-- ===== src/SliceAllocator/RoundTrip.antt =====
-- A release to src/hev-memory-allocator-slice.c and a request for the same size.
use hev_lib.Base.{
  ℕ, ◌+◌, ◌-◌, ◌%◌, ◌^◌, ◌<◌, ◌≡◌, ◌≢◌, inl, inr, refl, sym, ap, true, false, some, List, arith,
  ◌==◌, leb, Bool-cases,
}
use hev_lib.SliceAllocator.{
  max_cached_slice_size, max_cached_slice_count, Slice, Allocator, ok, set_at, alloc_small, alloc,
  release,
}
use hev_lib.SliceAllocator.Valid.{IsValid, InUse, set_at_self, set_at_ne}
use hev_lib.SliceAllocator.Blocks.{slice_at-ok}
use hev_lib.SliceAllocator.Releases.{address}

-- The block comes back, and all but the link in its header is as it was.
pub record CameBack (a : Allocator) (p i fresh : ℕ) : Type 0 where
  pub between : Allocator
  pub after : Allocator
  pub released : release a p ≡ ok between
  pub requested : alloc between (i + 1) fresh ≡ ok (p, after)
  pub count : after.cached_count ≡ a.cached_count
  pub heads : (j : ℕ) → after.cached_mslices j ≡ a.cached_mslices j
  pub block : (s : Slice) × (after.heap p ≡ some s) × (s.owner ≡ some i)
  pub others : (q : ℕ) → q ≢ p → after.heap q ≡ a.heap q

set_at_twice : (f : ℕ → ℕ) (i v j : ℕ) → set_at (set_at f i v) i (f i) j ≡ f j
set_at_twice f i v j = elim (Bool-cases (j == i)) [
  | inl e ↦ let same : j ≡ i = ground arith in rw e (ap f (sym same))
  | inr e ↦ rw e
]

-- While fewer than 1000 blocks wait, giving back a block of a size class and asking for that size
-- gives the same block, without malloc, and the allocator as it was.
pub release-alloc :
    (a : Allocator) (cs : ℕ → List ℕ) (p i fresh : ℕ)
    → IsValid a cs
    → InUse a cs p
    → (s : Slice) → a.heap p ≡ some s
    → s.owner ≡ some i
    → a.cached_count < max_cached_slice_count
    → CameBack a p i fresh
unfolding release alloc alloc_small
release-alloc a cs p i fresh valid u s at own room =
    let live : p ≢ 0 = address a cs valid p u in
    let low : i < max_cached_slice_size = valid.owners p s i at own in
    let space : leb max_cached_slice_count a.cached_count ≡ false = ground arith in
    let linked : Slice = record { next = a.cached_mslices i; owner = some i } in
    let heads : ℕ → ℕ = set_at a.cached_mslices i p in
    let between : Allocator = record a {
      heap = set_at a.heap p (some linked);
      cached_mslices = heads;
      cached_count = (a.cached_count + 1) % 2 ^ 32;
    } in
    let some_bytes : (i + 1 == 0) ≡ false = ground arith in
    let fits : leb (i + 1) max_cached_slice_size ≡ true = ground arith in
    let back : i + 1 - 1 ≡ i = omega arith in
    let self : (i == i) ≡ true = ground arith in
    let full : (p == 0) ≡ false = ground arith in
    record {
      between = between;
      after = record between {
        cached_mslices = set_at heads i (a.cached_mslices i);
        cached_count = ((a.cached_count + 1) % 2 ^ 32 + (2 ^ 32 - 1)) % 2 ^ 32;
      };
      released = rw (slice_at-ok a.heap p s live at, own, space);
      requested = rw (
        some_bytes,
        fits,
        back,
        self,
        full,
        slice_at-ok (set_at a.heap p (some linked)) p linked live
            (set_at_self a.heap p (some linked)),
      );
      count = omega arith;
      heads = set_at_twice a.cached_mslices i p;
      block = (linked, set_at_self a.heap p (some linked), refl);
      others = λ q ne. set_at_ne a.heap p q (some linked) ne;
    }

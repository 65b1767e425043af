-- ===== src/MemoryAllocator/Defaults.antt =====
-- The default allocator of src/hev-memory-allocator.c, and what is asked of it.
use hev_lib.Base.{ℕ, ◌≡◌, ◌≢◌, true, false, some, arith, ◌==◌, if◌then◌else◌, inl, inr, Bool-cases}
use hev_lib.MemoryAllocator.{
  MemoryAllocator, World, ok, Outside, set_at, load, struct_size, plain, new, default, call_alloc,
  call_free, alloc, free, hev_malloc, hev_free,
}

pub set_at_self : {A : Type 0} (f : ℕ → A) (p : ℕ) (c : A) → set_at f p c p ≡ c
set_at_self f p c = let e : (p == p) ≡ true = ground arith in rw e

pub set_at_ne : {A : Type 0} (f : ℕ → A) (p q : ℕ) (c : A) → q ≢ p → set_at f p c q ≡ f q
set_at_ne f p q c ne = let e : (q == p) ≡ false = ground arith in rw e

pub load-ok :
    {S : Type 0} (w : World S) (s : ℕ) (x : MemoryAllocator)
    → s ≢ 0
    → w.allocators s ≡ some x
    → load s w ≡ ok x w
unfolding load
load-ok w s x live at = let e : (s == 0) ≡ false = ground arith in rw (e, at)

module _ {S : Type 0} (o : Outside S) where
  -- The world once there is a default allocator, which a call makes where there is none.
  abbrev pub prepared : World S → World S
  prepared w =
      if w.default_allocator == 0
      then record w {
        allocators = set_at w.allocators (o.malloc struct_size w) (some plain);
        default_allocator = o.malloc struct_size w;
      }
      else w

  -- The default allocator is there, or there is memory for one.
  pub record IsServed (w : World S) (s : ℕ) (x : MemoryAllocator) : Type 0 where
    pub address : s ≢ 0
    pub chosen : (prepared w).default_allocator ≡ s
    pub at : (prepared w).allocators s ≡ some x

  pub default-prepared :
      (w : World S) (s : ℕ) (x : MemoryAllocator) → IsServed w s x → default o w ≡ ok s (prepared w)
  unfolding default new
  default-prepared w s x served = elim (Bool-cases (w.default_allocator == 0)) [
    | inl e ↦
        let same : o.malloc struct_size w ≡ s = let k = served.chosen in rw e at k in
        let live = served.address in
        let given : (s == 0) ≡ false = ground arith in rw (e, same, given)
    | inr e ↦
        let same : w.default_allocator ≡ s = let k = served.chosen in rw e at k in rw (e, same)
  ]

  pub hev_malloc-served :
      (w : World S) (s : ℕ) (x : MemoryAllocator) (size : ℕ)
      → IsServed w s x
      → hev_malloc o size w ≡ call_alloc o x.alloc s size (prepared w)
  unfolding hev_malloc alloc
  hev_malloc-served w s x size served =
      rw (default-prepared w s x served, load-ok (prepared w) s x served.address served.at)

  -- A default allocator that is there.
  module _ (w : World S) (s : ℕ) (x : MemoryAllocator) (address : s ≢ 0)
      (set : w.default_allocator ≡ s) (at : w.allocators s ≡ some x) where
    default-there : default o w ≡ ok s w
    unfolding default
    default-there = let e : (w.default_allocator == 0) ≡ false = ground arith in rw (e, set)

    pub hev_malloc-there : (size : ℕ) → hev_malloc o size w ≡ call_alloc o x.alloc s size w
    unfolding hev_malloc alloc
    hev_malloc-there size = rw (default-there, load-ok w s x address at)

    pub hev_free-there : (p : ℕ) → hev_free o p w ≡ call_free o x.free s p w
    unfolding hev_free free
    hev_free-there p = rw (default-there, load-ok w s x address at)

-- ===== src/SliceAllocator/Tests.antt =====
-- The theorems on the allocator at a concrete one, and a run of the code.
use hev_lib.Base.{
  ℕ, zero, suc, ◌<◌, ◌≡◌, inl, inr, refl, none, some, List, [], ◌∷◌, arith, ◌==◌, Bool-cases,
}
use hev_lib.SliceAllocator.{Slice, Allocator, set_at, release, destroy}
use hev_lib.SliceAllocator.Valid.{Chain, total, IsValid, InUse, total-set_at}
use hev_lib.SliceAllocator.Releases.{Taken, release-Taken}
use hev_lib.SliceAllocator.Ending.{Emptied, destroy-Emptied}
use hev_lib.MemoryAllocator
use hev_lib.MemoryAllocator.{◌>>◌, plain, World, Outside, set_default, hev_free}
use hev_lib.MemoryAllocator.Sliced.{sliced, Handed, hev_malloc-Handed, Reused, free-malloc-Reused}

-- Block 64 of 24 bytes waits in its list, and block 128 of 24 bytes is in use.
abbrev pool : Allocator
pool = record {
  ref_count = 1;
  cached_count = 1;
  cached_mslices = set_at (λ i. 0) 23 64;
  heap =
      set_at (set_at (λ p. none) 64 (some (record { next = 0; owner = some 23 }))) 128
        (some (record { next = 0; owner = some 23 }));
}

abbrev waiting : ℕ → List ℕ
waiting = set_at (λ i. []) 23 (64 ∷ [])

total-nil : (n : ℕ) → total n (λ i. []) ≡ 0
unfolding total
total-nil zero = refl
total-nil (suc n) = omega (arith, total-nil n)

pool-chains : (i : ℕ) → Chain pool.heap i (pool.cached_mslices i) (waiting i)
pool-chains i = elim (Bool-cases (i == 23)) [
  | inl e ↦
      let same : i ≡ 23 = ground arith in
      rw e (refl, omega arith, refl, record { next = 0; owner = some 23 }, refl, rw same, refl)
  | inr e ↦ rw e refl
]

pool-owners : (p : ℕ) (s : Slice) (i : ℕ) → pool.heap p ≡ some s → s.owner ≡ some i → i < 8192
pool-owners p s i at own = elim (Bool-cases (p == 128)) [
  | inl e ↦ ground arith
  | inr e ↦ elim (Bool-cases (p == 64)) [ inl d ↦ ground arith | inr d ↦ ground arith ]
]

pool-IsValid : IsValid pool waiting
pool-IsValid = record {
  chains = pool-chains;
  null = refl;
  counted = omega (arith, total-set_at 8192 23 (λ i. []) (64 ∷ []), total-nil 8192);
  bounded = omega arith;
  owners = pool-owners;
}

pool-InUse : InUse pool waiting 128
pool-InUse = record {
  slice = record { next = 0; owner = some 23 };
  at = refl;
  out = λ i. elim (Bool-cases (i == 23)) [ inl e ↦ rw e | inr e ↦ rw e ];
}

release-Taken_example : Taken pool waiting 128 (release pool 128)
release-Taken_example = release-Taken pool waiting 128 pool-IsValid pool-InUse

-- malloc gives 256, and the default allocator is the slice allocator above.
abbrev served : Outside Allocator
served = record {
  malloc = λ n w. 256;
  alloc = λ f s n. MemoryAllocator.ok 0;
  free = λ f s p. MemoryAllocator.ok tt;
  destroy = λ f s. MemoryAllocator.ok tt;
}

abbrev pooled : World Allocator
pooled = record {
  allocators = set_at (λ p. none) 32 (some sliced);
  default_allocator = 32;
  blocks = λ p. none;
  bytes = λ p. 0;
  others = pool;
}

hev_malloc-Handed_example : Handed 1 served pooled 32 1 (omega arith) refl refl waiting 48
hev_malloc-Handed_example =
    hev_malloc-Handed 1 served pooled 32 1 (omega arith) refl refl waiting 48 pool-IsValid
      (inr refl) (inr ((omega arith), omega arith))

free-malloc-Reused_example : Reused 1 served pooled 32 1 (omega arith) refl refl 128 23
free-malloc-Reused_example =
    free-malloc-Reused 1 served pooled 32 1 (omega arith) refl refl waiting 128 23 pool-IsValid
      pool-InUse (record { next = 0; owner = some 23 }) refl refl (omega arith) (omega arith)

destroy-Emptied_example : Emptied pool waiting pool-IsValid (destroy 1001 pool)
destroy-Emptied_example = destroy-Emptied pool waiting pool-IsValid 1001 (omega arith)

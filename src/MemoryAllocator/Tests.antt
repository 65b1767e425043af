-- ===== src/MemoryAllocator/Tests.antt =====
-- The theorems on the default allocator in concrete worlds.
use hev_lib.Base.{◌≡◌, refl, none, some, arith, ◌==◌, if◌then◌else◌}
use hev_lib.MemoryAllocator.{
  standard, MemoryAllocator, World, Outside, ok, fault, ◌>>=◌, ◌>>◌, plain, struct_size, set_at,
  call_alloc, set_default, unref, hev_malloc, hev_free,
}
use hev_lib.MemoryAllocator.Plain.{Balanced, free-malloc0}
use hev_lib.MemoryAllocator.Life.{shared, released, ended, unref-ended, unref-default}

-- No other file keeps anything.
abbrev Nothing : Type 0
Nothing = Unit {0}

-- malloc gives 4096 for the struct, 64 for a block of 8 bytes, and has no memory for more.
abbrev little : Outside Nothing
little = record {
  malloc = λ n w. if n == struct_size then 4096 else if n == 8 then 64 else 0;
  alloc = λ f s n. ok 0;
  free = λ f s p. ok tt;
  destroy = λ f s. ok tt;
}

abbrev empty : World Nothing
empty = record {
  allocators = λ p. none;
  default_allocator = 0;
  blocks = λ p. none;
  bytes = λ p. 7;
  others = tt;
}

-- The default allocator at 32, and another one at 48, that a destroy function is for.
abbrev destroyed : MemoryAllocator
destroyed = record plain { destroy = some 9 }

abbrev two : World Nothing
two = record empty {
  allocators = set_at (set_at (λ p. none) 32 (some plain)) 48 (some destroyed);
  default_allocator = 32;
}

free-malloc0_example : Balanced little empty 8
free-malloc0_example =
    free-malloc0 little empty 4096 plain 8
      (record { address = omega arith; chosen = refl; at = refl }) refl refl (omega arith) refl

unref-ended_example :
    ((shared 2 48 >> released little 2 48) two ≡ ok tt two)
    × ((shared 2 48 >> released little 3 48) two ≡ ended little two 48 destroyed (omega arith))
unref-ended_example = unref-ended little two 48 destroyed (omega arith) 2 refl refl (omega arith)

unref-default_example :
    ((unref little 32 >> hev_malloc little 8) two ≡ fault)
    × ((unref little 32 >> hev_free little 64) two ≡ fault)
    × ((set_default 48 >>= unref little >> hev_malloc little 8) two
        ≡ call_alloc little standard 48 8
            (record two { default_allocator = 48; allocators = set_at two.allocators 32 none }))
unref-default_example =
    unref-default little two 32 plain (omega arith) 48 destroyed 8 64 refl refl refl refl
      (omega arith) (omega arith) refl

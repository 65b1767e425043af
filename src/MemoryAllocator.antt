-- ===== src/MemoryAllocator.antt =====
-- src/hev-memory-allocator.c: allocators with handlers of their own, and the one that the program uses
-- by default.
--
-- A pointer is a number, NULL is 0. `World` holds the allocators and the blocks of the C library by
-- their addresses, the static variable, and what other files keep for the handlers that they install,
-- which go by numbers. `fault` is an access to what is no live object.
pub mod Defaults
pub mod Life
pub mod Plain
pub mod Sliced
mod Tests
use hev_lib.Base.{ℕ, ◌+◌, ◌-◌, ◌%◌, ◌^◌, Option, none, some, ltb, leb, ◌==◌, ◌&&◌, if◌then◌else◌}

-- A function pointer: the function of this file, or one that another file has installed.
pub data Handler : Type 0 where
  standard : Handler
  given : ℕ → Handler

-- `struct _HevMemoryAllocator`; `destroy` is `none` for NULL.
pub record MemoryAllocator : Type 0 where
  pub alloc : Handler
  pub free : Handler
  pub destroy : Option ℕ
  pub ref_count : ℕ

-- `blocks` are the sizes of the blocks that malloc gave for `standard`, `bytes` what memory holds.
pub record World (S : Type 0) : Type 0 where
  pub allocators : ℕ → Option MemoryAllocator
  pub default_allocator : ℕ
  pub blocks : ℕ → Option ℕ
  pub bytes : ℕ → ℕ
  pub others : S

pub data Outcome (S A : Type 0) : Type 0 where
  ok : A → World S → Outcome S A
  fault : Outcome S A

abbrev pub Cmd : Type 0 → Type 0 → Type 0
Cmd S A = World S → Outcome S A

abbrev pub then_do : {S A B : Type 0} → Outcome S A → (A → Cmd S B) → Outcome S B
then_do (ok a w) k = k a w
then_do fault k = fault

infixl 5 ◌>>=◌ ◌>>◌
abbrev pub ◌>>=◌ : {S A B : Type 0} → Cmd S A → (A → Cmd S B) → Cmd S B
c >>= k = λ w. then_do (c w) k

abbrev pub ◌>>◌ : {S A B : Type 0} → Cmd S A → Cmd S B → Cmd S B
c >> d = c >>= λ _. d

-- What malloc gives, 0 where there is no memory, and the handlers of other files.
pub record Outside (S : Type 0) : Type 0 where
  pub malloc : (size : ℕ) → World S → ℕ
  pub alloc : (func self size : ℕ) → Cmd S ℕ
  pub free : (func self ptr : ℕ) → Cmd S (Unit {0})
  pub destroy : (func self : ℕ) → Cmd S (Unit {0})

abbrev pub set_at : {A : Type 0} → (ℕ → A) → ℕ → A → ℕ → A
set_at f p c q = if q == p then c else f q

unfoldable pub load : {S : Type 0} → ℕ → Cmd S MemoryAllocator
load s w = if s == 0 then fault else elim (w.allocators s) [ none ↦ fault | some x ↦ ok x w ]

abbrev pub put : {S : Type 0} → ℕ → Option MemoryAllocator → Cmd S (Unit {0})
put s c w = ok tt (record w { allocators = set_at w.allocators s c })

-- `sizeof (HevMemoryAllocator)`
abbrev pub struct_size : ℕ
struct_size = 32

abbrev pub plain : MemoryAllocator
plain = record { alloc = standard; free = standard; destroy = none; ref_count = 1 }

unfoldable pub new : {S : Type 0} → Outside S → Cmd S ℕ
new o w =
    let p = o.malloc struct_size w in (if p == 0 then ok 0 else (put p (some plain) >> ok p)) w

-- Returns the one that was the default before.
unfoldable pub set_default : {S : Type 0} → (allocator : ℕ) → Cmd S ℕ
set_default s w = ok w.default_allocator (record w { default_allocator = s })

unfoldable pub default : {S : Type 0} → Outside S → Cmd S ℕ
unfolding new
default o w =
    (if w.default_allocator == 0
        then (new o >>= λ p v. ok p (record v { default_allocator = p }))
        else ok w.default_allocator)
      w

unfoldable pub ref : {S : Type 0} → ℕ → Cmd S ℕ
unfolding load
ref s = load s >>= λ x. put s (some (record x { ref_count = (x.ref_count + 1) % 2 ^ 32 })) >> ok s

abbrev call_destroy : {S : Type 0} → Outside S → Option ℕ → ℕ → Cmd S (Unit {0})
call_destroy o none s = ok tt
call_destroy o (some f) s = o.destroy f s

unfoldable pub unref : {S : Type 0} → Outside S → ℕ → Cmd S (Unit {0})
unfolding load
unref o s = load s >>= λ x.
    let count = (x.ref_count + (2 ^ 32 - 1)) % 2 ^ 32 in
    put s (some (record x { ref_count = count }))
    >> (if ltb 0 count then ok tt else (call_destroy o x.destroy s >> put s none))

-- `_hev_memory_allocator_alloc`, which is malloc.
unfoldable pub plain_alloc : {S : Type 0} → Outside S → (size : ℕ) → Cmd S ℕ
plain_alloc o size w =
    let p = o.malloc size w in
    if p == 0 then ok 0 w else ok p (record w { blocks = set_at w.blocks p (some size) })

-- `_hev_memory_allocator_free`, which is free.
unfoldable pub plain_free : {S : Type 0} → (ptr : ℕ) → Cmd S (Unit {0})
plain_free p w = if p == 0 then ok tt w else elim (w.blocks p) [
  | none ↦ fault
  | some n ↦ ok tt (record w { blocks = set_at w.blocks p none })
]

abbrev call_alloc : {S : Type 0} → Outside S → Handler → (s size : ℕ) → Cmd S ℕ
call_alloc o standard s size = plain_alloc o size
call_alloc o (given f) s size = o.alloc f s size

abbrev call_free : {S : Type 0} → Outside S → Handler → (s ptr : ℕ) → Cmd S (Unit {0})
call_free o standard s p = plain_free p
call_free o (given f) s p = o.free f s p

unfoldable pub alloc : {S : Type 0} → Outside S → (s size : ℕ) → Cmd S ℕ
unfolding load plain_alloc
alloc o s size = load s >>= λ x. call_alloc o x.alloc s size

unfoldable pub free : {S : Type 0} → Outside S → (s ptr : ℕ) → Cmd S (Unit {0})
unfolding load plain_free
free o s p = load s >>= λ x. call_free o x.free s p

unfoldable pub hev_malloc : {S : Type 0} → Outside S → (size : ℕ) → Cmd S ℕ
unfolding default alloc
hev_malloc o size = default o >>= λ s. alloc o s size

-- `memset (ptr, 0, size)`
abbrev pub cleared : (ptr size : ℕ) → (ℕ → ℕ) → ℕ → ℕ
cleared p size bytes q = if leb p q && ltb q (p + size) then 0 else bytes q

unfoldable pub hev_malloc0 : {S : Type 0} → Outside S → (size : ℕ) → Cmd S ℕ
unfolding hev_malloc
hev_malloc0 o size = hev_malloc o size >>= λ p w.
    if p == 0 then ok p w else ok p (record w { bytes = cleared p size w.bytes })

unfoldable pub hev_free : {S : Type 0} → Outside S → (ptr : ℕ) → Cmd S (Unit {0})
unfolding default free
hev_free o p = default o >>= λ s. free o s p

-- ===== src/RingBuffer.antt =====
-- src/hev-ring-buffer.c: the ring buffer's state and its life cycle.
--
-- The storage is a function from offsets to bytes, since a client reads and writes it only through
-- the regions that `reading` and `writing` hand out. A region's base is its offset from
-- `self->buffer`. `size_t` sums wrap; a difference stands only where the tests above it keep it
-- from going below zero.
pub mod Reading
pub mod Writing
pub mod Valid
pub mod Window
pub mod Fifo
pub mod Bounds
pub mod Misuse
pub mod Client
pub mod Life
mod Tests
use hev_lib.Base.{ℕ, ◌+◌, ◌-◌, ◌%◌, ◌^◌, Bool, true, false, Option, none, some, ◌==◌, if◌then◌else◌}

-- One entry of the `struct iovec` array.
pub record Iovec : Type 0 where
  pub base : ℕ
  pub len : ℕ

abbrev pub region : ℕ → ℕ → Iovec
region b n = record { base = b; len = n }

pub record RingBuffer : Type 0 where
  pub buffer : ℕ → ℕ
  pub ref_count : ℕ
  pub wp : ℕ
  pub rp : ℕ
  pub len : ℕ
  pub full : Bool

-- What a call leaves: the buffer, or a failed `assert`, which aborts the program.
pub data Run : Type 0 where
  ok : RingBuffer → Run
  aborted : Run

-- `size_t` addition
abbrev pub add_size : ℕ → ℕ → ℕ
add_size a b = (a + b) % 2 ^ 64

-- `assert (test)` in front of the rest of a branch
abbrev pub checked : Bool → RingBuffer → Run
checked true r = ok r
checked false r = aborted

-- A block of an if-ladder that may return early (`some`), before the code below it.
abbrev pub or_below {ℓ} : {A : Type ℓ} → Option A → A → A
or_below none below = below
or_below (some out) below = out

-- `memory` is what the allocator returned: `none` for NULL, else the bytes found behind the struct.
unfoldable pub new : Option (ℕ → ℕ) → ℕ → Option RingBuffer
new none len = none
new (some memory) len =
    some (record { buffer = memory; ref_count = 1; wp = 0; rp = 0; len = len; full = false })

-- `unsigned int` arithmetic
unfoldable pub ref : Option RingBuffer → Option RingBuffer
ref none = none
ref (some r) = some (record r { ref_count = (r.ref_count + 1) % 2 ^ 32 })

-- The option is `none` once the memory is given back.
unfoldable pub unref : Option RingBuffer → Option RingBuffer
unref none = none
unref (some r) =
    let count = (r.ref_count + (2 ^ 32 - 1)) % 2 ^ 32 in
    if count == 0 then none else some (record r { ref_count = count })

unfoldable pub reset : Option RingBuffer → Option RingBuffer
reset none = none
reset (some r) = some (record r { wp = 0; rp = 0; full = false })

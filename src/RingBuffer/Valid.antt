-- ===== src/RingBuffer/Valid.antt =====
-- The invariant of the ring buffer of src/hev-ring-buffer.c, how many bytes it holds, and the
-- effect of the operations on both.
use hev_lib.Base.{
  ℕ, ◌+◌, ◌-◌, ◌^◌, ◌≤◌, ◌<◌, ◌≡◌, refl, ◌⊎◌, inl, inr, true, arith, leb, ◌==◌, if◌then◌else◌,
  Bool-cases,
}
use hev_lib.RingBuffer.{RingBuffer, Run, ok, aborted}
use hev_lib.RingBuffer.Reading.{read_finish}
use hev_lib.RingBuffer.Writing.{write_finish}

-- No object is larger than half the address space. The flag tells a full buffer from an empty one
-- where the two positions meet.
pub record IsValid (r : RingBuffer) : Type 0 where
  pub small : r.len < 2 ^ 63
  pub wp_in : r.wp ≤ r.len
  pub rp_in : r.rp ≤ r.len
  pub meet : r.full ≡ true → r.wp ≡ r.rp

-- The number of bytes that wait to be read.
unfoldable pub used : RingBuffer → ℕ
used r = if r.full then r.len else if leb r.rp r.wp then r.wp - r.rp else r.len - r.rp + r.wp

pub used-le : {r : RingBuffer} → IsValid r → used r ≤ r.len
unfolding used
used-le v = ground arith

-- The call does not abort, and leaves a state with the property.
abbrev pub Leaves : Run → (RingBuffer → Type 0) → Type 0
Leaves (ok s) P = P s
Leaves aborted P = ⊥

pub Leaves-map :
    {P Q : RingBuffer → Type 0} (run : Run)
    → Leaves run P
    → ((s : RingBuffer) → P s → Q s)
    → Leaves run Q
Leaves-map (ok s) p f = f s p
Leaves-map aborted p f = p

pub Leaves-ok :
    {P : RingBuffer → Type 0} (run : Run) → Leaves run P → (s : RingBuffer) × (run ≡ ok s) × P s
Leaves-ok (ok s) p = (s, refl, p)
Leaves-ok aborted p = absurd p

-- `s` is `r` with `n` bytes taken off its front. The end of the storage and its start are one
-- place.
pub record Took (r : RingBuffer) (n : ℕ) (s : RingBuffer) : Type 0 where
  pub valid : IsValid s
  pub buffer : s.buffer ≡ r.buffer
  pub len : s.len ≡ r.len
  pub left : used s + n ≡ used r
  pub start : (s.rp ≡ r.rp + n) ⊎ (s.rp + r.len ≡ r.rp + n)

pub read_finish-Took :
    {r : RingBuffer} (n : ℕ) → IsValid r → n ≤ used r → Leaves (read_finish r n) (Took r n)
unfolding read_finish used
read_finish-Took {r} n v h = ground arith

-- `s` is `r` with `n` more bytes behind those that it held.
pub record Gave (r : RingBuffer) (n : ℕ) (s : RingBuffer) : Type 0 where
  pub valid : IsValid s
  pub buffer : s.buffer ≡ r.buffer
  pub len : s.len ≡ r.len
  pub more : used s ≡ used r + n
  pub start : s.rp ≡ r.rp

pub write_finish-Gave :
    {r : RingBuffer} (n : ℕ) → IsValid r → used r + n ≤ r.len → Leaves (write_finish r n) (Gave r n)
unfolding write_finish used
write_finish-Gave {r} n v h = elim (Bool-cases r.full) [
  | inl f ↦ ground arith
  | inr f ↦ elim (Bool-cases (leb r.rp r.wp)) [
    | inl p ↦ elim (Bool-cases (r.rp == 0)) [
      | inl z ↦ ground arith
      | inr z ↦ elim (Bool-cases (r.wp == r.rp)) [ inl q ↦ ground arith | inr q ↦ ground arith ]
    ]
    | inr p ↦ ground arith
  ]
]

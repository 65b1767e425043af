-- ===== src/RingBuffer/Misuse.antt =====
-- What `hev_ring_buffer_read_finish` and `hev_ring_buffer_write_finish` of src/hev-ring-buffer.c do
-- when a client reports more bytes than there were.
use hev_lib.Base.{
  ℕ, ◌-◌, ◌+◌, ◌<◌, ◌≡◌, false, arith, ◌==◌, if◌then◌else◌, Bool-cases, inl, inr, leb,
}
use hev_lib.RingBuffer.{RingBuffer, ok, aborted}
use hev_lib.RingBuffer.Reading.{read_finish}
use hev_lib.RingBuffer.Writing.{write_finish}
use hev_lib.RingBuffer.Valid.{IsValid, used}

-- A report of more bytes than wait aborts the program, unless none wait: then it is ignored.
read_finish_over :
    {r : RingBuffer} (n : ℕ)
    → IsValid r
    → 0 < r.len
    → used r < n
    → read_finish r n ≡ (if used r == 0 then ok r else aborted)
unfolding read_finish used
read_finish_over {r} n v pos h = ground arith

-- The case in which the bytes that wait go round the end of the storage.
write_finish_over_wrapped :
    {r : RingBuffer} (n : ℕ)
    → IsValid r
    → r.wp < r.rp
    → r.rp < r.wp + n
    → write_finish r n ≡ (if r.len - r.rp + r.wp == r.len then ok r else aborted)
unfolding write_finish
write_finish_over_wrapped {r} n v h over =
    let apart : (r.len - r.rp + r.wp == r.len) ≡ false = ground arith in rw apart (ground arith)

used-round : {r : RingBuffer} → IsValid r → r.wp < r.rp → used r ≡ r.len - r.rp + r.wp
unfolding used
used-round v h = ground arith

write_finish_over_behind :
    {r : RingBuffer} (n : ℕ)
    → IsValid r
    → r.wp < r.rp
    → r.len < used r + n
    → write_finish r n ≡ (if used r == r.len then ok r else aborted)
write_finish_over_behind {r} n v h over =
    let u = used-round v h in rw u (write_finish_over_wrapped n v h (omega (arith, v.rp_in)))

-- A report of more bytes than are free aborts the program, unless none are free: then it is
-- ignored.
write_finish_over :
    {r : RingBuffer} (n : ℕ)
    → IsValid r
    → 0 < r.len
    → r.len < used r + n
    → write_finish r n ≡ (if used r == r.len then ok r else aborted)
unfolding write_finish used
write_finish_over {r} n v pos h = elim (Bool-cases (leb r.rp r.wp)) [
  | inl p ↦ elim (Bool-cases (r.rp == 0)) [
    | inl z ↦ ground arith
    | inr z ↦ elim (Bool-cases (r.wp == r.rp)) [ inl q ↦ ground arith | inr q ↦ ground arith ]
  ]
  | inr p ↦ write_finish_over_behind n v (ground arith) h
]

-- On a valid buffer of some size, a report of more bytes read than wait aborts the program, unless none
-- wait; so does one of more bytes written than are free, unless none are free. Where none are, the
-- report is ignored.
pub reported_over :
    {r : RingBuffer} (n k : ℕ)
    → IsValid r
    → 0 < r.len
    → used r < n
    → r.len < used r + k
    → (read_finish r n ≡ (if used r == 0 then ok r else aborted))
      × (write_finish r k ≡ (if used r == r.len then ok r else aborted))
reported_over n k v pos over over' =
    (read_finish_over n v pos over, write_finish_over k v pos over')

-- ===== src/RingBuffer/Fifo.antt =====
-- A valid ring buffer of src/hev-ring-buffer.c is a queue of bytes of bounded length.
use hev_lib.Base.{
  ℕ, ◌+◌, ◌-◌, ◌≤◌, ◌≡◌, refl, ap, ap₂, ◌∙◌, sym, inl, inr, List, ◌++◌, append-nil, arith, leb,
  ◌==◌, length, drop, take_all, empty-of_length, length-drop, Bool-cases,
}
use hev_lib.RingBuffer.{RingBuffer}
use hev_lib.RingBuffer.Reading.{regions, read_finish}
use hev_lib.RingBuffer.Writing.{room, write_finish}
use hev_lib.RingBuffer.Valid.{
  Leaves-map, IsValid, used, used-le, Leaves, Took, Gave, read_finish-Took, write_finish-Gave,
}
use hev_lib.RingBuffer.Window.{
  slice, gather, round, scatter, store_round, scatter-nil, store_round-nil, round_congr,
  round-below, round-above, round-split, slice-zero, round-zero, round-append, round-drop,
  round-shift, store-below, store-above, store-split, round-store_round, round-store_round_ne,
}

-- The bytes that wait to be read, oldest first.
abbrev pub contents : RingBuffer → List ℕ
contents r = round r.buffer r.len r.rp (used r)

-- `reading` hands out exactly these bytes, in order.
pub regions-contents : {r : RingBuffer} → IsValid r → gather r.buffer (regions r) ≡ contents r
unfolding regions gather used
regions-contents {r} v =
    let b = r.buffer in
    elim (Bool-cases r.full) [
      | inl f ↦ ground (
        arith,
        round-below b r.len 0 r.len,
        round-split b r.len r.rp (r.len - r.rp) r.wp,
        round-above b r.len r.len 0 r.len,
        append-nil (slice b 0 r.len),
        append-nil (slice b 0 r.wp),
      )
      | inr f ↦ elim (Bool-cases (leb r.rp r.wp)) [
        | inl p ↦ ground (
          arith,
          round-below b r.len r.rp (r.wp - r.rp),
          round-zero b r.len r.rp,
          append-nil (slice b r.rp (r.wp - r.rp)),
        )
        | inr p ↦ ground (
          arith,
          round-split b r.len r.rp (r.len - r.rp) r.wp,
          round-above b r.len r.len 0 r.wp,
          slice-zero b 0,
          append-nil (slice b r.rp (r.len - r.rp)),
          append-nil (slice b 0 r.wp),
        )
      ]
    ]

-- Filling what `writing` hands out is filling the places behind the bytes that wait.
room-store_round :
    {r : RingBuffer} (xs : List ℕ)
    → IsValid r
    → used r + length xs ≤ r.len
    → scatter r.buffer (room r) xs ≡ store_round r.buffer r.len (r.rp + used r) xs
unfolding room scatter used
room-store_round {r} xs v h =
    let b = r.buffer in
    elim (Bool-cases (length xs == 0)) [
      | inl e ↦
          rw (empty-of_length xs (ground arith))
            (scatter-nil b (room r) ∙ sym (store_round-nil b r.len (r.rp + used r)))
      | inr e ↦ elim (Bool-cases (leb r.rp r.wp)) [
        | inl p ↦ ground (
          arith,
          take_all r.len xs,
          take_all (r.len - r.wp) xs,
          take_all r.rp xs,
          store-below b r.len r.wp xs,
          store-split b r.len r.wp (r.len - r.wp) xs,
          take_all r.rp (drop (r.len - r.wp) xs),
          length-drop (r.len - r.wp) xs,
          store-above b r.len r.len 0 xs,
        )
        | inr p ↦ ground (
          arith,
          take_all r.rp xs,
          take_all (r.rp - r.wp) xs,
          store-above b r.len (r.len + r.wp) r.wp xs,
        )
      ]
    ]

-- What holds after a client has added the bytes `xs`.
pub record Appended (r : RingBuffer) (xs : List ℕ) (s : RingBuffer) : Type 0 where
  pub valid : IsValid s
  pub len : s.len ≡ r.len
  pub holds : contents s ≡ contents r ++ xs

-- The state in which a client has filled what `writing` hands out.
abbrev pub filled : RingBuffer → List ℕ → RingBuffer
filled r xs = record r { buffer = scatter r.buffer (room r) xs }

Gave-Appended :
    {r s : RingBuffer} (xs : List ℕ)
    → IsValid r
    → used r + length xs ≤ r.len
    → Gave (filled r xs) (length xs) s
    → Appended r xs s
Gave-Appended {r} {s} xs v h g =
    let b = store_round r.buffer r.len (r.rp + used r) xs in
    let bound = used-le v in
    let more : used s ≡ used r + length xs = unfold used in g.more in
    record {
      valid = g.valid;
      len = g.len;
      holds =
          round_congr (g.buffer ∙ room-store_round xs v h) g.len g.start more
          ∙ round-append b r.len r.rp (used r) (length xs)
          ∙ ap₂ ◌++◌
              (round-store_round_ne r.buffer r.len (r.rp + used r) r.rp (used r) xs (omega arith)
                (omega arith) (omega (arith, v.rp_in)))
              (round-store_round r.buffer r.len (r.rp + used r) xs (omega arith)
                (omega (arith, v.rp_in)));
    }

-- A client that fills what `writing` hands out with at most as many bytes as fit, and reports
-- their number to `write_finish`, appends exactly them to what the buffer holds.
pub write-Appended :
    {r : RingBuffer} (xs : List ℕ)
    → IsValid r
    → used r + length xs ≤ r.len
    → Leaves (write_finish (filled r xs) (length xs)) (Appended r xs)
write-Appended {r} xs v h =
    Leaves-map (write_finish (filled r xs) (length xs))
      (write_finish-Gave (length xs)
        (record { small = v.small; wp_in = v.wp_in; rp_in = v.rp_in; meet = v.meet })
        (unfold used in h))
      (λ s. Gave-Appended xs v h)

-- What holds after `n` bytes were taken.
pub record Dropped (r : RingBuffer) (n : ℕ) (s : RingBuffer) : Type 0 where
  pub valid : IsValid s
  pub len : s.len ≡ r.len
  pub holds : contents s ≡ drop n (contents r)

Took-Dropped : {r s : RingBuffer} (n : ℕ) → IsValid r → Took r n s → Dropped r n s
Took-Dropped {r} {s} n v t =
    let bound = used-le v in
    let all : used r ≡ n + used s = omega (arith, t.left) in
    record {
      valid = t.valid;
      len = t.len;
      holds =
          round_congr t.buffer t.len refl refl
          ∙ elim t.start [
            | inl e ↦ round_congr refl refl e refl
            | inr e ↦ sym (
                round-shift r.buffer r.len (r.rp + n) s.rp (used s) (sym e)
                  (omega (arith, v.rp_in, t.left)))
          ]
          ∙ sym (round-drop r.buffer r.len r.rp n (used s))
          ∙ ap (λ k. drop n (round r.buffer r.len r.rp k)) (sym all);
    }

-- Reporting that `n` of the bytes that wait were read removes exactly the oldest `n`.
pub read-Dropped :
    {r : RingBuffer} (n : ℕ) → IsValid r → n ≤ used r → Leaves (read_finish r n) (Dropped r n)
read-Dropped {r} n v h =
    Leaves-map (read_finish r n) (read_finish-Took n v h) (λ s. Took-Dropped n v)

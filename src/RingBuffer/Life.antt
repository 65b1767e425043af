-- ===== src/RingBuffer/Life.antt =====
-- Making, sharing, emptying and giving back a ring buffer of src/hev-ring-buffer.c.
use hev_lib.Base.{ℕ, zero, suc, ◌+◌, ◌^◌, ◌<◌, ◌≡◌, refl, ◌∙◌, ap, Option, none, some, [], arith}
use hev_lib.RingBuffer.{RingBuffer, new, ref, unref, reset}
use hev_lib.RingBuffer.Valid.{IsValid, used}
use hev_lib.RingBuffer.Window.{round-zero}
use hev_lib.RingBuffer.Fifo.{contents}

-- a buffer that is there, valid and empty, with room for `len` bytes
abbrev pub Fresh : ℕ → Option RingBuffer → Type 0
Fresh len none = ⊥
Fresh len (some r) = IsValid r × (contents r ≡ []) × (r.len ≡ len)

-- When the allocator serves the request, `new` makes a valid empty buffer of the size asked for.
pub new-Fresh : (memory : ℕ → ℕ) (len : ℕ) → len < 2 ^ 63 → Fresh len (new (some memory) len)
unfolding new used
new-Fresh memory len h = (ground arith, round-zero memory len 0, refl)

-- `reset` empties a valid buffer and keeps its size.
pub reset-Fresh : {r : RingBuffer} → IsValid r → Fresh r.len (reset (some r))
unfolding reset used
reset-Fresh {r} v = (ground arith, round-zero r.buffer r.len 0, refl)

-- `n` further owners, and then as many that let go.
pub shared : ℕ → Option RingBuffer → Option RingBuffer
shared zero r = r
shared (suc n) r = shared n (ref r)

pub released : ℕ → Option RingBuffer → Option RingBuffer
released zero r = r
released (suc n) r = released n (unref r)

abbrev owned : RingBuffer → ℕ → Option RingBuffer
owned r c = some (record r { ref_count = c })

ref-owned : (r : RingBuffer) (c : ℕ) → c + 1 < 2 ^ 32 → ref (owned r c) ≡ owned r (suc c)
unfolding ref
ref-owned r c h = ap (owned r) (omega arith)

unref-owned :
    (r : RingBuffer) (c : ℕ) → 0 < c → suc c < 2 ^ 32 → unref (owned r (suc c)) ≡ owned r c
unfolding unref
unref-owned r c lo hi = ground arith

shared-owned :
    (n : ℕ) (r : RingBuffer) (c : ℕ) → c + n < 2 ^ 32 → shared n (owned r c) ≡ owned r (c + n)
unfolding shared
shared-owned zero r c h = ap (owned r) (omega arith)
shared-owned (suc n) r c h =
    rw (ref-owned r c (omega arith))
      (shared-owned n r (suc c) (omega arith) ∙ ap (owned r) (omega arith))

released-owned :
    (n : ℕ) (r : RingBuffer) (c : ℕ)
    → 0 < c
    → c + n < 2 ^ 32
    → released n (owned r (c + n)) ≡ owned r c
unfolding released
released-owned zero r c lo h = ap (owned r) (omega arith)
released-owned (suc n) r c lo h =
    ap (λ k. released n (unref (owned r k))) (omega arith)
    ∙ ap (released n) (unref-owned r (c + n) (omega arith) (omega arith))
    ∙ released-owned n r c lo (omega arith)

released-last :
    (n : ℕ) (r : RingBuffer) → suc n < 2 ^ 32 → released (suc n) (owned r (suc n)) ≡ none
unfolding released unref
released-last zero r h = refl
released-last (suc n) r h =
    ap (λ o. released n (unref o)) (unref-owned r (suc n) (omega arith) (omega arith))
    ∙ released-last n r (omega arith)

-- As long as the counter does not overflow, a buffer survives until each of its owners has let go:
-- `n` further references and `n` releases leave it as it was, and one more release frees it.
pub released-shared :
    (n : ℕ) (r : RingBuffer)
    → r.ref_count ≡ 1
    → n + 1 < 2 ^ 32
    → (released n (shared n (some r)) ≡ some r) × (released (suc n) (shared n (some r)) ≡ none)
released-shared n r one h =
    let e : some r ≡ owned r 1 = ground arith in
    rw e (
      rw (shared-owned n r 1 (omega arith)) (
        released-owned n r 1 (omega arith) (omega arith),
        let k : 1 + n ≡ suc n = omega arith in rw k (released-last n r (omega arith)),
      ))

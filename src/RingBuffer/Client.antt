-- ===== src/RingBuffer/Client.antt =====
-- A client of the ring buffer of src/hev-ring-buffer.c, as demos/splicer.c is one: it fills the
-- regions of `writing` and reports to `write_finish`, or reads those of `reading` and reports to
-- `read_finish`. Whatever it does in whatever order, it sees a bounded queue.
use hev_lib.Base.{
  ℕ, ◌+◌, ◌-◌, ◌≤◌, ◌≡◌, refl, ap, ap₂, ◌∙◌, Option, none, some, List, [], ◌∷◌, ◌++◌, arith, length,
  take, drop, length-take,
}
use hev_lib.RingBuffer.{RingBuffer, Run, ok, aborted}
use hev_lib.RingBuffer.Reading.{regions, read_finish}
use hev_lib.RingBuffer.Writing.{room, write_finish}
use hev_lib.RingBuffer.Valid.{IsValid, used, Leaves-ok}
use hev_lib.RingBuffer.Window.{gather, length-round}
use hev_lib.RingBuffer.Bounds.{total, room-Within}
use hev_lib.RingBuffer.Fifo.{contents, regions-contents, filled, write-Appended, read-Dropped}

pub data Op : Type 0 where
  put : List ℕ → Op
  get : ℕ → Op

abbrev pub Replies : Type 0
Replies = List (List ℕ)

abbrev pub reply : List ℕ → Option Replies → Option Replies
reply out none = none
reply out (some outs) = some (out ∷ outs)

abbrev pub after : Run → (RingBuffer → Option Replies) → Option Replies
after (ok s) k = k s
after aborted k = none

-- `put` writes as many of its bytes as there is room for, `get` reads as many as it asks for and
-- there are. Each replies the bytes that it moved; `none` is an abort.
unfoldable pub run : RingBuffer → List Op → Option Replies
run r [] = some []
run r (put xs ∷ ops) =
    let out = take (total (room r)) xs in
    after (write_finish (filled r out) (length out)) (λ s. reply out (run s ops))
run r (get n ∷ ops) =
    let out = take n (gather r.buffer (regions r)) in
    after (read_finish r (length out)) (λ s. reply out (run s ops))

-- The same calls on a queue that holds at most `cap` bytes.
pub queue : (cap : ℕ) → List ℕ → List Op → Replies
queue cap q [] = []
queue cap q (put xs ∷ ops) = let out = take (cap - length q) xs in out ∷ queue cap (q ++ out) ops
queue cap q (get n ∷ ops) = let out = take n q in out ∷ queue cap (drop (length out) q) ops

room-free : {r : RingBuffer} → IsValid r → total (room r) ≡ r.len - length (contents r)
room-free {r} v = omega (arith, (room-Within v).2, length-round r.buffer r.len r.rp (used r))

-- No sequence of calls aborts, or tells a valid ring buffer from the bounded queue of the bytes
-- that it holds.
pub run-queue :
    (ops : List Op) {r : RingBuffer} → IsValid r → run r ops ≡ some (queue r.len (contents r) ops)
unfolding run queue
run-queue [] v = refl
run-queue (put xs ∷ ops) {r} v =
    let out = take (total (room r)) xs in
    let fits : used r + length out ≤ r.len =
      omega (arith, (room-Within v).2, length-take (total (room r)) xs) in
    let (s, e, a) =
      Leaves-ok (write_finish (filled r out) (length out)) (write-Appended out v fits) in
    rw (e, run-queue ops a.valid)
      (ap₂ (λ c q. some (out ∷ queue c q ops)) a.len a.holds
        ∙ ap (λ k. some (take k xs ∷ queue r.len (contents r ++ take k xs) ops)) (room-free v))
run-queue (get n ∷ ops) {r} v =
    let out = take n (gather r.buffer (regions r)) in
    let same = regions-contents v in
    let fits : length out ≤ used r =
      rw same
        (omega (arith, length-take n (contents r), length-round r.buffer r.len r.rp (used r))) in
    let (s, e, d) = Leaves-ok (read_finish r (length out)) (read-Dropped (length out) v fits) in
    rw (e, run-queue ops d.valid)
      (ap₂ (λ c q. some (out ∷ queue c q ops)) d.len d.holds
        ∙ ap (λ g. some (take n g ∷ queue r.len (drop (length (take n g)) (contents r)) ops)) same)

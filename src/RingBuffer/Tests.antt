-- ===== src/RingBuffer/Tests.antt =====
-- The ring buffer's theorems at concrete buffers, and runs of the code of src/hev-ring-buffer.c.
use hev_lib.Base.{◌+◌, ◌≤◌, ◌≡◌, refl, true, false, some, List, [], ◌∷◌, arith, length}
use hev_lib.RingBuffer.{RingBuffer, region, aborted, new}
use hev_lib.RingBuffer.Reading.{regions, reading, read_finish}
use hev_lib.RingBuffer.Writing.{room, write_finish}
use hev_lib.RingBuffer.Valid.{IsValid, used, Leaves}
use hev_lib.RingBuffer.Window.{gather, slice, store, scatter, round}
use hev_lib.RingBuffer.Bounds.{Within, total, regions-Within}
use hev_lib.RingBuffer.Fifo.{contents, filled, Appended, write-Appended}
use hev_lib.RingBuffer.Misuse.{reported_over}
use hev_lib.RingBuffer.Client.{Op, put, get, run, queue, run-queue}
use hev_lib.RingBuffer.Life.{Fresh, new-Fresh}

-- 12, 13, then 10 round the end of four bytes of storage
abbrev wrapped : RingBuffer
wrapped = record { buffer = λ i. i + 10; ref_count = 1; wp = 1; rp = 2; len = 4; full = false }

-- the same storage, full
abbrev stuffed : RingBuffer
stuffed = record wrapped { wp = 2; full = true }

abbrev script : List Op
script = get 1 ∷ put (1 ∷ 2 ∷ 3 ∷ []) ∷ get 9 ∷ put (4 ∷ []) ∷ get 2 ∷ []

wrapped-IsValid : IsValid wrapped
wrapped-IsValid = ground arith

stuffed-IsValid : IsValid stuffed
stuffed-IsValid = ground arith

regions-wrapped : reading (some wrapped) true ≡ region 2 2 ∷ region 0 1 ∷ []
unfolding reading
regions-wrapped = refl

contents-wrapped : contents wrapped ≡ 12 ∷ 13 ∷ 10 ∷ []
unfolding round used
contents-wrapped = refl

run-wrapped :
    run wrapped script
    ≡ some ((12 ∷ []) ∷ (1 ∷ 2 ∷ []) ∷ (13 ∷ 10 ∷ 1 ∷ 2 ∷ []) ∷ (4 ∷ []) ∷ (4 ∷ []) ∷ [])
unfolding run total room gather slice scatter store write_finish read_finish regions
run-wrapped = refl

regions-Within_example :
    (length (regions stuffed) ≤ 2)
    × Within 4 (regions stuffed)
    × (total (regions stuffed) ≡ used stuffed)
regions-Within_example = regions-Within stuffed-IsValid

write-Appended_example :
    Leaves (write_finish (filled wrapped (7 ∷ [])) 1) (Appended wrapped (7 ∷ []))
write-Appended_example = write-Appended (7 ∷ []) wrapped-IsValid (unfold used in omega arith)

run-queue_example : run wrapped script ≡ some (queue 4 (contents wrapped) script)
run-queue_example = run-queue script wrapped-IsValid

new-Fresh_example : Fresh 16 (new (some (λ i. 0)) 16)
new-Fresh_example = new-Fresh (λ i. 0) 16 (omega arith)

reported_over_example : (read_finish wrapped 4 ≡ aborted) × (write_finish wrapped 2 ≡ aborted)
unfolding used
reported_over_example = reported_over 4 2 wrapped-IsValid (omega arith) (omega arith) (omega arith)

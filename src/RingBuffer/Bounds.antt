-- ===== src/RingBuffer/Bounds.antt =====
-- Memory safety of the regions that src/hev-ring-buffer.c hands out.
use hev_lib.Base.{ℕ, ◌+◌, ◌≤◌, ◌≡◌, List, [], ◌∷◌, arith, length, All}
use hev_lib.RingBuffer.{RingBuffer, Iovec}
use hev_lib.RingBuffer.Reading.{regions}
use hev_lib.RingBuffer.Writing.{room}
use hev_lib.RingBuffer.Valid.{IsValid, used}

-- the bytes that regions span together
unfoldable pub total : List Iovec → ℕ
total [] = 0
total (v ∷ vs) = v.len + total vs

abbrev pub Within : ℕ → List Iovec → Type 0
Within n = All (λ v. v.base + v.len ≤ n)

-- What `reading` hands out is at most two regions, which lie within the storage and span exactly
-- the bytes that wait.
pub regions-Within :
    {r : RingBuffer}
    → IsValid r
    → (length (regions r) ≤ 2) × Within r.len (regions r) × (total (regions r) ≡ used r)
unfolding regions total used
regions-Within {r} v = (ground arith, ground arith, ground arith)

-- What `writing` hands out is at most two regions, which lie within the storage and span exactly
-- the bytes that are free.
pub room-Within :
    {r : RingBuffer}
    → IsValid r
    → (length (room r) ≤ 2) × Within r.len (room r) × (total (room r) + used r ≡ r.len)
unfolding room total used
room-Within {r} v = (ground arith, ground arith, ground arith)

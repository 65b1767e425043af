-- ===== src/RingBuffer/Writing.antt =====
-- src/hev-ring-buffer.c: `hev_ring_buffer_writing` and `hev_ring_buffer_write_finish`, with the
-- three blocks of `Reading`.
use hev_lib.Base.{
  ℕ, ◌-◌, Bool, true, false, not, ◌&&◌, Option, none, some, List, [], ◌∷◌, ltb, leb, ◌==◌,
  if◌then◌else◌,
}
use hev_lib.RingBuffer.{RingBuffer, Iovec, Run, ok, checked, or_below, add_size, region}
use hev_lib.RingBuffer.Reading.{advance}

writing_start : RingBuffer → Option (List Iovec)
writing_start r =
    if (r.rp == r.wp) && not r.full
    then some (region 0 r.len ∷ [])
    else if ltb 0 r.wp && ltb r.wp r.len
    then some (region r.wp (r.len - r.wp) ∷ [])
    else if r.len == r.wp
    then some []
    else none

writing_inside : RingBuffer → Option (List Iovec)
writing_inside r =
    if r.wp == 0
    then some (region 0 (r.rp - r.wp) ∷ [])
    else if ltb 0 r.wp && ltb r.wp r.rp
    then some (region r.wp (r.rp - r.wp) ∷ [])
    else if (r.wp == r.rp) && not r.full
    then some (region r.wp (r.len - r.wp) ∷ region 0 r.rp ∷ [])
    else if ltb r.rp r.wp && ltb r.wp r.len
    then some (region r.wp (r.len - r.wp) ∷ region 0 r.rp ∷ [])
    else if r.len == r.wp
    then some (region 0 r.rp ∷ [])
    else none

writing_end : RingBuffer → Option (List Iovec)
writing_end r =
    if r.wp == 0
    then some (region 0 r.rp ∷ [])
    else if ltb 0 r.wp && ltb r.wp r.len
    then some (region r.wp (r.rp - r.wp) ∷ [])
    else if (r.wp == r.rp) && not r.full
    then some (region 0 r.rp ∷ [])
    else none

unfoldable pub room : RingBuffer → List Iovec
unfolding writing_start writing_inside writing_end
room r = or_below (if r.rp == 0 then writing_start r else none) (
    or_below (if ltb 0 r.rp && ltb r.rp r.len then writing_inside r else none)
      (or_below (if r.len == r.rp then writing_end r else none) []))

unfoldable pub writing : Option RingBuffer → (iovec : Bool) → List Iovec
unfolding room
writing none iovec = []
writing (some r) false = []
writing (some r) true = room r

-- `self->wp` is set, and `full` too if `filled`.
abbrev pub moved : RingBuffer → (wp : ℕ) → (filled : Bool) → RingBuffer
moved r p filled = record r { wp = p; full = if filled then true else r.full }

finish_start : RingBuffer → ℕ → Option Run
finish_start r inc =
    if (r.rp == r.wp) && not r.full
    then some (checked (leb inc r.len) (record r { wp = inc }))
    else if ltb 0 r.wp && ltb r.wp r.len
    then some (checked (leb inc (r.len - r.wp)) (record r { wp = add_size r.wp inc }))
    else if r.len == r.wp
    then some (ok r)
    else none

finish_inside : RingBuffer → ℕ → Option Run
finish_inside r inc =
    if r.wp == 0
    then some (checked (leb inc r.rp) (moved r (add_size r.wp inc) (add_size r.wp inc == r.rp)))
    else if ltb 0 r.wp && ltb r.wp r.rp
    then some
        (checked (leb inc (r.rp - r.wp)) (moved r (add_size r.wp inc) (add_size r.wp inc == r.rp)))
    else if (r.wp == r.rp) && not r.full
    then some (checked (leb inc r.len) (moved r (advance r.wp inc r.len) (r.len == inc)))
    else if ltb r.rp r.wp && ltb r.wp r.len
    then some (
        checked (leb inc (add_size (r.len - r.wp) r.rp))
          (moved r (advance r.wp inc r.len) (advance r.wp inc r.len == r.rp)))
    else if r.len == r.wp
    then some (checked (leb inc r.rp) (moved r inc (inc == r.rp)))
    else none

finish_end : RingBuffer → ℕ → Option Run
finish_end r inc =
    if r.wp == 0
    then some (checked (leb inc r.rp) (moved r inc (inc == r.rp)))
    else if ltb 0 r.wp && ltb r.wp r.len
    then some
        (checked (leb inc (r.len - r.wp)) (moved r (add_size r.wp inc) (add_size r.wp inc == r.rp)))
    else if (r.wp == r.rp) && not r.full
    then some (checked (leb inc r.len) (moved r inc (r.len == inc)))
    else none

unfoldable pub write_finish : RingBuffer → ℕ → Run
unfolding finish_start finish_inside finish_end
write_finish r inc =
    if ltb 0 inc
    then or_below (if r.rp == 0 then finish_start r inc else none) (
        or_below (if ltb 0 r.rp && ltb r.rp r.len then finish_inside r inc else none)
          (or_below (if r.len == r.rp then finish_end r inc else none) (ok r)))
    else ok r

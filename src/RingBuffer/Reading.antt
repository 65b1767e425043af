-- ===== src/RingBuffer/Reading.antt =====
-- src/hev-ring-buffer.c: `hev_ring_buffer_reading` and `hev_ring_buffer_read_finish`.
--
-- The code has three blocks, for the read position at the start, inside and at the end of the
-- storage. A block that returns gives `some`; one that falls through gives `none`.
use hev_lib.Base.{
  ℕ, ◌-◌, Bool, true, false, ◌&&◌, Option, none, some, List, [], ◌∷◌, ltb, leb, ◌==◌, if◌then◌else◌,
}
use hev_lib.RingBuffer.{RingBuffer, Iovec, Run, ok, checked, or_below, add_size, region}

reading_start : RingBuffer → Option (List Iovec)
reading_start r =
    if (r.rp == r.wp) && r.full
    then some (region 0 r.len ∷ [])
    else if ltb 0 r.wp && ltb r.wp r.len
    then some (region 0 r.wp ∷ [])
    else if r.len == r.wp
    then some (region 0 r.wp ∷ [])
    else none

reading_inside : RingBuffer → Option (List Iovec)
reading_inside r =
    if r.wp == 0
    then some (region r.rp (r.len - r.rp) ∷ [])
    else if ltb 0 r.wp && ltb r.wp r.rp
    then some (region r.rp (r.len - r.rp) ∷ region 0 r.wp ∷ [])
    else if (r.wp == r.rp) && r.full
    then some (region r.rp (r.len - r.rp) ∷ region 0 r.wp ∷ [])
    else if ltb r.rp r.wp && ltb r.wp r.len
    then some (region r.rp (r.wp - r.rp) ∷ [])
    else if r.len == r.wp
    then some (region r.rp (r.wp - r.rp) ∷ [])
    else none

reading_end : RingBuffer → Option (List Iovec)
reading_end r =
    if r.wp == 0
    then some []
    else if ltb 0 r.wp && ltb r.wp r.len
    then some (region 0 r.wp ∷ [])
    else if (r.wp == r.rp) && r.full
    then some (region 0 r.wp ∷ [])
    else none

-- The regions, whose number is what the function returns.
unfoldable pub regions : RingBuffer → List Iovec
unfolding reading_start reading_inside reading_end
regions r = or_below (if r.rp == 0 then reading_start r else none) (
    or_below (if ltb 0 r.rp && ltb r.rp r.len then reading_inside r else none)
      (or_below (if r.len == r.rp then reading_end r else none) []))

-- `iovec` says whether the array is given.
unfoldable pub reading : Option RingBuffer → (iovec : Bool) → List Iovec
unfolding regions
reading none iovec = []
reading (some r) false = []
reading (some r) true = regions r

finish_start : RingBuffer → ℕ → Option Run
finish_start r inc =
    if (r.rp == r.wp) && r.full
    then some (checked (leb inc r.len) (record r { rp = inc; full = false }))
    else if ltb 0 r.wp && ltb r.wp r.len
    then some (checked (leb inc r.wp) (record r { rp = inc }))
    else if r.len == r.wp
    then some (checked (leb inc r.len) (record r { rp = inc }))
    else none

-- `rp += inc; if (rp > len) rp -= len;`
abbrev pub advance : (pos inc len : ℕ) → ℕ
advance pos inc len = let next = add_size pos inc in if ltb len next then next - len else next

finish_inside : RingBuffer → ℕ → Option Run
finish_inside r inc =
    if r.wp == 0
    then some (checked (leb inc (r.len - r.rp)) (record r { rp = add_size r.rp inc }))
    else if ltb 0 r.wp && ltb r.wp r.rp
    then some (
        checked (leb inc (add_size (r.len - r.rp) r.wp)) (record r { rp = advance r.rp inc r.len }))
    else if (r.wp == r.rp) && r.full
    then some (
        checked (leb inc (add_size (r.len - r.rp) r.wp))
          (record r { rp = advance r.rp inc r.len; full = false }))
    else if ltb r.rp r.wp && ltb r.wp r.len
    then some (checked (leb inc (r.wp - r.rp)) (record r { rp = add_size r.rp inc }))
    else if r.len == r.wp
    then some (checked (leb inc (r.wp - r.rp)) (record r { rp = add_size r.rp inc }))
    else none

finish_end : RingBuffer → ℕ → Option Run
finish_end r inc =
    if r.wp == 0
    then some (ok r)
    else if ltb 0 r.wp && ltb r.wp r.len
    then some (checked (leb inc r.wp) (record r { rp = inc }))
    else if (r.wp == r.rp) && r.full
    then some (checked (leb inc r.wp) (record r { rp = inc; full = false }))
    else none

unfoldable pub read_finish : RingBuffer → ℕ → Run
unfolding finish_start finish_inside finish_end
read_finish r inc =
    if ltb 0 inc
    then or_below (if r.rp == 0 then finish_start r inc else none) (
        or_below (if ltb 0 r.rp && ltb r.rp r.len then finish_inside r inc else none)
          (or_below (if r.len == r.rp then finish_end r inc else none) (ok r)))
    else ok r

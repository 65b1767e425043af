-- ===== src/Queue.antt =====
-- src/hev-queue.c: queues over the lists of src/hev-slist.c.
--
-- A queue that is null, or whose memory was given back, is `none`. `fresh` and `rounds` are those
-- of the list.
pub mod Fifo
mod Tests
use hev_lib.Base.{ℕ, ◌+◌, ◌-◌, ◌%◌, ◌^◌, Bool, Option, none, some, ◌==◌, if◌then◌else◌}
use hev_lib.SList.{append, remove, item, last, free_all}
use hev_lib.SList.Memory.{Cmd, pure, ◌>>=◌, ◌>>◌}

pub record Queue : Type 0 where
  pub slist : ℕ
  pub ref_count : ℕ

unfoldable pub new : (served : Bool) → Option Queue
new served = if served then some (record { slist = 0; ref_count = 1 }) else none

unfoldable pub ref : Option Queue → Option Queue
ref none = none
ref (some q) = some (record q { ref_count = (q.ref_count + 1) % 2 ^ 32 })

unfoldable pub unref : (rounds : ℕ) → Option Queue → Cmd (Option Queue)
unref f none = pure none
unref f (some q) =
    let count = (q.ref_count + (2 ^ 32 - 1)) % 2 ^ 32 in
    if count == 0
    then (free_all f q.slist >> pure none)
    else pure (some (record q { ref_count = count }))

unfoldable pub push : (rounds : ℕ) → Option Queue → (item fresh : ℕ) → Cmd (Option Queue)
push f none x fresh = pure none
push f (some q) x fresh = append f q.slist x fresh >>= λ l. pure (some (record q { slist = l }))

-- The item, and the queue.
unfoldable pub pop : (rounds : ℕ) → Option Queue → Cmd (ℕ × Option Queue)
pop f none = pure (0, none)
pop f (some q) =
    if q.slist == 0
    then pure (0, some q)
    else (item q.slist >>= λ x. remove f q.slist x >>= λ l. pure (x, some (record q { slist = l })))

unfoldable pub peek_head : Option Queue → Cmd ℕ
peek_head none = pure 0
peek_head (some q) = if q.slist == 0 then pure 0 else item q.slist

unfoldable pub peek_tail : (rounds : ℕ) → Option Queue → Cmd ℕ
peek_tail f none = pure 0
peek_tail f (some q) = if q.slist == 0 then pure 0 else (last f q.slist >>= λ l. item l)

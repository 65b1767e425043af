-- ===== src/AsyncQueue.antt =====
-- src/hev-async-queue.c: a queue that threads share, by a mutex and a condition.
--
-- The queue is that of src/hev-queue.c by its items. A thread stands where it next touches what is
-- shared, so the threads' steps can be interleaved at each of these places. `Steps` holds what the
-- mutex and the condition allow.
pub mod Threads
pub mod Steps
pub mod Thinned
pub mod Items
pub mod Trying
pub mod Invariant
pub mod Keeping
pub mod Reached
pub mod Safety
pub mod Progress
pub mod References
mod Tests
use hev_lib.Base.{
  ℕ, suc, ◌+◌, ◌-◌, ◌%◌, ◌^◌, Bool, true, false, not, ◌&&◌, ◌||◌, Option, none, some, List, [], ◌∷◌,
  ◌++◌, ltb, ◌==◌, if◌then◌else◌,
}

-- `struct _HevAsyncQueue`; `has_queue` is false for a NULL `queue`. For the theorems, `given` holds
-- the items of the calls of `push` that got the mutex and `taken` what `pop` returned, in order,
-- `lost` is the number of items that the queue had no memory for, or that are NULL and were taken
-- for an empty queue, and `freed` says that the memory was given back.
pub record AsyncQueue : Type 0 where
  pub has_queue : Bool
  pub queue : List ℕ
  pub waiting_threads : ℕ
  pub ref_count : ℕ
  pub locked : Bool
  pub given : List ℕ
  pub taken : List ℕ
  pub lost : ℕ
  pub freed : Bool

-- What the calls of `new` return: memory for the struct, memory for the queue, and the two
-- initialisations, 0 for success.
pub record Start : Type 0 where
  pub memory : Bool
  pub queue : Bool
  pub mutex : ℕ
  pub cond : ℕ

unfoldable pub new : Start → Option AsyncQueue
new o =
    if o.memory
    then (if not (o.mutex == 0) || not (o.cond == 0)
        then none
        else some (record {
          has_queue = o.queue;
          queue = [];
          waiting_threads = 0;
          ref_count = 1;
          locked = false;
          given = [];
          taken = [];
          lost = 0;
          freed = false;
        }))
    else none

-- Where a thread stands.
pub data Pc : Type 0 where
  idle : Pc  -- in no call
  adding : (item : ℕ) → Pc  -- `push`, with the mutex, before `hev_queue_push`
  signalling : Pc  -- `push`, before the test of `waiting_threads`
  added : Pc  -- `push`, before the unlock
  entering : Pc  -- `pop`, with the mutex, before `waiting_threads ++`
  trying : Pc  -- `pop`, with the mutex, before `hev_queue_pop`
  asleep : Pc  -- `pop`, in `pthread_cond_wait`
  woken : Pc  -- the same, to take the mutex again
  leaving : (item : ℕ) → Pc  -- `pop`, with the mutex, before `waiting_threads --`
  left : (item : ℕ) → Pc  -- `pop`, before the unlock
  sharing : Pc  -- `ref`, with the mutex, before `ref_count ++`
  shared : Pc  -- `ref`, before the unlock
  dropping : Pc  -- `unref`, with the mutex, before `ref_count --`
  dropped : Pc  -- `unref`, before the unlock, with references left
  ending : Pc  -- `unref`, without references left, before all is given back

-- `ref_count --` of `unref`, and its test.
abbrev pub drop_reference : AsyncQueue → AsyncQueue × Pc
drop_reference q =
    let count = (q.ref_count + (2 ^ 32 - 1)) % 2 ^ 32 in
    (record q { ref_count = count }, if count == 0 then ending else dropped)

-- The unlock, and what is given back with it.
abbrev pub give_back : AsyncQueue → AsyncQueue
give_back q = record q { locked = false; freed = true }

-- What a thread with the mutex does next, where that is its own affair alone. `served` says whether
-- the queue has memory for an item.
unfoldable pub act : (served : Bool) → Pc → AsyncQueue → Option (AsyncQueue × Pc)
act served idle q = none
act served (adding x) q = some (
  if served && q.has_queue
      then record q { queue = q.queue ++ x ∷ [] }
      else record q { lost = suc q.lost },
  signalling,
)
act served signalling q = none
act served added q = some (record q { locked = false }, idle)
act served entering q =
    some (record q { waiting_threads = (q.waiting_threads + 1) % 2 ^ 32 }, trying)
act served trying q = elim q.queue [
  | [] ↦ some (record q { locked = false }, asleep)
  | x ∷ xs ↦
      if x == 0
      then some (record q { queue = xs; lost = suc q.lost; locked = false }, asleep)
      else some (record q { queue = xs }, leaving x)
]
act served asleep q = none
act served woken q = none
act served (leaving x) q =
    some (record q { waiting_threads = (q.waiting_threads + (2 ^ 32 - 1)) % 2 ^ 32 }, left x)
act served (left x) q = some (record q { taken = q.taken ++ x ∷ []; locked = false }, idle)
act served sharing q = some (record q { ref_count = (q.ref_count + 1) % 2 ^ 32 }, shared)
act served shared q = some (record q { locked = false }, idle)
act served dropping q = some (drop_reference q)
act served dropped q = some (record q { locked = false }, idle)
act served ending q = some (give_back q, idle)

-- Whether `push` signals the condition.
unfoldable pub signals : AsyncQueue → Bool
signals q = ltb 0 q.waiting_threads

-- ===== src/AsyncQueue/Steps.antt =====
-- The threads of src/hev-async-queue.c, interleaved in any order.
--
-- The mutex is taken only while it is free; `pthread_mutex_lock` may fail, and the call then returns
-- at once. A wait on the condition gives the mutex back and sleeps in one step; a signal wakes a
-- sleeping thread, if there is one; a thread may also wake of itself.
use hev_lib.Base.{ℕ, ◌<◌, ◌≡◌, ◌≢◌, [], ◌∷◌, ◌++◌, Bool, true, false, some}
use hev_lib.AsyncQueue.{
  AsyncQueue, Pc, idle, adding, signalling, added, entering, trying, asleep, woken, sharing,
  dropping, act, signals,
}
use hev_lib.AsyncQueue.Threads.{put}

pub record System : Type 0 where
  pub queue : AsyncQueue
  pub pc : ℕ → Pc

abbrev pub at : AsyncQueue → (ℕ → Pc) → System
at q f = record { queue = q; pc = f }

abbrev pub locking : AsyncQueue → AsyncQueue
locking q = record q { locked = true }

-- A call of `push` with an item.
abbrev pub called : ℕ → AsyncQueue → AsyncQueue
called x q = record q { given = q.given ++ x ∷ [] }

-- `n` threads.
pub data Step (n : ℕ) (s : System) (t : System) : Type 0 where
  call_push :
      (i x : ℕ)
      → i < n
      → s.pc i ≡ idle
      → s.queue.locked ≡ false
      → t ≡ at (locking (called x s.queue)) (put s.pc i (adding x))
      → Step n s t
  call_pop :
      (i : ℕ)
      → i < n
      → s.pc i ≡ idle
      → s.queue.locked ≡ false
      → t ≡ at (locking s.queue) (put s.pc i entering)
      → Step n s t
  call_ref :
      (i : ℕ)
      → i < n
      → s.pc i ≡ idle
      → s.queue.locked ≡ false
      → t ≡ at (locking s.queue) (put s.pc i sharing)
      → Step n s t
  call_unref :
      (i : ℕ)
      → i < n
      → s.pc i ≡ idle
      → s.queue.locked ≡ false
      → t ≡ at (locking s.queue) (put s.pc i dropping)
      → Step n s t
  not_locked : (i : ℕ) → i < n → s.pc i ≡ idle → t ≡ s → Step n s t
  run :
      (i : ℕ) (served : Bool) (p : Pc) (q : AsyncQueue × Pc)
      → i < n
      → s.pc i ≡ p
      → act served p s.queue ≡ some q
      → t ≡ at q.0 (put s.pc i q.1)
      → Step n s t
  pass_signal :
      (i : ℕ)
      → i < n
      → s.pc i ≡ signalling
      → signals s.queue ≡ false
      → t ≡ at s.queue (put s.pc i added)
      → Step n s t
  wake :
      (i j : ℕ)
      → i < n
      → j < n
      → s.pc i ≡ signalling
      → signals s.queue ≡ true
      → s.pc j ≡ asleep
      → t ≡ at s.queue (put (put s.pc i added) j woken)
      → Step n s t
  wake_none :
      (i : ℕ)
      → i < n
      → s.pc i ≡ signalling
      → signals s.queue ≡ true
      → ((j : ℕ) → j < n → s.pc j ≢ asleep)
      → t ≡ at s.queue (put s.pc i added)
      → Step n s t
  wake_alone : (j : ℕ) → j < n → s.pc j ≡ asleep → t ≡ at s.queue (put s.pc j woken) → Step n s t
  relock :
      (j : ℕ)
      → j < n
      → s.pc j ≡ woken
      → s.queue.locked ≡ false
      → t ≡ at (locking s.queue) (put s.pc j trying)
      → Step n s t

-- What `n` threads that share a new queue can reach.
pub data Reach (n : ℕ) (q : AsyncQueue) : System → Type 0 where
  start : Reach n q (at q (λ _. idle))
  later : {s t : System} → Reach n q s → Step n s t → Reach n q t

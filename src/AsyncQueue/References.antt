-- ===== src/AsyncQueue/References.antt =====
-- Threads that call the functions of src/hev-async-queue.c only with a reference of their own.
pub mod Effects
pub mod Counted
pub mod Freed
use hev_lib.Base.{ℕ, ◌+◌, ◌-◌, ◌^◌, ◌<◌, ◌≡◌, ◌≢◌}
use hev_lib.AsyncQueue.{
  AsyncQueue, Pc, idle, adding, signalling, added, entering, trying, asleep, woken, leaving, left,
  sharing, shared, dropping, dropped, ending,
}
use hev_lib.AsyncQueue.Threads.{put}
use hev_lib.AsyncQueue.Steps.{
  System, at, Step, call_push, call_pop, call_ref, call_unref, not_locked, run, pass_signal, wake,
  wake_none, wake_alone, relock,
}

-- 1 where a thread gains a reference with what it does next.
abbrev pub grants : Pc → ℕ
grants idle = 0
grants (adding x) = 0
grants signalling = 0
grants added = 0
grants entering = 0
grants trying = 0
grants asleep = 0
grants woken = 0
grants (leaving x) = 0
grants (left x) = 0
grants sharing = 1
grants shared = 0
grants dropping = 0
grants dropped = 0
grants ending = 0

-- 1 where it gives one up.
abbrev pub takes : Pc → ℕ
takes idle = 0
takes (adding x) = 0
takes signalling = 0
takes added = 0
takes entering = 0
takes trying = 0
takes asleep = 0
takes woken = 0
takes (leaving x) = 0
takes (left x) = 0
takes sharing = 0
takes shared = 0
takes dropping = 1
takes dropped = 0
takes ending = 0

-- A call needs a reference, and there are fewer than 2 ^ 32 of them.
abbrev pub Lawful : {n : ℕ} {s t : System} → Step n s t → (ℕ → ℕ) → Type 0
Lawful (call_push i x inside here free e) owns = 0 < owns i
Lawful (call_pop i inside here free e) owns = 0 < owns i
Lawful (call_ref i inside here free e) owns = 0 < owns i
Lawful (call_unref i inside here free e) owns = 0 < owns i
Lawful (not_locked i inside here e) owns = 0 < owns i
Lawful {s} (run i served p q inside here acts e) owns = s.queue.ref_count + grants p < 2 ^ 32
Lawful (pass_signal i inside here silent e) owns = Unit {0}
Lawful (wake i j inside inside' here loud here' e) owns = Unit {0}
Lawful (wake_none i inside here loud nobody e) owns = Unit {0}
Lawful (wake_alone j inside here e) owns = Unit {0}
Lawful (relock j inside here free e) owns = Unit {0}

-- How many references each thread has after a step.
abbrev pub owned_after : {n : ℕ} {s t : System} → Step n s t → (ℕ → ℕ) → ℕ → ℕ
owned_after (call_push i x inside here free e) owns = owns
owned_after (call_pop i inside here free e) owns = owns
owned_after (call_ref i inside here free e) owns = owns
owned_after (call_unref i inside here free e) owns = owns
owned_after (not_locked i inside here e) owns = owns
owned_after (run i served p q inside here acts e) owns = put owns i (owns i + grants p - takes p)
owned_after (pass_signal i inside here silent e) owns = owns
owned_after (wake i j inside inside' here loud here' e) owns = owns
owned_after (wake_none i inside here loud nobody e) owns = owns
owned_after (wake_alone j inside here e) owns = owns
owned_after (relock j inside here free e) owns = owns

-- What `n` threads reach from a new queue whose only reference one of them has; a thread that is in
-- no call may hand a reference to another.
pub data Shares (n : ℕ) (q : AsyncQueue) : System → (ℕ → ℕ) → Type 0 where
  start : (i : ℕ) → i < n → Shares n q (at q (λ _. idle)) (put (λ _. 0) i 1)
  hand :
      {s : System} {owns : ℕ → ℕ}
      → Shares n q s owns
      → (i j : ℕ) → i < n
      → j < n
      → i ≢ j
      → s.pc i ≡ idle
      → 0 < owns i
      → Shares n q s (put (put owns i (owns i - 1)) j (owns j + 1))
  later :
      {s t : System} {owns : ℕ → ℕ}
      → Shares n q s owns
      → (step : Step n s t) → Lawful step owns
      → Shares n q t (owned_after step owns)

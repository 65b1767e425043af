-- ===== src/AsyncQueue/Tests.antt =====
-- Tests of the model of src/hev-async-queue.c, and its theorems at two threads.
use hev_lib.Base.{
  ℕ, zero, suc, ◌<◌, ◌≡◌, ◌↔◌, refl, Bool, true, false, some, none, [], ◌∷◌, arith, inl, inr,
}
use hev_lib.AsyncQueue.{
  AsyncQueue, Start, new, idle, adding, signalling, added, entering, trying, asleep, woken, leaving,
  left, dropping, ending, act, signals,
}
use hev_lib.AsyncQueue.Threads.{put}
use hev_lib.AsyncQueue.Steps.{
  System, at, locking, call_push, call_pop, call_unref, run, wake, Reach, start, later,
}
use hev_lib.AsyncQueue.References
use hev_lib.AsyncQueue.References.{Shares}
use hev_lib.AsyncQueue.References.Freed.{Unused, unref-freed, step-open}
use hev_lib.AsyncQueue.Thinned.{Thinned}
use hev_lib.AsyncQueue.Safety.{AtRest, no-LostWakeup}
use hev_lib.AsyncQueue.Progress.{Goes, busy-Goes}

abbrev ready : Start
ready = record { memory = true; queue = true; mutex = 0; cond = 0 }

abbrev empty : AsyncQueue
empty = record {
  has_queue = true;
  queue = [];
  waiting_threads = 0;
  ref_count = 1;
  locked = false;
  given = [];
  taken = [];
  lost = 0;
  freed = false;
}

new_ready : new ready ≡ some empty
unfolding new
new_ready = refl

new_failed : new (record ready { cond = 12 }) ≡ none
unfolding new
new_failed = refl

abbrev waiter : AsyncQueue
waiter = record empty { waiting_threads = 1 }

abbrev first_call : System
first_call = at (locking empty) (put (λ _. idle) 0 entering)

abbrev first_try : System
first_try = at (locking waiter) (put first_call.pc 0 trying)

abbrev first_sleeps : System
first_sleeps = at waiter (put first_try.pc 0 asleep)

abbrev second_call : System
second_call = at (locking (record waiter { given = 7 ∷ [] })) (put first_sleeps.pc 1 (adding 7))

abbrev second_signals : System
second_signals =
    at (record (locking waiter) { queue = 7 ∷ []; given = 7 ∷ [] })
      (put second_call.pc 1 signalling)

abbrev first_wakes : System
first_wakes = at second_signals.queue (put (put second_signals.pc 1 added) 0 woken)

sleeps_reached : Reach 2 empty first_sleeps
unfolding act
sleeps_reached =
    later
      (later (later start (call_pop 0 (omega arith) refl refl refl))
        (run 0 true entering (_, trying) (omega arith) refl refl refl))
      (run 0 true trying (_, asleep) (omega arith) refl refl refl)

signals_reached : Reach 2 empty second_signals
unfolding act
signals_reached =
    later (later sleeps_reached (call_push 1 7 (omega arith) refl refl refl))
      (run 1 true (adding 7) (_, signalling) (omega arith) refl refl refl)

wakes_reached : Reach 2 empty first_wakes
unfolding signals
wakes_reached = later signals_reached (wake 1 0 (omega arith) (omega arith) refl refl refl refl)

-- One thread pushes 7 and then 8, for which there is no memory, and pops the 7.
abbrev seven : AsyncQueue
seven = record empty { queue = 7 ∷ []; given = 7 ∷ [] }

abbrev pushed : System
pushed = at seven (put (put (put (put (λ _. idle) 0 (adding 7)) 0 signalling) 0 added) 0 idle)

abbrev refused : System
refused =
    at (record seven { given = 7 ∷ 8 ∷ []; lost = 1 })
      (put (put (put (put pushed.pc 0 (adding 8)) 0 signalling) 0 added) 0 idle)

abbrev popped : System
popped =
    at (record empty { given = 7 ∷ 8 ∷ []; taken = 7 ∷ []; lost = 1 })
      (put (put (put (put (put refused.pc 0 entering) 0 trying) 0 (leaving 7)) 0 (left 7)) 0 idle)

at_rest : (i : ℕ) → i < 2 → AtRest (first_sleeps.pc i)
at_rest zero l = inr refl
at_rest (suc zero) l = inl refl
at_rest (suc (suc i)) l = absurd (omega arith)

no-LostWakeup_example : first_sleeps.queue.queue ≡ []
no-LostWakeup_example =
    no-LostWakeup 2 ready empty first_sleeps (omega arith) new_ready sleeps_reached tt at_rest 0
      (omega arith) refl

busy-Goes_example : Goes 2 first_wakes
busy-Goes_example =
    busy-Goes 2 ready empty first_wakes (omega arith) new_ready wakes_reached 1 (omega arith)
      (λ r. elim r [ inl e ↦ absurd cc | inr e ↦ absurd cc ])

-- The only reference is given up.
abbrev last_call : System
last_call = at (locking empty) (put (λ _. idle) 0 dropping)

abbrev last_drop : System
last_drop = at (record (locking empty) { ref_count = 0 }) (put last_call.pc 0 ending)

abbrev gone : System
gone = at (record empty { ref_count = 0; freed = true }) (put last_drop.pc 0 idle)

abbrev one_each : ℕ → ℕ
one_each = put (λ _. 0) 0 1

gone_shared : Shares 2 empty gone (put (put one_each 0 0) 0 0)
unfolding act
gone_shared =
    References.later
      (References.later
        (References.later (References.start 0 (omega arith))
          (call_unref 0 (omega arith) refl refl refl) (omega arith))
        (run 0 true dropping (_, ending) (omega arith) refl refl refl) (omega arith))
      (run 0 true ending (_, idle) (omega arith) refl refl refl) (omega arith)

unref-freed_example : (true ≡ true) ↔ Unused 2 gone (put (put one_each 0 0) 0 0)
unref-freed_example =
    unref-freed 2 ready empty (omega arith) new_ready gone (put (put one_each 0 0) 0 0) gone_shared

step-open_example : ◌≡◌ {A = Bool} false false
step-open_example =
    step-open 2 ready empty (omega arith) new_ready (at empty (λ _. idle)) one_each
      (References.start 0 (omega arith)) first_call (call_pop 0 (omega arith) refl refl refl)
      (omega arith)

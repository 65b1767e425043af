-- ===== src/AsyncQueue/Safety.antt =====
-- What threads can rely on that share a queue of src/hev-async-queue.c.
use hev_lib.Base.{
  ℕ, ◌^◌, ◌≤◌, ◌<◌, ◌≡◌, ◌≢◌, ◌⊎◌, inl, inr, refl, Bool, true, false, some, List, [], ◌∷◌, All,
  length, arith, ◌==◌, Bool-cases,
}
use hev_lib.AsyncQueue.{AsyncQueue, Pc, Start, new, idle, asleep}
use hev_lib.AsyncQueue.Threads.{weigh, weight-le-weigh, weigh-eq_zero, two-le-weigh}
use hev_lib.AsyncQueue.Steps.{System, Reach}
use hev_lib.AsyncQueue.Invariant.{holds, sleeps, serves, lock_count, lock_count-le}
use hev_lib.AsyncQueue.Thinned.{Thinned}
use hev_lib.AsyncQueue.Keeping.{Kept}
use hev_lib.AsyncQueue.Reached.{Reach-Kept}

-- In no call, or asleep in `pop`.
abbrev pub AtRest : Pc → Type 0
AtRest p = (p ≡ idle) ⊎ (p ≡ asleep)

AtRest-serves : (p : Pc) → AtRest p → serves p ≡ 0
AtRest-serves p (inl e) = rw e refl
AtRest-serves p (inr e) = rw e refl

locked_of : (b : Bool) → lock_count b ≡ 1 → b ≡ true
locked_of true e = refl
locked_of false e = absurd (omega arith)

empty_queue : (xs : List ℕ) → length xs ≤ 0 → xs ≡ []
empty_queue [] h = refl
empty_queue (x ∷ xs) h = absurd (omega arith)

module _ (n : ℕ) (o : Start) (q : AsyncQueue) (s : System) (small : n < 2 ^ 32)
    (begun : new o ≡ some q) (reach : Reach n q s) where
  kept : Kept n s
  kept = Reach-Kept n o q s small begun reach

  -- In every state that fewer than 2 ^ 32 threads reach from a new queue, at most one thread stands
  -- where it has the mutex, and while one does the mutex is taken.
  pub one-Holder :
      (i j : ℕ)
      → i < n
      → j < n
      → holds (s.pc i) ≡ 1
      → holds (s.pc j) ≡ 1
      → (i ≡ j) × (s.queue.locked ≡ true)
  one-Holder i j inside inside' h h' =
      let lock : lock_count s.queue.locked ≡ 1 = omega (
        arith,
        weight-le-weigh holds n i s.pc inside,
        h,
        kept.counts.held,
        lock_count-le s.queue.locked,
      ) in
      (
        elim (Bool-cases (i == j)) [
          | inl e ↦ ground arith
          | inr e ↦
              let apart : i ≢ j = λ k. ground arith in
              absurd (
                omega (
                  arith,
                  two-le-weigh holds n i j s.pc inside inside' apart,
                  h,
                  h',
                  kept.counts.held,
                  lock,
                ))
        ],
        locked_of s.queue.locked lock,
      )

  -- In every state that fewer than 2 ^ 32 threads reach from a new queue where each thread is in no
  -- call or sleeps in `pop`, no thread sleeps while the queue has an item, if `push` was never called
  -- with NULL.
  pub no-LostWakeup :
      All (λ x. x ≢ 0) s.queue.given
      → ((i : ℕ) → i < n → AtRest (s.pc i))
      → (j : ℕ) → j < n
      → s.pc j ≡ asleep
      → s.queue.queue ≡ []
  no-LostWakeup sound rest j inside here =
      let one : sleeps (s.pc j) ≡ 1 = rw here refl in
      let quiet : weigh serves n s.pc ≡ 0 =
        weigh-eq_zero serves n s.pc (λ i l. AtRest-serves (s.pc i) (rest i l)) in
      empty_queue s.queue.queue (
        omega (
          arith,
          kept.counts.served sound (omega (arith, weight-le-weigh sleeps n j s.pc inside, one)),
          quiet,
        ))

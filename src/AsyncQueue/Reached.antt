-- ===== src/AsyncQueue/Reached.antt =====
-- Every state that the threads of src/hev-async-queue.c reach has the invariant.
use hev_lib.Base.{
  List, ◌∷◌, ◌++◌, All, append_assoc, not, ◌||◌, ◌==◌, Bool-cases, inl, inr, [], ℕ, ◌^◌, ◌<◌, ◌≡◌,
  ◌≢◌, refl, sym, ap, ◌∙◌, Bool, false, some, arith,
}
use hev_lib.AsyncQueue.{
  AsyncQueue, Pc, Start, new, idle, adding, signalling, added, entering, trying, asleep, woken,
  sharing, dropping, signals,
}
use hev_lib.AsyncQueue.Threads.{put, put_ne, weigh, weigh-eq_zero, weigh_mono}
use hev_lib.AsyncQueue.Steps.{
  System, at, locking, Step, call_push, call_pop, call_ref, call_unref, not_locked, run,
  pass_signal, wake, wake_none, wake_alone, relock, Reach, start, later,
}
use hev_lib.AsyncQueue.Invariant.{
  not_asleep, holds, waits, sleeps, serves, lock_count, moved, move-Counts, Counts, Sound,
  sleeps-le-waits,
}
use hev_lib.AsyncQueue.Keeping.{Kept, located, locked_by, run-Kept}
use hev_lib.AsyncQueue.Items.{in_order, Items, move-Items, aside-Items}
use hev_lib.AsyncQueue.Thinned.{Thinned, done, Thinned-keep, All-init}

signals-false : (q : AsyncQueue) → signals q ≡ false → q.waiting_threads ≡ 0
unfolding signals
signals-false q e = ground arith

module _ (n : ℕ) (small : n < 2 ^ 32) (q : AsyncQueue) (f : ℕ → Pc) (k : Kept n (at q f)) where
  -- A thread that is idle calls, and one that was woken goes on: with the mutex. `given` holds the item
  -- of a `push` besides.
  locking-Kept :
      (given : List ℕ) (i : ℕ) (p a : Pc)
      → i < n
      → f i ≡ p
      → q.locked ≡ false
      → holds p ≡ 0
      → holds a ≡ 1
      → waits p ≡ waits a
      → sleeps p ≡ sleeps a
      → serves p ≡ serves a
      → (All (λ x. x ≢ 0) given → Sound q)
      → Thinned (in_order a (locking (record q { given = given }))) given q.lost
      → Kept n (at (locking (record q { given = given })) (put f i a))
  locking-Kept given i p a inside here free h h' w s v back now =
      let open_ : lock_count q.locked ≡ 0 = ap lock_count free in
      let r : AsyncQueue = locking (record q { given = given }) in
      let counts : Counts n r (put f i a) =
        move-Counts n q r f i p a inside here small k.counts (omega arith) (λ m b b' l. omega arith)
          back (λ y z c d ok l l' g pos. omega (arith, g (omega arith))) in
      record { counts = counts; items = move-Items n r f i a inside counts.held (sym h') now }

  added-Items : (i : ℕ) → i < n → f i ≡ signalling → Items n q (put f i added)
  added-Items i inside here =
      let has = locked_by n small q f k.counts k.items i inside signalling here refl in
      move-Items n q f i added inside
        (omega (arith, moved n q q f i signalling added inside here holds, k.counts.held)) has
        (located n small q f k.counts k.items i inside signalling here refl)

  -- `push` where no thread sleeps.
  passed-Kept :
      (i : ℕ) → i < n → f i ≡ signalling → weigh sleeps n f ≡ 0 → Kept n (at q (put f i added))
  passed-Kept i inside here alone = record {
    counts = record {
      held = omega (arith, moved n q q f i signalling added inside here holds, k.counts.held);
      waiting = omega (arith, moved n q q f i signalling added inside here waits, k.counts.waiting);
      served =
          λ ok pos. absurd (omega (arith, moved n q q f i signalling added inside here sleeps));
    };
    items = added-Items i inside here;
  }

  none_asleep : q.waiting_threads ≡ 0 → weigh sleeps n f ≡ 0
  none_asleep e = omega (arith, weigh_mono sleeps waits sleeps-le-waits n f, k.counts.waiting)

  woken_alone-Kept : (j : ℕ) → j < n → f j ≡ asleep → Kept n (at q (put f j woken))
  woken_alone-Kept j inside here = record {
    counts =
        move-Counts n q q f j asleep woken inside here small k.counts refl (λ m b b' l. omega arith)
          (λ z. z) (λ y z c d ok l l' g pos. omega (arith, g (omega arith)));
    items = aside-Items n q f j woken refl k.items;
  }

  wake-Kept :
      (i j : ℕ)
      → i < n
      → j < n
      → f i ≡ signalling
      → f j ≡ asleep
      → Kept n (at q (put (put f i added) j woken))
  wake-Kept i j inside inside' here here' =
      let apart : j ≢ i = λ e. (let same : f j ≡ f i = ap f e in cc) in
      let still : put f i added j ≡ asleep = put_ne f i j added apart ∙ here' in
      let first = λ (w : Pc → ℕ). moved n q q f i signalling added inside here w in
      let second = λ (w : Pc → ℕ). moved n q q (put f i added) j asleep woken inside' still w in
      record {
        counts = record {
          held = omega (arith, first holds, second holds, k.counts.held);
          waiting = omega (arith, first waits, second waits, k.counts.waiting);
          served = λ ok pos. omega (
            arith,
            first sleeps,
            second sleeps,
            first serves,
            second serves,
            k.counts.served ok (omega (arith, first sleeps, second sleeps)),
          );
        };
        items = aside-Items n q (put f i added) j woken refl (added-Items i inside here);
      }

Step-Kept : (n : ℕ) (s t : System) → n < 2 ^ 32 → Kept n s → Step n s t → Kept n t
Step-Kept n s t small k (call_push i x inside here free e) =
    let q = s.queue in
    let more : Thinned (q.taken ++ (q.queue ++ x ∷ [])) (q.given ++ x ∷ []) q.lost =
      rw (append_assoc q.taken q.queue (x ∷ [])) at (Thinned-keep x (k.items.free free)) in
    rw e (
      locking-Kept n small q s.pc k (q.given ++ x ∷ []) i idle (adding x) inside here free refl refl
        refl refl refl (All-init q.given (x ∷ [])) more)
Step-Kept n s t small k (call_pop i inside here free e) = rw e (
    locking-Kept n small s.queue s.pc k s.queue.given i idle entering inside here free refl refl
      refl refl refl (λ z. z) (k.items.free free))
Step-Kept n s t small k (call_ref i inside here free e) = rw e (
    locking-Kept n small s.queue s.pc k s.queue.given i idle sharing inside here free refl refl refl
      refl refl (λ z. z) (k.items.free free))
Step-Kept n s t small k (call_unref i inside here free e) = rw e (
    locking-Kept n small s.queue s.pc k s.queue.given i idle dropping inside here free refl refl
      refl refl refl (λ z. z) (k.items.free free))
Step-Kept n s t small k (not_locked i inside here e) = rw e k
Step-Kept n s t small k (run i served p r inside here acts e) =
    rw e (run-Kept n small s.queue s.pc k.counts k.items i inside served p r here acts)
Step-Kept n s t small k (pass_signal i inside here silent e) = rw e (
    passed-Kept n small s.queue s.pc k i inside here
      (none_asleep n small s.queue s.pc k (signals-false s.queue silent)))
Step-Kept n s t small k (wake i j inside inside' here loud here' e) =
    rw e (wake-Kept n small s.queue s.pc k i j inside inside' here here')
Step-Kept n s t small k (wake_none i inside here loud nobody e) = rw e (
    passed-Kept n small s.queue s.pc k i inside here
      (weigh-eq_zero sleeps n s.pc (λ j l. not_asleep (s.pc j) (nobody j l))))
Step-Kept n s t small k (wake_alone j inside here e) =
    rw e (woken_alone-Kept n small s.queue s.pc k j inside here)
Step-Kept n s t small k (relock j inside here free e) = rw e (
    locking-Kept n small s.queue s.pc k s.queue.given j woken trying inside here free refl refl refl
      refl refl (λ z. z) (k.items.free free))

abbrev pub fresh : (has_queue : Bool) → AsyncQueue
fresh b = record {
  has_queue = b;
  queue = [];
  waiting_threads = 0;
  ref_count = 1;
  locked = false;
  given = [];
  taken = [];
  lost = 0;
  freed = false;
}

pub new-some : (o : Start) (q : AsyncQueue) → new o ≡ some q → q ≡ fresh o.queue
unfolding new
new-some o q e = elim (Bool-cases o.memory) [
  | inl m ↦ elim (Bool-cases (not (o.mutex == 0) || not (o.cond == 0))) [
    | inl bad ↦ let k = rw (m, bad) at e in absurd cc
    | inr good ↦ let k = rw (m, good) at e in cc
  ]
  | inr m ↦ let k = rw m at e in absurd cc
]

new-Kept : (n : ℕ) (o : Start) (q : AsyncQueue) → new o ≡ some q → Kept n (at q (λ _. idle))
new-Kept n o q e =
    let same = new-some o q e in
    rw same (record {
      counts = record {
        held = weigh-eq_zero holds n (λ _. idle) (λ i l. refl);
        waiting = weigh-eq_zero waits n (λ _. idle) (λ i l. refl);
        served = λ ok pos. omega arith;
      };
      items = record { free = λ e. done; held = λ i l h. absurd (omega arith) };
    })

pub Reach-Kept :
    (n : ℕ) (o : Start) (q : AsyncQueue) (s : System)
    → n < 2 ^ 32
    → new o ≡ some q
    → Reach n q s
    → Kept n s
Reach-Kept n o q s small e start = new-Kept n o q e
Reach-Kept n o q s small e (later {s = r} reach step) =
    Step-Kept n r s small (Reach-Kept n o q r small e reach) step

-- ===== src/AsyncQueue/Keeping.antt =====
-- Steps of src/hev-async-queue.c keep the invariant of its threads.
use hev_lib.Base.{
  suc, inl, inr, ℕ, ◌+◌, ◌-◌, ◌%◌, ◌^◌, ◌≤◌, ◌<◌, ◌≡◌, refl, sym, ap, ◌∙◌, Bool, true, false, some,
  List, [], ◌∷◌, ◌++◌, length, length-append, arith, append_assoc, append-nil, ◌==◌, ◌&&◌,
  Bool-cases,
}
use hev_lib.AsyncQueue.{
  AsyncQueue, Pc, idle, adding, signalling, added, entering, trying, asleep, woken, leaving, left,
  sharing, shared, dropping, dropped, ending, act,
}
use hev_lib.AsyncQueue.Trying.{queue_cases, act-trying_empty, act-trying_null, act-trying_cons}
use hev_lib.AsyncQueue.Threads.{put, weight-le-weigh}
use hev_lib.AsyncQueue.Steps.{System, at}
use hev_lib.AsyncQueue.Invariant.{
  lock_count, lock_count-le, holds, waits, sleeps, serves, Counts, Sound, move-Counts,
}
use hev_lib.AsyncQueue.Items.{in_order, Items, move-Items}
use hev_lib.AsyncQueue.Thinned.{Thinned, Thinned-drop, Thinned-All, All-middle}

pub record Kept (n : ℕ) (s : System) : Type 0 where
  pub counts : Counts n s.queue s.pc
  pub items : Items n s.queue s.pc

module _ (n : ℕ) (small : n < 2 ^ 32) (q : AsyncQueue) (f : ℕ → Pc) (counts : Counts n q f)
    (items : Items n q f) (i : ℕ) (inside : i < n) where
  carried :
      {x y : AsyncQueue × Pc}
      → some x ≡ some y
      → Kept n (at x.0 (put f i x.1))
      → Kept n (at y.0 (put f i y.1))
  carried {x} {y} e k = let same : y ≡ x = cc in rw same k

  -- A thread with the mutex knows that it is taken.
  pub locked_by : (p : Pc) → f i ≡ p → holds p ≡ 1 → lock_count q.locked ≡ 1
  locked_by p here one =
      let w : holds (f i) ≡ 1 = rw here one in
      omega (arith, weight-le-weigh holds n i f inside, w, counts.held, lock_count-le q.locked)

  -- The items, for the thread at `p` that has the mutex.
  pub located : (p : Pc) → f i ≡ p → holds p ≡ 1 → Thinned (in_order p q) q.given q.lost
  located p here one = rw here at (items.held i inside (rw here one))

  -- A move of the thread that has the mutex.
  settled :
      (r : AsyncQueue) (a : Pc)
      → Counts n r (put f i a)
      → lock_count r.locked ≡ holds a
      → Thinned (in_order a r) r.given r.lost
      → Kept n (at r (put f i a))
  settled r a k owner now = record {
    counts = k;
    items = move-Items n r f i a inside k.held owner now;
  }

  -- A move to `idle` that gives the mutex back.
  unlocked :
      (freed : Bool) (taken : List ℕ) (p : Pc)
      → f i ≡ p
      → holds p ≡ 1
      → waits p ≡ 0
      → sleeps p ≡ 0
      → serves p ≡ 0
      → Thinned (taken ++ q.queue) q.given q.lost
      → Kept n (at (record q { locked = false; freed = freed; taken = taken }) (put f i idle))
  unlocked freed taken p here h w s v now =
      let r : AsyncQueue = record q { locked = false; freed = freed; taken = taken } in
      settled r idle
        (move-Counts n q r f i p idle inside here small counts
          (omega (arith, locked_by p here h, h)) (λ m b b' k. omega (arith, w)) (λ z. z)
          (λ y z c d ok k l g pos. omega (arith, g (omega (arith, s)), s, v)))
        refl now

  -- A move with the mutex that changes the counters only.
  counted :
      (waiting count : ℕ) (p a : Pc)
      → f i ≡ p
      → holds p ≡ 1
      → holds a ≡ 1
      → sleeps p ≡ sleeps a
      → serves p ≤ serves a
      → ((m : ℕ)
          → m < 2 ^ 32
          → q.waiting_threads < 2 ^ 32
          → m + waits p ≡ q.waiting_threads + waits a
          → m ≡ waiting)
      → Thinned
          (in_order a (record q { waiting_threads = waiting; ref_count = count }))
          q.given
          q.lost
      → Kept n (at (record q { waiting_threads = waiting; ref_count = count }) (put f i a))
  counted waiting count p a here h h' s v w now =
      let r : AsyncQueue = record q { waiting_threads = waiting; ref_count = count } in
      settled r a
        (move-Counts n q r f i p a inside here small counts (omega (arith, h, h')) w (λ z. z)
          (λ y z c d ok k l g pos. omega (arith, g (omega (arith, s)), s, v)))
        (omega (arith, locked_by p here h, h')) now

  -- `pop` finds no item, or a NULL, and sleeps.
  slept-Kept :
      (xs : List ℕ) (lost : ℕ)
      → f i ≡ trying
      → (Sound q → length xs ≡ 0)
      → Thinned (q.taken ++ xs) q.given lost
      → Kept n (at (record q { queue = xs; lost = lost; locked = false }) (put f i asleep))
  slept-Kept xs lost here none_left now =
      let r : AsyncQueue = record q { queue = xs; lost = lost; locked = false } in
      settled r asleep
        (move-Counts n q r f i trying asleep inside here small counts
          (omega (arith, locked_by trying here refl)) (λ m b b' k. omega arith) (λ z. z)
          (λ y z c d ok k l h pos. omega (arith, none_left ok)))
        refl now

  trying-Kept :
      (served : Bool) (r : AsyncQueue × Pc)
      → f i ≡ trying
      → act served trying q ≡ some r
      → Kept n (at r.0 (put f i r.1))
  trying-Kept served r here e =
      let now : Thinned (q.taken ++ q.queue) q.given q.lost = located trying here refl in
      elim (queue_cases q.queue) [
        | inl empty ↦
            carried (sym (act-trying_empty served q empty) ∙ e)
              (slept-Kept q.queue q.lost here (λ ok. ap length empty) now)
        | inr (x, xs, more) ↦
            let split : q.taken ++ q.queue ≡ q.taken ++ x ∷ xs =
              ap (λ (l : List ℕ). q.taken ++ l) more in
            elim (Bool-cases (x == 0)) [
              | inl null ↦
                  let zero_item : x ≡ 0 = ground arith in
                  carried (sym (act-trying_null served q x xs more zero_item) ∙ e) (
                    slept-Kept xs (suc q.lost) here
                      (λ ok.
                        absurd
                          (All-middle q.taken x xs (rw split at (Thinned-All now ok)) zero_item))
                      (Thinned-drop q.taken xs x now split))
              | inr live ↦
                  let size : length q.queue ≡ suc (length xs) = ap length more in
                  let r' : AsyncQueue = record q { queue = xs } in
                  carried (sym (act-trying_cons served q x xs more (ground arith)) ∙ e) (
                    settled r' (leaving x)
                      (move-Counts n q r' f i trying (leaving x) inside here small counts refl
                        (λ m b b' k. omega arith) (λ z. z)
                        (λ y z c d ok k l h pos. omega (arith, h (omega arith))))
                      (locked_by trying here refl) (rw split at now))
            ]
      ]

  -- `push` puts its item into the queue.
  stored-Kept :
      (x : ℕ)
      → f i ≡ adding x
      → Kept n (at (record q { queue = q.queue ++ x ∷ [] }) (put f i signalling))
  stored-Kept x here =
      let grown : AsyncQueue = record q { queue = q.queue ++ x ∷ [] } in
      settled grown signalling
        (move-Counts n q grown f i (adding x) signalling inside here small counts refl
          (λ m b b' k. omega arith) (λ z. z)
          (λ y z c d ok k l h pos. omega (arith, h (omega arith), length-append q.queue (x ∷ []))))
        (locked_by (adding x) here refl) (located (adding x) here refl)

  -- There is no memory for it.
  refused-Kept :
      (x : ℕ) → f i ≡ adding x → Kept n (at (record q { lost = suc q.lost }) (put f i signalling))
  refused-Kept x here =
      let same : AsyncQueue = record q { lost = suc q.lost } in
      let now : Thinned (q.taken ++ (q.queue ++ [])) q.given (suc q.lost) =
        (let t =
            Thinned-drop (q.taken ++ q.queue) [] x (located (adding x) here refl)
              (sym (append_assoc q.taken q.queue (x ∷ []))) in
          rw (append_assoc q.taken q.queue []) at t) in
      settled same signalling
        (move-Counts n q same f i (adding x) signalling inside here small counts refl
          (λ m b b' k. omega arith) (λ z. z)
          (λ y z c d ok k l h pos. omega (arith, h (omega arith))))
        (locked_by (adding x) here refl) (rw (append-nil q.queue) at now)

  pub run-Kept :
      (served : Bool) (p : Pc) (r : AsyncQueue × Pc)
      → f i ≡ p
      → act served p q ≡ some r
      → Kept n (at r.0 (put f i r.1))
  unfolding act
  run-Kept served idle r here e = absurd cc
  run-Kept served (adding x) r here e = elim (Bool-cases (served && q.has_queue)) [
    | inl stored ↦ carried (rw stored at e) (stored-Kept x here)
    | inr refused ↦ carried (rw refused at e) (refused-Kept x here)
  ]
  run-Kept served signalling r here e = absurd cc
  run-Kept served added r here e =
      carried e (unlocked q.freed q.taken added here refl refl refl refl (located added here refl))
  run-Kept served entering r here e = carried e (
      counted ((q.waiting_threads + 1) % 2 ^ 32) q.ref_count entering trying here refl refl refl
        (omega arith) (λ m b b' k. omega arith) (located entering here refl))
  run-Kept served trying r here e = trying-Kept served r here e
  run-Kept served asleep r here e = absurd cc
  run-Kept served woken r here e = absurd cc
  run-Kept served (leaving x) r here e = carried e (
      counted ((q.waiting_threads + (2 ^ 32 - 1)) % 2 ^ 32) q.ref_count (leaving x) (left x) here
        refl refl refl (omega arith) (λ m b b' k. omega arith) (located (leaving x) here refl))
  run-Kept served (left x) r here e = carried e (
      unlocked q.freed (q.taken ++ x ∷ []) (left x) here refl refl refl refl
        (rw (sym (append_assoc q.taken (x ∷ []) q.queue)) at (located (left x) here refl)))
  run-Kept served sharing r here e = carried e (
      counted q.waiting_threads ((q.ref_count + 1) % 2 ^ 32) sharing shared here refl refl refl
        (omega arith) (λ m b b' k. omega arith) (located sharing here refl))
  run-Kept served shared r here e =
      carried e
        (unlocked q.freed q.taken shared here refl refl refl refl (located shared here refl))
  run-Kept served dropping r here e =
      let count = (q.ref_count + (2 ^ 32 - 1)) % 2 ^ 32 in
      elim (Bool-cases (count == 0)) [
        | inl last ↦ carried (rw last at e) (
            counted q.waiting_threads count dropping ending here refl refl refl (omega arith)
              (λ m b b' k. omega arith) (located dropping here refl))
        | inr more ↦ carried (rw more at e) (
            counted q.waiting_threads count dropping dropped here refl refl refl (omega arith)
              (λ m b b' k. omega arith) (located dropping here refl))
      ]
  run-Kept served dropped r here e =
      carried e
        (unlocked q.freed q.taken dropped here refl refl refl refl (located dropped here refl))
  run-Kept served ending r here e =
      carried e (unlocked true q.taken ending here refl refl refl refl (located ending here refl))

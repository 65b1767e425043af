-- ===== src/AsyncQueue/Items.antt =====
-- Where the items of a queue of src/hev-async-queue.c are.
use hev_lib.Base.{
  ℕ, ◌<◌, ◌≡◌, ◌≢◌, refl, sym, true, false, List, [], ◌∷◌, ◌++◌, arith, ◌==◌, Bool-cases, inl, inr,
}
use hev_lib.AsyncQueue.{
  AsyncQueue, Pc, idle, adding, signalling, added, entering, trying, asleep, woken, leaving, left,
  sharing, shared, dropping, dropped, ending,
}
use hev_lib.AsyncQueue.Threads.{put, weigh, two-le-weigh}
use hev_lib.AsyncQueue.Invariant.{holds, lock_count}
use hev_lib.AsyncQueue.Thinned.{Thinned}

-- The items that were returned, that a thread at `p` holds, and that are in the queue, in the order
-- that they were given in.
abbrev pub in_order : Pc → AsyncQueue → List ℕ
in_order idle q = q.taken ++ q.queue
in_order (adding x) q = q.taken ++ (q.queue ++ x ∷ [])
in_order signalling q = q.taken ++ q.queue
in_order added q = q.taken ++ q.queue
in_order entering q = q.taken ++ q.queue
in_order trying q = q.taken ++ q.queue
in_order asleep q = q.taken ++ q.queue
in_order woken q = q.taken ++ q.queue
in_order (leaving x) q = q.taken ++ x ∷ q.queue
in_order (left x) q = q.taken ++ x ∷ q.queue
in_order sharing q = q.taken ++ q.queue
in_order shared q = q.taken ++ q.queue
in_order dropping q = q.taken ++ q.queue
in_order dropped q = q.taken ++ q.queue
in_order ending q = q.taken ++ q.queue

in_order-free : (p : Pc) (q : AsyncQueue) → holds p ≡ 0 → in_order p q ≡ q.taken ++ q.queue
in_order-free idle q h = refl
in_order-free (adding x) q h = absurd (omega arith)
in_order-free signalling q h = refl
in_order-free added q h = refl
in_order-free entering q h = refl
in_order-free trying q h = refl
in_order-free asleep q h = refl
in_order-free woken q h = refl
in_order-free (leaving x) q h = absurd (omega arith)
in_order-free (left x) q h = absurd (omega arith)
in_order-free sharing q h = refl
in_order-free shared q h = refl
in_order-free dropping q h = refl
in_order-free dropped q h = refl
in_order-free ending q h = refl

-- All items that were given are there, but for the lost ones: for the thread with the mutex, or
-- while no thread has it.
pub record Items (n : ℕ) (q : AsyncQueue) (f : ℕ → Pc) : Type 0 where
  pub free : q.locked ≡ false → Thinned (q.taken ++ q.queue) q.given q.lost
  pub held : (i : ℕ) → i < n → holds (f i) ≡ 1 → Thinned (in_order (f i) q) q.given q.lost

-- The thread that has the mutex, or that just gave it back, goes to `a`.
pub move-Items :
    (n : ℕ) (r : AsyncQueue) (f : ℕ → Pc) (i : ℕ) (a : Pc)
    → i < n
    → weigh holds n (put f i a) ≡ lock_count r.locked
    → lock_count r.locked ≡ holds a
    → Thinned (in_order a r) r.given r.lost
    → Items n r (put f i a)
move-Items n r f i a inside held owner now = record {
  free = λ e.
      (let open_ : lock_count r.locked ≡ 0 = rw e refl in
        let none_held : holds a ≡ 0 = omega arith in
        let same = in_order-free a r none_held in rw (sym same) now);
  held = λ j l h. elim (Bool-cases (j == i)) [
    | inl hit ↦ rw hit now
    | inr miss ↦
        let apart : i ≢ j = λ e. ground arith in
        let self : put f i a i ≡ a = let e : (i == i) ≡ true = ground arith in rw e refl in
        let one : holds (put f i a i) ≡ holds a = rw self refl in
        absurd
          (omega (arith, two-le-weigh holds n i j (put f i a) inside l apart, h, one, held, owner))
  ];
}

-- A thread without the mutex moves.
pub aside-Items :
    (n : ℕ) (q : AsyncQueue) (f : ℕ → Pc) (i : ℕ) (a : Pc)
    → holds a ≡ 0
    → Items n q f
    → Items n q (put f i a)
aside-Items n q f i a out items = record {
  free = items.free;
  held = λ j l h. elim (Bool-cases (j == i)) [
    | inl hit ↦ let z : holds a ≡ 1 = rw hit at h in absurd (omega arith)
    | inr miss ↦ rw miss (items.held j l (rw miss at h))
  ];
}

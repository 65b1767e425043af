-- ===== src/AsyncQueue/References/Counted.antt =====
-- Under lawful use, the counter of a queue of src/hev-async-queue.c is the number of references that
-- the threads have, and the queue's memory is given back once, when there are none.
use hev_lib.Base.{
  List, [], ◌∷◌, ◌++◌, inl, inr, ℕ, ◌+◌, ◌-◌, ◌^◌, ◌≤◌, ◌<◌, ◌≡◌, ◌≢◌, refl, sym, ap, ◌∙◌, Bool,
  true, false, some, arith, ◌==◌, Bool-cases,
}
use hev_lib.AsyncQueue.{
  AsyncQueue, Pc, idle, adding, signalling, added, entering, trying, asleep, woken, leaving, left,
  sharing, shared, dropping, dropped, ending, act,
}
use hev_lib.AsyncQueue.Threads.{put, put_self, put_ne, weigh, weigh-put, weight-le-weigh}
use hev_lib.AsyncQueue.Steps.{
  System, at, locking, Step, call_push, call_pop, call_ref, call_unref, not_locked, run,
  pass_signal, wake, wake_none, wake_alone, relock,
}
use hev_lib.AsyncQueue.Invariant.{holds, lock_count}
use hev_lib.AsyncQueue.Keeping.{Kept, locked_by}
use hev_lib.AsyncQueue.References.{grants, takes, Lawful, owned_after}
use hev_lib.AsyncQueue.References.Effects.{uses, closes, zero_count, act-Effect}

abbrev pub number : ℕ → ℕ
number k = k

pub record Referred (n : ℕ) (q : AsyncQueue) (f : ℕ → Pc) (owns : ℕ → ℕ) : Type 0 where
  pub total : weigh number n owns ≡ q.ref_count
  pub room : q.ref_count < 2 ^ 32
  pub using : (i : ℕ) → i < n → uses (f i) ≤ owns i
  pub ends : weigh closes n f + lock_count q.freed ≡ zero_count q.ref_count
  pub closed : q.freed ≡ true → q.locked ≡ false

pub freed_of : (b : Bool) → lock_count b ≡ 0 → b ≡ false
freed_of true e = absurd (omega arith)
freed_of false e = refl

-- While a thread has a reference, the queue was not given back.
pub open_of :
    {n : ℕ} {q : AsyncQueue} {f : ℕ → Pc} {owns : ℕ → ℕ}
    → Referred n q f owns
    → (i : ℕ) → i < n
    → 0 < owns i
    → q.freed ≡ false
open_of {n} {q} {f} {owns} k i inside has =
    let some_left : 0 < q.ref_count =
      omega (arith, weight-le-weigh number n i owns inside, k.total) in
    let not_zero : zero_count q.ref_count ≡ 0 = ground arith in
    freed_of q.freed (omega (arith, k.ends))

-- One thread goes from `p` to `a`, its references change with the counter, and the others' do not.
module _ (n : ℕ) (q r : AsyncQueue) (f : ℕ → Pc) (i : ℕ) (p a : Pc) (owns owns' : ℕ → ℕ)
    (inside : i < n) (here : f i ≡ p) where
  move-Referred :
      Referred n q f owns
      → ((j : ℕ) → j ≢ i → owns' j ≡ owns j)
      → weigh number n owns' + owns i ≡ weigh number n owns + owns' i
      → uses a ≤ owns' i
      → r.ref_count + owns i ≡ q.ref_count + owns' i
      → r.ref_count < 2 ^ 32
      → zero_count r.ref_count + closes p + lock_count q.freed
        ≡ zero_count q.ref_count + closes a + lock_count r.freed
      → (r.freed ≡ true → r.locked ≡ false)
      → Referred n r (put f i a) owns'
  move-Referred k others sum own count room ends closed = record {
    total = omega (arith, sum, k.total, count);
    room = room;
    using = λ j l. elim (Bool-cases (j == i)) [
      | inl hit ↦ let same : j ≡ i = ground arith in rw (hit, same) own
      | inr miss ↦ rw (miss, others j (λ e. ground arith)) (k.using j l)
    ];
    ends =
        let c : weigh closes n (put f i a) + closes p ≡ weigh closes n f + closes a =
          rw (sym here) (weigh-put closes n i f a inside) in
        omega (arith, c, k.ends, ends);
    closed = closed;
  }

-- A move that keeps the references and the counter.
still-Referred :
    (n : ℕ) (q r : AsyncQueue) (f : ℕ → Pc) (i : ℕ) (p a : Pc) (owns : ℕ → ℕ)
    → i < n
    → f i ≡ p
    → Referred n q f owns
    → uses a ≤ owns i
    → closes p ≡ closes a
    → r.ref_count ≡ q.ref_count
    → r.freed ≡ q.freed
    → (r.freed ≡ true → r.locked ≡ false)
    → Referred n r (put f i a) owns
still-Referred n q r f i p a owns inside here k own same count freed closed =
    move-Referred n q r f i p a owns owns inside here k (λ j ne. refl) refl own (omega arith)
      (omega (arith, k.room)) (rw (count, freed) (omega arith)) closed

-- A thread that acts has the mutex.
pub act-holds :
    (served : Bool) (p : Pc) (q : AsyncQueue) (r : AsyncQueue × Pc)
    → act served p q ≡ some r
    → holds p ≡ 1
unfolding act
act-holds served idle q r e = absurd cc
act-holds served (adding x) q r e = refl
act-holds served signalling q r e = refl
act-holds served added q r e = refl
act-holds served entering q r e = refl
act-holds served trying q r e = refl
act-holds served asleep q r e = absurd cc
act-holds served woken q r e = absurd cc
act-holds served (leaving x) q r e = refl
act-holds served (left x) q r e = refl
act-holds served sharing q r e = refl
act-holds served shared q r e = refl
act-holds served dropping q r e = refl
act-holds served dropped q r e = refl
act-holds served ending q r e = refl

module _ (n : ℕ) (small : n < 2 ^ 32) (q : AsyncQueue) (f : ℕ → Pc) (owns : ℕ → ℕ)
    (kept : Kept n (at q f)) (k : Referred n q f owns) where
  -- A thread that has a reference takes the mutex.
  locking-Referred :
      (given : List ℕ) (i : ℕ) (p a : Pc)
      → i < n
      → f i ≡ p
      → uses a ≡ 1
      → closes p ≡ closes a
      → 0 < owns i
      → Referred n (locking (record q { given = given })) (put f i a) owns
  locking-Referred given i p a inside here own same has =
      let not_freed = open_of k i inside has in
      still-Referred n q (locking (record q { given = given })) f i p a owns inside here k
        (omega (arith, own)) same refl refl (λ e. absurd cc)

  has_of : (i : ℕ) (p : Pc) → i < n → f i ≡ p → uses p ≤ owns i
  has_of i p inside here = rw (sym here) (k.using i inside)

  run-Referred :
      (i : ℕ) (served : Bool) (p : Pc) (r : AsyncQueue × Pc)
      → i < n
      → f i ≡ p
      → act served p q ≡ some r
      → q.ref_count + grants p < 2 ^ 32
      → Referred n (r.0) (put f i (r.1)) (put owns i (owns i + grants p - takes p))
  run-Referred i served p r inside here e fits =
      let locked : lock_count q.locked ≡ 1 =
        locked_by n small q f kept.counts kept.items i inside p here (act-holds served p q r e) in
      let not_freed : q.freed ≡ false = elim (Bool-cases q.freed) [
        | inl gone ↦
            let free : lock_count q.locked ≡ 0 = ap lock_count (k.closed gone) in
            absurd (omega arith)
        | inr open_ ↦ open_
      ] in
      let none_freed : lock_count q.freed ≡ 0 = rw not_freed refl in
      let has = has_of i p inside here in
      let most = weight-le-weigh number n i owns inside in
      let d = act-Effect q not_freed served p r (omega (arith, has, most, k.total)) fits e in
      let m : ℕ = owns i + grants p - takes p in
      let own : put owns i m i ≡ m = put_self owns i m in
      move-Referred n q (r.0) f i p (r.1) owns (put owns i m) inside here k
        (λ j ne. put_ne owns i j m ne) (omega (arith, weigh-put number n i owns m inside, own))
        (omega (arith, own, d.used, has)) (omega (arith, own, d.count, d.used, has))
        (omega (arith, d.count, fits)) (omega (arith, d.ends, none_freed)) d.closed

  pub Step-Referred :
      (t : System) (step : Step n (at q f) t)
      → Lawful step owns
      → Referred n t.queue t.pc (owned_after step owns)
  Step-Referred t (call_push i x inside here free e) has =
      rw e (locking-Referred (q.given ++ x ∷ []) i idle (adding x) inside here refl refl has)
  Step-Referred t (call_pop i inside here free e) has =
      rw e (locking-Referred q.given i idle entering inside here refl refl has)
  Step-Referred t (call_ref i inside here free e) has =
      rw e (locking-Referred q.given i idle sharing inside here refl refl has)
  Step-Referred t (call_unref i inside here free e) has =
      rw e (locking-Referred q.given i idle dropping inside here refl refl has)
  Step-Referred t (not_locked i inside here e) has = rw e k
  Step-Referred t (run i served p r inside here acts e) fits =
      rw e (run-Referred i served p r inside here acts fits)
  Step-Referred t (pass_signal i inside here silent e) has = rw e (
      still-Referred n q q f i signalling added owns inside here k (has_of i signalling inside here)
        refl refl refl k.closed)
  Step-Referred t (wake i j inside inside' here loud here' e) has =
      let apart : j ≢ i = λ s. (let same : f j ≡ f i = ap f s in cc) in
      rw e (
        still-Referred n q q (put f i added) j asleep woken owns inside'
          (put_ne f i j added apart ∙ here')
          (still-Referred n q q f i signalling added owns inside here k
            (has_of i signalling inside here) refl refl refl k.closed)
          (has_of j asleep inside' here') refl refl refl k.closed)
  Step-Referred t (wake_none i inside here loud nobody e) has = rw e (
      still-Referred n q q f i signalling added owns inside here k (has_of i signalling inside here)
        refl refl refl k.closed)
  Step-Referred t (wake_alone j inside here e) has = rw e (
      still-Referred n q q f j asleep woken owns inside here k (has_of j asleep inside here) refl
        refl refl k.closed)
  Step-Referred t (relock j inside here free e) has = rw e (
      locking-Referred q.given j woken trying inside here refl refl
        (omega (arith, has_of j woken inside here)))

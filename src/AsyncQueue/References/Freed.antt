-- ===== src/AsyncQueue/References/Freed.antt =====
-- When the memory of a queue of src/hev-async-queue.c is given back under lawful use.
use hev_lib.Base.{
  inl, inr, ℕ, ◌+◌, ◌-◌, ◌^◌, ◌≤◌, ◌<◌, ◌≡◌, ◌≢◌, ◌↔◌, refl, sym, ap, ◌∙◌, Bool, true, false, some,
  arith, ◌==◌, Bool-cases,
}
use hev_lib.AsyncQueue.{
  AsyncQueue, Pc, Start, new, idle, adding, signalling, added, entering, trying, asleep, woken,
  leaving, left, sharing, shared, dropping, dropped, ending,
}
use hev_lib.AsyncQueue.Threads.{put, put_ne, weigh, weigh-put, weight-le-weigh, weigh-eq_zero}
use hev_lib.AsyncQueue.Steps
use hev_lib.AsyncQueue.Steps.{
  System, at, Step, call_push, call_pop, call_ref, call_unref, not_locked, run, pass_signal, wake,
  wake_none, wake_alone, relock, Reach,
}
use hev_lib.AsyncQueue.Invariant.{holds, lock_count}
use hev_lib.AsyncQueue.Keeping.{Kept}
use hev_lib.AsyncQueue.Reached.{fresh, new-some, Reach-Kept}
use hev_lib.AsyncQueue.References.{Lawful, Shares, start, hand, later}
use hev_lib.AsyncQueue.References.Effects.{uses, closes, zero_count}
use hev_lib.AsyncQueue.References.Counted.{number, Referred, act-holds, Step-Referred}

Shares-Reach :
    {n : ℕ} {q : AsyncQueue} {s : System} {owns : ℕ → ℕ} → Shares n q s owns → Reach n q s
Shares-Reach (start i inside) = Steps.start
Shares-Reach (hand before i j inside inside' apart here has) = Shares-Reach before
Shares-Reach (later before step lawful) = Steps.later (Shares-Reach before) step

fresh-Referred :
    (n : ℕ) (b : Bool) (i : ℕ) → i < n → Referred n (fresh b) (λ _. idle) (put (λ _. 0) i 1)
fresh-Referred n b i inside = record {
  total = omega (
    arith,
    weigh-put number n i (λ _. 0) 1 inside,
    weigh-eq_zero number n (λ _. 0) (λ j l. refl),
  );
  room = omega arith;
  using = λ j l. omega arith;
  ends = omega (arith, weigh-eq_zero closes n (λ _. idle) (λ j l. refl));
  closed = λ e. absurd cc;
}

-- A reference goes from one thread to another.
hand-Referred :
    (n : ℕ) (q : AsyncQueue) (f : ℕ → Pc) (owns : ℕ → ℕ) (i j : ℕ)
    → i < n
    → j < n
    → i ≢ j
    → f i ≡ idle
    → 0 < owns i
    → Referred n q f owns
    → Referred n q f (put (put owns i (owns i - 1)) j (owns j + 1))
hand-Referred n q f owns i j inside inside' apart here has k =
    let first = put owns i (owns i - 1) in
    let other : first j ≡ owns j = put_ne owns i j (owns i - 1) (λ e. apart (sym e)) in
    record {
      total = omega (
        arith,
        weigh-put number n i owns (owns i - 1) inside,
        weigh-put number n j first (owns j + 1) inside',
        other,
        k.total,
      );
      room = k.room;
      using = λ m l. elim (Bool-cases (m == j)) [
        | inl e ↦
            let same : m ≡ j = ground arith in
            let old : uses (f m) ≤ owns j = rw same (k.using j inside') in rw e (omega arith)
        | inr e ↦ elim (Bool-cases (m == i)) [
          | inl d ↦
              let same : m ≡ i = ground arith in
              let none_used : uses (f m) ≡ 0 = rw (same, here) refl in rw (e, d) (omega arith)
          | inr d ↦ rw (e, d) (k.using m l)
        ]
      ];
      ends = k.ends;
      closed = k.closed;
    }

idle_of : (p : Pc) → uses p ≤ 0 → holds p ≡ 0 → p ≡ idle
idle_of idle u h = refl
idle_of (adding x) u h = absurd (omega arith)
idle_of signalling u h = absurd (omega arith)
idle_of added u h = absurd (omega arith)
idle_of entering u h = absurd (omega arith)
idle_of trying u h = absurd (omega arith)
idle_of asleep u h = absurd (omega arith)
idle_of woken u h = absurd (omega arith)
idle_of (leaving x) u h = absurd (omega arith)
idle_of (left x) u h = absurd (omega arith)
idle_of sharing u h = absurd (omega arith)
idle_of shared u h = absurd (omega arith)
idle_of dropping u h = absurd (omega arith)
idle_of dropped u h = absurd (omega arith)
idle_of ending u h = absurd (omega arith)

-- No thread is in a call, and none has a reference.
abbrev pub Unused : ℕ → System → (ℕ → ℕ) → Type 0
Unused n s owns = (i : ℕ) → i < n → (s.pc i ≡ idle) × (owns i ≡ 0)

Unused-Lawful :
    (n : ℕ) (s t : System) (owns : ℕ → ℕ)
    → Unused n s owns
    → (step : Step n s t) → ¬ Lawful step owns
Unused-Lawful n s t owns out (call_push i x inside here free e) has =
    omega (arith, (out i inside).1)
Unused-Lawful n s t owns out (call_pop i inside here free e) has = omega (arith, (out i inside).1)
Unused-Lawful n s t owns out (call_ref i inside here free e) has = omega (arith, (out i inside).1)
Unused-Lawful n s t owns out (call_unref i inside here free e) has = omega (arith, (out i inside).1)
Unused-Lawful n s t owns out (not_locked i inside here e) has = omega (arith, (out i inside).1)
Unused-Lawful n s t owns out (run i served p r inside here acts e) has =
    let rest : p ≡ idle = sym here ∙ (out i inside).0 in
    let mutex = act-holds served p s.queue r acts in
    let none_held : holds p ≡ 0 = rw rest refl in omega arith
Unused-Lawful n s t owns out (pass_signal i inside here silent e) has =
    let d = (out i inside).0 in cc
Unused-Lawful n s t owns out (wake i j inside inside' here loud here' e) has =
    let d = (out i inside).0 in cc
Unused-Lawful n s t owns out (wake_none i inside here loud nobody e) has =
    let d = (out i inside).0 in cc
Unused-Lawful n s t owns out (wake_alone j inside here e) has = let d = (out j inside).0 in cc
Unused-Lawful n s t owns out (relock j inside here free e) has = let d = (out j inside).0 in cc

module _ (n : ℕ) (o : Start) (q : AsyncQueue) (small : n < 2 ^ 32) (begun : new o ≡ some q) where
  Shares-Referred : {s : System} {owns : ℕ → ℕ} → Shares n q s owns → Referred n s.queue s.pc owns
  Shares-Referred (start i inside) = rw (new-some o q begun) (fresh-Referred n o.queue i inside)
  Shares-Referred (hand {s} {owns} before i j inside inside' apart here has) =
      hand-Referred n s.queue s.pc owns i j inside inside' apart here has (Shares-Referred before)
  Shares-Referred (later {s} {t} {owns} before step lawful) =
      Step-Referred n small s.queue s.pc owns (Reach-Kept n o q s small begun (Shares-Reach before))
        (Shares-Referred before) t step lawful

  module _ (s : System) (owns : ℕ → ℕ) (shares : Shares n q s owns) where
    abbrev k : Referred n s.queue s.pc owns
    k = Shares-Referred shares

    kept : Kept n s
    kept = Reach-Kept n o q s small begun (Shares-Reach shares)

    freed-Unused : s.queue.freed ≡ true → Unused n s owns
    freed-Unused gone i inside =
        let one : lock_count s.queue.freed ≡ 1 = ap lock_count gone in
        let nothing : s.queue.ref_count ≡ 0 = ground (arith, k.ends) in
        let none_own : owns i ≡ 0 =
          omega (arith, weight-le-weigh number n i owns inside, k.total) in
        let free : lock_count s.queue.locked ≡ 0 = ap lock_count (k.closed gone) in
        (
          idle_of (s.pc i) (omega (arith, k.using i inside))
              (omega (arith, weight-le-weigh holds n i s.pc inside, kept.counts.held)),
          none_own,
        )

    Unused-freed : Unused n s owns → s.queue.freed ≡ true
    Unused-freed out =
        let nothing : weigh number n owns ≡ 0 = weigh-eq_zero number n owns (λ i l. (out i l).1) in
        let none_left : s.queue.ref_count ≡ 0 = omega (arith, k.total) in
        let none_close : weigh closes n s.pc ≡ 0 =
          weigh-eq_zero closes n s.pc (λ i l. ap closes ((out i l).0)) in
        let last : zero_count s.queue.ref_count ≡ 1 = rw none_left refl in
        elim (Bool-cases s.queue.freed) [
          | inl e ↦ e
          | inr e ↦
              let z : lock_count s.queue.freed ≡ 0 = ap lock_count e in
              absurd (omega (arith, k.ends))
        ]

    -- Where fewer than 2 ^ 32 threads share a new queue, call only with a reference of their own, and
    -- have fewer than 2 ^ 32 of them, the queue's memory was given back exactly if no thread is in a
    -- call and none has a reference.
    pub unref-freed : (s.queue.freed ≡ true) ↔ Unused n s owns
    unref-freed = (freed-Unused, Unused-freed)

    -- In the same use, no thread makes a step on a queue whose memory was given back.
    pub step-open : (t : System) (step : Step n s t) → Lawful step owns → s.queue.freed ≡ false
    step-open t step lawful = elim (Bool-cases s.queue.freed) [
      | inl gone ↦ absurd (Unused-Lawful n s t owns (freed-Unused gone) step lawful)
      | inr e ↦ e
    ]

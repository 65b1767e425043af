-- ===== src/AsyncQueue/Progress.antt =====
-- No thread that shares a queue of src/hev-async-queue.c is stuck.
use hev_lib.Base.{
  ℕ, zero, suc, ◌^◌, ◌≤◌, ◌<◌, ◌≡◌, ◌≢◌, ◌⊎◌, inl, inr, refl, sym, ap, ◌∙◌, Bool, true, false, some,
  arith, ◌==◌, Bool-cases, ◌+◌, ◌-◌, ◌%◌,
}
use hev_lib.AsyncQueue.{
  AsyncQueue, Pc, Start, new, idle, adding, signalling, added, entering, trying, asleep, woken,
  leaving, left, sharing, shared, dropping, dropped, ending, act, signals,
}
use hev_lib.AsyncQueue.Threads.{put, put_ne, put_self, weigh, weigh-find}
use hev_lib.AsyncQueue.Steps.{
  System, at, locking, Step, run, pass_signal, wake, wake_none, relock, Reach,
}
use hev_lib.AsyncQueue.Invariant.{holds, sleeps, lock_count, asleep_cases}
use hev_lib.AsyncQueue.Trying.{queue_cases, act-trying_empty, act-trying_null, act-trying_cons}
use hev_lib.AsyncQueue.Keeping.{Kept}
use hev_lib.AsyncQueue.Reached.{Reach-Kept}
use hev_lib.AsyncQueue.Safety.{AtRest}

-- A step that thread `j` makes, out of a call that it is in.
pub record Goes (n : ℕ) (s : System) : Type 0 where
  pub thread : ℕ
  pub next : System
  pub inside : thread < n
  pub busy : ¬ AtRest (s.pc thread)
  pub step : Step n s next
  pub moves : next.pc thread ≢ s.pc thread

busy_of : (p : Pc) → p ≢ idle → p ≢ asleep → ¬ AtRest p
busy_of p a b (inl e) = a e
busy_of p a b (inr e) = b e

sleeper :
    (n : ℕ) (f : ℕ → Pc) → ((j : ℕ) × (j < n) × (f j ≡ asleep)) ⊎ ((j : ℕ) → j < n → f j ≢ asleep)
sleeper zero f = inr (λ j l. absurd (omega arith))
sleeper (suc n) f = elim (sleeper n f) [
  | inl (j, l, e) ↦ inl (j, omega arith, e)
  | inr awake ↦ elim (asleep_cases (f n)) [
    | inl e ↦ inl (n, omega arith, e)
    | inr e ↦ inr (λ j l. elim (Bool-cases (j == n)) [
      | inl hit ↦ λ k.
          (let same : f j ≡ f n = ap f (ground arith) in
            let z : sleeps asleep ≡ 0 = rw (sym same ∙ k) at e in absurd (omega (arith, z)))
      | inr miss ↦ awake j (ground arith)
    ])
  ]
]

module _ (n : ℕ) (s : System) (i : ℕ) (inside : i < n) where
  moving-Goes :
      (p a : Pc) (t : System) → s.pc i ≡ p → ¬ AtRest p → a ≢ p → t.pc i ≡ a → Step n s t → Goes n s
  moving-Goes p a t here busy other there step = record {
    thread = i;
    next = t;
    inside = inside;
    busy = rw here busy;
    step = step;
    moves = λ e. other (sym there ∙ e ∙ here);
  }

  acting-Goes :
      (served : Bool) (p : Pc) (r : AsyncQueue × Pc)
      → s.pc i ≡ p
      → ¬ AtRest p
      → act served p s.queue ≡ some r
      → r.1 ≢ p
      → Goes n s
  acting-Goes served p r here busy acts other =
      moving-Goes p r.1 (at r.0 (put s.pc i r.1)) here busy other (put_self s.pc i r.1)
        (run i served p r inside here acts refl)

  signalling-Goes : s.pc i ≡ signalling → Goes n s
  signalling-Goes here = elim (Bool-cases (signals s.queue)) [
    | inl loud ↦ elim (sleeper n s.pc) [
      | inl (j, l, e) ↦
          let apart : i ≢ j = λ k. (let same : s.pc i ≡ s.pc j = ap s.pc k in cc) in
          moving-Goes signalling added (at s.queue (put (put s.pc i added) j woken)) here
            (busy_of signalling (λ k. cc) (λ k. cc)) (λ k. cc)
            (put_ne (put s.pc i added) j i woken apart ∙ put_self s.pc i added)
            (wake i j inside l here loud e refl)
      | inr nobody ↦
          moving-Goes signalling added (at s.queue (put s.pc i added)) here
            (busy_of signalling (λ k. cc) (λ k. cc)) (λ k. cc) (put_self s.pc i added)
            (wake_none i inside here loud nobody refl)
    ]
    | inr silent ↦
        moving-Goes signalling added (at s.queue (put s.pc i added)) here
          (busy_of signalling (λ k. cc) (λ k. cc)) (λ k. cc) (put_self s.pc i added)
          (pass_signal i inside here silent refl)
  ]

  woken-Goes : s.pc i ≡ woken → s.queue.locked ≡ false → Goes n s
  woken-Goes here free =
      moving-Goes woken trying (at (locking s.queue) (put s.pc i trying)) here
        (busy_of woken (λ k. cc) (λ k. cc)) (λ k. cc) (put_self s.pc i trying)
        (relock i inside here free refl)

  trying-Goes : s.pc i ≡ trying → Goes n s
  trying-Goes here =
      let busy : ¬ AtRest trying = busy_of trying (λ e. cc) (λ e. cc) in
      elim (queue_cases s.queue.queue) [
        | inl empty ↦
            acting-Goes true trying (_, asleep) here busy (act-trying_empty true s.queue empty)
              (λ e. cc)
        | inr (x, xs, more) ↦ elim (Bool-cases (x == 0)) [
          | inl null ↦
              acting-Goes true trying (_, asleep) here busy
                (act-trying_null true s.queue x xs more (ground arith)) (λ e. cc)
          | inr live ↦
              acting-Goes true trying (_, leaving x) here busy
                (act-trying_cons true s.queue x xs more (ground arith)) (λ e. cc)
        ]
      ]

  holder-Goes : Kept n s → (p : Pc) → s.pc i ≡ p → holds p ≡ 1 → Goes n s
  unfolding act
  holder-Goes k idle here h = absurd (omega arith)
  holder-Goes k (adding x) here h =
      acting-Goes true (adding x) (_, signalling) here (busy_of (adding x) (λ e. cc) (λ e. cc)) refl
        (λ e. cc)
  holder-Goes k signalling here h = signalling-Goes here
  holder-Goes k added here h =
      acting-Goes true added (_, idle) here (busy_of added (λ e. cc) (λ e. cc)) refl (λ e. cc)
  holder-Goes k entering here h =
      acting-Goes true entering (_, trying) here (busy_of entering (λ e. cc) (λ e. cc)) refl
        (λ e. cc)
  holder-Goes k trying here h = trying-Goes here
  holder-Goes k asleep here h = absurd (omega arith)
  holder-Goes k woken here h = absurd (omega arith)
  holder-Goes k (leaving x) here h =
      acting-Goes true (leaving x) (_, left x) here (busy_of (leaving x) (λ e. cc) (λ e. cc)) refl
        (λ e. cc)
  holder-Goes k (left x) here h =
      acting-Goes true (left x) (_, idle) here (busy_of (left x) (λ e. cc) (λ e. cc)) refl (λ e. cc)
  holder-Goes k sharing here h =
      acting-Goes true sharing (_, shared) here (busy_of sharing (λ e. cc) (λ e. cc)) refl (λ e. cc)
  holder-Goes k shared here h =
      acting-Goes true shared (_, idle) here (busy_of shared (λ e. cc) (λ e. cc)) refl (λ e. cc)
  holder-Goes k dropping here h =
      elim (Bool-cases ((s.queue.ref_count + (2 ^ 32 - 1)) % 2 ^ 32 == 0)) [
        | inl last ↦
            acting-Goes true dropping
              (record (s.queue) { ref_count = (s.queue.ref_count + (2 ^ 32 - 1)) % 2 ^ 32 }, ending)
              here (busy_of dropping (λ e. cc) (λ e. cc)) (rw last refl) (λ e. cc)
        | inr more ↦
            acting-Goes true dropping
              (
                record (s.queue) { ref_count = (s.queue.ref_count + (2 ^ 32 - 1)) % 2 ^ 32 },
                dropped,
              )
              here (busy_of dropping (λ e. cc) (λ e. cc)) (rw more refl) (λ e. cc)
      ]
  holder-Goes k dropped here h =
      acting-Goes true dropped (_, idle) here (busy_of dropped (λ e. cc) (λ e. cc)) refl (λ e. cc)
  holder-Goes k ending here h =
      acting-Goes true ending (_, idle) here (busy_of ending (λ e. cc) (λ e. cc)) refl (λ e. cc)

-- A thread in a call, by what it needs to go on.
need_cases : (p : Pc) → AtRest p ⊎ (holds p ≡ 1) ⊎ (p ≡ woken)
need_cases idle = inl (inl refl)
need_cases (adding x) = inr (inl refl)
need_cases signalling = inr (inl refl)
need_cases added = inr (inl refl)
need_cases entering = inr (inl refl)
need_cases trying = inr (inl refl)
need_cases asleep = inl (inr refl)
need_cases woken = inr (inr refl)
need_cases (leaving x) = inr (inl refl)
need_cases (left x) = inr (inl refl)
need_cases sharing = inr (inl refl)
need_cases shared = inr (inl refl)
need_cases dropping = inr (inl refl)
need_cases dropped = inr (inl refl)
need_cases ending = inr (inl refl)

holds-le : (p : Pc) → holds p ≤ 1
holds-le p = elim (need_cases p) [
  | inl (inl e) ↦ rw e (omega arith)
  | inl (inr e) ↦ rw e (omega arith)
  | inr (inl e) ↦ omega (arith, e)
  | inr (inr e) ↦ rw e (omega arith)
]

-- In every state that fewer than 2 ^ 32 threads reach from a new queue, while a thread is in a call
-- and does not sleep, some thread that is in a call and does not sleep can make a step of its own.
pub busy-Goes :
    (n : ℕ) (o : Start) (q : AsyncQueue) (s : System)
    → n < 2 ^ 32
    → new o ≡ some q
    → Reach n q s
    → (i : ℕ) → i < n
    → ¬ AtRest (s.pc i)
    → Goes n s
busy-Goes n o q s small begun reach i inside busy =
    let k : Kept n s = Reach-Kept n o q s small begun reach in
    elim (need_cases (s.pc i)) [
      | inl rest ↦ absurd (busy rest)
      | inr (inl h) ↦ holder-Goes n s i inside k (s.pc i) refl h
      | inr (inr w) ↦ elim (Bool-cases s.queue.locked) [
        | inl taken ↦
            let some_holder : 0 < weigh holds n s.pc =
              omega (arith, k.counts.held, ap lock_count taken) in
            let (j, l, h) = weigh-find holds n s.pc some_holder in
            holder-Goes n s j l k (s.pc j) refl (omega (arith, h, holds-le (s.pc j)))
        | inr free ↦ woken-Goes n s i inside w free
      ]
    ]

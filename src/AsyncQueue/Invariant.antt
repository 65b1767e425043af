-- ===== src/AsyncQueue/Invariant.antt =====
-- The invariant of the threads that share a queue of src/hev-async-queue.c.
use hev_lib.Base.{
  inl, inr, refl, ◌⊎◌, ℕ, ◌+◌, ◌^◌, ◌≤◌, ◌<◌, ◌≡◌, ◌≢◌, sym, Bool, true, false, length, arith, All,
  inl, inr,
}
use hev_lib.AsyncQueue.{
  AsyncQueue, Pc, idle, adding, signalling, added, entering, trying, asleep, woken, leaving, left,
  sharing, shared, dropping, dropped, ending,
}
use hev_lib.AsyncQueue.Threads.{put, weigh, weigh-put, weigh-le}

-- 1 for a thread that has the mutex.
abbrev pub holds : Pc → ℕ
holds idle = 0
holds (adding x) = 1
holds signalling = 1
holds added = 1
holds entering = 1
holds trying = 1
holds asleep = 0
holds woken = 0
holds (leaving x) = 1
holds (left x) = 1
holds sharing = 1
holds shared = 1
holds dropping = 1
holds dropped = 1
holds ending = 1

-- 1 for a thread that `waiting_threads` counts.
abbrev pub waits : Pc → ℕ
waits idle = 0
waits (adding x) = 0
waits signalling = 0
waits added = 0
waits entering = 0
waits trying = 1
waits asleep = 1
waits woken = 1
waits (leaving x) = 1
waits (left x) = 0
waits sharing = 0
waits shared = 0
waits dropping = 0
waits dropped = 0
waits ending = 0

-- 1 for a thread that sleeps.
abbrev pub sleeps : Pc → ℕ
sleeps idle = 0
sleeps (adding x) = 0
sleeps signalling = 0
sleeps added = 0
sleeps entering = 0
sleeps trying = 0
sleeps asleep = 1
sleeps woken = 0
sleeps (leaving x) = 0
sleeps (left x) = 0
sleeps sharing = 0
sleeps shared = 0
sleeps dropping = 0
sleeps dropped = 0
sleeps ending = 0

-- 1 for a thread that is still to take an item, or to wake one that will.
abbrev pub serves : Pc → ℕ
serves idle = 0
serves (adding x) = 0
serves signalling = 1
serves added = 0
serves entering = 0
serves trying = 1
serves asleep = 0
serves woken = 1
serves (leaving x) = 0
serves (left x) = 0
serves sharing = 0
serves shared = 0
serves dropping = 0
serves dropped = 0
serves ending = 0

abbrev pub lock_count : Bool → ℕ
lock_count true = 1
lock_count false = 0

pub lock_count-le : (b : Bool) → lock_count b ≤ 1
lock_count-le true = omega arith
lock_count-le false = omega arith

-- No item that was given is NULL.
abbrev pub Sound : AsyncQueue → Type 0
Sound q = All (λ x. x ≢ 0) q.given

-- What the places of the threads say of the mutex, the counter and the queue.
pub record Counts (n : ℕ) (q : AsyncQueue) (f : ℕ → Pc) : Type 0 where
  pub held : weigh holds n f ≡ lock_count q.locked
  pub waiting : weigh waits n f ≡ q.waiting_threads
  pub served : Sound q → 0 < weigh sleeps n f → length q.queue ≤ weigh serves n f

waits-le : (p : Pc) → waits p ≤ 1
waits-le idle = omega arith
waits-le (adding x) = omega arith
waits-le signalling = omega arith
waits-le added = omega arith
waits-le entering = omega arith
waits-le trying = omega arith
waits-le asleep = omega arith
waits-le woken = omega arith
waits-le (leaving x) = omega arith
waits-le (left x) = omega arith
waits-le sharing = omega arith
waits-le shared = omega arith
waits-le dropping = omega arith
waits-le dropped = omega arith
waits-le ending = omega arith

-- A thread sleeps, or it is not counted as one that does.
pub asleep_cases : (p : Pc) → (p ≡ asleep) ⊎ (sleeps p ≡ 0)
asleep_cases idle = inr refl
asleep_cases (adding x) = inr refl
asleep_cases signalling = inr refl
asleep_cases added = inr refl
asleep_cases entering = inr refl
asleep_cases trying = inr refl
asleep_cases asleep = inl refl
asleep_cases woken = inr refl
asleep_cases (leaving x) = inr refl
asleep_cases (left x) = inr refl
asleep_cases sharing = inr refl
asleep_cases shared = inr refl
asleep_cases dropping = inr refl
asleep_cases dropped = inr refl
asleep_cases ending = inr refl

pub not_asleep : (p : Pc) → p ≢ asleep → sleeps p ≡ 0
not_asleep p other = elim (asleep_cases p) [ inl e ↦ absurd (other e) | inr e ↦ e ]

pub sleeps-le-waits : (p : Pc) → sleeps p ≤ waits p
sleeps-le-waits idle = omega arith
sleeps-le-waits (adding x) = omega arith
sleeps-le-waits signalling = omega arith
sleeps-le-waits added = omega arith
sleeps-le-waits entering = omega arith
sleeps-le-waits trying = omega arith
sleeps-le-waits asleep = omega arith
sleeps-le-waits woken = omega arith
sleeps-le-waits (leaving x) = omega arith
sleeps-le-waits (left x) = omega arith
sleeps-le-waits sharing = omega arith
sleeps-le-waits shared = omega arith
sleeps-le-waits dropping = omega arith
sleeps-le-waits dropped = omega arith
sleeps-le-waits ending = omega arith

-- One thread goes from `p` to `a`, and the shared part from `q` to `r`.
module _ (n : ℕ) (q r : AsyncQueue) (f : ℕ → Pc) (i : ℕ) (p a : Pc) (inside : i < n)
    (here : f i ≡ p) where
  pub moved :
      (weight : Pc → ℕ) → weigh weight n (put f i a) + weight p ≡ weigh weight n f + weight a
  moved weight = rw (sym here) (weigh-put weight n i f a inside)

  pub move-Counts :
      n < 2 ^ 32
      → Counts n q f
      → lock_count r.locked + holds p ≡ lock_count q.locked + holds a
      → ((m : ℕ)
          → m < 2 ^ 32
          → q.waiting_threads < 2 ^ 32
          → m + waits p ≡ q.waiting_threads + waits a
          → m ≡ r.waiting_threads)
      → (Sound r → Sound q)
      → ((y z c d : ℕ)
          → Sound r
          → z + sleeps p ≡ y + sleeps a
          → c + serves p ≡ d + serves a
          → (0 < y → length q.queue ≤ d)
          → 0 < z
          → length r.queue ≤ c)
      → Counts n r (put f i a)
  move-Counts small k lock count back serve = record {
    held = omega (arith, moved holds, k.held, lock);
    waiting =
        count (weigh waits n (put f i a))
          (omega (arith, weigh-le waits waits-le n (put f i a), small))
          (omega (arith, weigh-le waits waits-le n f, small, k.waiting))
          (omega (arith, moved waits, k.waiting));
    served = λ sound.
        serve (weigh sleeps n f) (weigh sleeps n (put f i a)) (weigh serves n (put f i a))
          (weigh serves n f) sound (moved sleeps) (moved serves) (k.served (back sound));
  }

-- ===== src/AsyncQueue/Trying.antt =====
-- What `hev_queue_pop` gives to `hev_async_queue_pop` of src/hev-async-queue.c: nothing, a NULL, or an
-- item.
use hev_lib.Base.{
  suc, ◌⊎◌, inl, inr, ℕ, ◌≡◌, ◌≢◌, refl, Bool, true, false, some, List, [], ◌∷◌, arith, ◌==◌,
}
use hev_lib.AsyncQueue.{AsyncQueue, asleep, trying, leaving, act}

pub queue_cases : (xs : List ℕ) → (xs ≡ []) ⊎ ((x : ℕ) × (ys : List ℕ) × (xs ≡ x ∷ ys))
queue_cases [] = inl refl
queue_cases (x ∷ xs) = inr (x, xs, refl)

pub act-trying_empty :
    (served : Bool) (q : AsyncQueue)
    → q.queue ≡ []
    → act served trying q ≡ some (record q { locked = false }, asleep)
unfolding act
act-trying_empty served q e = rw e

pub act-trying_null :
    (served : Bool) (q : AsyncQueue) (x : ℕ) (xs : List ℕ)
    → q.queue ≡ x ∷ xs
    → x ≡ 0
    → act served trying q
      ≡ some (record q { queue = xs; lost = suc q.lost; locked = false }, asleep)
unfolding act
act-trying_null served q x xs e null = let d : (x == 0) ≡ true = ground arith in rw (e, d)

pub act-trying_cons :
    (served : Bool) (q : AsyncQueue) (x : ℕ) (xs : List ℕ)
    → q.queue ≡ x ∷ xs
    → x ≢ 0
    → act served trying q ≡ some (record q { queue = xs }, leaving x)
unfolding act
act-trying_cons served q x xs e ne = let d : (x == 0) ≡ false = ground arith in rw (e, d)

-- ===== src/AsyncQueue/References/Effects.antt =====
-- What a step of src/hev-async-queue.c does to the references and to the queue's memory.
use hev_lib.Base.{
  inl, inr, ℕ, ◌+◌, ◌-◌, ◌%◌, ◌^◌, ◌≤◌, ◌<◌, ◌≡◌, refl, sym, ◌∙◌, Bool, true, false, some, arith,
  ◌==◌, ◌&&◌, if◌then◌else◌, Bool-cases,
}
use hev_lib.AsyncQueue.{
  AsyncQueue, Pc, idle, adding, signalling, added, entering, trying, asleep, woken, leaving, left,
  sharing, shared, dropping, dropped, ending, act,
}
use hev_lib.AsyncQueue.Invariant.{lock_count}
use hev_lib.AsyncQueue.Trying.{queue_cases, act-trying_empty, act-trying_null, act-trying_cons}
use hev_lib.AsyncQueue.References.{grants, takes}

-- 1 for a thread that goes on to use the queue, by a reference of its own.
abbrev pub uses : Pc → ℕ
uses idle = 0
uses (adding x) = 1
uses signalling = 1
uses added = 1
uses entering = 1
uses trying = 1
uses asleep = 1
uses woken = 1
uses (leaving x) = 1
uses (left x) = 1
uses sharing = 1
uses shared = 1
uses dropping = 1
uses dropped = 0
uses ending = 0

-- 1 for a thread that is about to give the queue back.
abbrev pub closes : Pc → ℕ
closes idle = 0
closes (adding x) = 0
closes signalling = 0
closes added = 0
closes entering = 0
closes trying = 0
closes asleep = 0
closes woken = 0
closes (leaving x) = 0
closes (left x) = 0
closes sharing = 0
closes shared = 0
closes dropping = 0
closes dropped = 0
closes ending = 1

abbrev pub zero_count : ℕ → ℕ
zero_count k = if k == 0 then 1 else 0

pub record Effect (p : Pc) (q : AsyncQueue) (r : AsyncQueue × Pc) : Type 0 where
  pub used : uses (r.1) + takes p ≤ uses p
  pub count : r.0.ref_count + takes p ≡ q.ref_count + grants p
  pub ends :
      zero_count (r.0.ref_count) + closes p
      ≡ zero_count q.ref_count + closes (r.1) + lock_count (r.0.freed)
  pub closed : r.0.freed ≡ true → r.0.locked ≡ false

module _ (q : AsyncQueue) (open_ : q.freed ≡ false) where
  carried : {p : Pc} {x y : AsyncQueue × Pc} → some x ≡ some y → Effect p q x → Effect p q y
  carried {p} {x} {y} e k = let same : y ≡ x = cc in rw same k

  -- A step that keeps the counter.
  plain :
      (p : Pc) (r : AsyncQueue × Pc)
      → uses (r.1) + takes p ≤ uses p
      → takes p ≡ 0
      → grants p ≡ 0
      → closes p ≡ 0
      → closes (r.1) ≡ 0
      → r.0.ref_count ≡ q.ref_count
      → r.0.freed ≡ q.freed
      → Effect p q r
  plain p r u t g c c' same f =
      let still : r.0.freed ≡ false = f ∙ open_ in
      let none_freed : lock_count (r.0.freed) ≡ 0 = rw still refl in
      record {
        used = u;
        count = omega arith;
        ends = rw same (omega arith);
        closed = λ e. absurd cc;
      }

  trying-Effect :
      (served : Bool) (r : AsyncQueue × Pc) → act served trying q ≡ some r → Effect trying q r
  trying-Effect served r e = elim (queue_cases q.queue) [
    | inl empty ↦
        carried (sym (act-trying_empty served q empty) ∙ e)
          (plain trying _ (omega arith) refl refl refl refl refl refl)
    | inr (x, xs, more) ↦ elim (Bool-cases (x == 0)) [
      | inl null ↦
          carried (sym (act-trying_null served q x xs more (ground arith)) ∙ e)
            (plain trying _ (omega arith) refl refl refl refl refl refl)
      | inr live ↦
          carried (sym (act-trying_cons served q x xs more (ground arith)) ∙ e)
            (plain trying _ (omega arith) refl refl refl refl refl refl)
    ]
  ]

  dropping-Effect :
      (served : Bool) (r : AsyncQueue × Pc)
      → 0 < q.ref_count
      → q.ref_count < 2 ^ 32
      → act served dropping q ≡ some r
      → Effect dropping q r
  unfolding act
  dropping-Effect served r some_left small e =
      let none_freed : lock_count q.freed ≡ 0 = rw open_ refl in
      elim (Bool-cases ((q.ref_count + (2 ^ 32 - 1)) % 2 ^ 32 == 0)) [
        | inl last ↦ carried (rw last at e) (record {
          used = omega arith;
          count = omega arith;
          ends = rw last (ground arith);
          closed = λ f. absurd cc;
        })
        | inr more ↦ carried (rw more at e) (record {
          used = omega arith;
          count = omega arith;
          ends = rw more (ground arith);
          closed = λ f. absurd cc;
        })
      ]

  pub act-Effect :
      (served : Bool) (p : Pc) (r : AsyncQueue × Pc)
      → uses p ≤ q.ref_count
      → q.ref_count + grants p < 2 ^ 32
      → act served p q ≡ some r
      → Effect p q r
  unfolding act
  act-Effect served idle r left_ small e = absurd cc
  act-Effect served (adding x) r left_ small e = elim (Bool-cases (served && q.has_queue)) [
    | inl stored ↦
        carried (rw stored at e) (plain (adding x) _ (omega arith) refl refl refl refl refl refl)
    | inr refused ↦
        carried (rw refused at e) (plain (adding x) _ (omega arith) refl refl refl refl refl refl)
  ]
  act-Effect served signalling r left_ small e = absurd cc
  act-Effect served added r left_ small e =
      carried e (plain added _ (omega arith) refl refl refl refl refl refl)
  act-Effect served entering r left_ small e =
      carried e (plain entering _ (omega arith) refl refl refl refl refl refl)
  act-Effect served trying r left_ small e = trying-Effect served r e
  act-Effect served asleep r left_ small e = absurd cc
  act-Effect served woken r left_ small e = absurd cc
  act-Effect served (leaving x) r left_ small e =
      carried e (plain (leaving x) _ (omega arith) refl refl refl refl refl refl)
  act-Effect served (left x) r left_ small e =
      carried e (plain (left x) _ (omega arith) refl refl refl refl refl refl)
  act-Effect served sharing r left_ small e =
      let none_freed : lock_count q.freed ≡ 0 = rw open_ refl in
      carried e (record {
        used = omega arith;
        count = omega arith;
        ends = ground arith;
        closed = λ f. absurd cc;
      })
  act-Effect served shared r left_ small e =
      carried e (plain shared _ (omega arith) refl refl refl refl refl refl)
  act-Effect served dropping r left_ small e =
      dropping-Effect served r (omega arith) (omega arith) e
  act-Effect served dropped r left_ small e =
      carried e (plain dropped _ (omega arith) refl refl refl refl refl refl)
  act-Effect served ending r left_ small e =
      carried e
        (record { used = omega arith; count = omega arith; ends = omega arith; closed = λ f. refl })

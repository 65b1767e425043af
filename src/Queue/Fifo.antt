-- ===== src/Queue/Fifo.antt =====
-- Sequences of calls of src/hev-queue.c against a plain first-in first-out queue of items.
use hev_lib.Base.{
  ℕ, ◌+◌, ◌<◌, ◌≤◌, ◌≡◌, ◌≢◌, ◌⊎◌, inl, inr, refl, sym, ap, ◌∙◌, Bool, true, false, not, Option,
  none, some, List, [], ◌∷◌, ◌++◌, arith, ◌==◌, if◌then◌else◌, length, length-append, map,
  Bool-cases,
}
use hev_lib.SList.{append, item}
use hev_lib.SList.Memory.{node, Memory, Cmd, ok, pure, ◌>>=◌}
use hev_lib.SList.Chain.{Cells, last_item, head, IsList, load-ok, not_null}
use hev_lib.SList.Adding.{append-Holds, last-Last}
use hev_lib.SList.Removing.{erase, remove-Removed}
use hev_lib.SList.Walking.{items}
use hev_lib.Queue.{Queue, push, pop, peek_head, peek_tail}

pub data Op : Type 0 where
  put_item : ℕ → Op
  take_item : Op
  see_head : Op
  see_tail : Op

-- The address that the allocator gives a new node, by what memory holds.
abbrev pub Alloc : Type 0
Alloc = Memory → ℕ

-- It has no memory left, or gives an address that holds nothing.
abbrev pub IsAlloc : Alloc → Type 0
IsAlloc alloc = (m : Memory) → (alloc m ≡ 0) ⊎ (m (alloc m) ≡ none)

-- One call: whether the allocator had memory, what the call returned, and the queue.
unfoldable pub step : Alloc → (rounds : ℕ) → Op → Option Queue → Cmd ((Bool × ℕ) × Option Queue)
unfolding push pop peek_head peek_tail
step alloc f (put_item x) q m =
    (push f q x (alloc m) >>= λ q'. pure ((not (alloc m == 0), 0), q')) m
step alloc f take_item q m = (pop f q >>= λ r. pure ((not (alloc m == 0), r.0), r.1)) m
step alloc f see_head q m = (peek_head q >>= λ x. pure ((not (alloc m == 0), x), q)) m
step alloc f see_tail q m = (peek_tail f q >>= λ x. pure ((not (alloc m == 0), x), q)) m

unfoldable pub run : Alloc → (rounds : ℕ) → List Op → Option Queue → Cmd (List (Bool × ℕ))
unfolding step
run alloc f [] q = pure []
run alloc f (op ∷ ops) q =
    step alloc f op q >>= λ r. run alloc f ops r.1 >>= λ log. pure (r.0 ∷ log)

-- The last item, or the default.
unfoldable pub last_of : ℕ → List ℕ → ℕ
last_of d [] = d
last_of d (x ∷ xs) = last_of x xs

-- What a plain queue of items answers, and the queue; a put without memory changes nothing.
unfoldable pub told : Op → (had_memory : Bool) → List ℕ → ℕ × List ℕ
unfolding last_of
told (put_item x) had xs = (0, if had then xs ++ x ∷ [] else xs)
told take_item had [] = (0, [])
told take_item had (x ∷ xs) = (x, xs)
told see_head had [] = (0, [])
told see_head had (x ∷ xs) = (x, x ∷ xs)
told see_tail had xs = (last_of 0 xs, xs)

unfoldable pub answers : List Op → List Bool → List ℕ → List ℕ
unfolding told
answers [] hads xs = []
answers (op ∷ ops) [] xs = []
answers (op ∷ ops) (had ∷ hads) xs = let r = told op had xs in r.0 ∷ answers ops hads r.1

last_of-items : (d : ℕ) (xs : Cells) → last_of d (items xs) ≡ last_item d xs
unfolding last_of
last_of-items d [] = refl
last_of-items d ((a, x) ∷ xs) = last_of-items x xs

items-append : (xs : Cells) (a x : ℕ) → items (xs ++ (a, x) ∷ []) ≡ items xs ++ x ∷ []
items-append [] a x = refl
items-append ((b, y) ∷ xs) a x = ap (λ l. y ∷ l) (items-append xs a x)

-- What one call does to a queue that holds `xs`.
record Stepped (alloc : Alloc) (f : ℕ) (op : Op) (q : Queue) (m : Memory) (xs : Cells)
    : Type 0 where
  had : Bool
  answer : ℕ
  queue : Queue
  after : Memory
  cells : Cells
  returns : step alloc f op (some q) m ≡ ok ((had, answer), some queue) after
  chain : IsList after queue.slist cells
  tells : told op had (items xs) ≡ (answer, items cells)
  grows : length cells ≤ length xs + 1

append-refused :
    (f p x fresh : ℕ) (m : Memory) → (fresh == 0) ≡ true → append f p x fresh m ≡ ok p m
unfolding append
append-refused f p x fresh m e = rw e

module _ (alloc : Alloc) (f : ℕ) (q : Queue) (m : Memory) where
  step-put :
      (x : ℕ) (xs : Cells)
      → (alloc m ≡ 0) ⊎ (m (alloc m) ≡ none)
      → IsList m q.slist xs
      → length xs < f
      → Stepped alloc f (put_item x) q m xs
  unfolding step push told
  step-put x xs a is h = elim (Bool-cases (alloc m == 0)) [
    | inl none_left ↦ record {
      had = false;
      answer = 0;
      queue = q;
      after = m;
      cells = xs;
      returns = rw (append-refused f q.slist x (alloc m) m none_left, none_left);
      chain = is;
      tells = refl;
      grows = omega arith;
    }
    | inr served ↦
        let unused : m (alloc m) ≡ none = elim a [ inl z ↦ absurd (ground arith) | inr u ↦ u ] in
        let w = append-Holds m q.slist x (alloc m) f xs is (λ z. ground arith) unused h in
        record {
          had = true;
          answer = 0;
          queue = record q { slist = w.list };
          after = w.after;
          cells = xs ++ (alloc m, x) ∷ [];
          returns = rw (served, w.returns);
          chain = w.chain;
          tells = ap (λ l. (0, l)) (sym (items-append xs (alloc m) x));
          grows = omega (arith, length-append xs ((alloc m, x) ∷ []));
        }
  ]

  step-take : (xs : Cells) → IsList m q.slist xs → length xs < f → Stepped alloc f take_item q m xs
  unfolding step pop item told erase
  step-take [] is h = record {
    had = not (alloc m == 0);
    answer = 0;
    queue = q;
    after = m;
    cells = [];
    returns = rw is.0;
    chain = is;
    tells = refl;
    grows = omega arith;
  }
  step-take ((a, x) ∷ xs) (e, c) h =
      let w = (remove-Removed m q.slist x f ((a, x) ∷ xs) (e, c) h).held in
      let same : (x == x) ≡ true = ground arith in
      let live : q.slist ≢ 0 = rw e c.0 in
      let at : m q.slist ≡ some (node x (head 0 xs)) = rw e c.2 in
      record {
        had = not (alloc m == 0);
        answer = x;
        queue = record q { slist = w.list };
        after = w.after;
        cells = xs;
        returns = rw (not_null q.slist live, load-ok m live at, w.returns);
        chain = rw same at w.chain;
        tells = refl;
        grows = omega arith;
      }

  step-head : (xs : Cells) → IsList m q.slist xs → Stepped alloc f see_head q m xs
  unfolding step peek_head item told
  step-head [] is = record {
    had = not (alloc m == 0);
    answer = 0;
    queue = q;
    after = m;
    cells = [];
    returns = rw is.0;
    chain = is;
    tells = refl;
    grows = omega arith;
  }
  step-head ((a, x) ∷ xs) (e, c) = record {
    had = not (alloc m == 0);
    answer = x;
    queue = q;
    after = m;
    cells = (a, x) ∷ xs;
    returns = rw (e, not_null a c.0, load-ok m c.0 c.2);
    chain = (e, c);
    tells = refl;
    grows = omega arith;
  }

  step-tail : (xs : Cells) → IsList m q.slist xs → length xs < f → Stepped alloc f see_tail q m xs
  unfolding step peek_tail item told last_of
  step-tail [] is h = record {
    had = not (alloc m == 0);
    answer = 0;
    queue = q;
    after = m;
    cells = [];
    returns = rw is.0;
    chain = is;
    tells = refl;
    grows = omega arith;
  }
  step-tail ((a, x) ∷ xs) (e, c) h =
      let (l, run, w) = last-Last m f a x xs c (omega arith) in
      record {
        had = not (alloc m == 0);
        answer = w.item;
        queue = q;
        after = m;
        cells = (a, x) ∷ xs;
        returns = rw (e, not_null a c.0, run, not_null l w.live, load-ok m w.live w.holds);
        chain = (e, c);
        tells = ap (λ y. (y, x ∷ items xs)) (last_of-items x xs ∙ sym w.final);
        grows = omega arith;
      }

  step-Stepped :
      (op : Op) (xs : Cells)
      → (alloc m ≡ 0) ⊎ (m (alloc m) ≡ none)
      → IsList m q.slist xs
      → length xs < f
      → Stepped alloc f op q m xs
  step-Stepped (put_item x) xs a is h = step-put x xs a is h
  step-Stepped take_item xs a is h = step-take xs is h
  step-Stepped see_head xs a is h = step-head xs is
  step-Stepped see_tail xs a is h = step-tail xs is h

-- A run's log, which says for each call whether there was memory and what it returned.
pub record Logged (alloc : Alloc) (f : ℕ) (ops : List Op) (q : Queue) (m : Memory) (start : List ℕ)
    : Type 0 where
  pub log : List (Bool × ℕ)
  pub after : Memory
  pub returns : run alloc f ops (some q) m ≡ ok log after
  pub told_all : map (λ e. e.1) log ≡ answers ops (map (λ e. e.0) log) start

-- With an allocator that has no memory or gives unused addresses, and with rounds for every node
-- that there can be, no sequence of puts, takes and looks faults or runs on, and every call
-- returns what a plain queue of the items returns.
pub run-Logged :
    (alloc : Alloc) (f : ℕ) (ops : List Op) (q : Queue) (m : Memory) (xs : Cells)
    → IsAlloc alloc
    → IsList m q.slist xs
    → length xs + length ops < f
    → Logged alloc f ops q m (items xs)
unfolding run answers
run-Logged alloc f [] q m xs a is h = record {
  log = [];
  after = m;
  returns = refl;
  told_all = refl;
}
run-Logged alloc f (op ∷ ops) q m xs a is h =
    let s = step-Stepped alloc f q m op xs (a m) is (omega arith) in
    let rest = run-Logged alloc f ops s.queue s.after s.cells a s.chain (omega (arith, s.grows)) in
    record {
      log = (s.had, s.answer) ∷ rest.log;
      after = rest.after;
      returns = rw (s.returns, rest.returns);
      told_all = rw s.tells (ap (λ l. s.answer ∷ l) rest.told_all);
    }

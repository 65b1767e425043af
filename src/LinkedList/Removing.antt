-- ===== src/LinkedList/Removing.antt =====
-- `hev_list_remove` and `hev_list_remove_all` of src/hev-list.c.
use hev_lib.Base.{
  Bool, ℕ, zero, suc, ◌<◌, ◌≡◌, refl, ap, ◌∙◌, false, [], ◌∷◌, ◌==◌, arith, if◌then◌else◌,
  Bool-cases, inl, inr, length,
}
use hev_lib.LinkedList.{first, remove_first, remove, remove_each, remove_all}
use hev_lib.LinkedList.Memory.{pure, ◌>>=◌, then_do, Memory, Outcome, ok}
use hev_lib.LinkedList.Zipper.{
  Cells, has, head, Ahead, Zipper, whole, load-ok, Zipper-right, Zipper-left, Zipper-whole,
}
use hev_lib.LinkedList.Unlinking.{unlink-Unlinked}

-- The nodes without the first one, and without all, that have the item.
abbrev pub without : ℕ → Cells → Cells
without item [] = []
without item ((a, x) ∷ xs) = if item == x then xs else (a, x) ∷ without item xs

abbrev pub without_all : ℕ → Cells → Cells
without_all item [] = []
without_all item ((a, x) ∷ xs) =
    if item == x then without_all item xs else (a, x) ∷ without_all item xs

-- What a loop leaves that stands at `xs`.
record Swept (m : Memory) (bs xs ys : Cells) (run : Outcome ℕ) : Type 0 where
  after : Memory
  returns : run ≡ ok (head (whole bs ys)) after
  list : Zipper after bs ys
  same : (c : ℕ) → has c bs ≡ false → has c xs ≡ false → after c ≡ m c

-- A node without the item is passed.
passed-Swept :
    (m : Memory) (bs xs ys : Cells) (a x : ℕ) (run : Outcome ℕ)
    → Swept m ((a, x) ∷ bs) xs ys run
    → Swept m bs ((a, x) ∷ xs) ((a, x) ∷ ys) run
passed-Swept m bs xs ys a x run s = record {
  after = s.after;
  returns = s.returns;
  list = Zipper-left s.after a x bs ys s.list;
  same = λ c out out'. s.same c (ground arith) (ground arith);
}

module _ (item : ℕ) where
  remove_first-Swept :
      (f h : ℕ) (m : Memory) (bs xs : Cells)
      → Zipper m bs xs
      → h ≡ head (whole bs xs)
      → length xs < f
      → Swept m bs xs (without item xs) (remove_first item f h (head xs) m)
  unfolding remove_first
  remove_first-Swept zero h m bs xs z start enough = absurd (omega arith)
  remove_first-Swept (suc f) h m bs [] z start enough = record {
    after = m;
    returns = ap (λ (k : ℕ). ok k m) start;
    list = z;
    same = λ c out out'. refl;
  }
  remove_first-Swept (suc f) h m bs ((a, x) ∷ xs) z start enough =
      let (live, alone, at, ahead) = z.ahead in
      let far : (a == 0) ≡ false = ground arith in
      elim (Bool-cases (item == x)) [
        | inl hit ↦
            let u = unlink-Unlinked m h a x bs xs z start in
            record {
              after = u.after;
              returns = rw (far, load-ok m live at, hit, u.returns);
              list = rw hit u.list;
              same = u.same;
            }
        | inr miss ↦
            let s =
              remove_first-Swept f h m ((a, x) ∷ bs) xs (Zipper-right m bs a x xs z) start
                (omega arith) in
            let t = passed-Swept m bs xs (without item xs) a x _ s in
            record {
              after = t.after;
              returns = rw (far, load-ok m live at, miss) t.returns;
              list = rw miss t.list;
              same = t.same;
            }
      ]

  remove_each-Swept :
      (f h : ℕ) (m : Memory) (bs xs : Cells)
      → Zipper m bs xs
      → h ≡ head (whole bs xs)
      → length xs < f
      → Swept m bs xs (without_all item xs) (remove_each item f h (head xs) m)
  unfolding remove_each
  remove_each-Swept zero h m bs xs z start enough = absurd (omega arith)
  remove_each-Swept (suc f) h m bs [] z start enough = record {
    after = m;
    returns = ap (λ (k : ℕ). ok k m) start;
    list = z;
    same = λ c out out'. refl;
  }
  remove_each-Swept (suc f) h m bs ((a, x) ∷ xs) z start enough =
      let (live, alone, at, ahead) = z.ahead in
      let far : (a == 0) ≡ false = ground arith in
      elim (Bool-cases (item == x)) [
        | inl hit ↦
            let u = unlink-Unlinked m h a x bs xs z start in
            let s =
              remove_each-Swept f (head (whole bs xs)) u.after bs xs u.list refl (omega arith) in
            record {
              after = s.after;
              returns = rw (far, load-ok m live at, hit, u.returns, s.returns);
              list = rw hit s.list;
              same = λ c out out'. s.same c out (ground arith) ∙ u.same c out out';
            }
        | inr miss ↦
            let s =
              remove_each-Swept f h m ((a, x) ∷ bs) xs (Zipper-right m bs a x xs z) start
                (omega arith) in
            let t = passed-Swept m bs xs (without_all item xs) a x _ s in
            record {
              after = t.after;
              returns = rw (far, load-ok m live at, miss) t.returns;
              list = rw miss t.list;
              same = t.same;
            }
      ]

-- What a call leaves that returns a list, whose nodes were among `old`.
pub record Left (m : Memory) (old cells : Cells) (run : Outcome ℕ) : Type 0 where
  pub after : Memory
  pub returns : run ≡ ok (head cells) after
  pub list : Ahead after 0 cells
  pub same : (c : ℕ) → has c old ≡ false → after c ≡ m c

pub first-head :
    (m : Memory) (f a x : ℕ) (xs : Cells) → Ahead m 0 ((a, x) ∷ xs) → first (suc f) a m ≡ ok a m
unfolding first
first-head m f a x xs (live, alone, at, rest) =
    let far : (a == 0) ≡ false = ground arith in rw (far, load-ok m live at)

abbrev BothLoops : Memory → (item f : ℕ) → Cells → Type 0
BothLoops m item f xs =
    (remove f (head xs) item m ≡ remove_first item f (head xs) (head xs) m)
    × (remove_all f (head xs) item m ≡ remove_each item f (head xs) (head xs) m)

empty_loops : (m : Memory) (item f : ℕ) → BothLoops m item (suc f) []
unfolding remove remove_all remove_first remove_each
empty_loops m item f = (refl, refl)

-- From the first node, both calls are their loops.
both_loops :
    (m : Memory) (item f : ℕ) (xs : Cells) → Ahead m 0 xs → length xs < f → BothLoops m item f xs
unfolding remove remove_all
both_loops m item zero xs list enough = absurd (omega arith)
both_loops m item (suc f) [] list enough = empty_loops m item f
both_loops m item (suc f) ((a, x) ∷ xs) list enough =
    let live = list.0 in
    let far : (a == 0) ≡ false = ground arith in
    let e = first-head m f a x xs list in
    (
      ap
            (λ (b : Bool).
              (if b then pure 0 else (first (suc f) a >>= λ h. remove_first item (suc f) h h)) m)
            far
          ∙ ap (λ (o : Outcome ℕ). then_do o (λ (h : ℕ). remove_first item (suc f) h h)) e,
      ap
            (λ (b : Bool).
              (if b then pure 0 else (first (suc f) a >>= λ h. remove_each item (suc f) h h)) m)
            far
          ∙ ap (λ (o : Outcome ℕ). then_do o (λ (h : ℕ). remove_each item (suc f) h h)) e,
    )

module _ (m : Memory) (f item : ℕ) (xs : Cells) (list : Ahead m 0 xs) (enough : length xs < f) where
  from_start : Zipper m [] xs
  from_start = record { ahead = list; behind = tt; apart = λ a e. absurd cc }

  Swept-Left : (ys : Cells) (run : Outcome ℕ) → Swept m [] xs ys run → Left m xs ys run
  Swept-Left ys run s = record {
    after = s.after;
    returns = s.returns;
    list = Zipper-whole s.after [] ys s.list;
    same = λ c out. s.same c refl out;
  }

  -- Given the first node of a list, which is linked both ways, and a round more than it has nodes,
  -- `remove` takes out the first node with the item and `remove_all` all of them: each neither
  -- faults nor runs on, returns the first node of what is left, which is linked both ways, and
  -- changes no other memory.
  pub removals-Left :
      Left m xs (without item xs) (remove f (head xs) item m)
      × Left m xs (without_all item xs) (remove_all f (head xs) item m)
  removals-Left =
      let (e, d) = both_loops m item f xs list enough in
      (
        rw e (
            Swept-Left (without item xs) _
              (remove_first-Swept item f (head xs) m [] xs from_start refl enough)),
        rw d (
            Swept-Left (without_all item xs) _
              (remove_each-Swept item f (head xs) m [] xs from_start refl enough)),
      )

-- ===== src/LinkedList/Inserting.antt =====
-- `hev_list_insert` and `hev_list_insert_before` of src/hev-list.c.
use hev_lib.Base.{
  Bool, false, ℕ, zero, suc, ◌+◌, ◌%◌, ◌^◌, ◌<◌, ◌≡◌, ◌≢◌, refl, sym, ap, ◌∙◌, some, none, [], ◌∷◌,
  ◌==◌, arith, if◌then◌else◌, Bool-cases, inl, inr, length,
}
use hev_lib.LinkedList.{first, Spot, find_spot, insert_at, insert, insert_before}
use hev_lib.LinkedList.Memory.{node, Memory, Outcome, ok, put}
use hev_lib.LinkedList.Zipper.{
  Cells, has, head, Ahead, Zipper, whole, put_self, load-ok, set_next-ok, set_prev-ok, Ahead-put,
  Zipper-right, Zipper-whole,
}
use hev_lib.LinkedList.Linking.{
  has_second, not_second, linked_ne, after, after-Zipper, after_ne, link-after,
}
use hev_lib.LinkedList.Removing.{Left, first-head}

-- A new node in front of the first one that passes the test, which is told how many were passed, or
-- behind all.
abbrev pub placed : (ℕ → ℕ → Bool) → ℕ × ℕ → (passed : ℕ) → Cells → Cells
placed test new i [] = new ∷ []
placed test new i ((a, x) ∷ xs) =
    if test a i then new ∷ (a, x) ∷ xs else (a, x) ∷ placed test new ((i + 1) % 2 ^ 32) xs

-- Where the loop of both calls stops, over a memory `m'` in which the list lies as it does in `m`.
record Stops (test : ℕ → ℕ → Bool) (new : ℕ × ℕ) (m m' : Memory) (bs xs : Cells) (i : ℕ)
    (run : Outcome Spot) : Type 0 where
  cs : Cells
  ys : Cells
  returns : run ≡ ok (record { place = head ys; passed = head cs }) m'
  list : Zipper m cs ys
  kept : whole cs ys ≡ whole bs xs
  added : whole cs (new ∷ ys) ≡ whole bs (placed test new i xs)

find_spot-Stops :
    (test : ℕ → ℕ → Bool) (new : ℕ × ℕ) (m m' : Memory) (f : ℕ) (bs xs : Cells) (i : ℕ)
    → Zipper m bs xs
    → Zipper m' bs xs
    → length xs < f
    → Stops test new m m' bs xs i (find_spot test f (head xs) (head bs) i m')
unfolding find_spot
find_spot-Stops test new m m' zero bs xs i z z' enough = absurd (omega arith)
find_spot-Stops test new m m' (suc f) bs [] i z z' enough = record {
  cs = bs;
  ys = [];
  returns = refl;
  list = z;
  kept = refl;
  added = refl;
}
find_spot-Stops test new m m' (suc f) bs ((a, x) ∷ xs) i z z' enough =
    let (live, alone, at, rest) = z'.ahead in
    let far : (a == 0) ≡ false = ground arith in
    elim (Bool-cases (test a i)) [
      | inl hit ↦ record {
        cs = bs;
        ys = (a, x) ∷ xs;
        returns = rw (far, hit) refl;
        list = z;
        kept = refl;
        added = rw hit refl;
      }
      | inr miss ↦
          let s =
            find_spot-Stops test new m m' f ((a, x) ∷ bs) xs ((i + 1) % 2 ^ 32)
              (Zipper-right m bs a x xs z) (Zipper-right m' bs a x xs z') (omega arith) in
          record {
            cs = s.cs;
            ys = s.ys;
            returns = rw (far, miss, load-ok m' live at) s.returns;
            list = s.list;
            kept = s.kept;
            added = rw miss s.added;
          }
    ]

out_of_both :
    (c : ℕ) (cs ys : Cells) → has c (whole cs ys) ≡ false → (has c cs ≡ false) × (has c ys ≡ false)
out_of_both c [] ys out = (refl, out)
out_of_both c ((b, y) ∷ bs) ys out =
    let (o, o') = out_of_both c bs ((b, y) ∷ ys) out in (ground arith, ground arith)

not_in : (m : Memory) (p c : ℕ) (xs : Cells) → Ahead m p xs → m c ≡ none → has c xs ≡ false
not_in m p c [] list gone = refl
not_in m p c ((a, x) ∷ xs) (live, alone, at, rest) gone =
    let later = not_in m a c xs rest gone in
    elim (Bool-cases (c == a)) [
      | inl hit ↦ let same : m c ≡ m a = ap m (ground arith) in let k = sym gone ∙ same ∙ at in cc
      | inr miss ↦ ground arith
    ]

first-start :
    (m : Memory) (f a x : ℕ) (xs : Cells) → Ahead m 0 ((a, x) ∷ xs) → 0 < f → first f a m ≡ ok a m
first-start m zero a x xs list enough = absurd (omega arith)
first-start m (suc f) a x xs list enough = first-head m f a x xs list

module _ (test : ℕ → ℕ → Bool) (fresh item : ℕ) (m : Memory) (live : fresh ≢ 0)
    (gone : m fresh ≡ none) where
  insert_empty :
      (f : ℕ) → Left m ((fresh, item) ∷ []) ((fresh, item) ∷ []) (insert_at test f 0 item fresh m)
  unfolding insert_at
  insert_empty f =
      let given : (fresh == 0) ≡ false = ground arith in
      let m0 = put m fresh (some (node item 0 0)) in
      let m1 = put m0 fresh (some (node item 0 0)) in
      record {
        after = put m1 fresh (some (node item 0 0));
        returns =
            rw
              (
                given,
                set_prev-ok m0 live (put_self m fresh _) 0,
                set_next-ok m1 live (put_self m0 fresh _) 0,
              )
              refl;
        list = (live, refl, put_self m1 fresh _, tt);
        same =
            λ c out. let ne : c ≢ fresh = λ e. ground arith in linked_ne fresh item m live 0 0 c ne;
      }

  insert_at-Left :
      (f a x : ℕ) (xs : Cells)
      → Ahead m 0 ((a, x) ∷ xs)
      → length ((a, x) ∷ xs) < f
      → Left m
          ((fresh, item) ∷ (a, x) ∷ xs)
          (placed test (fresh, item) 0 ((a, x) ∷ xs))
          (insert_at test f a item fresh m)
  unfolding insert_at
  insert_at-Left f a x xs list enough =
      let given : (fresh == 0) ≡ false = ground arith in
      let far : (a == 0) ≡ false = let l = list.0 in ground arith in
      let old : Cells = (a, x) ∷ xs in
      let out = not_in m 0 fresh old list gone in
      let m0 = put m fresh (some (node item 0 0)) in
      let list0 = Ahead-put m 0 fresh (some (node item 0 0)) old list out in
      let s =
        find_spot-Stops test (fresh, item) m m0 f [] old 0
          (record { ahead = list; behind = tt; apart = λ b e. absurd cc })
          (record { ahead = list0; behind = tt; apart = λ b e. absurd cc }) enough in
      let outs : has fresh (whole s.cs s.ys) ≡ false = ap (has fresh) s.kept ∙ out in
      let (ob, oa) = out_of_both fresh s.cs s.ys outs in
      let final = after fresh item m live s.cs s.ys s.list ob oa in
      let z = after-Zipper fresh item m live s.cs s.ys s.list ob oa in
      record {
        after = final;
        returns =
            rw (given, far, first-start m0 f a x xs list0 (omega arith), s.returns)
              (link-after fresh item m live s.cs s.ys s.list ob oa a (ap head (sym s.kept))
                  (λ e. list.0 (ap head (sym s.kept) ∙ e))
                ∙ ap (λ l. ok (head l) final) s.added);
        list = rw (s.added) at (Zipper-whole final s.cs ((fresh, item) ∷ s.ys) z);
        same = λ c o.
            let ne : c ≢ fresh = λ e. has_second c fresh item old o (sym e) in
            let (o1, o2) =
              out_of_both c s.cs s.ys (ap (has c) s.kept ∙ not_second c fresh item old o) in
            after_ne fresh item m live s.cs s.ys s.list ob oa c ne o1 o2;
      }

  put_in :
      (f : ℕ) (xs : Cells)
      → Ahead m 0 xs
      → length xs < f
      → Left m
          ((fresh, item) ∷ xs)
          (placed test (fresh, item) 0 xs)
          (insert_at test f (head xs) item fresh m)
  put_in f [] list enough = insert_empty f
  put_in f ((a, x) ∷ xs) list enough = insert_at-Left f a x xs list enough

-- Given the first node of a list that is linked both ways, or NULL, a round more than it has nodes, and
-- a new block: `insert` puts a node with the item in front of that at the position, and `insert_before`
-- in front of the sibling, or behind the last node where there is none. Each returns the first node of
-- a list that is linked both ways, and changes no other memory.
pub insertions-Left :
    (m : Memory) (f fresh item position sibling : ℕ) (xs : Cells)
    → Ahead m 0 xs
    → length xs < f
    → fresh ≢ 0
    → m fresh ≡ none
    → Left m
        ((fresh, item) ∷ xs)
        (placed (λ a i. i == position) (fresh, item) 0 xs)
        (insert f (head xs) item position fresh m)
      × Left m
          ((fresh, item) ∷ xs)
          (placed (λ a i. a == sibling) (fresh, item) 0 xs)
          (insert_before f (head xs) item sibling fresh m)
unfolding insert insert_before
insertions-Left m f fresh item position sibling xs list enough live gone = (
  put_in (λ a i. i == position) fresh item m live gone f xs list enough,
  put_in (λ a i. a == sibling) fresh item m live gone f xs list enough,
)

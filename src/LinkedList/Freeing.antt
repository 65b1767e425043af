-- ===== src/LinkedList/Freeing.antt =====
-- `hev_list_free` of src/hev-list.c, from any node of a list.
use hev_lib.Base.{
  Bool, true, false, ℕ, zero, suc, ◌<◌, ◌≡◌, refl, sym, ap, ◌∙◌, Option, none, [], ◌∷◌, ◌||◌, ◌==◌,
  arith, if◌then◌else◌, Bool-cases, inl, inr, length,
}
use hev_lib.LinkedList.{free_forward, free_backward, free_list}
use hev_lib.LinkedList.Memory.{Node, Memory, Outcome, ok, put}
use hev_lib.LinkedList.Zipper.{
  Cells, has, head, Ahead, Behind, Zipper, whole, load-ok, free-ok, Ahead-put, Behind-put,
}

-- Exactly the nodes in `xs` are freed.
pub record Freed (m : Memory) (xs : Cells) (run : Outcome (Unit {0})) : Type 0 where
  pub after : Memory
  pub returns : run ≡ ok tt after
  pub now : (q : ℕ) → after q ≡ (if has q xs then none else m q)

-- A node is freed, and then others.
freed_too :
    (m : Memory) (a x q : ℕ) (xs : Cells) (c : Option Node)
    → c ≡ (if has q xs then none else put m a none q)
    → c ≡ (if has q ((a, x) ∷ xs) then none else m q)
unfolding put
freed_too m a x q xs c e = e ∙ elim (Bool-cases (q == a)) [
  | inl hit ↦ elim (Bool-cases (has q xs)) [ inl d ↦ rw (hit, d) refl | inr d ↦ rw (hit, d) refl ]
  | inr miss ↦ rw miss refl
]

free_forward-Freed :
    (f : ℕ) (m : Memory) (p : ℕ) (xs : Cells)
    → Ahead m p xs
    → length xs < f
    → Freed m xs (free_forward f (head xs) m)
unfolding free_forward
free_forward-Freed zero m p xs list enough = absurd (omega arith)
free_forward-Freed (suc f) m p [] list enough = record {
  after = m;
  returns = refl;
  now = λ q. refl;
}
free_forward-Freed (suc f) m p ((a, x) ∷ xs) (live, alone, at, rest) enough =
    let far : (a == 0) ≡ false = ground arith in
    let k =
      free_forward-Freed f (put m a none) a xs (Ahead-put m a a none xs rest alone) (omega arith) in
    record {
      after = k.after;
      returns = rw (far, load-ok m live at, free-ok m live at) k.returns;
      now = λ q. freed_too m a x q xs (k.after q) (k.now q);
    }

free_backward-Freed :
    (f : ℕ) (m : Memory) (n : ℕ) (bs : Cells)
    → Behind m n bs
    → length bs < f
    → Freed m bs (free_backward f (head bs) m)
unfolding free_backward
free_backward-Freed zero m n bs list enough = absurd (omega arith)
free_backward-Freed (suc f) m n [] list enough = record {
  after = m;
  returns = refl;
  now = λ q. refl;
}
free_backward-Freed (suc f) m n ((b, y) ∷ bs) (live, alone, at, rest) enough =
    let far : (b == 0) ≡ false = ground arith in
    let k =
      free_backward-Freed f (put m b none) b bs (Behind-put m b b none bs rest alone)
        (omega arith) in
    record {
      after = k.after;
      returns = rw (far, load-ok m live at, free-ok m live at) k.returns;
      now = λ q. freed_too m b y q bs (k.after q) (k.now q);
    }

-- Nodes that stay where they were.
Behind_ext :
    (m m' : Memory) (n : ℕ) (bs : Cells)
    → ((q : ℕ) → has q bs ≡ true → m' q ≡ m q)
    → Behind m n bs
    → Behind m' n bs
Behind_ext m m' n [] same list = tt
Behind_ext m m' n ((b, y) ∷ bs) same (live, alone, at, rest) = (
  live,
  alone,
  same b (ground arith) ∙ at,
  Behind_ext m m' b bs (λ q e. same q (ground arith)) rest,
)

has-whole : (q : ℕ) (bs xs : Cells) → has q (whole bs xs) ≡ (has q bs || has q xs)
has-whole q [] xs = refl
has-whole q ((b, y) ∷ bs) xs = has-whole q bs ((b, y) ∷ xs) ∙ ground arith

both_freed :
    (b c : Bool) (x : Option Node)
    → (if b then none else if c then none else x) ≡ (if b || c then none else x)
both_freed true c x = refl
both_freed false c x = refl

-- Given any node of a list that is linked both ways, and a round more than it has nodes on either side,
-- `free` ends: it frees each node of the whole list, once, and changes no other memory.
pub free_list-Freed :
    (m : Memory) (f b y : ℕ) (bs xs : Cells)
    → Zipper m ((b, y) ∷ bs) xs
    → length xs < f
    → length ((b, y) ∷ bs) < f
    → Freed m (whole ((b, y) ∷ bs) xs) (free_list f b m)
unfolding free_list
free_list-Freed m f b y bs xs z enough enough' =
    let (live, alone, at, rest) = z.behind in
    let far : (b == 0) ≡ false = ground arith in
    let k = free_forward-Freed f m b xs z.ahead enough in
    let still =
      Behind_ext m k.after (head xs) ((b, y) ∷ bs) (λ q e. k.now q ∙ (rw (z.apart q e) refl))
        z.behind in
    let j = free_backward-Freed f k.after (head xs) ((b, y) ∷ bs) still enough' in
    record {
      after = j.after;
      returns = rw (far, load-ok m live at, k.returns) j.returns;
      now = λ q.
          j.now q
          ∙ ap (λ (c : Option Node). if has q ((b, y) ∷ bs) then none else c) (k.now q)
          ∙ both_freed (has q ((b, y) ∷ bs)) (has q xs) (m q)
          ∙ ap (λ (c : Bool). if c then none else m q) (sym (has-whole q ((b, y) ∷ bs) xs));
    }

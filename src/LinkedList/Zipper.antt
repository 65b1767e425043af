-- ===== src/LinkedList/Zipper.antt =====
-- A list of src/hev-list.c in memory, seen from a place in it: the nodes behind the place, the
-- nearest first, and those from it on.
use hev_lib.Base.{
  ℕ, ◌≡◌, ◌≢◌, refl, ap, ◌∙◌, Bool, true, false, ◌||◌, Option, none, some, List, [], ◌∷◌, ◌==◌,
  arith, Bool-cases, inl, inr,
}
use hev_lib.LinkedList.Memory.{Node, node, Memory, ok, put, load, set_prev, set_next, free}

-- The address and the item of each node.
abbrev pub Cells : Type 0
Cells = List (ℕ × ℕ)

abbrev pub has : ℕ → Cells → Bool
has a [] = false
has a ((p, _) ∷ xs) = (a == p) || has a xs

-- The address of the nearest node, or NULL.
abbrev pub head : Cells → ℕ
head [] = 0
head ((a, _) ∷ xs) = a

-- From the place on: each node is live, at an address of its own, and linked both ways.
abbrev pub Ahead : Memory → (prev : ℕ) → Cells → Type 0
Ahead m prev [] = Unit
Ahead m prev ((a, x) ∷ xs) =
    (a ≢ 0) × (has a xs ≡ false) × (m a ≡ some (node x prev (head xs))) × Ahead m a xs

-- The same behind the place.
abbrev pub Behind : Memory → (next : ℕ) → Cells → Type 0
Behind m next [] = Unit
Behind m next ((a, x) ∷ xs) =
    (a ≢ 0) × (has a xs ≡ false) × (m a ≡ some (node x (head xs) next)) × Behind m a xs

pub record Zipper (m : Memory) (bs xs : Cells) : Type 0 where
  pub ahead : Ahead m (head bs) xs
  pub behind : Behind m (head xs) bs
  pub apart : (a : ℕ) → has a bs ≡ true → has a xs ≡ false

-- The whole list.
abbrev pub whole : (bs xs : Cells) → Cells
whole [] xs = xs
whole (b ∷ bs) xs = whole bs (b ∷ xs)

pub has_ne : (xs : Cells) (a p : ℕ) → has a xs ≡ true → has p xs ≡ false → a ≢ p
has_ne xs a p h out e = let same : has a xs ≡ has p xs = ap (λ b. has b xs) e in cc

pub put_self : (m : Memory) (p : ℕ) (c : Option Node) → put m p c p ≡ c
unfolding put
put_self m p c = ground arith

pub put_ne : (m : Memory) (p q : ℕ) (c : Option Node) → q ≢ p → put m p c q ≡ m q
unfolding put
put_ne m p q c h = ground arith

module _ (m : Memory) {p : ℕ} {n : Node} (live : p ≢ 0) (at : m p ≡ some n) where
  pub load-ok : load p m ≡ ok n m
  unfolding load
  load-ok = ground arith

  pub set_next-ok : (q : ℕ) → set_next p q m ≡ ok tt (put m p (some (record n { next = q })))
  unfolding set_next
  set_next-ok q = rw load-ok

  pub set_prev-ok : (q : ℕ) → set_prev p q m ≡ ok tt (put m p (some (record n { prev = q })))
  unfolding set_prev
  set_prev-ok q = rw load-ok

  pub free-ok : free p m ≡ ok tt (put m p none)
  unfolding free
  free-ok = rw load-ok

-- Nodes stay linked while they are left alone.
pub Ahead-put :
    (m : Memory) (prev p : ℕ) (c : Option Node) (xs : Cells)
    → Ahead m prev xs
    → has p xs ≡ false
    → Ahead (put m p c) prev xs
Ahead-put m prev p c [] h out = tt
Ahead-put m prev p c ((a, x) ∷ xs) (live, alone, at, h) out =
    (live, alone, put_ne m p a c (λ e. ground arith) ∙ at, Ahead-put m a p c xs h (ground arith))

pub Behind-put :
    (m : Memory) (next p : ℕ) (c : Option Node) (xs : Cells)
    → Behind m next xs
    → has p xs ≡ false
    → Behind (put m p c) next xs
Behind-put m next p c [] h out = tt
Behind-put m next p c ((a, x) ∷ xs) (live, alone, at, h) out =
    (live, alone, put_ne m p a c (λ e. ground arith) ∙ at, Behind-put m a p c xs h (ground arith))

-- The place moves by a node.
pub Zipper-right :
    (m : Memory) (bs : Cells) (a x : ℕ) (xs : Cells)
    → Zipper m bs ((a, x) ∷ xs)
    → Zipper m ((a, x) ∷ bs) xs
Zipper-right m bs a x xs z =
    let (live, alone, at, h) = z.ahead in
    record {
      ahead = h;
      behind = (live, not_behind, at, z.behind);
      apart = λ b e. elim (Bool-cases (b == a)) [
        | inl hit ↦ let same : b ≡ a = ground arith in rw same alone
        | inr miss ↦ let k = z.apart b (ground arith) in ground arith
      ];
    }
  where
    not_behind : has a bs ≡ false
    not_behind = elim (Bool-cases (has a bs)) [
      | inl e ↦ let k = z.apart a e in absurd (ground arith)
      | inr e ↦ e
    ]

pub Zipper-left :
    (m : Memory) (b y : ℕ) (bs xs : Cells) → Zipper m ((b, y) ∷ bs) xs → Zipper m bs ((b, y) ∷ xs)
Zipper-left m b y bs xs z =
    let (live, alone, at, h) = z.behind in
    record {
      ahead = (live, z.apart b (ground arith), at, z.ahead);
      behind = h;
      apart =
          λ a e. let k = z.apart a (ground arith) in let ne = has_ne bs a b e alone in ground arith;
    }

-- From the first node on.
pub Zipper-whole : (m : Memory) (bs xs : Cells) → Zipper m bs xs → Ahead m 0 (whole bs xs)
Zipper-whole m [] xs z = z.ahead
Zipper-whole m ((b, y) ∷ bs) xs z = Zipper-whole m bs ((b, y) ∷ xs) (Zipper-left m b y bs xs z)

-- With a node behind the place, the first node does not depend on what is ahead.
pub head-whole :
    (b : ℕ × ℕ) (bs xs ys : Cells) → head (whole (b ∷ bs) xs) ≡ head (whole (b ∷ bs) ys)
head-whole b [] xs ys = refl
head-whole b (d ∷ bs) xs ys = head-whole d bs (b ∷ xs) (b ∷ ys)

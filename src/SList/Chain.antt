-- ===== src/SList/Chain.antt =====
-- Chains of nodes in memory, as the lists of src/hev-slist.c form them.
use hev_lib.Base.{
  ℕ, ◌≡◌, ◌≢◌, refl, ap, ◌∙◌, Bool, true, false, ◌||◌, Option, none, some, List, [], ◌∷◌, ◌++◌,
  arith, ◌==◌,
}
use hev_lib.SList.Memory.{Node, node, Memory, Outcome, ok, put, load, set_next, free}

-- The address and the item of each node, in order.
abbrev pub Cells : Type 0
Cells = List (ℕ × ℕ)

abbrev pub has : ℕ → Cells → Bool
has a [] = false
has a ((p, _) ∷ xs) = (a == p) || has a xs

-- The address of the first node, or of what follows the chain.
abbrev pub head : (stop : ℕ) → Cells → ℕ
head stop [] = stop
head stop ((a, _) ∷ xs) = a

-- The item of the last node.
abbrev pub last_item : ℕ → Cells → ℕ
last_item d [] = d
last_item d ((_, x) ∷ xs) = last_item x xs

-- Each node is live, at an address of its own, and points to the next; the last one points to
-- `stop`.
abbrev pub Chain : Memory → (stop : ℕ) → Cells → Type 0
Chain m stop [] = Unit
Chain m stop ((a, x) ∷ xs) =
    (a ≢ 0) × (has a xs ≡ false) × (m a ≡ some (node x (head stop xs))) × Chain m stop xs

abbrev pub IsList : Memory → ℕ → Cells → Type 0
IsList m p xs = (p ≡ head 0 xs) × Chain m 0 xs

-- Nothing but the nodes of `xs` is changed.
abbrev pub SameOutside : Cells → Memory → Memory → Type 0
SameOutside xs m m' = (b : ℕ) → has b xs ≡ false → m' b ≡ m b

module _ (m : Memory) {p : ℕ} {n : Node} (live : p ≢ 0) (at : m p ≡ some n) where
  pub load-ok : load p m ≡ ok n m
  unfolding load
  load-ok = ground arith

  pub set_next-ok : (q : ℕ) → set_next p q m ≡ ok tt (put m p (some (record n { next = q })))
  unfolding set_next
  set_next-ok q = rw load-ok

  pub free-ok : free p m ≡ ok tt (put m p none)
  unfolding free
  free-ok = rw load-ok

pub put_self : (m : Memory) (p : ℕ) (c : Option Node) → put m p c p ≡ c
unfolding put
put_self m p c = ground arith

pub put_ne : (m : Memory) (p q : ℕ) (c : Option Node) → q ≢ p → put m p c q ≡ m q
unfolding put
put_ne m p q c h = ground arith

pub has-append : (a : ℕ) (xs ys : Cells) → has a (xs ++ ys) ≡ (has a xs || has a ys)
has-append a [] ys = refl
has-append a ((p, x) ∷ xs) ys = ground (arith, has-append a xs ys)

-- What is among some nodes differs from what is not.
pub has-ne : (xs : Cells) (a p : ℕ) → has a xs ≡ true → has p xs ≡ false → a ≢ p
has-ne xs a p h out e = let same : has a xs ≡ has p xs = ap (λ b. has b xs) e in cc

pub not_null : (a : ℕ) → a ≢ 0 → (a == 0) ≡ false
not_null a h = ground arith

-- A chain stays one while its own nodes are left alone.
pub frame :
    (m m' : Memory) (stop : ℕ) (xs : Cells)
    → Chain m stop xs
    → ((a : ℕ) → has a xs ≡ true → m' a ≡ m a)
    → Chain m' stop xs
frame m m' stop [] c same = tt
frame m m' stop ((a, x) ∷ xs) (live, out, at, c) same =
    (live, out, same a (ground arith) ∙ at, frame m m' stop xs c (λ b h. same b (ground arith)))

pub head-append : (stop : ℕ) (xs ys : Cells) → head (head stop ys) xs ≡ head stop (xs ++ ys)
head-append stop [] ys = refl
head-append stop ((a, x) ∷ xs) ys = refl

module _ (m : Memory) (stop : ℕ) where
  pub frame-put :
      (xs : Cells) (p : ℕ) (c : Option Node)
      → Chain m stop xs
      → has p xs ≡ false
      → Chain (put m p c) stop xs
  frame-put xs p c chain out =
      frame m (put m p c) stop xs chain (λ a h. put_ne m p a c (has-ne xs a p h out))

  pub not-has_of_none : (xs : Cells) (p : ℕ) → Chain m stop xs → m p ≡ none → has p xs ≡ false
  not-has_of_none [] p c e = refl
  not-has_of_none ((a, x) ∷ xs) p (live, out, at, c) e = ground (arith, not-has_of_none xs p c e)

  -- Two chains that share no node, the first leading to the second.
  pub Chain-append :
      (xs ys : Cells)
      → Chain m (head stop ys) xs
      → Chain m stop ys
      → ((a : ℕ) → has a xs ≡ true → has a ys ≡ false)
      → Chain m stop (xs ++ ys)
  Chain-append [] ys c d apart = d
  Chain-append ((a, x) ∷ xs) ys (live, out, at, c) d apart = (
    live,
    has-append a xs ys ∙ ground (arith, apart a),
    at ∙ ap (λ k. some (node x k)) (head-append stop xs ys),
    Chain-append xs ys c d (λ b h. apart b (ground arith)),
  )

-- What a call leaves that returns a list: its cells, and no memory but that of `touched` changed.
pub record Holds (m : Memory) (touched cells : Cells) (run : Outcome ℕ) : Type 0 where
  pub list : ℕ
  pub after : Memory
  pub returns : run ≡ ok list after
  pub chain : IsList after list cells
  pub same : SameOutside touched m after

-- ===== src/SList/Removing.antt =====
-- `hev_slist_remove` and `hev_slist_remove_next` of src/hev-slist.c.
use mathlib.Core.Logic.{Ne-symm}
use hev_lib.Base.{
  ℕ, zero, suc, ◌<◌, ◌≡◌, ◌≢◌, refl, ap, ◌∙◌, true, false, none, some, [], ◌∷◌, arith, ◌==◌,
  if◌then◌else◌, length, Bool-cases, inl, inr,
}
use hev_lib.SList.{remove_loop, remove, remove_next}
use hev_lib.SList.Memory.{node, Memory, Outcome, ok, fault, put, load}
use hev_lib.SList.Chain.{
  Cells, has, head, Chain, IsList, SameOutside, Holds, load-ok, set_next-ok, free-ok, put_self,
  put_ne, frame-put, not_null,
}

-- The cells without the first that holds the item.
unfoldable pub erase : ℕ → Cells → Cells
erase item [] = []
erase item ((a, x) ∷ xs) = if item == x then xs else (a, x) ∷ erase item xs

not-has-erase : (b item : ℕ) (xs : Cells) → has b xs ≡ false → has b (erase item xs) ≡ false
unfolding erase
not-has-erase b item [] h = refl
not-has-erase b item ((a, x) ∷ xs) h = ground (arith, not-has-erase b item xs)

-- What has become of the nodes: those that were taken out are freed.
abbrev pub Freed : Cells → Cells → Memory → Type 0
Freed xs ys m = (b : ℕ) → has b xs ≡ true → has b ys ≡ false → m b ≡ none

-- The list after a removal.
pub record Removed (m : Memory) (cells left : Cells) (run : Outcome ℕ) : Type 0 where
  pub held : Holds m cells left run
  pub freed : Freed cells left held.after

pub not-has-cons :
    (b a x : ℕ) (xs : Cells) → has b ((a, x) ∷ xs) ≡ false → (b ≢ a) × (has b xs ≡ false)
not-has-cons b a x xs h = (λ e. ground arith, ground arith)

pub has-cons : (b a x : ℕ) (xs : Cells) → b ≢ a → has b xs ≡ false → has b ((a, x) ∷ xs) ≡ false
has-cons b a x xs ne out = ground arith

module _ (item : ℕ) where
  erase-hit : (a x : ℕ) (xs : Cells) → (item == x) ≡ true → erase item ((a, x) ∷ xs) ≡ xs
  unfolding erase
  erase-hit a x xs hit = rw hit

  freed-hit :
      (m : Memory) (a x : ℕ) (xs : Cells) (b : ℕ)
      → (item == x) ≡ true
      → has b ((a, x) ∷ xs) ≡ true
      → has b (erase item ((a, x) ∷ xs)) ≡ false
      → put m a none b ≡ none
  unfolding put
  freed-hit m a x xs b hit i o = ground (arith, o, ap (λ ys. has b ys) (erase-hit a x xs hit))

  missed :
      (a x : ℕ) (xs : Cells) (b : ℕ)
      → (item == x) ≡ false
      → has b ((a, x) ∷ xs) ≡ true
      → has b (erase item ((a, x) ∷ xs)) ≡ false
      → (has b xs ≡ true) × (has b (erase item xs) ≡ false)
  unfolding erase
  missed a x xs b miss i o = (ground arith, ground arith)

  -- the loop behind a node `q` that stays
  loop-Removed :
      (f : ℕ) (m : Memory) (self q v : ℕ) (xs : Cells)
      → Chain m 0 ((q, v) ∷ xs)
      → length xs < f
      → (m' : Memory) × (remove_loop item f self (head 0 xs) q m ≡ ok self m')
        × Chain m' 0 ((q, v) ∷ erase item xs)
        × SameOutside ((q, v) ∷ xs) m m'
        × Freed xs (erase item xs) m'
  unfolding remove_loop erase
  loop-Removed zero m self q v xs c h = absurd (omega arith)
  loop-Removed (suc f) m self q v [] c h = (m, refl, c, λ b o. refl, λ b i. cc)
  loop-Removed (suc f) m self q v ((a, x) ∷ xs) (live, out, at, c) h =
      let (apart, outer) = not-has-cons q a x xs out in
      elim (Bool-cases (item == x)) [
        | inl hit ↦
            let m₁ : Memory = put m q (some (node v (head 0 xs))) in
            let at₁ : m₁ a ≡ some (node x (head 0 xs)) = put_ne m q a _ (Ne-symm apart) ∙ c.2 in
            (
              put m₁ a none,
              rw (
                not_null a c.0,
                load-ok m c.0 c.2,
                hit,
                not_null q live,
                set_next-ok m live at,
                free-ok m₁ c.0 at₁,
              ),
              rw hit (
                live,
                outer,
                put_ne m₁ a q none apart ∙ put_self m q _,
                frame-put m₁ 0 xs a none (frame-put m 0 xs q _ c.3 outer) c.1,
              ),
              λ b o.
                  let (far, rest) = not-has-cons b q v ((a, x) ∷ xs) o in
                  put_ne m₁ a b none (not-has-cons b a x xs rest).0 ∙ put_ne m q b _ far,
              λ b i o. freed-hit m₁ a x xs b hit i o,
            )
        | inr miss ↦
            let (m', run, chain, same, freed) = loop-Removed f m self a x xs c (omega arith) in
            (
              m',
              rw (not_null a c.0, load-ok m c.0 c.2, miss) run,
              rw miss (
                live,
                has-cons q a x (erase item xs) apart (not-has-erase q item xs outer),
                same q out ∙ at,
                chain,
              ),
              λ b o. same b (not-has-cons b q v ((a, x) ∷ xs) o).1,
              λ b i o. let k = missed a x xs b miss i o in freed b k.0 k.1,
            )
      ]

-- With rounds for every node, `remove` takes the first node with the item out of the list and frees
-- it, keeps the other nodes in order, and changes no memory but that of the list.
pub remove-Removed :
    (m : Memory) (p item f : ℕ) (xs : Cells)
    → IsList m p xs
    → length xs < f
    → Removed m xs (erase item xs) (remove f p item m)
unfolding remove erase remove_loop
remove-Removed m p item f [] is h = record {
  held = record { list = 0; after = m; returns = rw is.0; chain = (refl, tt); same = λ b o. refl };
  freed = λ b i o. cc;
}
remove-Removed m p item zero ((a, x) ∷ xs) is h = absurd (omega arith)
remove-Removed m p item (suc f) ((a, x) ∷ xs) (e, (live, out, at, c)) h =
    elim (Bool-cases (item == x)) [
      | inl hit ↦ record {
        held = record {
          list = head 0 xs;
          after = put m a none;
          returns = rw (e, not_null a live, load-ok m live at, hit, free-ok m live at);
          chain = rw hit (refl, frame-put m 0 xs a none c out);
          same = λ b o. put_ne m a b none (not-has-cons b a x xs o).0;
        };
        freed = λ b i o. freed-hit item m a x xs b hit i o;
      }
      | inr miss ↦
          let (m', run, chain, same, freed) =
            loop-Removed item f m a a x xs (live, out, at, c) (omega arith) in
          record {
            held = record {
              list = a;
              after = m';
              returns = rw (e, not_null a live, load-ok m live at, miss) run;
              chain = rw miss (refl, chain);
              same = same;
            };
            freed = λ b i o. let k = missed item a x xs b miss i o in freed b k.0 k.1;
          }
    ]

load-freed : (m : Memory) (a : ℕ) → load a (put m a none) ≡ fault
unfolding load put
load-freed m a = ground arith

-- On an empty list `remove_next` without a sibling does nothing; on any other it reads the node
-- that it has just freed.
pub remove_next-first :
    (m : Memory) (p : ℕ) (xs : Cells)
    → IsList m p xs
    → remove_next p 0 m ≡ elim xs [ [] ↦ ok 0 m | x ∷ rest ↦ fault ]
unfolding remove_next
remove_next-first m p [] (e, c) = rw e
remove_next-first m p ((a, x) ∷ xs) (e, (live, out, at, c)) =
    rw (e, not_null a live, free-ok m live at, load-freed m a)

-- ===== src/SList/Sweeping.antt =====
-- `hev_slist_remove_all` of src/hev-slist.c.
use mathlib.Core.Logic.{Ne-symm}
use hev_lib.Base.{
  ℕ, zero, suc, ◌<◌, ◌≡◌, refl, ap, ◌∙◌, true, false, none, some, [], ◌∷◌, arith, ◌==◌,
  if◌then◌else◌, length, Bool-cases, inl, inr,
}
use hev_lib.SList.{remove_all_loop, remove_all}
use hev_lib.SList.Memory.{node, Memory, ok, put}
use hev_lib.SList.Chain.{
  Cells, has, head, Chain, IsList, SameOutside, load-ok, set_next-ok, free-ok, put_self, put_ne,
  frame-put, not_null,
}
use hev_lib.SList.Removing.{Freed, Removed, not-has-cons, has-cons}

-- The cells that do not hold the item.
unfoldable pub others : ℕ → Cells → Cells
others item [] = []
others item ((a, x) ∷ xs) = if item == x then others item xs else (a, x) ∷ others item xs

not-has-others : (b item : ℕ) (xs : Cells) → has b xs ≡ false → has b (others item xs) ≡ false
unfolding others
not-has-others b item [] h = refl
not-has-others b item ((a, x) ∷ xs) h = ground (arith, not-has-others b item xs)

module _ (item : ℕ) where
  others-hit :
      (a x : ℕ) (xs : Cells) → (item == x) ≡ true → others item ((a, x) ∷ xs) ≡ others item xs
  unfolding others
  others-hit a x xs hit = rw hit

  others-miss :
      (a x : ℕ) (xs : Cells)
      → (item == x) ≡ false
      → others item ((a, x) ∷ xs) ≡ (a, x) ∷ others item xs
  unfolding others
  others-miss a x xs miss = rw miss

  -- A node that was freed first stays freed.
  Freed-hit :
      (a x : ℕ) (xs : Cells) (m' : Memory)
      → (item == x) ≡ true
      → m' a ≡ none
      → Freed xs (others item xs) m'
      → Freed ((a, x) ∷ xs) (others item ((a, x) ∷ xs)) m'
  Freed-hit a x xs m' hit gone freed b i o = elim (Bool-cases (b == a)) [
    | inl same ↦ let eq : b ≡ a = ground arith in ap (λ (k : ℕ). m' k) eq ∙ gone
    | inr apart ↦ freed b (ground arith) (rw (others-hit a x xs hit) at o)
  ]

  Freed-miss :
      (a x : ℕ) (xs : Cells) (m' : Memory)
      → (item == x) ≡ false
      → Freed xs (others item xs) m'
      → Freed ((a, x) ∷ xs) (others item ((a, x) ∷ xs)) m'
  Freed-miss a x xs m' miss freed b i o =
      let out : has b ((a, x) ∷ others item xs) ≡ false = rw (others-miss a x xs miss) at o in
      let (apart, rest) = not-has-cons b a x (others item xs) out in freed b (ground arith) rest

  -- the loop behind a node `q` that stays
  loop-Removed :
      (f : ℕ) (m : Memory) (self q v : ℕ) (xs : Cells)
      → Chain m 0 ((q, v) ∷ xs)
      → length xs < f
      → (m' : Memory) × (remove_all_loop item f self (head 0 xs) q m ≡ ok self m')
        × Chain m' 0 ((q, v) ∷ others item xs)
        × SameOutside ((q, v) ∷ xs) m m'
        × Freed xs (others item xs) m'
  unfolding remove_all_loop
  loop-Removed zero m self q v xs c h = absurd (omega arith)
  loop-Removed (suc f) m self q v [] c h = (m, refl, unfold others in c, λ b o. refl, λ b i. cc)
  loop-Removed (suc f) m self q v ((a, x) ∷ xs) (live, out, at, c) h =
      let (apart, outer) = not-has-cons q a x xs out in
      elim (Bool-cases (item == x)) [
        | inl hit ↦
            let m₁ : Memory = put m q (some (node v (head 0 xs))) in
            let at₁ : m₁ a ≡ some (node x (head 0 xs)) = put_ne m q a _ (Ne-symm apart) ∙ c.2 in
            let left : Chain (put m₁ a none) 0 ((q, v) ∷ xs) = (
              live,
              outer,
              put_ne m₁ a q none apart ∙ put_self m q _,
              frame-put m₁ 0 xs a none (frame-put m 0 xs q _ c.3 outer) c.1,
            ) in
            let (m', run, chain, same, freed) =
              loop-Removed f (put m₁ a none) self q v xs left (omega arith) in
            (
              m',
              rw
                  (
                    not_null a c.0,
                    load-ok m c.0 c.2,
                    hit,
                    not_null q live,
                    set_next-ok m live at,
                    free-ok m₁ c.0 at₁,
                  )
                  run,
              rw (others-hit a x xs hit) chain,
              λ b o.
                  let (far, rest) = not-has-cons b q v ((a, x) ∷ xs) o in
                  let (far₂, rest₂) = not-has-cons b a x xs rest in
                  same b (has-cons b q v xs far rest₂)
                  ∙ put_ne m₁ a b none far₂
                  ∙ put_ne m q b _ far,
              Freed-hit a x xs m' hit
                  (same a (has-cons a q v xs (Ne-symm apart) c.1) ∙ put_self m₁ a none) freed,
            )
        | inr miss ↦
            let (m', run, chain, same, freed) = loop-Removed f m self a x xs c (omega arith) in
            (
              m',
              rw (not_null a c.0, load-ok m c.0 c.2, miss) run,
              rw (others-miss a x xs miss) (
                live,
                has-cons q a x (others item xs) apart (not-has-others q item xs outer),
                same q out ∙ at,
                chain,
              ),
              λ b o. same b (not-has-cons b q v ((a, x) ∷ xs) o).1,
              Freed-miss a x xs m' miss freed,
            )
      ]

  -- the loop while no node has stayed
  first-Removed :
      (f : ℕ) (m : Memory) (xs : Cells)
      → Chain m 0 xs
      → length xs < f
      → Removed m xs (others item xs) (remove_all_loop item f (head 0 xs) (head 0 xs) 0 m)
  unfolding remove_all_loop
  first-Removed zero m xs c h = absurd (omega arith)
  first-Removed (suc f) m [] c h = record {
    held = record {
      list = 0;
      after = m;
      returns = refl;
      chain = unfold others in (refl, tt);
      same = λ b o. refl;
    };
    freed = λ b i o. cc;
  }
  first-Removed (suc f) m ((a, x) ∷ xs) (live, out, at, c) h = elim (Bool-cases (item == x)) [
    | inl hit ↦
        let m₁ : Memory = put m a none in
        let r = first-Removed f m₁ xs (frame-put m 0 xs a none c out) (omega arith) in
        let w = r.held in
        record {
          held = record {
            list = w.list;
            after = w.after;
            returns = rw (not_null a live, load-ok m live at, hit, free-ok m live at) w.returns;
            chain = rw (others-hit a x xs hit) w.chain;
            same = λ b o.
                let (far, rest) = not-has-cons b a x xs o in w.same b rest ∙ put_ne m a b none far;
          };
          freed = Freed-hit a x xs w.after hit (w.same a out ∙ put_self m a none) r.freed;
        }
    | inr miss ↦
        let (m', run, chain, same, freed) =
          loop-Removed f m a a x xs (live, out, at, c) (omega arith) in
        record {
          held = record {
            list = a;
            after = m';
            returns = rw (not_null a live, load-ok m live at, miss) run;
            chain = rw (others-miss a x xs miss) (refl, chain);
            same = same;
          };
          freed = Freed-miss a x xs m' miss freed;
        }
  ]

-- With rounds for every node, `remove_all` frees the nodes with the item, keeps the others in
-- order, and changes no memory but that of the list.
pub remove_all-Removed :
    (m : Memory) (p item f : ℕ) (xs : Cells)
    → IsList m p xs
    → length xs < f
    → Removed m xs (others item xs) (remove_all f p item m)
unfolding remove_all remove_all_loop
remove_all-Removed m p item f [] is h = record {
  held = record {
    list = 0;
    after = m;
    returns = rw is.0;
    chain = unfold others in (refl, tt);
    same = λ b o. refl;
  };
  freed = λ b i o. cc;
}
remove_all-Removed m p item f ((a, x) ∷ xs) (e, c) h =
    rw (e, not_null a c.0) (first-Removed item f m ((a, x) ∷ xs) c h)

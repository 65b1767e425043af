-- ===== src/SList/Adding.antt =====
-- `hev_slist_last`, `hev_slist_append` and `hev_slist_prepend` of src/hev-slist.c.
use mathlib.Core.Logic.{Ne-symm}
use hev_lib.Base.{
  ℕ, zero, suc, ◌<◌, ◌≡◌, ◌≢◌, refl, ap, ◌∙◌, true, false, none, some, ◌||◌, [], ◌∷◌, ◌++◌, arith,
  ◌==◌, length,
}
use hev_lib.SList.{last, append, prepend}
use hev_lib.SList.Memory.{node, Memory, ok, put}
use hev_lib.SList.Chain.{
  Cells, last_item, has, has-ne, not_null, head, Chain, IsList, load-ok, set_next-ok, put_self,
  put_ne, frame-put, not-has_of_none, Chain-append, Holds, has-append,
}

-- The last node of a chain: where it is, what it holds, and what pointing it elsewhere does.
pub record Last (m : Memory) (cells : Cells) (l : ℕ) : Type 0 where
  pub item : ℕ
  pub final : item ≡ last_item 0 cells
  pub live : l ≢ 0
  among : has l cells ≡ true
  pub holds : m l ≡ some (node item 0)
  linked : (q : ℕ) → Chain (put m l (some (node item q))) q cells

module _ (m : Memory) where
  pub last-Last :
      (f a x : ℕ) (xs : Cells)
      → Chain m 0 ((a, x) ∷ xs)
      → length xs < f
      → (l : ℕ) × (last f a m ≡ ok l m) × Last m ((a, x) ∷ xs) l
  unfolding last
  last-Last zero a x xs c h = absurd (omega arith)
  last-Last (suc f) a x [] (live, out, at, c) h = (
    a,
    rw (not_null a live, load-ok m live at),
    record {
      item = x;
      final = refl;
      live = live;
      among = ground arith;
      holds = at;
      linked = λ q. (live, refl, put_self m a _, tt);
    },
  )
  last-Last (suc f) a x ((b, y) ∷ xs) (live, out, at, c) h =
      let (l, run, w) = last-Last f b y xs c (omega arith) in
      (
        l,
        rw (not_null a live, load-ok m live at, not_null b c.0) run,
        record {
          item = w.item;
          final = w.final;
          live = w.live;
          among = ground (arith, w.among);
          holds = w.holds;
          linked = λ q. (
            live,
            out,
            put_ne m l a _ (Ne-symm (has-ne ((b, y) ∷ xs) l a w.among out)) ∙ at,
            w.linked q,
          );
        },
      )

has-last : (a : ℕ) (xs : Cells) (p x : ℕ) → has a (xs ++ (p, x) ∷ []) ≡ (has a xs || (a == p))
has-last a xs p x = has-append a xs ((p, x) ∷ []) ∙ ground arith

not-has-last :
    (a : ℕ) (xs : Cells) (p x : ℕ)
    → has a (xs ++ (p, x) ∷ []) ≡ false
    → (has a xs ≡ false) × (a ≢ p)
not-has-last a xs p x o = let e = has-last a xs p x in (ground arith, λ same. ground arith)

module _ (m : Memory) (item fresh : ℕ) (new : fresh ≢ 0) (unused : m fresh ≡ none) where
  abbrev fresh_memory : Memory
  fresh_memory = put m fresh (some (node item 0))

  append-some :
      (f a x : ℕ) (xs : Cells)
      → Chain m 0 ((a, x) ∷ xs)
      → length xs < f
      → let cells = ((a, x) ∷ xs) ++ (fresh, item) ∷ [] in
        Holds m cells cells (append f a item fresh m)
  unfolding append
  append-some f a x xs c h =
      let old = (a, x) ∷ xs in
      let out = not-has_of_none m 0 old fresh c unused in
      let (l, run, w) = last-Last fresh_memory f a x xs (frame-put m 0 old fresh _ c out) h in
      let ne = has-ne old l fresh w.among out in
      record {
        list = a;
        after = put fresh_memory l (some (node w.item fresh));
        returns =
            rw (not_null fresh new, not_null a c.0, run, set_next-ok fresh_memory w.live w.holds);
        chain = (
          refl,
          Chain-append (put fresh_memory l (some (node w.item fresh))) 0 old ((fresh, item) ∷ [])
              (w.linked fresh)
              (new, refl, put_ne fresh_memory l fresh _ (Ne-symm ne) ∙ put_self m fresh _, tt)
              (λ b i. ground (arith, has-ne old b fresh i out)),
        );
        same = λ b o.
            let apart = not-has-last b old fresh item o in
            put_ne fresh_memory l b _ (Ne-symm (has-ne old l b w.among apart.0))
            ∙ put_ne m fresh b _ apart.1;
      }

  append-none :
      (f : ℕ) → Holds m ((fresh, item) ∷ []) ((fresh, item) ∷ []) (append f 0 item fresh m)
  unfolding append
  append-none f = record {
    list = fresh;
    after = fresh_memory;
    returns = rw (not_null fresh new);
    chain = (refl, (new, refl, put_self m fresh _, tt));
    same = λ b o. put_ne m fresh b _ (λ e. ground arith);
  }

  append-cells :
      (f : ℕ) (xs : Cells)
      → Chain m 0 xs
      → length xs < f
      → let cells = xs ++ (fresh, item) ∷ [] in
        Holds m cells cells (append f (head 0 xs) item fresh m)
  append-cells f [] c h = append-none f
  append-cells f ((a, x) ∷ xs) c h = append-some f a x xs c (omega arith)

-- When the allocator gives a new address, `append` puts a node with the item behind the list, keeps
-- the nodes in front of it, and changes no other memory.
pub append-Holds :
    (m : Memory) (p item fresh f : ℕ) (xs : Cells)
    → IsList m p xs
    → fresh ≢ 0
    → m fresh ≡ none
    → length xs < f
    → let cells = xs ++ (fresh, item) ∷ [] in Holds m cells cells (append f p item fresh m)
append-Holds m p item fresh f xs is new unused h =
    rw is.0 (append-cells m item fresh new unused f xs is.1 h)

-- `prepend` puts the node in front.
pub prepend-Holds :
    (m : Memory) (p item fresh : ℕ) (xs : Cells)
    → IsList m p xs
    → fresh ≢ 0
    → m fresh ≡ none
    → Holds m ((fresh, item) ∷ []) ((fresh, item) ∷ xs) (prepend p item fresh m)
unfolding prepend
prepend-Holds m p item fresh xs is new unused =
    let out = not-has_of_none m 0 xs fresh is.1 unused in
    record {
      list = fresh;
      after = put m fresh (some (node item p));
      returns = rw (not_null fresh new);
      chain = (
        refl,
        (
          new,
          out,
          put_self m fresh _ ∙ ap (λ q. some (node item q)) is.0,
          frame-put m 0 xs fresh _ is.1 out,
        ),
      );
      same = λ b o. put_ne m fresh b _ (λ e. ground arith);
    }

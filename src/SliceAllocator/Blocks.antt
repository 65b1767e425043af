-- ===== src/SliceAllocator/Blocks.antt =====
-- The ways in which src/hev-memory-allocator-slice.c answers a request.
use hev_lib.Base.{
  ℕ, suc, ◌+◌, ◌-◌, ◌%◌, ◌^◌, ◌<◌, ◌≡◌, ◌≢◌, ◌⊎◌, inl, inr, refl, sym, ap, ◌∙◌, true, false, Option,
  none, some, List, ◌∷◌, arith, ◌==◌, leb, if◌then◌else◌, length, Bool-cases,
}
use hev_lib.SliceAllocator.{
  max_cached_slice_size, Slice, Heap, Allocator, Run, ok, set_at, slice_at,
}
use hev_lib.SliceAllocator.Valid.{
  among, Chain, IsValid, InUse, set_at_self, set_at_ne, Chain-among, frame, free_out, total-set_at,
}

pub slice_at-ok : (h : Heap) (p : ℕ) (s : Slice) → p ≢ 0 → h p ≡ some s → slice_at h p ≡ ok s
unfolding slice_at
slice_at-ok h p s live at = let e : (p == 0) ≡ false = ground arith in rw (e, at)

-- One list is changed, and the others are kept.
module _ (i : ℕ) (cs : ℕ → List ℕ) (xs : List ℕ) where
  pub set_chains :
      (h : Heap) (f : ℕ → ℕ) (v : ℕ)
      → ((j : ℕ) → j ≢ i → Chain h j (f j) (cs j))
      → Chain h i v xs
      → (j : ℕ) → Chain h j (set_at f i v j) (set_at cs i xs j)
  set_chains h f v old new j = elim (Bool-cases (j == i)) [
    | inl e ↦ let same : j ≡ i = ground arith in rw e (rw same new)
    | inr e ↦ rw e (old j (λ s. ground arith))
  ]

  pub set_out :
      (q : ℕ)
      → ((j : ℕ) → j ≢ i → among q (cs j) ≡ false)
      → among q xs ≡ false
      → (j : ℕ) → among q (set_at cs i xs j) ≡ false
  set_out q old new j = elim (Bool-cases (j == i)) [
    | inl e ↦ rw e new
    | inr e ↦ rw e (old j (λ s. ground arith))
  ]

-- What a request for `size` bytes gives.
pub record Given (a : Allocator) (cs : ℕ → List ℕ) (size fresh : ℕ) (run : Run (ℕ × Allocator))
    : Type 0 where
  pub block : ℕ
  pub after : Allocator
  pub lists : ℕ → List ℕ
  pub returns : run ≡ ok (block, after)
  pub valid : IsValid after lists
  pub refused : block ≡ 0 → (size ≡ 0) ⊎ (fresh ≡ 0)
  pub unused : ¬ InUse a cs block
  pub used : block ≢ 0 → InUse after lists block
  pub class :
      (s : Slice)
      → after.heap block ≡ some s
      → s.owner ≡ (if leb size max_cached_slice_size then some (size - 1) else none)
  pub same : (q : ℕ) → q ≢ block → after.heap q ≡ a.heap q
  pub kept : (q : ℕ) → q ≢ block → InUse a cs q → InUse after lists q
  pub others : (q : ℕ) → q ≢ block → InUse after lists q → InUse a cs q

module _ (a : Allocator) (cs : ℕ → List ℕ) (valid : IsValid a cs) where
  not-InUse_null : ¬ InUse a cs 0
  not-InUse_null u = let k = sym valid.null ∙ u.at in cc

  -- A block that malloc gives.
  module _ (fresh : ℕ) (owner : Option ℕ) (live : fresh ≢ 0) (free : a.heap fresh ≡ none)
      (inside : (i : ℕ) → owner ≡ some i → i < max_cached_slice_size) where
    abbrev slice : Slice
    slice = record { next = 0; owner = owner }

    abbrev grown : Allocator
    grown = record a { heap = set_at a.heap fresh (some slice) }

    grown-IsValid : IsValid grown cs
    grown-IsValid = record {
      chains = λ i.
          frame a.heap i (a.cached_mslices i) fresh (some slice) (cs i) (valid.chains i)
            (free_out valid fresh free i);
      null = set_at_ne a.heap fresh 0 (some slice) (λ e. live (sym e)) ∙ valid.null;
      counted = valid.counted;
      bounded = valid.bounded;
      owners = λ p s i at own. elim (Bool-cases (p == fresh)) [
        | inl e ↦
            let found : s ≡ slice = let k = rw e at at in cc in
            inside i (ap (λ (x : Slice). x.owner) (sym found) ∙ own)
        | inr e ↦ valid.owners p s i (rw e at at) own
      ];
    }

    pub fresh-Given :
        (size : ℕ) (run : Run (ℕ × Allocator))
        → run ≡ ok (fresh, grown)
        → owner ≡ (if leb size max_cached_slice_size then some (size - 1) else none)
        → Given a cs size fresh run
    fresh-Given size run e fits = record {
      block = fresh;
      after = grown;
      lists = cs;
      returns = e;
      valid = grown-IsValid;
      refused = λ z. absurd (live z);
      unused = λ u. let k = sym free ∙ u.at in cc;
      used = λ ne. record {
        slice = slice;
        at = set_at_self a.heap fresh (some slice);
        out = free_out valid fresh free;
      };
      class = λ s at.
          let found : s ≡ slice = let k = sym (set_at_self a.heap fresh (some slice)) ∙ at in cc in
          ap (λ (x : Slice). x.owner) found ∙ fits;
      same = λ q ne. set_at_ne a.heap fresh q (some slice) ne;
      kept = λ q ne u. record {
        slice = u.slice;
        at = set_at_ne a.heap fresh q (some slice) ne ∙ u.at;
        out = u.out;
      };
      others = λ q ne u. record {
        slice = u.slice;
        at = sym (set_at_ne a.heap fresh q (some slice) ne) ∙ u.at;
        out = u.out;
      };
    }

  -- No block: nothing is changed.
  pub null-Given :
      (size fresh : ℕ) (run : Run (ℕ × Allocator))
      → run ≡ ok (0, a)
      → (size ≡ 0) ⊎ (fresh ≡ 0)
      → Given a cs size fresh run
  null-Given size fresh run e why = record {
    block = 0;
    after = a;
    lists = cs;
    returns = e;
    valid = valid;
    refused = λ z. why;
    unused = not-InUse_null;
    used = λ ne. absurd (ne refl);
    class = λ s at. let k = sym valid.null ∙ at in cc;
    same = λ q ne. refl;
    kept = λ q ne u. u;
    others = λ q ne u. u;
  }

  -- A block that waits in list `i`.
  module _ (i p : ℕ) (ps : List ℕ) (s : Slice) (list : cs i ≡ p ∷ ps) (live : p ≢ 0)
      (alone : among p ps ≡ false) (at : a.heap p ≡ some s) (own : s.owner ≡ some i)
      (rest : Chain a.heap i s.next ps) where
    abbrev popped : Allocator
    popped = record a {
      cached_mslices = set_at a.cached_mslices i s.next;
      cached_count = (a.cached_count + (2 ^ 32 - 1)) % 2 ^ 32;
    }

    abbrev left : ℕ → List ℕ
    left = set_at cs i ps

    popped-IsValid : IsValid popped left
    popped-IsValid =
        let t = total-set_at max_cached_slice_size i cs ps (valid.owners p s i at own) in
        let l : length (cs i) ≡ suc (length ps) = ap length list in
        record {
          chains = set_chains i cs ps a.heap a.cached_mslices s.next (λ j ne. valid.chains j) rest;
          null = valid.null;
          counted = omega (arith, t, l, valid.counted, valid.bounded);
          bounded = omega (arith, t, l, valid.counted, valid.bounded);
          owners = valid.owners;
        }

    -- It is in no other list.
    elsewhere : (j : ℕ) → j ≢ i → among p (cs j) ≡ false
    elsewhere j ne = elim (Bool-cases (among p (cs j))) [
      | inl m ↦
          let (r, at', own') =
            Chain-among a.heap j (a.cached_mslices j) p (cs j) (valid.chains j) m in
          let same : r ≡ s = let k = sym at' ∙ at in cc in
          let both : some j ≡ some i = sym own' ∙ ap (λ (x : Slice). x.owner) same ∙ own in
          absurd (ne (ground arith))
      | inr o ↦ o
    ]

    behind_head : (q j : ℕ) → q ≢ p → among q (left j) ≡ false → among q (cs j) ≡ false
    behind_head q j ne out = elim (Bool-cases (j == i)) [
      | inl e ↦
          let same : j ≡ i = ground arith in
          let k : among q ps ≡ false = rw e at out in
          let whole : among q (p ∷ ps) ≡ false = ground arith in rw (same, list) whole
      | inr e ↦ rw e at out
    ]

    pub popped-Given :
        (fresh : ℕ) (run : Run (ℕ × Allocator))
        → run ≡ ok (p, popped)
        → Given a cs (i + 1) fresh run
    popped-Given fresh run e = record {
      block = p;
      after = popped;
      lists = left;
      returns = e;
      valid = popped-IsValid;
      refused = λ z. absurd (live z);
      unused =
          λ u. let k = u.out i in let m : among p (p ∷ ps) ≡ false = rw list at k in ground arith;
      used = λ ne. record { slice = s; at = at; out = set_out i cs ps p elsewhere alone };
      class = λ r at'.
          let same : r ≡ s = let k = sym at' ∙ at in cc in
          let low = valid.owners p s i at own in
          let fits : leb (i + 1) max_cached_slice_size ≡ true = ground arith in
          ap (λ (x : Slice). x.owner) same ∙ own ∙ rw fits (ap (λ (n : ℕ). some n) (omega arith));
      same = λ q ne. refl;
      kept = λ q ne u. record {
        slice = u.slice;
        at = u.at;
        out =
            set_out i cs ps q (λ j other. u.out j)
              (let m : among q (p ∷ ps) ≡ false = rw list at (u.out i) in ground arith);
      };
      others =
          λ q ne u. record { slice = u.slice; at = u.at; out = λ j. behind_head q j ne (u.out j) };
    }

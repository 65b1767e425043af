-- ===== src/SliceAllocator/Releases.antt =====
-- Releases to src/hev-memory-allocator-slice.c: which blocks are in use.
use hev_lib.Base.{
  ℕ, ◌+◌, ◌%◌, ◌^◌, ◌<◌, ◌≡◌, ◌≢◌, inl, inr, refl, sym, ap, ◌∙◌, false, Option, none, some, List,
  ◌∷◌, arith, ◌==◌, leb, Bool-cases,
}
use hev_lib.SliceAllocator.{
  max_cached_slice_size, max_cached_slice_count, Slice, Allocator, Run, ok, set_at, release,
}
use hev_lib.SliceAllocator.Valid.{
  among, Chain, IsValid, InUse, set_at_self, set_at_ne, frame, total-set_at,
}
use hev_lib.SliceAllocator.Blocks.{slice_at-ok, set_chains, set_out}

-- What giving back a block leaves.
pub record Taken (a : Allocator) (cs : ℕ → List ℕ) (block : ℕ) (run : Run Allocator) : Type 0 where
  pub after : Allocator
  pub lists : ℕ → List ℕ
  pub returns : run ≡ ok after
  pub valid : IsValid after lists
  pub gone : ¬ InUse after lists block
  pub same : (q : ℕ) → q ≢ block → after.heap q ≡ a.heap q
  pub kept : (q : ℕ) → q ≢ block → InUse a cs q → InUse after lists q
  pub others : (q : ℕ) → q ≢ block → InUse after lists q → InUse a cs q

module _ (a : Allocator) (cs : ℕ → List ℕ) (valid : IsValid a cs) (p : ℕ)
    (use_p : InUse a cs p) where
  pub address : p ≢ 0
  address e =
      let k : a.heap 0 ≡ some use_p.slice = rw e at use_p.at in let z = sym valid.null ∙ k in cc

  abbrev freed : Allocator
  freed = record a { heap = set_at a.heap p none }

  pub freed-IsValid : IsValid freed cs
  freed-IsValid = record {
    chains = λ i. frame a.heap i (a.cached_mslices i) p none (cs i) (valid.chains i) (use_p.out i);
    null = set_at_ne a.heap p 0 none (λ e. address (sym e)) ∙ valid.null;
    counted = valid.counted;
    bounded = valid.bounded;
    owners = λ q s i at own. elim (Bool-cases (q == p)) [
      | inl e ↦ let k : none ≡ some s = rw e at at in cc
      | inr e ↦ valid.owners q s i (rw e at at) own
    ];
  }

  freed-Taken : (run : Run Allocator) → run ≡ ok freed → Taken a cs p run
  freed-Taken run e = record {
    after = freed;
    lists = cs;
    returns = e;
    valid = freed-IsValid;
    gone = λ u. let k = sym (set_at_self a.heap p none) ∙ u.at in cc;
    same = λ q ne. set_at_ne a.heap p q none ne;
    kept =
        λ q ne u. record { slice = u.slice; at = set_at_ne a.heap p q none ne ∙ u.at; out = u.out };
    others = λ q ne u. record {
      slice = u.slice;
      at = sym (set_at_ne a.heap p q none ne) ∙ u.at;
      out = u.out;
    };
  }

  -- It is put in front of list `i`.
  module _ (i : ℕ) (own : use_p.slice.owner ≡ some i)
      (room : a.cached_count < max_cached_slice_count) where
    abbrev linked : Slice
    linked = record { next = a.cached_mslices i; owner = some i }

    abbrev pushed : Allocator
    pushed = record a {
      heap = set_at a.heap p (some linked);
      cached_mslices = set_at a.cached_mslices i p;
      cached_count = (a.cached_count + 1) % 2 ^ 32;
    }

    abbrev more : ℕ → List ℕ
    more = set_at cs i (p ∷ cs i)

    kept_chain : (j : ℕ) → Chain pushed.heap j (a.cached_mslices j) (cs j)
    kept_chain j =
        frame a.heap j (a.cached_mslices j) p (some linked) (cs j) (valid.chains j) (use_p.out j)

    pushed-IsValid : IsValid pushed more
    pushed-IsValid =
        let low = valid.owners p use_p.slice i use_p.at own in
        let t = total-set_at max_cached_slice_size i cs (p ∷ cs i) low in
        record {
          chains =
              set_chains i cs (p ∷ cs i) pushed.heap a.cached_mslices p (λ j ne. kept_chain j)
                (
                  refl,
                  address,
                  use_p.out i,
                  linked,
                  set_at_self a.heap p (some linked),
                  refl,
                  kept_chain i,
                );
          null = set_at_ne a.heap p 0 (some linked) (λ e. address (sym e)) ∙ valid.null;
          counted = omega (arith, t, valid.counted);
          bounded = omega arith;
          owners = λ q s j at mine. elim (Bool-cases (q == p)) [
            | inl e ↦
                let found : some linked ≡ some s = rw e at at in
                let same : i ≡ j = ground arith in rw (← same) low
            | inr e ↦ valid.owners q s j (rw e at at) mine
          ];
        }

    before_push : (q j : ℕ) → among q (more j) ≡ false → among q (cs j) ≡ false
    before_push q j out = elim (Bool-cases (j == i)) [
      | inl e ↦
          let same : j ≡ i = ground arith in
          let whole : among q (p ∷ cs i) ≡ false = rw e at out in
          let part : among q (cs i) ≡ false = ground arith in rw same part
      | inr e ↦ rw e at out
    ]

    pushed-Taken : (run : Run Allocator) → run ≡ ok pushed → Taken a cs p run
    pushed-Taken run e = record {
      after = pushed;
      lists = more;
      returns = e;
      valid = pushed-IsValid;
      gone = λ u.
          let k : among p (p ∷ cs i) ≡ false =
            sym (ap (λ (l : List ℕ). among p l) (set_at_self cs i (p ∷ cs i))) ∙ u.out i in
          ground arith;
      same = λ q ne. set_at_ne a.heap p q (some linked) ne;
      kept = λ q ne u. record {
        slice = u.slice;
        at = set_at_ne a.heap p q (some linked) ne ∙ u.at;
        out = set_out i cs (p ∷ cs i) q (λ j other. u.out j) (let k = u.out i in ground arith);
      };
      others = λ q ne u. record {
        slice = u.slice;
        at = sym (set_at_ne a.heap p q (some linked) ne) ∙ u.at;
        out = λ j. before_push q j (u.out j);
      };
    }

  -- What it is that `release` does.
  release-Taken_by : (owner : Option ℕ) → use_p.slice.owner ≡ owner → Taken a cs p (release a p)
  unfolding release
  release-Taken_by none own =
      let run = slice_at-ok a.heap p use_p.slice address use_p.at in
      freed-Taken (release a p) (rw (run, own))
  release-Taken_by (some i) own =
      let run = slice_at-ok a.heap p use_p.slice address use_p.at in
      elim (Bool-cases (leb max_cached_slice_count a.cached_count)) [
        | inl full ↦ freed-Taken (release a p) (rw (run, own, full))
        | inr room ↦ pushed-Taken i own (ground arith) (release a p) (rw (run, own, room))
      ]

-- Giving back a block that is in use ends well, keeps the allocator valid, with at most 1000 blocks
-- in its lists, and leaves the block out of use and every other block, header and all, as it was.
pub release-Taken :
    (a : Allocator) (cs : ℕ → List ℕ) (p : ℕ)
    → IsValid a cs
    → InUse a cs p
    → Taken a cs p (release a p)
release-Taken a cs p valid u = release-Taken_by a cs valid p u u.slice.owner refl

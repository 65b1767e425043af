-- ===== src/MemoryAllocator/Life.antt =====
-- References to an allocator of src/hev-memory-allocator.c, and what is left of the default one.
use cubical.Cubical.Foundations.Prelude.{fun_ext}
use hev_lib.Base.{
  ℕ, zero, suc, ◌+◌, ◌-◌, ◌%◌, ◌^◌, ◌<◌, ◌≡◌, ◌≢◌, refl, sym, ap, ◌∙◌, true, false, none, some,
  arith, ltb, ◌==◌, inl, inr, Bool-cases,
}
use hev_lib.MemoryAllocator.{
  MemoryAllocator, World, Outcome, then_do, Cmd, ok, fault, ◌>>=◌, ◌>>◌, Outside, set_at, load, put,
  set_default, default, ref, unref, call_alloc, call_destroy, alloc, free, hev_malloc, hev_free,
}
use hev_lib.MemoryAllocator.Defaults.{load-ok, set_at_self, set_at_ne, hev_malloc-there}

set_twice : {A : Type 0} (f : ℕ → A) (p : ℕ) (a b : A) → set_at (set_at f p a) p b ≡ set_at f p b
set_twice f p a b =
    fun_ext (λ q. elim (Bool-cases (q == p)) [ inl e ↦ rw e refl | inr e ↦ rw e refl ])

set_same : {A : Type 0} (f : ℕ → A) (p : ℕ) (a : A) → f p ≡ a → set_at f p a ≡ f
set_same f p a at = fun_ext (λ q. elim (Bool-cases (q == p)) [
  | inl e ↦ let k : q ≡ p = ground arith in rw e (rw k (sym at))
  | inr e ↦ rw e refl
])

-- `n` further references, and then as many that are given up.
pub shared : {S : Type 0} → ℕ → ℕ → Cmd S (Unit {0})
shared zero s = ok tt
shared (suc n) s = ref s >> shared n s

pub released : {S : Type 0} → Outside S → ℕ → ℕ → Cmd S (Unit {0})
released o zero s = ok tt
released o (suc n) s = unref o s >> released o n s

module _ {S : Type 0} (o : Outside S) (w : World S) (s : ℕ) (x : MemoryAllocator)
    (live : s ≢ 0) where
  -- The world with `c` references to the allocator.
  abbrev pub counted : ℕ → World S
  counted c = record w { allocators = set_at w.allocators s (some (record x { ref_count = c })) }

  load_counted : (c : ℕ) → load s (counted c) ≡ ok (record x { ref_count = c }) (counted c)
  load_counted c =
      load-ok (counted c) s (record x { ref_count = c }) live
        (set_at_self w.allocators s (some (record x { ref_count = c })))

  recounted :
      (c d : ℕ)
      → set_at
          (set_at w.allocators s (some (record x { ref_count = c })))
          s
          (some (record x { ref_count = d }))
        ≡ set_at w.allocators s (some (record x { ref_count = d }))
  recounted c d =
      set_twice w.allocators s (some (record x { ref_count = c }))
        (some (record x { ref_count = d }))

  ref-counted : (c : ℕ) → suc c < 2 ^ 32 → ref s (counted c) ≡ ok s (counted (suc c))
  unfolding ref
  ref-counted c small =
      let next : (c + 1) % 2 ^ 32 ≡ suc c = omega arith in
      rw (load_counted c, next, recounted c (suc c)) refl

  unref-counted :
      (c : ℕ) → suc (suc c) < 2 ^ 32 → unref o s (counted (suc (suc c))) ≡ ok tt (counted (suc c))
  unfolding unref
  unref-counted c small =
      let next : (suc (suc c) + (2 ^ 32 - 1)) % 2 ^ 32 ≡ suc c = omega arith in
      let more : ltb 0 (suc c) ≡ true = ground arith in
      rw (load_counted (suc (suc c)), next, recounted (suc (suc c)) (suc c), more) refl

  unref-last : unref o s (counted 1) ≡ (call_destroy o x.destroy s >> put s none) (counted 0)
  unfolding unref
  unref-last = rw (load_counted 1, recounted 1 0) refl

  shared-counted : (n c : ℕ) → c + n < 2 ^ 32 → shared n s (counted c) ≡ ok tt (counted (c + n))
  unfolding shared
  shared-counted zero c small = ap (λ k. ok tt (counted k)) (omega arith)
  shared-counted (suc n) c small =
      rw (ref-counted c (omega arith))
        (shared-counted n (suc c) (omega arith) ∙ ap (λ k. ok tt (counted k)) (omega arith))

  released-counted :
      (n c : ℕ)
      → suc c + n < 2 ^ 32
      → released o n s (counted (suc c + n)) ≡ ok tt (counted (suc c))
  unfolding released
  released-counted zero c small = ap (λ k. ok tt (counted k)) (omega arith)
  released-counted (suc n) c small =
      ap (λ k. released o (suc n) s (counted k)) {y = suc (suc (c + n))} (omega arith)
      ∙ (rw (unref-counted (c + n) (omega arith)) (
          ap (λ k. released o n s (counted k)) {y = suc c + n} (omega arith)
          ∙ released-counted n c (omega arith)))

  -- What the last reference sets off: the destroy function, if there is one, and then free.
  abbrev pub ended : Outcome S (Unit {0})
  ended = (call_destroy o x.destroy s >> put s none) (counted 0)

  then_nothing : (r : Outcome S (Unit {0})) → then_do r (λ _. ok tt) ≡ r
  then_nothing (ok u v) = refl
  then_nothing fault = refl

  released-last : (n : ℕ) → suc n < 2 ^ 32 → released o (suc n) s (counted (suc n)) ≡ ended
  unfolding released
  released-last zero small = rw unref-last (then_nothing ended)
  released-last (suc n) small = rw (unref-counted n small) (released-last n (omega arith))

  counted_one : w.allocators s ≡ some x → x.ref_count ≡ 1 → counted 1 ≡ w
  counted_one at one =
      ap (λ m. record w { allocators = m })
        (set_same w.allocators s (some (record x { ref_count = 1 }))
          (at ∙ ap (λ k. some (record x { ref_count = k })) one))

  -- While the counter does not overflow, after `n` further references to an allocator with one owner,
  -- `n` releases leave all as it was, and one more calls the destroy function, if there is one, once,
  -- and then frees the allocator.
  pub unref-ended :
      (n : ℕ)
      → w.allocators s ≡ some x
      → x.ref_count ≡ 1
      → n + 1 < 2 ^ 32
      → ((shared n s >> released o n s) w ≡ ok tt w)
        × ((shared n s >> released o (suc n) s) w ≡ ended)
  unref-ended n at one small =
      let e = counted_one at one in
      let up : shared n s w ≡ ok tt (counted (1 + n)) =
        ap (shared n s) (sym e) ∙ shared-counted n 1 (omega arith) in
      (
        rw up (released-counted n 0 (omega arith) ∙ ap (ok tt) e),
        rw up (
            ap (λ k. released o (suc n) s (counted k)) {y = suc n} (omega arith)
            ∙ released-last n (omega arith)),
      )

  unref-only :
      (v : World S)
      → v.allocators s ≡ some x
      → x.ref_count ≡ 1
      → x.destroy ≡ none
      → unref o s v ≡ ok tt (record v { allocators = set_at v.allocators s none })
  unfolding unref
  unref-only v at one plain =
      rw (load-ok v s x live at, one, plain)
        (ap (λ m. ok tt (record v { allocators = m })) (set_twice v.allocators s _ none))

  -- Giving up the only reference to the default allocator, without a destroy function, leaves it the
  -- default: every request after that is a fault. Where another live allocator is made the default
  -- first, and the one that `set_default` returns is given up, requests go to the other.
  pub unref-default :
      (t : ℕ) (y : MemoryAllocator) (size p : ℕ)
      → w.default_allocator ≡ s
      → w.allocators s ≡ some x
      → x.ref_count ≡ 1
      → x.destroy ≡ none
      → t ≢ 0
      → t ≢ s
      → w.allocators t ≡ some y
      → ((unref o s >> hev_malloc o size) w ≡ fault)
        × ((unref o s >> hev_free o p) w ≡ fault)
        × ((set_default t >>= unref o >> hev_malloc o size) w
            ≡ call_alloc o y.alloc t size
                (record w { default_allocator = t; allocators = set_at w.allocators s none }))
  unfolding set_default hev_malloc hev_free default alloc free load
  unref-default t y size p set at one plain live' apart at' =
      let unset : (w.default_allocator == 0) ≡ false = ground arith in
      let owned : (s == 0) ≡ false = ground arith in
      let gone = set_at_self w.allocators s none in
      let moved : World S = record w { default_allocator = t } in
      let without : World S = record moved { allocators = set_at w.allocators s none } in
      let kept : without.allocators t ≡ some y = set_at_ne w.allocators s t none apart ∙ at' in
      (
        rw (unref-only w at one plain, unset, set, owned, gone) refl,
        rw (unref-only w at one plain, unset, set, owned, gone) refl,
        rw (set, unref-only moved at one plain)
            (hev_malloc-there o without t y live' refl kept size),
      )

-- ===== src/MemoryAllocator/Plain.antt =====
-- Requests through the default allocator of src/hev-memory-allocator.c while it is malloc and free.
use hev_lib.Base.{
  ℕ, ◌+◌, ◌<◌, ◌≤◌, ◌≡◌, ◌≢◌, ◌⊎◌, refl, sym, true, false, none, some, arith, leb, ltb, ◌==◌, ◌&&◌,
  inl, inr, Bool-cases,
}
use hev_lib.MemoryAllocator.{
  standard, MemoryAllocator, World, ok, fault, Outside, set_at, load, struct_size, new, default,
  plain_alloc, plain_free, alloc, free, hev_malloc, cleared, hev_malloc0, hev_free,
}
use hev_lib.MemoryAllocator.Defaults.{
  prepared, IsServed, hev_malloc-served, hev_free-there, set_at_self,
}

module _ {S : Type 0} (o : Outside S) (w : World S) where
  -- A block of zeros comes and goes.
  pub record Balanced (size : ℕ) : Type 0 where
    pub block : ℕ
    pub middle : World S
    pub after : World S
    pub allocated : hev_malloc0 o size w ≡ ok block middle
    pub sized : middle.blocks block ≡ some size
    pub zeros : (q : ℕ) → block ≤ q → q < block + size → middle.bytes q ≡ 0
    pub beside : (q : ℕ) → (q < block) ⊎ (block + size ≤ q) → middle.bytes q ≡ w.bytes q
    pub freed : hev_free o block middle ≡ ok tt after
    pub blocks : (q : ℕ) → after.blocks q ≡ w.blocks q
    pub made_once : after.default_allocator ≡ middle.default_allocator
    pub twice : hev_free o block after ≡ fault

  prepared-blocks : (q : ℕ) → (prepared o w).blocks q ≡ w.blocks q
  prepared-blocks q = elim (Bool-cases (w.default_allocator == 0)) [
    | inl e ↦ rw e refl
    | inr e ↦ rw e refl
  ]

  prepared-bytes : (q : ℕ) → (prepared o w).bytes q ≡ w.bytes q
  prepared-bytes q = elim (Bool-cases (w.default_allocator == 0)) [
    | inl e ↦ rw e refl
    | inr e ↦ rw e refl
  ]

  -- Where the default allocator is malloc and free, or is made so by this call, and malloc gives a
  -- new block: `hev_malloc0` returns it, with zeros and with no other byte changed, `hev_free` gives
  -- exactly it back, with the default allocator kept, and giving it back again is a fault.
  pub free-malloc0 :
      (s : ℕ) (x : MemoryAllocator) (size : ℕ)
      → IsServed o w s x
      → x.alloc ≡ standard
      → x.free ≡ standard
      → o.malloc size (prepared o w) ≢ 0
      → w.blocks (o.malloc size (prepared o w)) ≡ none
      → Balanced size
  unfolding hev_malloc0 plain_alloc plain_free
  free-malloc0 s x size served std_alloc std_free live fresh =
      let p = o.malloc size (prepared o w) in
      let v = prepared o w in
      let given : (p == 0) ≡ false = ground arith in
      let middle : World S = record v {
        blocks = set_at v.blocks p (some size);
        bytes = cleared p size v.bytes;
      } in
      let after : World S = record middle { blocks = set_at middle.blocks p none } in
      let held : middle.blocks p ≡ some size = set_at_self v.blocks p (some size) in
      record {
        block = p;
        middle = middle;
        after = after;
        allocated = rw (hev_malloc-served o w s x size served, std_alloc, given, given) refl;
        sized = held;
        zeros = λ q low high.
            let inside : (leb p q && ltb q (p + size)) ≡ true = ground arith in rw inside refl;
        beside = λ q out.
            let outside : (leb p q && ltb q (p + size)) ≡ false = ground arith in
            rw outside (prepared-bytes q);
        freed =
            rw
              (
                hev_free-there o middle s x served.address served.chosen served.at p,
                std_free,
                given,
                held,
              )
              refl;
        blocks = λ q. elim (Bool-cases (q == p)) [
          | inl e ↦ let k : q ≡ p = ground arith in rw e (rw k (sym fresh))
          | inr e ↦ rw e (prepared-blocks q)
        ];
        made_once = refl;
        twice =
            rw
              (
                hev_free-there o after s x served.address served.chosen served.at p,
                std_free,
                given,
                set_at_self middle.blocks p none,
              )
              refl;
      }

  -- Without a default allocator and memory to make one, each request is a fault, one to free NULL too.
  pub hev_malloc-fault :
      (size p : ℕ)
      → w.default_allocator ≡ 0
      → o.malloc struct_size w ≡ 0
      → (hev_malloc o size w ≡ fault) × (hev_malloc0 o size w ≡ fault) × (hev_free o p w ≡ fault)
  unfolding hev_malloc0 hev_malloc hev_free default new alloc free load
  hev_malloc-fault size p none_set empty =
      let unset : (w.default_allocator == 0) ≡ true = ground arith in
      let refused : (o.malloc struct_size w == 0) ≡ true = ground arith in
      (rw (unset, refused) refl, rw (unset, refused) refl, rw (unset, refused) refl)

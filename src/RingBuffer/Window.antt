-- ===== src/RingBuffer/Window.antt =====
-- Bytes in consecutive places of a storage, with and without going round at its end: what a
-- client of src/hev-ring-buffer.c gathers from regions, and how it fills them.
use hev_lib.Base.{
  ℕ, zero, suc, ◌+◌, ◌-◌, ◌≤◌, ◌<◌, ◌≡◌, refl, ap, ap₂, ◌∙◌, sym, List, [], ◌∷◌, ◌++◌, arith, ltb,
  ◌==◌, if◌then◌else◌, length, take, drop, take_nil, drop_nil,
}
use Prim.Native.Nat.add
use native.Mathlib.Nat.{add-zero, add-suc}
use hev_lib.RingBuffer.{Iovec}

abbrev pub Store : Type 0
Store = ℕ → ℕ

abbrev pub update : Store → ℕ → ℕ → Store
update b p x q = if p == q then x else b q

-- `n` bytes from place `p` on
unfoldable pub slice : Store → ℕ → ℕ → List ℕ
slice b p zero = []
slice b p (suc n) = b p ∷ slice b (suc p) n

-- what the regions hold, in order
unfoldable pub gather : Store → List Iovec → List ℕ
gather b [] = []
gather b (v ∷ vs) = slice b v.base v.len ++ gather b vs

-- a place past the end of a storage of `len` bytes stands for one from its start
abbrev pub wrap : (len p : ℕ) → ℕ
wrap len p = if ltb p len then p else p - len

-- `n` bytes from place `p` on, going round once
unfoldable pub round : Store → (len p n : ℕ) → List ℕ
round b len p zero = []
round b len p (suc n) = b (wrap len p) ∷ round b len (suc p) n

-- the bytes `xs` put at place `p` and on
unfoldable pub store : Store → ℕ → List ℕ → Store
store b p [] = b
store b p (x ∷ xs) = store (update b p x) (suc p) xs

-- the bytes `xs` put into the regions, in order
unfoldable pub scatter : Store → List Iovec → List ℕ → Store
scatter b [] xs = b
scatter b (v ∷ vs) xs = scatter (store b v.base (take v.len xs)) vs (drop v.len xs)

unfoldable pub store_round : Store → (len p : ℕ) → List ℕ → Store
store_round b len p [] = b
store_round b len p (x ∷ xs) = store_round (update b (wrap len p) x) len (suc p) xs

pub slice-zero : (b : Store) (p : ℕ) → slice b p 0 ≡ []
unfolding slice
slice-zero b p = refl

pub round-zero : (b : Store) (len p : ℕ) → round b len p 0 ≡ []
unfolding round
round-zero b len p = refl

pub length-round : (b : Store) (len p n : ℕ) → length (round b len p n) ≡ n
unfolding round
length-round b len p zero = refl
length-round b len p (suc n) = ap suc (length-round b len (suc p) n)

pub round_congr :
    {b c : Store} {l m p q n k : ℕ} → b ≡ c → l ≡ m → p ≡ q → n ≡ k → round b l p n ≡ round c m q k
round_congr hb hl hp hn = cc

-- Without reaching the end, going round makes no difference.
pub round-below : (b : Store) (len p n : ℕ) → p + n ≤ len → round b len p n ≡ slice b p n
unfolding round slice
round-below b len p zero h = refl
round-below b len p (suc n) h = ground (arith, round-below b len (suc p) n)

pub round-above : (b : Store) (len p q n : ℕ) → p ≡ q + len → round b len p n ≡ slice b q n
unfolding round slice
round-above b len p q zero h = refl
round-above b len p q (suc n) h =
    ap₂ ◌∷◌ (ap b (ground arith)) (round-above b len (suc p) (suc q) n (omega arith))

pub round-split :
    (b : Store) (len p m n : ℕ) → p + m ≡ len → round b len p (m + n) ≡ slice b p m ++ slice b 0 n
unfolding slice round
round-split b len p zero n h = rw add.zero (round-above b len p 0 n (omega arith))
round-split b len p (suc m) n h =
    rw add.suc (ap₂ ◌∷◌ (ap b (ground arith)) (round-split b len (suc p) m n (omega arith)))

pub round-append :
    (b : Store) (len p m n : ℕ) → round b len p (m + n) ≡ round b len p m ++ round b len (p + m) n
unfolding round
round-append b len p zero n = rw (add.zero, add-zero)
round-append b len p (suc m) n =
    rw (add.suc, add-suc, ← add.suc p m) (ap₂ ◌∷◌ refl (round-append b len (suc p) m n))

pub round-drop :
    (b : Store) (len p m n : ℕ) → drop m (round b len p (m + n)) ≡ round b len (p + m) n
unfolding round
round-drop b len p zero n = rw (add.zero, add-zero)
round-drop b len p (suc m) n = rw (add.suc, add-suc, ← add.suc p m) (round-drop b len (suc p) m n)

-- A start past the end is the same as one from the start of the storage.
pub round-shift :
    (b : Store) (len p q n : ℕ) → p ≡ q + len → q + n ≤ len → round b len p n ≡ round b len q n
round-shift b len p q n h k = round-above b len p q n h ∙ sym (round-below b len q n k)

pub store-below :
    (b : Store) (len p : ℕ) (xs : List ℕ)
    → p + length xs ≤ len
    → store_round b len p xs ≡ store b p xs
unfolding store_round store
store-below b len p [] h = refl
store-below b len p (x ∷ xs) h =
    ap (λ k. store_round (update b k x) len (suc p) xs) (ground arith)
    ∙ store-below (update b p x) len (suc p) xs (omega arith)

pub store-above :
    (b : Store) (len p q : ℕ) (xs : List ℕ) → p ≡ q + len → store_round b len p xs ≡ store b q xs
unfolding store_round store
store-above b len p q [] h = refl
store-above b len p q (x ∷ xs) h =
    ap (λ k. store_round (update b k x) len (suc p) xs) (ground arith)
    ∙ store-above (update b q x) len (suc p) (suc q) xs (omega arith)

pub store-split :
    (b : Store) (len p m : ℕ) (xs : List ℕ)
    → p + m ≡ len
    → store_round b len p xs ≡ store (store b p (take m xs)) 0 (drop m xs)
unfolding store store_round
store-split b len p zero xs h = store-above b len p 0 xs (omega arith)
store-split b len p (suc m) [] h = refl
store-split b len p (suc m) (x ∷ xs) h =
    ap (λ k. store_round (update b k x) len (suc p) xs) (ground arith)
    ∙ store-split (update b p x) len (suc p) m xs (omega arith)

pub scatter-nil : (b : Store) (vs : List Iovec) → scatter b vs [] ≡ b
unfolding scatter store
scatter-nil b [] = refl
scatter-nil b (v ∷ vs) = rw (take_nil v.len, drop_nil v.len) (scatter-nil b vs)

pub store_round-nil : (b : Store) (len p : ℕ) → store_round b len p [] ≡ b
unfolding store_round
store_round-nil b len p = refl

-- A write further on, but less than a round away, is not seen.
store_round-apart :
    (b : Store) (len p : ℕ) (xs : List ℕ) (q : ℕ)
    → q < p
    → p + length xs ≤ q + len
    → p + length xs ≤ len + len
    → store_round b len p xs (wrap len q) ≡ b (wrap len q)
unfolding store_round
store_round-apart b len p [] q h k l = refl
store_round-apart b len p (x ∷ xs) q h k l =
    store_round-apart (update b (wrap len p) x) len (suc p) xs q (omega arith) (omega arith)
      (omega arith)
    ∙ ground arith

-- What was put at a place and on is read from there.
pub round-store_round :
    (b : Store) (len p : ℕ) (xs : List ℕ)
    → length xs ≤ len
    → p + length xs ≤ len + len
    → round (store_round b len p xs) len p (length xs) ≡ xs
unfolding round store_round
round-store_round b len p [] h k = refl
round-store_round b len p (x ∷ xs) h k =
    let b' = update b (wrap len p) x in
    ap₂ ◌∷◌
      (store_round-apart b' len (suc p) xs p (omega arith) (omega arith) (omega arith)
        ∙ ground arith)
      (round-store_round b' len (suc p) xs (omega arith) (omega arith))

-- What stands in front of it is as before.
pub round-store_round_ne :
    (b : Store) (len p q n : ℕ) (xs : List ℕ)
    → q + n ≤ p
    → p + length xs ≤ q + len
    → p + length xs ≤ len + len
    → round (store_round b len p xs) len q n ≡ round b len q n
unfolding round
round-store_round_ne b len p q zero xs h k l = refl
round-store_round_ne b len p q (suc n) xs h k l =
    ap₂ ◌∷◌ (store_round-apart b len p xs q (omega arith) k l)
      (round-store_round_ne b len p (suc q) n xs (omega arith) (omega arith) l)

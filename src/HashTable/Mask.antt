-- ===== src/HashTable/Mask.antt =====
-- The masks, the prime moduli and the probe step of src/hev-hash-table.c in plain arithmetic.
use Prim.Native.Nat.{bit_and}
use native.Mathlib.Nat.{
  two-pow-succ, mul-add-mod_self_left, mod-eq_of_lt, div-add-mod, mod-lt, one-le-pow,
  pow-le-pow_right,
}
use hev_lib.Base.Bits.{bit_and-digit, bit_and-zero}
use hev_lib.Base.{
  ℕ, zero, suc, ◌+◌, ◌-◌, ◌*◌, ◌/◌, ◌%◌, ◌^◌, ◌≤◌, ◌<◌, ◌≡◌, refl, ap, ap₂, ◌∙◌, sym, min, Bool,
  true, ◌&&◌, arith, leb, ltb, ◌==◌, get_or, ==_iff,
}
use hev_lib.HashTable.Shift.{prime_mod, mask_loop}
use hev_lib.HashTable.Probe.{next_index}

-- A remainder by an even number, from that of the half.
half-mod : (x m : ℕ) → 0 < m → x % (2 * m) ≡ 2 * (x / 2 % m) + x % 2
half-mod x m h =
    let u = x / 2 % m in
    let e : x ≡ 2 * m * (x / 2 / m) + (2 * u + x % 2) = omega (arith, div-add-mod (x / 2) m) in
    ap (λ t. t % (2 * m)) e
    ∙ mul-add-mod_self_left (2 * m) (x / 2 / m) (2 * u + x % 2)
    ∙ mod-eq_of_lt (omega (arith, mod-lt (x / 2) h))

-- A mask of `k` ones takes the remainder by `2 ^ k`.
bit_and-mask : (k x : ℕ) → bit_and x (2 ^ k - 1) ≡ x % 2 ^ k
bit_and-mask zero x = omega (arith, bit_and-zero x)
bit_and-mask (suc k) x =
    let double = two-pow-succ k in
    let pos = one-le-pow k 2 (omega arith) in
    let half : (2 ^ suc k - 1) / 2 ≡ 2 ^ k - 1 = omega arith in
    let low : (2 ^ suc k - 1) % 2 ≡ 1 = omega arith in
    let twice : 2 ^ suc k ≡ 2 * 2 ^ k = omega arith in
    bit_and-digit x (2 ^ suc k - 1)
    ∙ ap₂ (λ d e. 2 * bit_and (x / 2) d + min (x % 2) e) half low
    ∙ ap (λ d. 2 * d + min (x % 2) 1) (bit_and-mask k (x / 2))
    ∙ omega arith
    ∙ sym (ap (λ d. x % d) twice ∙ half-mod x (2 ^ k) pos)

-- Facts about the 32 shifts, by evaluation.
abbrev below : ℕ → (ℕ → Bool) → Bool
below zero p = true
below (suc n) p = p n && below n p

below-all : (n : ℕ) (p : ℕ → Bool) (k : ℕ) → below n p ≡ true → k < n → p k ≡ true
below-all zero p k h lt = absurd (omega arith)
below-all (suc n) p k h lt = ground (arith, below-all n p k)

abbrev mask_test : ℕ → Bool
mask_test k = mask_loop k 0 == 2 ^ k - 1

abbrev prime_test : ℕ → Bool
prime_test k = ltb 0 (get_or prime_mod k 0) && leb (get_or prime_mod k 0) (2 ^ k)

masks : below 32 mask_test ≡ true
unfolding mask_loop
masks = refl

primes : below 32 prime_test ≡ true
primes = refl

-- The mask of a shift has that many ones.
pub mask_loop-ones : (k : ℕ) → k < 32 → mask_loop k 0 ≡ 2 ^ k - 1
mask_loop-ones k h = (==_iff (mask_loop k 0) (2 ^ k - 1)).0 (below-all 32 mask_test k masks h)

-- Each modulus is positive, and no larger than the table.
pub prime_mod_bounds :
    (k : ℕ) → k < 32 → (0 < get_or prime_mod k 0) × (get_or prime_mod k 0 ≤ 2 ^ k)
prime_mod_bounds k h = ground (arith, below-all 32 prime_test k primes h)

-- `2 ^ k` fits in an `unsigned int`.
pub pow-le : (k : ℕ) → k < 32 → 2 ^ k ≤ 2 ^ 31
pow-le k h = pow-le-pow_right {n = 2} (omega arith) {i = k} {j = 31} (omega arith)

-- A probe step is addition modulo the size of the table.
pub next_index-mod :
    (k i step : ℕ)
    → k < 32
    → i < 2 ^ k
    → step ≤ 2 ^ k
    → next_index (2 ^ k - 1) i step ≡ (i + step) % 2 ^ k
next_index-mod k i step h hi hs =
    ap (λ x. bit_and x (2 ^ k - 1)) (mod-eq_of_lt (omega (arith, pow-le k h)))
    ∙ bit_and-mask k (i + step)

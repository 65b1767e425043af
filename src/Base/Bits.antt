-- ===== src/Base/Bits.antt =====
-- `bit_and` by its binary digits.
use Prim.Native.Nat.{
  bit_and, bit_and-bitwise, digits, ℕ, zero, suc, ◌+◌, ◌*◌, ◌/◌, ◌%◌, ◌^◌, ◌≤◌, ◌<◌, min,
}
use mathlib.Core.Path.{◌≡◌, refl, ◌∙◌, ap₂}
use native.Mathlib.Nat.{two-pow-succ}
use native.Mathlib.Omega.{arith}

-- the digits of `bit_and`, on any count of rounds that is enough
abbrev both : ℕ → ℕ → ℕ → ℕ
both n a b = digits (λ b. zero) min n a b

both_rounds : (n m a b : ℕ) → a ≤ n → a ≤ m → both n a b ≡ both m a b
both_rounds zero zero zero b p q = refl
both_rounds zero (suc m) zero b p q = refl
both_rounds (suc n) zero zero b p q = refl
both_rounds (suc n) (suc m) zero b p q = refl
both_rounds zero m (suc a) b p q = absurd (omega arith)
both_rounds (suc n) zero (suc a) b p q = absurd (omega arith)
both_rounds (suc n) (suc m) (suc a) b p q =
    omega (arith, both_rounds n m (suc a / 2) (b / 2) (omega arith) (omega arith))

pub bit_and-digit : (a b : ℕ) → bit_and a b ≡ 2 * bit_and (a / 2) (b / 2) + min (a % 2) (b % 2)
bit_and-digit zero b = omega (arith, bit_and-bitwise 0 b, bit_and-bitwise 0 (b / 2))
bit_and-digit (suc a) b = omega (
  arith,
  bit_and-bitwise (suc a) b,
  bit_and-bitwise (suc a / 2) (b / 2),
  both_rounds a (suc a / 2) (suc a / 2) (b / 2) (omega arith) (omega arith),
)

both-zero : (n a : ℕ) → both n a 0 ≡ 0
both-zero zero a = refl
both-zero (suc n) zero = refl
both-zero (suc n) (suc a) = omega (arith, both-zero n (suc a / 2))

pub bit_and-zero : (a : ℕ) → bit_and a 0 ≡ 0
bit_and-zero a = bit_and-bitwise a 0 ∙ both-zero a a

-- A single high bit, of a number below it.
pub bit_and-power : (k x : ℕ) → x < 2 ^ k → bit_and (2 ^ k) x ≡ 0
bit_and-power zero x h = let e : x ≡ 0 = omega arith in rw e (bit_and-zero 1)
bit_and-power (suc k) x h =
    let twice = two-pow-succ k in
    let half : 2 ^ suc k / 2 ≡ 2 ^ k = omega arith in
    let low : 2 ^ suc k % 2 ≡ 0 = omega arith in
    bit_and-digit (2 ^ suc k) x
    ∙ ap₂ (λ (d e : ℕ). 2 * bit_and d (x / 2) + min e (x % 2)) half low
    ∙ omega (arith, bit_and-power k (x / 2) (omega arith))

-- The lowest bit and a higher one, of a number below that one.
pub bit_and-lowest : (k x : ℕ) → x < 2 ^ suc k → bit_and (2 ^ suc k + 1) x ≡ x % 2
bit_and-lowest k x h =
    let twice = two-pow-succ k in
    let half : (2 ^ suc k + 1) / 2 ≡ 2 ^ k = omega arith in
    let low : (2 ^ suc k + 1) % 2 ≡ 1 = omega arith in
    bit_and-digit (2 ^ suc k + 1) x
    ∙ ap₂ (λ (d e : ℕ). 2 * bit_and d (x / 2) + min e (x % 2)) half low
    ∙ omega (arith, bit_and-power k (x / 2) (omega arith))

pub bit_and-one : (x : ℕ) → bit_and 1 x ≡ x % 2
bit_and-one x = bit_and-digit 1 x ∙ omega (arith, bit_and-bitwise 0 (x / 2))

-- ===== src/HashTable/Cover.antt =====
-- The probe sequence of src/hev-hash-table.c steps by 1, 2, 3, …, so after `s` steps it is off its
-- start by the triangular number of `s`. In a table of `2 ^ k` places it passes every place.
use native.Mathlib.Nat.{two-pow-succ, add-mul-mod_self_left, mod-eq_of_lt}
use hev_lib.Base.{
  ℕ, zero, suc, ◌+◌, ◌-◌, ◌*◌, ◌/◌, ◌%◌, ◌^◌, ◌≤◌, ◌<◌, ◌≡◌, ◌⊎◌, inl, inr, refl, ap, subst, ◌∙◌,
  arith, Bool-cases, ltb,
}

unfoldable pub triangle : ℕ → ℕ
triangle zero = 0
triangle (suc s) = triangle s + suc s

twice-triangle : (s : ℕ) → 2 * triangle s ≡ s * suc s
unfolding triangle
twice-triangle zero = refl
twice-triangle (suc s) = grind (arith, twice-triangle s)

-- The sequence read backwards from the other end of a round is off by half the round.
triangle-reflect :
    (m s r : ℕ) → s + r + 1 ≡ 2 * m → triangle r + 2 * m * s + m ≡ triangle s + 2 * m * m
triangle-reflect m s r e = omega (
  arith,
  twice-triangle s,
  twice-triangle r,
  ap (λ (t : ℕ). t * s) e,
  ap (λ (t : ℕ). t * r) e,
  ap (λ (t : ℕ). t * m) e,
)

half-cases : (q : ℕ) → ((p : ℕ) × (q ≡ 2 * p)) ⊎ ((p : ℕ) × (q ≡ 2 * p + 1))
half-cases q = elim (Bool-cases (ltb (q % 2) 1)) [
  | inl e ↦ inl (q / 2, ground arith)
  | inr e ↦ inr (q / 2, ground arith)
]

-- Some place less than `m` steps away, where `x` stands for `r` in a round of `m` places.
pub record Reached (start m r : ℕ) : Type 0 where
  pub steps : ℕ
  pub rounds : ℕ
  pub near : steps < m
  pub lands : start + triangle steps ≡ r + m * rounds

-- A place that is reached in a round of `m` places, or the one `m` further on, whichever is meant,
-- is reached in a round of `2 * m`.
even-Reached : (a m r s p : ℕ) → s < m → a + triangle s ≡ r + m * (2 * p) → Reached a (2 * m) r
even-Reached a m r s p near e = record {
  steps = s;
  rounds = p;
  near = omega arith;
  lands = grind arith;
}

odd-lands :
    (a m r s t p d : ℕ)
    → s + t + 1 ≡ 2 * m
    → d + s + 1 ≡ p + m
    → a + triangle s + m ≡ r + m * (2 * p)
    → a + triangle t ≡ r + 2 * m * d
odd-lands a m r s t p d e f g = omega (arith, triangle-reflect m s t e, ap (λ (x : ℕ). x * m) f)

odd-Reached : (a m r s p : ℕ) → s < m → a + triangle s + m ≡ r + m * (2 * p) → Reached a (2 * m) r
odd-Reached a m r s p near e = record {
  steps = 2 * m - 1 - s;
  rounds = p + m - s - 1;
  near = omega arith;
  lands = odd-lands a m r s (2 * m - 1 - s) p (p + m - s - 1) (omega arith) (omega arith) e;
}

low-Reached : (a m r s q : ℕ) → s < m → a + triangle s ≡ r + m * q → Reached a (2 * m) r
low-Reached a m r s q near e = elim (half-cases q) [
  | inl (p, h) ↦ even-Reached a m r s p near (e ∙ ap (λ k. r + m * k) h)
  | inr (p, h) ↦ odd-Reached a m r s (p + 1) near (omega (arith, ap (λ (k : ℕ). m * k) h))
]

high-Reached :
    (a m r s q : ℕ) → s < m → m ≤ r → a + triangle s ≡ r - m + m * q → Reached a (2 * m) r
high-Reached a m r s q near h e = elim (half-cases q) [
  | inl (p, f) ↦ odd-Reached a m r s p near (omega (arith, ap (λ (k : ℕ). m * k) f))
  | inr (p, f) ↦ even-Reached a m r s p near (omega (arith, ap (λ (k : ℕ). m * k) f))
]

double-Reached : (a m r : ℕ) → r < 2 * m → ((t : ℕ) → t < m → Reached a m t) → Reached a (2 * m) r
double-Reached a m r h ih = elim (Bool-cases (ltb r m)) [
  | inl low ↦ let w = ih r (ground arith) in low-Reached a m r w.steps w.rounds w.near w.lands
  | inr high ↦
      let w = ih (r - m) (ground arith) in
      high-Reached a m r w.steps w.rounds w.near (ground arith) w.lands
]

-- From any start, every place of a table of `2 ^ k` is reached in less than `2 ^ k` steps.
pub reached : (k a r : ℕ) → r < 2 ^ k → Reached a (2 ^ k) r
reached zero a r h = record {
  steps = 0;
  rounds = a;
  near = omega arith;
  lands = unfold triangle in omega arith;
}
reached (suc k) a r h =
    let e : 2 * 2 ^ k ≡ 2 ^ suc k = omega (arith, two-pow-succ k) in
    subst (λ m. Reached a m r) e (double-Reached a (2 ^ k) r (omega arith) (λ t l. reached k a t l))

-- So some number of steps below `2 ^ k` leads to it in the code's arithmetic.
pub covers : (k a r : ℕ) → r < 2 ^ k → (s : ℕ) × (s < 2 ^ k) × ((a + triangle s) % 2 ^ k ≡ r)
covers k a r h =
    let w = reached k a r h in
    (w.steps, w.near, rw (w.lands, add-mul-mod_self_left) (mod-eq_of_lt h))

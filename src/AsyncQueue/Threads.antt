-- ===== src/AsyncQueue/Threads.antt =====
-- Sums over the threads of src/hev-async-queue.c, by where each stands.
use hev_lib.Base.{
  ℕ, zero, suc, ◌+◌, ◌≤◌, ◌<◌, ◌≡◌, ◌≢◌, refl, ap, arith, ◌==◌, if◌then◌else◌, Bool-cases, inl, inr,
  true, false,
}

abbrev pub put {ℓ} : {A : Type ℓ} → (ℕ → A) → ℕ → A → ℕ → A
put f i a j = if j == i then a else f j

pub put_self : {A : Type 0} (f : ℕ → A) (i : ℕ) (a : A) → put f i a i ≡ a
put_self f i a = let e : (i == i) ≡ true = ground arith in rw e

pub put_ne : {A : Type 0} (f : ℕ → A) (i j : ℕ) (a : A) → j ≢ i → put f i a j ≡ f j
put_ne f i j a h = let e : (j == i) ≡ false = ground arith in rw e

-- The weights of the first `n` threads together.
module _ {A : Type 0} (weight : A → ℕ) where
  unfoldable pub weigh : ℕ → (ℕ → A) → ℕ
  weigh zero f = 0
  weigh (suc n) f = weigh n f + weight (f n)

  weigh-put_of_le : (n i : ℕ) (f : ℕ → A) (a : A) → n ≤ i → weigh n (put f i a) ≡ weigh n f
  unfolding weigh
  weigh-put_of_le zero i f a h = refl
  weigh-put_of_le (suc n) i f a h =
      let here : weight (put f i a n) ≡ weight (f n) =
        ap weight (put_ne f i n a (λ e. omega arith)) in
      omega (arith, weigh-put_of_le n i f a (omega arith), here)

  -- Moving one thread changes the sum by the difference.
  pub weigh-put :
      (n i : ℕ) (f : ℕ → A) (a : A)
      → i < n
      → weigh n (put f i a) + weight (f i) ≡ weigh n f + weight a
  unfolding weigh
  weigh-put zero i f a h = absurd (omega arith)
  weigh-put (suc n) i f a h = elim (Bool-cases (n == i)) [
    | inl e ↦
        let same : n ≡ i = ground arith in
        let here : weight (put f i a n) ≡ weight a = rw same (ap weight (put_self f i a)) in
        let old : weight (f n) ≡ weight (f i) = ap (λ (k : ℕ). weight (f k)) same in
        omega (arith, weigh-put_of_le n i f a (omega arith), here, old)
    | inr e ↦
        let here : weight (put f i a n) ≡ weight (f n) =
          ap weight (put_ne f i n a (λ s. ground arith)) in
        omega (arith, weigh-put n i f a (ground arith), here)
  ]

  pub weigh-le : ((a : A) → weight a ≤ 1) → (n : ℕ) (f : ℕ → A) → weigh n f ≤ n
  unfolding weigh
  weigh-le small zero f = omega arith
  weigh-le small (suc n) f = omega (arith, small (f n), weigh-le small n f)

  pub weigh-eq_zero : (n : ℕ) (f : ℕ → A) → ((i : ℕ) → i < n → weight (f i) ≡ 0) → weigh n f ≡ 0
  unfolding weigh
  weigh-eq_zero zero f h = refl
  weigh-eq_zero (suc n) f h =
      omega (arith, weigh-eq_zero n f (λ i l. h i (omega arith)), h n (omega arith))

  pub weight-le-weigh : (n i : ℕ) (f : ℕ → A) → i < n → weight (f i) ≤ weigh n f
  unfolding weigh
  weight-le-weigh zero i f h = absurd (omega arith)
  weight-le-weigh (suc n) i f h = elim (Bool-cases (n == i)) [
    | inl e ↦
        let old : weight (f n) ≡ weight (f i) = ap (λ (k : ℕ). weight (f k)) (ground arith) in
        omega arith
    | inr e ↦ omega (arith, weight-le-weigh n i f (ground arith))
  ]

pub weigh_mono :
    {A : Type 0} (v w : A → ℕ)
    → ((a : A) → v a ≤ w a)
    → (n : ℕ) (f : ℕ → A) → weigh v n f ≤ weigh w n f
unfolding weigh
weigh_mono v w h zero f = omega arith
weigh_mono v w h (suc n) f = omega (arith, weigh_mono v w h n f, h (f n))

pub two-le-weigh :
    {A : Type 0} (weight : A → ℕ) (n i j : ℕ) (f : ℕ → A)
    → i < n
    → j < n
    → i ≢ j
    → weight (f i) + weight (f j) ≤ weigh weight n f
unfolding weigh
two-le-weigh weight zero i j f h h' apart = absurd (omega arith)
two-le-weigh weight (suc n) i j f h h' apart = elim (Bool-cases (n == i)) [
  | inl e ↦
      let old : weight (f n) ≡ weight (f i) = ap (λ (k : ℕ). weight (f k)) (ground arith) in
      let low : j < n = ground arith in omega (arith, weight-le-weigh weight n j f low)
  | inr e ↦
      let low : i < n = ground arith in
      elim (Bool-cases (n == j)) [
        | inl e' ↦
            let old : weight (f n) ≡ weight (f j) = ap (λ (k : ℕ). weight (f k)) (ground arith) in
            omega (arith, weight-le-weigh weight n i f low)
        | inr e' ↦ omega (arith, two-le-weigh weight n i j f low (ground arith) apart)
      ]
]

pub weigh-find :
    {A : Type 0} (weight : A → ℕ) (n : ℕ) (f : ℕ → A)
    → 0 < weigh weight n f
    → (i : ℕ) × (i < n) × (0 < weight (f i))
unfolding weigh
weigh-find weight zero f h = absurd (omega arith)
weigh-find weight (suc n) f h = elim (Bool-cases (weight (f n) == 0)) [
  | inl e ↦ let (i, l, w) = weigh-find weight n f (ground arith) in (i, omega arith, w)
  | inr e ↦ (n, omega arith, ground arith)
]

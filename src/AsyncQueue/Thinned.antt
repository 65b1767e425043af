-- ===== src/AsyncQueue/Thinned.antt =====
-- A list with some items of another in their order, for src/hev-async-queue.c.
use hev_lib.Base.{ℕ, suc, ◌≡◌, ◌≢◌, sym, List, [], ◌∷◌, ◌++◌, All}

-- The first list is the second one in order, but for as many left out as the number says.
pub data Thinned : List ℕ → List ℕ → ℕ → Type 0 where
  done : Thinned [] [] 0
  keep : {x : ℕ} {a b : List ℕ} {k : ℕ} → Thinned a b k → Thinned (x ∷ a) (x ∷ b) k
  skip : {x : ℕ} {a b : List ℕ} {k : ℕ} → Thinned a b k → Thinned a (x ∷ b) (suc k)

-- One more item at the end of both.
pub Thinned-keep :
    (x : ℕ) {a b : List ℕ} {k : ℕ} → Thinned a b k → Thinned (a ++ x ∷ []) (b ++ x ∷ []) k
Thinned-keep x done = keep done
Thinned-keep x (keep t) = keep (Thinned-keep x t)
Thinned-keep x (skip t) = skip (Thinned-keep x t)

-- An item is left out.
pub Thinned-drop :
    (a c : List ℕ) (x : ℕ) {l b : List ℕ} {k : ℕ}
    → Thinned l b k
    → l ≡ a ++ x ∷ c
    → Thinned (a ++ c) b (suc k)
Thinned-drop [] c x done e = absurd cc
Thinned-drop (y ∷ a) c x done e = absurd cc
Thinned-drop [] c x (keep {x = z} {a = l} {b = b} {k = k} t) e =
    let same : l ≡ c = cc in skip (let r : Thinned c b k = rw (sym same) t in r)
Thinned-drop (y ∷ a) c x (keep {x = z} {a = l} {b = b} {k = k} t) e =
    let same : l ≡ a ++ x ∷ c = cc in
    let first : y ≡ z = cc in rw first (keep (Thinned-drop a c x t same))
Thinned-drop [] c x (skip t) e = skip (Thinned-drop [] c x t e)
Thinned-drop (y ∷ a) c x (skip t) e = skip (Thinned-drop (y ∷ a) c x t e)

pub Thinned-All : {a b : List ℕ} {k : ℕ} → Thinned a b k → All (λ x. x ≢ 0) b → All (λ x. x ≢ 0) a
Thinned-All done all = tt
Thinned-All (keep t) (h, all) = (h, Thinned-All t all)
Thinned-All (skip t) (h, all) = Thinned-All t all

pub All-init : (xs ys : List ℕ) → All (λ x. x ≢ 0) (xs ++ ys) → All (λ x. x ≢ 0) xs
All-init [] ys all = tt
All-init (x ∷ xs) ys (h, all) = (h, All-init xs ys all)

pub All-middle : (xs : List ℕ) (y : ℕ) (ys : List ℕ) → All (λ x. x ≢ 0) (xs ++ y ∷ ys) → y ≢ 0
All-middle [] y ys (h, all) = h
All-middle (x ∷ xs) y ys (h, all) = All-middle xs y ys all

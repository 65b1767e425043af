-- ===== src/Event/Changing.antt =====
-- The queue of src/hev-event-loop.c, and changes of descriptors that keep their sources.
use hev_lib.Base.{
  ℕ, ◌≤◌, ◌≡◌, ◌≢◌, inl, inr, sym, ap, ◌∙◌, Bool, true, false, not, ◌||◌, Option, some, List, [],
  ◌∷◌, ◌++◌, arith, ◌==◌, All, Bool-cases,
}
use hev_lib.Event.World.{Fd, Loop, World, update}
use hev_lib.Event.Order.{IsLive, source_priority, priority_of, priority_of-at, level, IsDescending}

abbrev pub among : ℕ → List ℕ → Bool
among f [] = false
among f (g ∷ gs) = (f == g) || among f gs

abbrev pub IsDistinct : List ℕ → Type 0
IsDistinct [] = Unit
IsDistinct (f ∷ fs) = (among f fs ≡ false) × IsDistinct fs

pub update_self : {A : Type 0} (m : ℕ → Option A) (p : ℕ) (c : Option A) → update m p c p ≡ c
update_self m p c = let e : (p == p) ≡ true = ground arith in rw e

pub update_ne :
    {A : Type 0} (m : ℕ → Option A) (p q : ℕ) (c : Option A) → q ≢ p → update m p c q ≡ m q
update_ne m p q c h = let e : (q == p) ≡ false = ground arith in rw e

pub among-insert :
    (g f : ℕ) (xs ys : List ℕ) → among g (xs ++ f ∷ ys) ≡ (among g (xs ++ ys) || (g == f))
among-insert g f [] ys = ground arith
among-insert g f (x ∷ xs) ys = ground (arith, among-insert g f xs ys)

pub among-waiting :
    (g f : ℕ) (fs : List ℕ) → among f fs ≡ true → among g fs ≡ (among g fs || (g == f))
among-waiting g f fs waits = elim (Bool-cases (g == f)) [
  | inl e ↦
      let same : g ≡ f = ground arith in
      let also : among g fs ≡ true = rw same waits in ground arith
  | inr e ↦ ground arith
]

pub IsDistinct-insert :
    (f : ℕ) (xs ys : List ℕ)
    → among f (xs ++ ys) ≡ false
    → IsDistinct (xs ++ ys)
    → IsDistinct (xs ++ f ∷ ys)
IsDistinct-insert f [] ys out d = (out, d)
IsDistinct-insert f (x ∷ xs) ys out d =
    (among-insert x f xs ys ∙ ground arith, IsDistinct-insert f xs ys (ground arith) d.1)

-- The queue of a loop: live descriptors in descending order of priority, each once, and they are
-- those that are marked as dispatched.
pub record IsQueue (w : World) (l : ℕ) (fs : List ℕ) : Type 0 where
  pub loop : Loop
  pub address : l ≢ 0
  pub at : w.loops l ≡ some loop
  pub list : loop.fd_list ≡ fs
  pub lives : All (IsLive w) fs
  pub sorted : IsDescending w fs
  pub distinct : IsDistinct fs
  pub marked : (f : ℕ) (d : Fd) → w.fds f ≡ some d → (d.dispatched == 0) ≡ not (among f fs)

-- A change of one descriptor that keeps its source.
pub record Changed (w w' : World) (f : ℕ) (d d' : Fd) : Type 0 where
  pub sources : w'.sources ≡ w.sources
  pub old : w.fds f ≡ some d
  pub new : w'.fds f ≡ some d'
  pub others : (g : ℕ) → g ≢ f → w'.fds g ≡ w.fds g
  pub source : d'.source ≡ d.source

module _ {w w' : World} {f : ℕ} {d d' : Fd} (c : Changed w w' f d d') where
  pub source_priority-same : (s : ℕ) → source_priority w' s ≡ source_priority w s
  unfolding source_priority
  source_priority-same s = rw c.sources

  pub priority_of-same : (g : ℕ) (x : Fd) → w.fds g ≡ some x → priority_of w' g ≡ priority_of w g
  priority_of-same g x at = elim (Bool-cases (g == f)) [
    | inl e ↦
        let same : g ≡ f = ground arith in
        rw same (
          priority_of-at w' f d' c.new
          ∙ source_priority-same d'.source
          ∙ ap (source_priority w) c.source
          ∙ sym (priority_of-at w f d c.old))
    | inr e ↦
        let kept : w'.fds g ≡ some x = c.others g (λ s. ground arith) ∙ at in
        priority_of-at w' g x kept ∙ source_priority-same x.source ∙ sym (priority_of-at w g x at)
  ]

  pub IsLive-same : (g : ℕ) → IsLive w g → IsLive w' g
  IsLive-same g live = elim (Bool-cases (g == f)) [
    | inl e ↦
        let same : g ≡ f = ground arith in
        let at : w.fds f ≡ some live.object = rw same at live.at in
        let eq : d ≡ live.object = let h = sym c.old ∙ at in cc in
        record {
          object = d';
          address = live.address;
          at = rw same c.new;
          owned = rw (c.sources, c.source, eq) live.owned;
        }
    | inr e ↦ record {
      object = live.object;
      address = live.address;
      at = c.others g (λ s. ground arith) ∙ live.at;
      owned = rw c.sources live.owned;
    }
  ]

  pub level-same : (g : ℕ) → IsLive w g → level w' g ≡ level w g
  level-same g live = rw (priority_of-same g live.object live.at)

  All-level :
      (n : ℕ) (fs : List ℕ)
      → All (IsLive w) fs
      → All (λ g. level w g ≤ n) fs
      → All (λ g. level w' g ≤ n) fs
  All-level n [] lives le = tt
  All-level n (g ∷ gs) lives le = (rw (level-same g lives.0) le.0, All-level n gs lives.1 le.1)

  pub IsDescending-same : (fs : List ℕ) → All (IsLive w) fs → IsDescending w fs → IsDescending w' fs
  IsDescending-same [] lives s = tt
  IsDescending-same (g ∷ gs) lives s = (
    rw (level-same g lives.0) (All-level (level w g) gs lives.1 s.0),
    IsDescending-same gs lives.1 s.1,
  )

  pub marked-change :
      (fs gs : List ℕ)
      → ((g : ℕ) → g ≢ f → among g gs ≡ among g fs)
      → (d'.dispatched == 0) ≡ not (among f gs)
      → ((g : ℕ) (x : Fd) → w.fds g ≡ some x → (x.dispatched == 0) ≡ not (among g fs))
      → (g : ℕ) (x : Fd) → w'.fds g ≡ some x
      → (x.dispatched == 0) ≡ not (among g gs)
  marked-change fs gs same here old g x at = elim (Bool-cases (g == f)) [
    | inl e ↦
        let eq : g ≡ f = ground arith in
        let found : d' ≡ x = let h = sym c.new ∙ rw eq at at in cc in rw (eq, ← found) here
    | inr e ↦
        let apart : g ≢ f = λ s. ground arith in
        old g x (sym (c.others g apart) ∙ at) ∙ ap not (sym (same g apart))
  ]

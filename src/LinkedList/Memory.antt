-- ===== src/LinkedList/Memory.antt =====
-- The memory that the nodes of src/hev-list.c lie in, and commands that read and write it.
use hev_lib.Base.{ℕ, Option, none, some, ◌==◌, if◌then◌else◌}

-- `struct _HevList`
pub record Node : Type 0 where
  pub item : ℕ
  pub prev : ℕ
  pub next : ℕ

abbrev pub node : (item prev next : ℕ) → Node
node x p n = record { item = x; prev = p; next = n }

abbrev pub Memory : Type 0
Memory = ℕ → Option Node

-- `fault` is an access to what is no live node; `stuck` is a loop that has used up its rounds.
pub data Outcome (A : Type 0) : Type 0 where
  ok : A → Memory → Outcome A
  fault : Outcome A
  stuck : Outcome A

abbrev pub Cmd : Type 0 → Type 0
Cmd A = Memory → Outcome A

abbrev pub pure : {A : Type 0} → A → Cmd A
pure = ok

abbrev pub run_out : {A : Type 0} → Cmd A
run_out m = stuck

abbrev pub then_do : {A B : Type 0} → Outcome A → (A → Cmd B) → Outcome B
then_do (ok a m) k = k a m
then_do fault k = fault
then_do stuck k = stuck

infixl 5 ◌>>=◌ ◌>>◌
abbrev pub ◌>>=◌ : {A B : Type 0} → Cmd A → (A → Cmd B) → Cmd B
c >>= k = λ m. then_do (c m) k

abbrev pub ◌>>◌ : {A B : Type 0} → Cmd A → Cmd B → Cmd B
c >> d = c >>= λ _. d

unfoldable pub put : Memory → ℕ → Option Node → Memory
put m p c a = if a == p then c else m a

-- A node that was just allocated, with `data` written and its links still to write.
abbrev pub make : (fresh item : ℕ) → Cmd (Unit {0})
make fresh x m = ok tt (put m fresh (some (node x 0 0)))

unfoldable pub load : ℕ → Cmd Node
load p m = if p == 0 then fault else elim (m p) [ none ↦ fault | some n ↦ ok n m ]

unfoldable pub set_prev : ℕ → ℕ → Cmd (Unit {0})
unfolding load
set_prev p q = load p >>= λ n m. ok tt (put m p (some (record n { prev = q })))

unfoldable pub set_next : ℕ → ℕ → Cmd (Unit {0})
unfolding load
set_next p q = load p >>= λ n m. ok tt (put m p (some (record n { next = q })))

-- `HEV_MEMORY_ALLOCATOR_FREE`
unfoldable pub free : ℕ → Cmd (Unit {0})
unfolding load
free p = load p >>= λ _ m. ok tt (put m p none)

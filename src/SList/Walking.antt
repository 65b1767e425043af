-- ===== src/SList/Walking.antt =====
-- The loops of src/hev-slist.c over a whole list: `hev_slist_length`, `hev_slist_free`,
-- `hev_slist_free_notify`.
use hev_lib.Base.{
  ℕ, zero, suc, ◌+◌, ◌%◌, ◌^◌, ◌<◌, ◌≡◌, ◌≢◌, refl, sym, ap, ◌∙◌, Bool, true, false, Option, none,
  some, List, [], ◌∷◌, ◌++◌, arith, if◌then◌else◌, Bool-cases, inl, inr, append_assoc, append-nil,
}
use hev_lib.Base as B
use hev_lib.SList.{length_loop, length, free_loop, free_notify}
use hev_lib.SList.Memory.{Memory, ok, put}
use hev_lib.SList.Chain.{
  Cells, has, head, Chain, IsList, SameOutside, load-ok, free-ok, put_ne, frame-put, not_null,
}

-- the items of a list
abbrev pub items : Cells → List ℕ
items [] = []
items ((a, x) ∷ xs) = x ∷ items xs

length_loop-cells :
    (f n : ℕ) (m : Memory) (xs : Cells)
    → Chain m 0 xs
    → B.length xs < f
    → length_loop f (head 0 xs) (n % 2 ^ 32) m ≡ ok ((n + B.length xs) % 2 ^ 32) m
unfolding length_loop
length_loop-cells zero n m xs c h = absurd (omega arith)
length_loop-cells (suc f) n m [] c h = ap (λ k. ok (k % 2 ^ 32) m) (omega arith)
length_loop-cells (suc f) n m ((a, x) ∷ xs) (live, out, at, c) h =
    rw (not_null a live, load-ok m live at)
      (ap (λ k. length_loop f (head 0 xs) k m) (omega arith)
        ∙ length_loop-cells f (n + 1) m xs c (omega arith)
        ∙ ap (λ k. ok (k % 2 ^ 32) m) (omega arith))

-- With rounds for every node, `length` is the number of nodes modulo 2 ^ 32, and memory stays as it
-- is.
pub length-cells :
    (m : Memory) (p f : ℕ) (xs : Cells)
    → IsList m p xs
    → B.length xs < f
    → length f p m ≡ ok (B.length xs % 2 ^ 32) m
unfolding length
length-cells m p f xs is h =
    rw is.0 (length_loop-cells f 0 m xs is.1 h ∙ ap (λ k. ok (k % 2 ^ 32) m) (omega arith))

-- All nodes of the list are freed, and nothing else is changed.
pub record AllFreed (m m' : Memory) (xs : Cells) : Type 0 where
  pub gone : (b : ℕ) → has b xs ≡ true → m' b ≡ none
  pub same : SameOutside xs m m'

erased-has :
    (m m' : Memory) (a x : ℕ) (xs : Cells) (b : ℕ)
    → AllFreed (put m a none) m' xs
    → has b ((a, x) ∷ xs) ≡ true
    → m' b ≡ none
unfolding put
erased-has m m' a x xs b freed i = elim (Bool-cases (has b xs)) [
  | inl e ↦ freed.gone b e
  | inr e ↦ freed.same b e ∙ ground arith
]

free_loop-cells :
    (f : ℕ) (m : Memory) (xs : Cells) (seen : List ℕ)
    → Chain m 0 xs
    → B.length xs < f
    → (m' : Memory) × (free_loop f (head 0 xs) seen m ≡ ok (seen ++ items xs) m') × AllFreed m m' xs
unfolding free_loop
free_loop-cells zero m xs seen c h = absurd (omega arith)
free_loop-cells (suc f) m [] seen c h =
    (m, ap (λ l. ok l m) (sym (append-nil seen)), record { gone = λ b i. cc; same = λ b o. refl })
free_loop-cells (suc f) m ((a, x) ∷ xs) seen (live, out, at, c) h =
    let (m', run, freed) =
      free_loop-cells f (put m a none) xs (seen ++ (x ∷ [])) (frame-put m 0 xs a none c out)
        (omega arith) in
    (
      m',
      rw (not_null a live, load-ok m live at, free-ok m live at)
          (run ∙ ap (λ l. ok l m') (append_assoc seen (x ∷ []) (items xs))),
      record {
        gone = λ b i. erased-has m m' a x xs b freed i;
        same = λ b o. freed.same b (ground arith) ∙ put_ne m a b none (λ e. ground arith);
      },
    )

-- With rounds for every node, `free_notify` frees each node once, calls the function, if there is
-- one, with the items in their order, and changes no other memory.
pub free_notify-AllFreed :
    (m : Memory) (p f : ℕ) (notify : Bool) (xs : Cells)
    → IsList m p xs
    → B.length xs < f
    → (m' : Memory) × (free_notify f p notify m ≡ ok (if notify then items xs else []) m')
      × AllFreed m m' xs
unfolding free_notify
free_notify-AllFreed m p f notify xs is h =
    let (m', run, freed) = free_loop-cells f m xs [] is.1 h in (m', rw (is.0, run), freed)

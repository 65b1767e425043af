-- ===== src/LinkedList/Unlinking.antt =====
-- A node is taken out of a list of src/hev-list.c.
use hev_lib.Base.{
  ℕ, ◌≡◌, refl, ap, ◌∙◌, true, false, none, some, [], ◌∷◌, ◌==◌, arith, if◌then◌else◌, Bool-cases,
  inl, inr,
}
use hev_lib.LinkedList.{unlink}
use hev_lib.LinkedList.Memory.{node, Memory, Outcome, ok, put, ◌>>◌, pure, set_prev, set_next}
use hev_lib.LinkedList.Zipper.{
  Cells, has, head, Ahead, Behind, Zipper, whole, put_self, put_ne, load-ok, set_next-ok,
  set_prev-ok, free-ok, Ahead-put, Behind-put, head-whole,
}

-- The memory with the nearest node of a side linked anew.
abbrev pub link_next : Memory → (next : ℕ) → Cells → Memory
link_next m q [] = m
link_next m q ((b, y) ∷ bs) = put m b (some (node y (head bs) q))

abbrev pub link_prev : Memory → (prev : ℕ) → Cells → Memory
link_prev m p [] = m
link_prev m p ((d, w) ∷ xs) = put m d (some (node w p (head xs)))

pub link_next-Behind :
    (m : Memory) (a q : ℕ) (bs : Cells) → Behind m a bs → Behind (link_next m q bs) q bs
link_next-Behind m a q [] h = tt
link_next-Behind m a q ((b, y) ∷ bs) (live, alone, at, h) =
    (live, alone, put_self m b _, Behind-put m b b _ bs h alone)

pub link_prev-Ahead :
    (m : Memory) (a p : ℕ) (xs : Cells) → Ahead m a xs → Ahead (link_prev m p xs) p xs
link_prev-Ahead m a p [] h = tt
link_prev-Ahead m a p ((d, w) ∷ xs) (live, alone, at, h) =
    (live, alone, put_self m d _, Ahead-put m d d _ xs h alone)

pub link_next-Ahead :
    (m : Memory) (a q : ℕ) (bs xs : Cells)
    → ((c : ℕ) → has c bs ≡ true → has c xs ≡ false)
    → Ahead m a xs
    → Ahead (link_next m q bs) a xs
link_next-Ahead m a q [] xs apart h = h
link_next-Ahead m a q ((b, y) ∷ bs) xs apart h = Ahead-put m a b _ xs h (apart b (ground arith))

pub link_prev-Behind :
    (m : Memory) (q p : ℕ) (bs xs : Cells)
    → ((c : ℕ) → has c bs ≡ true → has c xs ≡ false)
    → Behind m q bs
    → Behind (link_prev m p xs) q bs
link_prev-Behind m q p bs [] apart h = h
link_prev-Behind m q p bs ((d, w) ∷ xs) apart h =
    Behind-put m q d _ bs h (elim (Bool-cases (has d bs)) [
      | inl e ↦ let k = apart d e in absurd (ground arith)
      | inr e ↦ e
    ])

pub link_next_ne : (m : Memory) (q c : ℕ) (bs : Cells) → has c bs ≡ false → link_next m q bs c ≡ m c
link_next_ne m q c [] h = refl
link_next_ne m q c ((b, y) ∷ bs) h = put_ne m b c _ (λ e. ground arith)

pub link_prev_ne : (m : Memory) (p c : ℕ) (xs : Cells) → has c xs ≡ false → link_prev m p xs c ≡ m c
link_prev_ne m p c [] h = refl
link_prev_ne m p c ((d, w) ∷ xs) h = put_ne m d c _ (λ e. ground arith)

-- The first of the two repairs, and which node is the first one then.
link_next-ok :
    (m : Memory) (h a q : ℕ) (bs xs : Cells)
    → Behind m a bs
    → h ≡ head (whole bs xs)
    → (ys : Cells) → q ≡ head ys
    → (if head bs == 0 then pure q else (set_next (head bs) q >> pure h)) m
      ≡ ok (head (whole bs ys)) (link_next m q bs)
link_next-ok m h a q [] xs behind start ys e = ap (λ (k : ℕ). ok k m) e
link_next-ok m h a q ((b, y) ∷ bs) xs (live, alone, at, rest) start ys e =
    let far : (b == 0) ≡ false = ground arith in
    rw (far, set_next-ok m live at q)
      (ap (λ (k : ℕ). ok k (put m b (some (node y (head bs) q))))
        (start ∙ head-whole (b, y) bs xs ys))

link_prev-ok :
    (m : Memory) (a p : ℕ) (xs : Cells)
    → Ahead m a xs
    → (if head xs == 0 then pure tt else set_prev (head xs) p) m ≡ ok tt (link_prev m p xs)
link_prev-ok m a p [] ahead = refl
link_prev-ok m a p ((d, w) ∷ xs) (live, alone, at, rest) =
    let far : (d == 0) ≡ false = ground arith in rw (far, set_prev-ok m live at p)

-- What taking out a node at the place leaves.
pub record Unlinked (m : Memory) (bs : Cells) (a x : ℕ) (xs : Cells) (run : Outcome ℕ)
    : Type 0 where
  pub after : Memory
  pub returns : run ≡ ok (head (whole bs xs)) after
  pub list : Zipper after bs xs
  pub freed : after a ≡ none
  pub same : (c : ℕ) → has c bs ≡ false → has c ((a, x) ∷ xs) ≡ false → after c ≡ m c

pub unlink-Unlinked :
    (m : Memory) (h a x : ℕ) (bs xs : Cells)
    → Zipper m bs ((a, x) ∷ xs)
    → h ≡ head (whole bs ((a, x) ∷ xs))
    → Unlinked m bs a x xs (unlink h a m)
unfolding unlink
unlink-Unlinked m h a x bs xs z start =
    let (live, alone, at, ahead) = z.ahead in
    let apart : (c : ℕ) → has c bs ≡ true → has c xs ≡ false =
      λ c e. (let k = z.apart c e in ground arith) in
    let behind_a : has a bs ≡ false = elim (Bool-cases (has a bs)) [
      | inl e ↦ let k = z.apart a e in absurd (ground arith)
      | inr e ↦ e
    ] in
    let q = head xs in
    let m1 = link_next m (head xs) bs in
    let m2 = link_prev (link_next m (head xs) bs) (head bs) xs in
    let ahead1 = link_next-Ahead m a (head xs) bs xs apart ahead in
    let at2 : link_prev (link_next m (head xs) bs) (head bs) xs a
        ≡ some (node x (head bs) (head xs)) =
      link_prev_ne m1 (head bs) a xs alone ∙ link_next_ne m (head xs) a bs behind_a ∙ at in
    record {
      after = put m2 a none;
      returns = rw (
        load-ok m live at,
        link_next-ok m h a (head xs) bs ((a, x) ∷ xs) z.behind start xs refl,
        link_prev-ok (link_next m (head xs) bs) a (head bs) xs ahead1,
        free-ok (link_prev (link_next m (head xs) bs) (head bs) xs) live at2,
      );
      list = record {
        ahead = Ahead-put m2 (head bs) a none xs (link_prev-Ahead m1 a (head bs) xs ahead1) alone;
        behind =
            Behind-put m2 (head xs) a none bs
              (link_prev-Behind m1 (head xs) (head bs) bs xs apart
                (link_next-Behind m a (head xs) bs z.behind))
              behind_a;
        apart = apart;
      };
      freed = put_self m2 a none;
      same = λ c out out'.
          put_ne m2 a c none (λ e. ground arith)
          ∙ link_prev_ne m1 (head bs) c xs (ground arith)
          ∙ link_next_ne m (head xs) c bs out;
    }

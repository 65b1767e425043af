-- ===== src/LinkedList/Linking.antt =====
-- A new node is put into a list of src/hev-list.c at the place where a loop stopped.
use hev_lib.Base.{
  true, false, ℕ, ◌≡◌, ◌≢◌, refl, sym, ap, ◌∙◌, some, [], ◌∷◌, ◌==◌, arith, Bool-cases, inl, inr,
}
use hev_lib.LinkedList.{link}
use hev_lib.LinkedList.Memory.{node, Memory, ok, put}
use hev_lib.LinkedList.Zipper.{
  Cells, has, head, Ahead, Behind, Zipper, whole, put_self, put_ne, load-ok, set_next-ok,
  set_prev-ok, Ahead-put, Behind-put, head-whole,
}
use hev_lib.LinkedList.Unlinking.{
  link_next, link_prev, link_next-Behind, link_prev-Ahead, link_next-Ahead, link_prev-Behind,
  link_next_ne, link_prev_ne,
}

has_first : (b y : ℕ) (bs : Cells) → has b ((b, y) ∷ bs) ≡ true
has_first b y bs = ground arith

pub has_second : (a b y : ℕ) (bs : Cells) → has a ((b, y) ∷ bs) ≡ false → b ≢ a
has_second a b y bs out = λ e. ground arith

pub not_second : (a b y : ℕ) (bs : Cells) → has a ((b, y) ∷ bs) ≡ false → has a bs ≡ false
not_second a b y bs out = ground arith

module _ (fresh item : ℕ) (m : Memory) (live : fresh ≢ 0) where
  -- The new node, with its links.
  abbrev pub linked : (prev next : ℕ) → Memory
  linked p q =
      put (put (put m fresh (some (node item 0 0))) fresh (some (node item 0 q))) fresh
        (some (node item p q))

  pub linked_ne : (p q c : ℕ) → c ≢ fresh → linked p q c ≡ m c
  linked_ne p q c ne = put_ne _ fresh c _ ne ∙ put_ne _ fresh c _ ne ∙ put_ne m fresh c _ ne

  module _ (cs ys : Cells) (z : Zipper m cs ys) (out_behind : has fresh cs ≡ false)
      (out_ahead : has fresh ys ≡ false) where
    abbrev between : Memory
    between = linked (head cs) (head ys)

    abbrev pub after : Memory
    after = link_prev (link_next between fresh cs) fresh ys

    between-Ahead : Ahead between (head cs) ys
    between-Ahead =
        Ahead-put _ (head cs) fresh _ ys
          (Ahead-put _ (head cs) fresh _ ys (Ahead-put m (head cs) fresh _ ys z.ahead out_ahead)
            out_ahead)
          out_ahead

    between-Behind : Behind between (head ys) cs
    between-Behind =
        Behind-put _ (head ys) fresh _ cs
          (Behind-put _ (head ys) fresh _ cs (Behind-put m (head ys) fresh _ cs z.behind out_behind)
            out_behind)
          out_behind

    -- The new node is linked both ways.
    pub after-Zipper : Zipper after cs ((fresh, item) ∷ ys)
    after-Zipper = record {
      ahead = (
        live,
        out_ahead,
        link_prev_ne (link_next between fresh cs) fresh fresh ys out_ahead
            ∙ link_next_ne between fresh fresh cs out_behind
            ∙ put_self _ fresh _,
        link_prev-Ahead (link_next between fresh cs) (head cs) fresh ys
            (link_next-Ahead between (head cs) fresh cs ys z.apart between-Ahead),
      );
      behind =
          link_prev-Behind (link_next between fresh cs) fresh fresh cs ys z.apart
            (link_next-Behind between (head ys) fresh cs between-Behind);
      apart = λ c e. elim (Bool-cases (c == fresh)) [
        | inl hit ↦
            let same : c ≡ fresh = ground arith in
            let k : has fresh cs ≡ true = ap (λ b. has b cs) (sym same) ∙ e in absurd cc
        | inr miss ↦ let k = z.apart c e in ground arith
      ];
    }

    pub after_ne : (c : ℕ) → c ≢ fresh → has c cs ≡ false → has c ys ≡ false → after c ≡ m c
    after_ne c ne o o' =
        link_prev_ne (link_next between fresh cs) fresh c ys o'
        ∙ link_next_ne between fresh c cs o
        ∙ linked_ne (head cs) (head ys) c ne

  pub link-after :
      (cs ys : Cells) (z : Zipper m cs ys) (ob : has fresh cs ≡ false) (oa : has fresh ys ≡ false)
      → (h : ℕ) → h ≡ head (whole cs ys)
      → head (whole cs ys) ≢ 0
      → link h fresh
          (record { place = head ys; passed = head cs })
          (put m fresh (some (node item 0 0)))
        ≡ ok (head (whole cs ((fresh, item) ∷ ys))) (after cs ys z ob oa)
  unfolding link
  link-after [] [] z ob oa h start some_node = absurd (some_node refl)
  link-after ((b, y) ∷ bs) [] z ob oa h start some_node =
      let m0 = put m fresh (some (node item 0 0)) in
      let m1 = put m0 fresh (some (node item 0 0)) in
      let (live_b, alone, at, rest) = between-Behind ((b, y) ∷ bs) [] z ob oa in
      rw
        (
          set_next-ok m0 live (put_self m fresh _) 0,
          set_prev-ok m1 live (put_self m0 fresh _) b,
          set_next-ok (linked b 0) live_b at fresh,
        )
        (ap (λ (k : ℕ). ok k (put (linked b 0) b (some (node y (head bs) fresh))))
          (start ∙ head-whole (b, y) bs [] ((fresh, item) ∷ [])))
  link-after [] ((d, w) ∷ ys) z ob oa h start some_node =
      let m0 = put m fresh (some (node item 0 0)) in
      let m1 = put m0 fresh (some (node item 0 d)) in
      let (live_d, alone, at, rest) = between-Ahead [] ((d, w) ∷ ys) z ob oa in
      let apart : d ≢ fresh = has_second fresh d w ys oa in
      let far : (d == 0) ≡ false = ground arith in
      let at0 =
        put_ne m0 fresh d (some (node item 0 d)) apart
        ∙ put_ne m fresh d (some (node item 0 0)) apart
        ∙ z.ahead.2 in
      rw
        (
          far,
          set_next-ok m0 live (put_self m fresh _) d,
          load-ok m1 live_d at0,
          set_prev-ok m1 live (put_self m0 fresh _) 0,
          set_prev-ok (linked 0 d) live_d at fresh,
        )
        refl
  link-after ((b, y) ∷ bs) ((d, w) ∷ ys) z ob oa h start some_node =
      let m0 = put m fresh (some (node item 0 0)) in
      let m1 = put m0 fresh (some (node item 0 d)) in
      let (live_d, alone, at, rest) = between-Ahead ((b, y) ∷ bs) ((d, w) ∷ ys) z ob oa in
      let (live_b, alone_b, at_b, rest_b) = between-Behind ((b, y) ∷ bs) ((d, w) ∷ ys) z ob oa in
      let apart : d ≢ fresh = has_second fresh d w ys oa in
      let far : (d == 0) ≡ false = ground arith in
      let far_b : (b == 0) ≡ false = ground arith in
      let out : has b ((d, w) ∷ ys) ≡ false = z.apart b (has_first b y bs) in
      let two : d ≢ b = has_second b d w ys out in
      let at0 =
        put_ne m0 fresh d (some (node item 0 d)) apart
        ∙ put_ne m fresh d (some (node item 0 0)) apart
        ∙ z.ahead.2 in
      let m3 = put (linked b d) b (some (node y (head bs) fresh)) in
      let at_d = put_ne (linked b d) b d (some (node y (head bs) fresh)) two ∙ at in
      rw
        (
          far,
          set_next-ok m0 live (put_self m fresh _) d,
          load-ok m1 live_d at0,
          set_prev-ok m1 live (put_self m0 fresh _) b,
          far_b,
          set_next-ok (linked b d) live_b at_b fresh,
          set_prev-ok m3 live_d at_d fresh,
        )
        (ap (λ (k : ℕ). ok k (put m3 d (some (node w fresh (head ys)))))
          (start ∙ head-whole (b, y) bs ((d, w) ∷ ys) ((fresh, item) ∷ (d, w) ∷ ys)))

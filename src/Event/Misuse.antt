-- ===== src/Event/Misuse.antt =====
-- Calls of src/hev-event-source.c that go past what they may touch.
use hev_lib.Base.{
  ℕ, ◌+◌, ◌≡◌, ◌≢◌, inl, inr, refl, true, false, Option, none, some, List, ◌∷◌, arith, ◌==◌, leb,
  if◌then◌else◌, length, Bool-cases,
}
use hev_lib.Event.World.{Fd, Source, World, ok, fault, Outside}
use hev_lib.Event.Source.{set_name, find_fd, del_fd}
use hev_lib.Event.Order.{fetch-ok}

-- Whatever the name, `set_name` on a live source writes past the block that it allocated, or through
-- NULL; with no source or no name it does nothing.
pub set_name-fault :
    (o : Outside) (s : ℕ) (x : Source) (w : World) (name : Option (List ℕ))
    → (s ≢ 0 → w.sources s ≡ some x)
    → set_name o s name w
      ≡ elim name [ none ↦ ok tt w | some text ↦ if s == 0 then ok tt w else fault ]
unfolding set_name
set_name-fault o s x w none at = refl
set_name-fault o s x w (some text) at = elim (Bool-cases (s == 0)) [
  | inl e ↦ rw e
  | inr e ↦
      let live : s ≢ 0 = λ z. ground arith in
      let short : leb (length text + 1) (length text) ≡ false = ground arith in
      elim (Bool-cases (o.has_node w)) [
        | inl room ↦ rw (e, fetch-ok w.sources s x w live (at live), room, short)
        | inr full ↦ rw (e, fetch-ok w.sources s x w live (at live), full)
      ]
]

-- Taking away the descriptor that was added last, which is the first of the list, reads a node after
-- it was freed.
pub del_fd-first :
    (o : Outside) (s : ℕ) (x : Source) (w : World) (f : ℕ) (fs : List ℕ) (d : Fd)
    → s ≢ 0
    → w.sources s ≡ some x
    → x.fds ≡ f ∷ fs
    → f ≢ 0
    → w.fds f ≡ some d
    → del_fd o s d.fd w ≡ fault
unfolding del_fd find_fd
del_fd-first o s x w f fs d a at list b fd_at =
    let e : (s == 0) ≡ false = ground arith in
    let hit : (d.fd == d.fd) ≡ true = ground arith in
    rw (e, fetch-ok w.sources s x w a at, list, fetch-ok w.fds f d w b fd_at, hit)

-- ===== src/Event/Dismissing.antt =====
-- The turn in src/hev-event-loop.c of a source whose callback returns false: it leaves its loop.
use hev_lib.Base.Bits.{bit_and-zero}
use hev_lib.Base.{
  ℕ, ◌-◌, ◌^◌, ◌≤◌, ◌<◌, ◌≡◌, ◌≢◌, refl, sym, ap, ◌∙◌, true, false, Option, some, List, [], ◌∷◌,
  map, arith, ◌==◌, if◌then◌else◌, All, Bool-cases, inl, inr,
}
use hev_lib.Event.World.{Fd, Source, Loop, World, Outcome, ok, update, Outside, remove, less_one}
use hev_lib.Event.Source.{call_check, call_dispatch}
use hev_lib.Event.Loop.{after_dispatch, dispatch_first, del_source, dispatch_events}
use hev_lib.Event.Order.{fetch-ok}
use hev_lib.Event.Changing.{among, update_self, update_ne}
use hev_lib.Event.Joining.{interest, Watches, number, number-at}
use hev_lib.Event.Leaving.{del_source-Left}
use hev_lib.Event.Dispatching.{
  IsWatched, retire_first-off, dispatch_first-ready, dispatch_events-invalid,
}

Watches-each :
    (m n : ℕ → Option Fd)
    → ((g : ℕ) → Watches m g → Watches n g)
    → (gs : List ℕ) → All (Watches m) gs
    → All (Watches n) gs
Watches-each m n h [] all = tt
Watches-each m n h (g ∷ gs) (e, all) = (h g e, Watches-each m n h gs all)

number-each :
    (m n : ℕ → Option Fd)
    → ((g : ℕ) → number m g ≡ number n g)
    → (gs : List ℕ) → map (number m) gs ≡ map (number n) gs
number-each m n h [] = refl
number-each m n h (g ∷ gs) = rw (h g, number-each m n h gs) refl

number-same : (m n : ℕ → Option Fd) (g : ℕ) → n g ≡ m g → number n g ≡ number m g
number-same m n g e = rw (number, e) refl

-- One object is changed, and keeps its number.
module _ (m n : ℕ → Option Fd) (f : ℕ) (c c' : Fd) (at : m f ≡ some c) (at' : n f ≡ some c')
    (kept : c'.fd ≡ c.fd) (others : (g : ℕ) → g ≢ f → n g ≡ m g) where
  still_watched : (g : ℕ) → Watches m g → Watches n g
  still_watched g (live, e, there) = elim (Bool-cases (g == f)) [
    | inl hit ↦ (live, c', ap n (ground arith) ∙ at')
    | inr miss ↦ (live, e, others g (λ z. ground arith) ∙ there)
  ]

  still_numbered : (g : ℕ) → number n g ≡ number m g
  still_numbered g = elim (Bool-cases (g == f)) [
    | inl hit ↦
        let same : g ≡ f = ground arith in
        number-at n g c' (ap n same ∙ at') ∙ kept ∙ sym (number-at m g c (ap m same ∙ at))
    | inr miss ↦ number-same m n g (others g (λ z. ground arith))
  ]

-- `w` is the world that the source's check and its dispatch function leave.
module _ (o : Outside) (w : World) (l f : ℕ) (d : Fd) (x : Source) (y : Loop)
    (watched : IsWatched w l f d x y) where
  -- The source after its turn, and what is left of its place in the loop.
  pub record Dismissed (fs : List ℕ) (run : Outcome ℕ) : Type 0 where
    pub after : World
    pub returns : run ≡ ok 0 after
    pub source : after.sources d.source ≡ some (record x { ref_count = x.ref_count - 1 })
    pub loop : after.loops l ≡ some (record y { fd_list = fs; sources = remove d.source y.sources })
    pub unmarked :
        after.fds f ≡ some (record d { revents = 0; dispatched = 0; ref_count = d.ref_count - 1 })
    pub fds : (g : ℕ) → g ≢ f → after.fds g ≡ w.fds g
    pub others : (q : ℕ) → q ≢ d.source → after.sources q ≡ w.sources q
    pub now :
        (k : ℕ)
        → interest y.epoll_fd k after.calls
          ≡ (if among k (map (number w.fds) x.fds) then false else interest y.epoll_fd k w.calls)

  abbrev quiet : Fd
  quiet = record d { revents = 0 }

  abbrev quiet_world : World
  quiet_world = record w { fds = update w.fds f (some quiet) }

  quiet-IsWatched : IsWatched quiet_world l f quiet x y
  quiet-IsWatched = record {
    loop_address = watched.loop_address;
    fd_address = watched.fd_address;
    source_address = watched.source_address;
    loop_at = watched.loop_at;
    fd_at = update_self w.fds f (some quiet);
    source_at = watched.source_at;
    member = watched.member;
  }

  after_dispatch-false :
      o.has_node quiet_world ≡ true → after_dispatch o l d.source f false w ≡ ok true quiet_world
  unfolding after_dispatch
  after_dispatch-false room =
      let owned : (d.source == 0) ≡ false = let a = watched.source_address in ground arith in
      rw (fetch-ok w.fds f d w watched.fd_address watched.fd_at, owned, room) refl

  -- In the turn of a descriptor whose source's check says yes and whose dispatch function then returns
  -- false, where neither changes the source or its loop, or which source the descriptor has, while
  -- there is memory for a node and both have references besides those of the loop: the descriptor
  -- leaves the list, unmarked and without events, and the source leaves the loop, with one reference
  -- less. The kernel watches none of the source's descriptors any more, and nothing else is changed
  -- after the dispatch function in other sources and descriptors.
  pub turn-Dismissed :
      (u v : World) (c : Fd)
      → IsWatched u l f c x y
      → c.source ≡ d.source
      → (fs : List ℕ) → y.fd_list ≡ f ∷ fs
      → call_check o x.funcs.check d.source f u ≡ ok true v
      → v.sources d.source ≡ some x
      → call_dispatch o x.funcs.dispatch d.source f x.callback.callback x.callback.item v
        ≡ ok false w
      → o.has_node quiet_world ≡ true
      → 2 ≤ d.ref_count
      → d.ref_count < 2 ^ 32
      → 2 ≤ x.ref_count
      → x.ref_count < 2 ^ 32
      → All (Watches w.fds) x.fds
      → Dismissed fs (dispatch_events o l u)
  turn-Dismissed u v c before same_source fs list ready at refused room low high low' high' all =
      let ended : after_dispatch o l c.source f false w ≡ ok true quiet_world =
        ap (λ (s : ℕ). after_dispatch o l s f false w) same_source ∙ after_dispatch-false room in
      let first : dispatch_first o l f u ≡ ok true quiet_world =
        dispatch_first-ready u l f c x y before o v w x false
          (ap (λ (s : ℕ). call_check o x.funcs.check s f u) same_source ∙ ready)
          (ap v.sources same_source ∙ at)
          (ap
              (λ (s : ℕ).
                call_dispatch o x.funcs.dispatch s f x.callback.callback x.callback.item v)
              same_source
            ∙ refused)
        ∙ ended in
      let (fds, run, off, others) =
        retire_first-off quiet_world l f quiet x y quiet-IsWatched fs list
          (bit_and-zero d.events) in
      let one : less_one d.ref_count ≡ d.ref_count - 1 = omega arith in
      let more : (d.ref_count - 1 == 0) ≡ false = ground arith in
      let left : fds f
          ≡ some (record d { revents = 0; dispatched = 0; ref_count = d.ref_count - 1 }) =
        off ∙ (rw (one, more) refl) in
      let same : (g : ℕ) → g ≢ f → fds g ≡ w.fds g =
        λ g ne. others g ne ∙ update_ne w.fds f g (some quiet) ne in
      let y' : Loop = record y { fd_list = fs } in
      let v₁ : World = record w { fds = fds; loops = update w.loops l (some y') } in
      let gone : Fd = record d { revents = 0; dispatched = 0; ref_count = d.ref_count - 1 } in
      let watching = still_watched w.fds fds f d gone watched.fd_at left refl same in
      let numbers = still_numbered w.fds fds f d gone watched.fd_at left refl same in
      let k =
        del_source-Left o l watched.loop_address d.source x y' v₁ watched.source_address
          watched.source_at (update_self w.loops l (some y'))
          (Watches-each w.fds fds watching x.fds all) low' high' watched.member in
      let leaves : del_source o x.loop c.source v₁ ≡ ok true k.after =
        ap (λ (m : ℕ). del_source o m c.source v₁) watched.member
        ∙ ap (λ (m : ℕ). del_source o l m v₁) same_source
        ∙ k.returns in
      record {
        after = k.after;
        returns =
            dispatch_events-invalid u l f c x y before o quiet_world v₁ x fs list first run
              (ap v₁.sources same_source ∙ watched.source_at) true k.after leaves;
        source = k.source;
        loop = k.loop;
        unmarked = ap (λ m. m f) k.same_fds ∙ left;
        fds = λ g ne. ap (λ m. m g) k.same_fds ∙ same g ne;
        others = k.others;
        now = λ n. rw (sym (number-each fds w.fds numbers x.fds)) (k.now n);
      }

-- ===== src/Event/Gathering.antt =====
-- The queue of src/hev-event-loop.c while `hev_event_loop_run` takes in the events of a wait.
use Prim.Native.Nat.{bit_or}
use hev_lib.Base.{
  ℕ, ◌+◌, ◌%◌, ◌^◌, ◌≡◌, inl, inr, refl, sym, ap, ◌∙◌, Bool, true, false, not, ◌||◌, Option, some,
  List, [], ◌∷◌, ◌++◌, arith, ◌==◌, All, All-map, All-insert, Bool-cases,
}
use hev_lib.Event.World.{Fd, World, ok, update, Outside}
use hev_lib.Event.Fd.{fd_ref, fd_dispatch}
use hev_lib.Event.Loop.{gather_one, gather}
use hev_lib.Event.Order.{fetch-ok, IsLive, insert_sorted-Placed}
use hev_lib.Event.Changing.{
  among, update_self, update_ne, among-insert, among-waiting, IsDistinct-insert, IsQueue, Changed,
  IsLive-same, IsDescending-same, marked-change,
}

-- What one event does to the queue `fs`.
pub record Gathered (o : Outside) (l f e : ℕ) (w : World) (fs : List ℕ) : Type 0 where
  pub after : World
  pub list : List ℕ
  pub returns : gather_one o l f e w ≡ ok tt after
  pub queue : IsQueue after l list
  pub members : (g : ℕ) → among g list ≡ (among g fs || (g == f))
  pub lives : (g : ℕ) → IsLive w g → IsLive after g
  pub noted :
      (d : Fd)
      → w.fds f ≡ some d
      → (d' : Fd) × (after.fds f ≡ some d') × (d'.revents ≡ bit_or d.revents e)

module _ (o : Outside) (l f e : ℕ) (w : World) (fs : List ℕ) (queue : IsQueue w l fs)
    (live : IsLive w f) where
  abbrev d : Fd
  d = live.object

  abbrev seen : Fd
  seen = record d { revents = bit_or d.revents e }

  abbrev seen_world : World
  seen_world = record w { fds = update w.fds f (some seen) }

  seen-Changed : Changed w seen_world f d seen
  seen-Changed = record {
    sources = refl;
    old = live.at;
    new = update_self w.fds f (some seen);
    others = λ g ne. update_ne w.fds f g (some seen) ne;
    source = refl;
  }

  -- It waits in the queue already.
  gather_waiting : (d.dispatched == 0) ≡ false → Gathered o l f e w fs
  unfolding gather_one
  gather_waiting h =
      let c = seen-Changed in
      let waits : among f fs ≡ true = let m = queue.marked f d live.at in ground arith in
      record {
        after = seen_world;
        list = fs;
        returns = rw (fetch-ok w.fds f d w live.address live.at, h);
        queue = record {
          loop = queue.loop;
          address = queue.address;
          at = queue.at;
          list = queue.list;
          lives = All-map fs (IsLive-same c) queue.lives;
          sorted = IsDescending-same c fs queue.lives queue.sorted;
          distinct = queue.distinct;
          marked = marked-change c fs fs (λ g ne. refl) (h ∙ ap not (sym waits)) queue.marked;
        };
        members = λ g. among-waiting g f fs waits;
        lives = IsLive-same c;
        noted = λ x at.
            let eq : d ≡ x = let h = sym live.at ∙ at in cc in
            (seen, update_self w.fds f (some seen), ap (λ (y : Fd). bit_or y.revents e) eq);
      }

  abbrev queued : Fd
  queued = record seen { dispatched = 1; ref_count = (d.ref_count + 1) % 2 ^ 32 }

  abbrev marked_fds : ℕ → Option Fd
  marked_fds =
      update (update (update w.fds f (some seen)) f (some (record seen { dispatched = 1 }))) f
        (some queued)

  abbrev marked_world : World
  marked_world = record w { fds = marked_fds }

  fd_dispatch-marked : fd_dispatch f seen_world ≡ ok tt marked_world
  unfolding fd_dispatch fd_ref
  fd_dispatch-marked =
      let one = update w.fds f (some seen) in
      let two = update one f (some (record seen { dispatched = 1 })) in
      rw (
        fetch-ok one f seen seen_world live.address (update_self w.fds f (some seen)),
        fetch-ok two f (record seen { dispatched = 1 }) (record w { fds = two }) live.address
            (update_self one f (some (record seen { dispatched = 1 }))),
      )

  marked-Changed : Changed w marked_world f d queued
  marked-Changed = record {
    sources = refl;
    old = live.at;
    new =
        update_self (update (update w.fds f (some seen)) f (some (record seen { dispatched = 1 })))
          f (some queued);
    others = λ g ne. let e : (g == f) ≡ false = ground arith in rw e;
    source = refl;
  }

  abbrev requeued : List ℕ → World
  requeued list = record marked_world {
    loops = update w.loops l (some (record queue.loop { fd_list = list }));
  }

  requeued-Changed : (list : List ℕ) → Changed marked_world (requeued list) f queued queued
  requeued-Changed list = record {
    sources = refl;
    old = marked-Changed.new;
    new = marked-Changed.new;
    others = λ g ne. refl;
    source = refl;
  }

  -- It is marked and put into the queue.
  gather_new : o.has_node marked_world ≡ true → (d.dispatched == 0) ≡ true → Gathered o l f e w fs
  unfolding gather_one
  gather_new room h =
      let c = marked-Changed in
      let lives = All-map fs (IsLive-same c) queue.lives in
      let live' = IsLive-same c f live in
      let p =
        insert_sorted-Placed o marked_world f fs room live' lives
          (IsDescending-same c fs queue.lives queue.sorted) in
      let out : among f fs ≡ false = let m = queue.marked f d live.at in ground arith in
      let list = p.before ++ f ∷ p.after in
      let members : (g : ℕ) → among g list ≡ (among g fs || (g == f)) = λ g.
        among-insert g f p.before p.after
        ∙ ap (λ (xs : List ℕ). among g xs || (g == f)) (sym p.split) in
      let here : among f list ≡ true =
        let self : (f == f) ≡ true = ground arith in members f ∙ ground arith in
      let c' = requeued-Changed list in
      let lives' : All (IsLive marked_world) list =
        All-insert (IsLive marked_world) f p.before p.after (rw p.split at lives) live' in
      record {
        after = requeued list;
        list = list;
        returns = rw (
          fetch-ok w.fds f d w live.address live.at,
          h,
          fd_dispatch-marked,
          fetch-ok w.loops l queue.loop marked_world queue.address queue.at,
          queue.list,
          p.returns,
        );
        queue = record {
          loop = record queue.loop { fd_list = list };
          address = queue.address;
          at = update_self w.loops l (some (record queue.loop { fd_list = list }));
          list = refl;
          lives = All-map list (IsLive-same c') lives';
          sorted = IsDescending-same c' list lives' p.sorted;
          distinct =
              IsDistinct-insert f p.before p.after (rw p.split at out)
                (rw p.split at queue.distinct);
          marked =
              marked-change c fs list
                (λ g ne. let apart : (g == f) ≡ false = ground arith in members g ∙ ground arith)
                (ap not (sym here)) queue.marked;
        };
        members = members;
        lives = λ g a. IsLive-same c' g (IsLive-same c g a);
        noted = λ x at.
            let eq : d ≡ x = let k = sym live.at ∙ at in cc in
            (queued, marked-Changed.new, ap (λ (y : Fd). bit_or y.revents e) eq);
      }

  gather_one-Gathered : o.has_node marked_world ≡ true → Gathered o l f e w fs
  gather_one-Gathered room = elim (Bool-cases (d.dispatched == 0)) [
    | inl h ↦ gather_new room h
    | inr h ↦ gather_waiting h
  ]

-- Whether a descriptor has an event.
abbrev pub has_event : ℕ → List (ℕ × ℕ) → Bool
has_event g [] = false
has_event g ((f, e) ∷ es) = (g == f) || has_event g es

-- What the events of a wait leave.
pub record GatheredAll (o : Outside) (l : ℕ) (es : List (ℕ × ℕ)) (w : World) (fs : List ℕ)
    : Type 0 where
  pub after : World
  pub list : List ℕ
  pub returns : gather o l es w ≡ ok tt after
  pub queue : IsQueue after l list
  pub members : (g : ℕ) → among g list ≡ (among g fs || has_event g es)

-- While there is memory for nodes, taking in the events of a wait for live descriptors keeps the
-- queue of the loop in descending order of priority, with each descriptor that is marked once, and
-- adds just the descriptors that have an event.
pub gather-IsQueue :
    (o : Outside) (l : ℕ) (es : List (ℕ × ℕ)) (w : World) (fs : List ℕ)
    → ((v : World) → o.has_node v ≡ true)
    → IsQueue w l fs
    → All (λ e. IsLive w e.0) es
    → GatheredAll o l es w fs
unfolding gather
gather-IsQueue o l [] w fs room queue lives = record {
  after = w;
  list = fs;
  returns = refl;
  queue = queue;
  members = λ g. ground arith;
}
gather-IsQueue o l ((f, e) ∷ es) w fs room queue (live, lives) =
    let r = gather_one-Gathered o l f e w fs queue live (room _) in
    let rest =
      gather-IsQueue o l es r.after r.list room r.queue (All-map es (λ x. r.lives x.0) lives) in
    record {
      after = rest.after;
      list = rest.list;
      returns = rw (r.returns, rest.returns);
      queue = rest.queue;
      members = λ g. rest.members g ∙ ground (arith, r.members g);
    }

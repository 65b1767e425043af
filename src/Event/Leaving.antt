-- ===== src/Event/Leaving.antt =====
-- `hev_event_loop_del_source` of src/hev-event-loop.c.
use hev_lib.Base.{
  ℕ, ◌+◌, ◌-◌, ◌%◌, ◌^◌, ◌≤◌, ◌<◌, ◌≡◌, ◌≢◌, refl, ap, ◌∙◌, Bool, true, false, Option, some, List,
  [], ◌∷◌, map, arith, ◌==◌, if◌then◌else◌, All,
}
use hev_lib.Event.World.{
  standard, Fd, Source, Loop, ctl_del, World, ok, update, Outside, ◌>>◌, done, each, remove,
  less_one,
}
use hev_lib.Event.Source.{set_loop, source_unref, loop_del_fd}
use hev_lib.Event.Loop.{add_source, del_source}
use hev_lib.Event.Order.{fetch-ok}
use hev_lib.Event.Changing.{among, update_self}
use hev_lib.Event.Joining.{interest, Watches, number, number-at, Told, add_source-Joined}

module _ (o : Outside) (l : ℕ) (live : l ≢ 0) where
  del-Told :
      (y : Loop) (fs : List ℕ) (w : World)
      → w.loops l ≡ some y
      → All (Watches w.fds) fs
      → Told w y.epoll_fd false fs (each (λ f. loop_del_fd o l f >> done) fs w)
  unfolding each loop_del_fd interest
  del-Told y [] w at fds = record { calls = w.calls; returns = refl; now = λ k. refl }
  del-Told y (f ∷ fs) w at ((a, d, p), fds) =
      let r = del-Told y fs (record w { calls = ctl_del y.epoll_fd d.fd ∷ w.calls }) at fds in
      record {
        calls = r.calls;
        returns = rw (fetch-ok w.loops l y w live at, fetch-ok w.fds f d w a p) r.returns;
        now = λ k. ground (arith, r.now k, number-at w.fds f d p);
      }

  module _ (s : ℕ) (x : Source) (y : Loop) (w : World) (address : s ≢ 0) (at : w.sources s ≡ some x)
      (loop_at : w.loops l ≡ some y) (fds : All (Watches w.fds) x.fds) (low : 2 ≤ x.ref_count)
      (high : x.ref_count < 2 ^ 32) where
    -- The world after the source was deleted. It still names the loop.
    pub record Left : Type 0 where
      pub after : World
      pub returns : del_source o l s w ≡ ok true after
      pub source : after.sources s ≡ some (record x { ref_count = x.ref_count - 1 })
      pub loop : after.loops l ≡ some (record y { sources = remove s y.sources })
      pub same_fds : after.fds ≡ w.fds
      pub others : (q : ℕ) → q ≢ s → after.sources q ≡ w.sources q
      pub now :
          (k : ℕ)
          → interest y.epoll_fd k after.calls
            ≡ (if among k (map (number w.fds) x.fds) then false else interest y.epoll_fd k w.calls)

    abbrev loops_left : ℕ → Option Loop
    loops_left = update w.loops l (some (record y { sources = remove s y.sources }))

    set_loop-null : x.loop ≡ l → set_loop s 0 w ≡ ok tt w
    unfolding set_loop
    set_loop-null named =
        let a : (s == 0) ≡ false = ground arith in
        let b : (x.loop == 0) ≡ false = ground arith in
        rw (a, fetch-ok w.sources s x w address at, b)

    pub del_source-Left : x.loop ≡ l → Left
    unfolding del_source source_unref
    del_source-Left named =
        let w₁ : World = record w { loops = loops_left } in
        let t =
          del-Told (record y { sources = remove s y.sources }) x.fds w₁
            (update_self w.loops l (some (record y { sources = remove s y.sources }))) fds in
        let w₂ : World = record w₁ { calls = t.calls } in
        let a : (s == 0) ≡ false = ground arith in
        let one : less_one x.ref_count ≡ x.ref_count - 1 = omega arith in
        let more : (x.ref_count - 1 == 0) ≡ false = ground arith in
        let same : (x.loop == l) ≡ true = ground arith in
        record {
          after = record w₂ {
            sources = update w.sources s (some (record x { ref_count = x.ref_count - 1 }));
          };
          returns = rw (
            fetch-ok w.sources s x w address at,
            same,
            set_loop-null named,
            fetch-ok w.loops l y w live loop_at,
            fetch-ok w.sources s x w₁ address at,
            t.returns,
            a,
            fetch-ok w.sources s x w₂ address at,
            one,
            more,
          );
          source = update_self w.sources s (some (record x { ref_count = x.ref_count - 1 }));
          loop = update_self w.loops l (some (record y { sources = remove s y.sources }));
          same_fds = refl;
          others = λ q ne. let e : (q == s) ≡ false = ground arith in rw e;
          now = t.now;
        }

-- A source that was added to a loop and deleted from it again: the counter and the list of the
-- loop are as before and the kernel watches none of the source's descriptors, but the source names
-- the loop, which refuses to add it again.
pub record CameAndWent (o : Outside) (l s : ℕ) (x : Source) (y : Loop) (w : World) : Type 0 where
  pub between : World
  pub after : World
  pub added : add_source o l s w ≡ ok true between
  pub listed : between.loops l ≡ some (record y { sources = s ∷ y.sources })
  pub watched :
      (k : ℕ)
      → interest y.epoll_fd k between.calls
        ≡ (if among k (map (number w.fds) x.fds) then true else interest y.epoll_fd k w.calls)
  pub deleted : del_source o l s between ≡ ok true after
  pub source : after.sources s ≡ some (record x { loop = l })
  pub loop : after.loops l ≡ some y
  pub fds : after.fds ≡ w.fds
  pub others : (q : ℕ) → q ≢ s → after.sources q ≡ w.sources q
  pub unwatched :
      (k : ℕ)
      → interest y.epoll_fd k after.calls
        ≡ (if among k (map (number w.fds) x.fds) then false else interest y.epoll_fd k w.calls)
  pub refused : add_source o l s after ≡ ok false after

remove-head : (s : ℕ) (ss : List ℕ) → remove s (s ∷ ss) ≡ ss
unfolding remove
remove-head s ss = let e : (s == s) ≡ true = ground arith in rw e

off_again :
    (a a' b c : Bool)
    → a ≡ a'
    → b ≡ (if a' then true else c)
    → (if a then false else b) ≡ (if a' then false else c)
off_again a a' b c e h = ground arith

add_source-refused :
    (o : Outside) (l s : ℕ) (x : Source) (w : World)
    → s ≢ 0
    → w.sources s ≡ some x
    → x.loop ≡ l
    → add_source o l s w ≡ ok false w
unfolding add_source
add_source-refused o l s x w a at named =
    let e : (x.loop == l) ≡ true = ground arith in rw (fetch-ok w.sources s x w a at, e)

-- Adding a source that names no loop to a loop and deleting it again, while there is memory for
-- nodes and the source has the default prepare function: the list of the loop, the counter and the
-- descriptors are as before, the kernel was told to watch each descriptor of the source and then to
-- stop, but the source still names the loop, and adding it again is refused.
pub add-del_source :
    (o : Outside) (l s : ℕ) (x : Source) (y : Loop) (w : World)
    → l ≢ 0
    → s ≢ 0
    → w.sources s ≡ some x
    → w.loops l ≡ some y
    → All (Watches w.fds) x.fds
    → 1 ≤ x.ref_count
    → x.ref_count + 1 < 2 ^ 32
    → x.loop ≡ 0
    → x.funcs.prepare ≡ standard
    → ((v : World) → o.has_node v ≡ true)
    → CameAndWent o l s x y w
add-del_source o l s x y w live address at loop_at fds low high free plain room =
    let j =
      add_source-Joined o l live s x y w address at loop_at fds low (omega arith) free plain room in
    let up : (x.ref_count + 1) % 2 ^ 32 ≡ x.ref_count + 1 = omega arith in
    let z : Source = record x { loop = l; ref_count = x.ref_count + 1 } in
    let k =
      del_source-Left o l live s z (record y { sources = s ∷ y.sources }) j.after address
        (j.source ∙ ap (λ (n : ℕ). some (record x { loop = l; ref_count = n })) up) j.loop
        (rw j.same_fds fds) (omega arith) (omega arith) refl in
    let back : x.ref_count + 1 - 1 ≡ x.ref_count = omega arith in
    let source : k.after.sources s ≡ some (record x { loop = l }) =
      k.source ∙ ap (λ (n : ℕ). some (record x { loop = l; ref_count = n })) back in
    record {
      between = j.after;
      after = k.after;
      added = j.returns;
      listed = j.loop;
      watched = j.now;
      deleted = k.returns;
      source = source;
      loop =
          k.loop ∙ ap (λ (ss : List ℕ). some (record y { sources = ss })) (remove-head s y.sources);
      fds = k.same_fds ∙ j.same_fds;
      others = λ q ne. k.others q ne ∙ j.others q ne;
      unwatched = λ n.
          k.now n
          ∙ off_again _ _ _ _
              (ap (λ (m : ℕ → Option Fd). among n (map (number m) x.fds)) j.same_fds) (j.now n);
      refused = add_source-refused o l s (record x { loop = l }) k.after address source refl;
    }

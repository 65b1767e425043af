-- ===== src/Event/Dispatching.antt =====
-- `dispatch_events` of src/hev-event-loop.c on the first descriptor of the list.
use Prim.Native.Nat.{bit_and}
use hev_lib.Base.{
  Bool-cases, inl, inr, ℕ, ◌≡◌, ◌≢◌, Bool, true, false, Option, none, some, List, ◌∷◌, arith, ◌==◌,
  if◌then◌else◌,
}
use hev_lib.Event.World.{Fd, Source, Loop, World, ok, update, Outside, fetch, remove, less_one}
use hev_lib.Event.Fd.{dispatch_finish, fd_unref}
use hev_lib.Event.Source.{call_check, call_dispatch, call_prepare}
use hev_lib.Event.Loop.{dispatch_first, after_dispatch, retire_first, del_source, dispatch_events}
use hev_lib.Event.Order.{fetch-ok}
use hev_lib.Event.Changing.{update_self}

-- A descriptor that a live source of a loop watches.
pub record IsWatched (w : World) (l f : ℕ) (d : Fd) (x : Source) (y : Loop) : Type 0 where
  pub loop_address : l ≢ 0
  pub fd_address : f ≢ 0
  pub source_address : d.source ≢ 0
  pub loop_at : w.loops l ≡ some y
  pub fd_at : w.fds f ≡ some d
  pub source_at : w.sources d.source ≡ some x
  pub member : x.loop ≡ l

-- The descriptor once it left the list: it is marked no more, and the list's reference is gone.
abbrev pub finished : Fd → Option Fd
finished d =
    if less_one d.ref_count == 0
    then none
    else some (record d { dispatched = 0; ref_count = less_one d.ref_count })

module _ (w : World) (l f : ℕ) (d : Fd) (x : Source) (y : Loop) (k : IsWatched w l f d x y) where
  owned : (d.source == 0) ≡ false
  owned = let a = k.source_address in ground arith

  load_fd-ok : fetch w.fds f w ≡ ok d w
  load_fd-ok = fetch-ok w.fds f d w k.fd_address k.fd_at

  load_source-ok : fetch w.sources d.source w ≡ ok x w
  load_source-ok = fetch-ok w.sources d.source x w k.source_address k.source_at

  ours : (x.loop == l) ≡ true
  ours = let e = k.member in ground arith

  -- The descriptor leaves the list, and its mark and the list's reference go.
  pub retire_first-off :
      (fs : List ℕ)
      → y.fd_list ≡ f ∷ fs
      → bit_and d.events d.revents ≡ 0
      → (fds : ℕ → Option Fd) × (retire_first l f w
          ≡ ok tt
              (record w { loops = update w.loops l (some (record y { fd_list = fs })); fds = fds }))
        × (fds f ≡ finished d)
        × ((g : ℕ) → g ≢ f → fds g ≡ w.fds g)
  unfolding retire_first dispatch_finish fd_unref remove
  retire_first-off fs list spent =
      let a : (bit_and d.events d.revents == 0) ≡ true = ground arith in
      let e : (f == f) ≡ true = ground arith in
      let unmarked : Fd = record d { dispatched = 0 } in
      let marked_off = update w.fds f (some (record d { dispatched = 0 })) in
      let w₁ : World = record w { loops = update w.loops l (some (record y { fd_list = fs })) } in
      let w₂ : World = record w₁ { fds = update w.fds f (some (record d { dispatched = 0 })) } in
      let head = fetch-ok w.loops l y w k.loop_address k.loop_at in
      let twice = fetch-ok w.fds f d w₁ k.fd_address k.fd_at in
      let thrice =
        fetch-ok (update w.fds f (some (record d { dispatched = 0 }))) f
          (record d { dispatched = 0 }) w₂ k.fd_address
          (update_self w.fds f (some (record d { dispatched = 0 }))) in
      elim (Bool-cases (less_one d.ref_count == 0)) [
        | inl gone ↦ (
          update (update w.fds f (some (record d { dispatched = 0 }))) f none,
          rw (load_fd-ok, a, head, list, e, twice, thrice, gone),
          rw (e, gone),
          λ g ne. let apart : (g == f) ≡ false = ground arith in rw apart,
        )
        | inr stays ↦ (
          update (update w.fds f (some (record d { dispatched = 0 }))) f
              (some (record d { dispatched = 0; ref_count = less_one d.ref_count })),
          rw (load_fd-ok, a, head, list, e, twice, thrice, stays),
          rw (e, stays),
          λ g ne. let apart : (g == f) ≡ false = ground arith in rw apart,
        )
      ]

  pub retire_first-on : bit_and d.events d.revents ≢ 0 → retire_first l f w ≡ ok tt w
  unfolding retire_first
  retire_first-on left =
      let a : (bit_and d.events d.revents == 0) ≡ false = ground arith in rw (load_fd-ok, a, owned)

  module _ (o : Outside) where
    -- The source's check says no.
    pub dispatch_first-not_ready :
        (v : World)
        → call_check o x.funcs.check d.source f w ≡ ok false v
        → dispatch_first o l f w ≡ ok false v
    unfolding dispatch_first
    dispatch_first-not_ready v e = rw (load_fd-ok, owned, load_source-ok, ours, load_source-ok, e)

    -- The check says yes, and the dispatch function what the callback returns.
    pub dispatch_first-ready :
        (v u : World) (x' : Source) (res : Bool)
        → call_check o x.funcs.check d.source f w ≡ ok true v
        → v.sources d.source ≡ some x'
        → call_dispatch o x'.funcs.dispatch d.source f x'.callback.callback x'.callback.item v
          ≡ ok res u
        → dispatch_first o l f w ≡ after_dispatch o l d.source f res u
    unfolding dispatch_first
    dispatch_first-ready v u x' res e at call = rw (
      load_fd-ok,
      owned,
      load_source-ok,
      ours,
      load_source-ok,
      e,
      fetch-ok v.sources d.source x' v k.source_address at,
      call,
    )

    -- After a callback that returned true, the source is prepared again.
    pub after_dispatch-true :
        (b : Bool) (v : World)
        → call_prepare o x.funcs.prepare d.source w ≡ ok b v
        → after_dispatch o l d.source f true w ≡ ok false v
    unfolding after_dispatch
    after_dispatch-true b v e = rw (load_fd-ok, owned, load_source-ok, ours, load_source-ok, e)

    -- The source is valid, so the first descriptor's turn ends with its retirement.
    pub dispatch_events-valid :
        (v u : World) (fs : List ℕ)
        → y.fd_list ≡ f ∷ fs
        → dispatch_first o l f w ≡ ok false v
        → retire_first l f v ≡ ok tt u
        → dispatch_events o l w ≡ ok 0 u
    unfolding dispatch_events
    dispatch_events-valid v u fs list first last =
        rw (fetch-ok w.loops l y w k.loop_address k.loop_at, list, load_fd-ok, first, last)

    -- The source is no longer wanted, so it leaves the loop that it names then.
    pub dispatch_events-invalid :
        (v u : World) (x' : Source) (fs : List ℕ)
        → y.fd_list ≡ f ∷ fs
        → dispatch_first o l f w ≡ ok true v
        → retire_first l f v ≡ ok tt u
        → u.sources d.source ≡ some x'
        → (b : Bool) (z : World) → del_source o x'.loop d.source u ≡ ok b z
        → dispatch_events o l w ≡ ok 0 z
    unfolding dispatch_events
    dispatch_events-invalid v u x' fs list first last at b z off = rw (
      fetch-ok w.loops l y w k.loop_address k.loop_at,
      list,
      load_fd-ok,
      first,
      last,
      fetch-ok u.sources d.source x' u k.source_address at,
      off,
    )

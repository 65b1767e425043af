-- ===== src/Event/Arming.antt =====
-- What the timeouts and the idle sources of the library ask the kernel for.
use Prim.Native.Nat.{bit_and}
use hev_lib.Base.Bits.{bit_and-lowest, bit_and-one}
use hev_lib.Base.{
  ℕ, ◌+◌, ◌*◌, ◌/◌, ◌%◌, ◌^◌, ◌<◌, ◌≡◌, ◌≢◌, ◌↔◌, ◌∙◌, Bool, true, false, Option, some, List, ◌∷◌,
  arith, ◌==◌,
}
use hev_lib.Event.World.{
  standard, given, Fd, Source, Loop, timer, idler, set_timer, write_event, read_event, Call, device,
  World, Outcome, ok, update, Outside,
}
use hev_lib.Event.Source.{call_check, call_dispatch, call_prepare}
use hev_lib.Event.Loop.{dispatch_events}
use hev_lib.Event.Devices.{
  Kernel, edge_in, without_in, idle_check_at, idle_prepare_at, timeout_prepare, idle_check,
  idle_prepare, installed,
}
use hev_lib.Event.Order.{fetch-ok}
use hev_lib.Event.Changing.{update_self, update_ne}
use hev_lib.Event.Dispatching.{
  IsWatched, finished, retire_first-off, dispatch_first-ready, after_dispatch-true,
  dispatch_events-valid,
}
use hev_lib.Event.Draining.{load_device-ok}

-- What `prepare` of a timeout sets, and what it amounts to: 10 ^ 6 nanoseconds for each unit of the
-- interval, in full seconds and less than one. All is 0, which stops a timer, only for interval 0.
pub record Armed (w : World) (fd interval : ℕ) (run : Outcome Bool) : Type 0 where
  pub sec : ℕ
  pub nsec : ℕ
  pub returns : run ≡ ok true (record w { calls = device fd (set_timer sec nsec) ∷ w.calls })
  pub exact : sec * 10 ^ 9 + nsec ≡ interval * 10 ^ 6
  pub below : nsec < 10 ^ 9
  pub stopped : (sec + nsec ≡ 0) ↔ (interval ≡ 0)

-- `prepare` of a live timeout sets its timer to exactly the interval in milliseconds, with no
-- overflow, and changes nothing else.
pub timeout_prepare-Armed :
    (w : World) (s fd interval : ℕ) (x : Source)
    → s ≢ 0
    → w.sources s ≡ some x
    → w.devices s ≡ some (timer fd interval)
    → interval < 2 ^ 32
    → Armed w fd interval (timeout_prepare s w)
unfolding timeout_prepare
timeout_prepare-Armed w s fd interval x live at there small = record {
  sec = interval / 1000;
  nsec = interval % 1000 * 1000 % 2 ^ 32 * 1000 % 2 ^ 32;
  returns = rw (load_device-ok w s x (timer fd interval) live at there);
  exact = omega arith;
  below = omega arith;
  stopped = (λ e. omega arith, λ e. omega arith);
}

module _ (k : Kernel) (o : Outside) (w : World) (l f : ℕ) (d : Fd) (x : Source) (y : Loop)
    (watched : IsWatched w l f d x y) (fd : ℕ) (there : w.devices d.source ≡ some (idler fd))
    (check : x.funcs.check ≡ given idle_check_at)
    (prepare : x.funcs.prepare ≡ given idle_prepare_at) (plain : x.funcs.dispatch ≡ standard)
    (events : d.events ≡ edge_in) (set : d.revents % 2 ≡ 1) (small : d.revents < 2 ^ 31)
    (content : (v : World)
      → call_dispatch o standard d.source f x.callback.callback x.callback.item v ≡ ok true v) where
  abbrev cleared : Fd
  cleared = record d { revents = without_in d.revents }

  abbrev cleared_world : World
  cleared_world = record w {
    fds = update w.fds f (some cleared);
    calls = device fd read_event ∷ w.calls;
  }

  abbrev armed_world : World
  armed_world = record cleared_world {
    calls = device fd write_event ∷ device fd read_event ∷ w.calls;
  }

  cleared_watched :
      (cs : List Call) → IsWatched (record cleared_world { calls = cs }) l f cleared x y
  cleared_watched cs = record {
    loop_address = watched.loop_address;
    fd_address = watched.fd_address;
    source_address = watched.source_address;
    loop_at = watched.loop_at;
    fd_at = update_self w.fds f (some cleared);
    source_at = watched.source_at;
    member = watched.member;
  }

  spent : bit_and d.events (without_in d.revents) ≡ 0
  spent = rw events (bit_and-lowest 30 (without_in d.revents) (omega arith) ∙ omega arith)

  idle_checked : call_check (installed k o) x.funcs.check d.source f w ≡ ok true cleared_world
  unfolding idle_check
  idle_checked =
      let one = bit_and-one d.revents in
      let read : (bit_and 1 d.revents == 0) ≡ false = ground arith in
      let v : World = record w { calls = device fd read_event ∷ w.calls } in
      rw (
        check,
        fetch-ok w.fds f d w watched.fd_address watched.fd_at,
        read,
        load_device-ok w d.source x (idler fd) watched.source_address watched.source_at there,
        fetch-ok w.fds f d v watched.fd_address watched.fd_at,
      )

  idle_armed :
      call_prepare (installed k o) x.funcs.prepare d.source cleared_world ≡ ok true armed_world
  unfolding idle_prepare
  idle_armed = rw (
    prepare,
    load_device-ok cleared_world d.source x (idler fd) watched.source_address watched.source_at
        there,
  )

  -- The event is read and written anew, and the descriptor leaves the list, unmarked; no other
  -- descriptor changes.
  abbrev pub Rearmed : (fs : List ℕ) → Outcome ℕ → Type 0
  Rearmed fs run =
      (fds : ℕ → Option Fd) × (run
        ≡ ok 0 (record w {
          fds = fds;
          loops = update w.loops l (some (record y { fd_list = fs }));
          calls = device fd write_event ∷ device fd read_event ∷ w.calls;
        }))
      × (fds f ≡ finished cleared)
      × ((g : ℕ) → g ≢ f → fds g ≡ w.fds g)

  -- In the turn of an idle source whose descriptor waits with EPOLLIN, and whose callback returns true
  -- and leaves the objects as they are, the event is read and written anew, and the descriptor leaves
  -- the list, unmarked; no other descriptor changes.
  pub idle-Rearmed :
      (fs : List ℕ) → y.fd_list ≡ f ∷ fs → Rearmed fs (dispatch_events (installed k o) l w)
  idle-Rearmed fs list =
      let (fds, run, off, others) =
        retire_first-off armed_world l f cleared x y (cleared_watched armed_world.calls) fs list
          spent in
      (
        fds,
        dispatch_events-valid w l f d x y watched (installed k o) armed_world _ fs list
            (dispatch_first-ready w l f d x y watched (installed k o) cleared_world cleared_world x
                true idle_checked watched.source_at (rw plain (content cleared_world))
              ∙ after_dispatch-true cleared_world l f cleared x y
                  (cleared_watched cleared_world.calls) (installed k o) true armed_world idle_armed)
            run,
        off,
        λ g ne. others g ne ∙ update_ne w.fds f g (some cleared) ne,
      )

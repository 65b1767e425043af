-- ===== src/Event/Draining.antt =====
-- The turn of a timeout or of a signal in src/hev-event-loop.c: their checks read the descriptor, and
-- it leaves the list only when there is nothing left to read.
use Prim.Native.Nat.{bit_and}
use hev_lib.Base.Bits.{bit_and-lowest, bit_and-one}
use hev_lib.Base.{
  ℕ, ◌*◌, ◌/◌, ◌%◌, ◌^◌, ◌<◌, ◌≡◌, ◌≢◌, refl, sym, ap, ◌∙◌, true, false, Option, some, List, [],
  ◌∷◌, ◌++◌, arith, ◌==◌,
}
use hev_lib.Event.World.{
  standard, given, Fd, Source, Loop, Device, timer, signaller, Request, set_timer, read_timer,
  read_signal, Call, device, World, Outcome, ok, update, Outside, log, ◌>>◌,
}
use hev_lib.Event.Source.{call_check, call_dispatch, call_prepare}
use hev_lib.Event.Loop.{dispatch_events}
use hev_lib.Event.Devices.{
  Kernel, Reading, full, again, failed, edge_in, without_in, timeout_check_at, timeout_prepare_at,
  signal_check_at, load_device, timeout_prepare, timeout_check, signal_check, after_read, installed,
}
use hev_lib.Event.Order.{fetch-ok}
use hev_lib.Event.Changing.{update_self, update_ne}
use hev_lib.Event.Dispatching.{
  IsWatched, finished, retire_first-off, retire_first-on, dispatch_first-not_ready,
  dispatch_first-ready, after_dispatch-true, dispatch_events-valid,
}

abbrev pub rearmed : (fd interval : ℕ) → Call
rearmed fd i = device fd (set_timer (i / 1000) (i % 1000 * 1000 % 2 ^ 32 * 1000 % 2 ^ 32))

-- A source made by `timeout_new` or `signal_new`: its descriptor, what the check asks of it, and the
-- calls that prepare it again.
pub data IsDevice (w : World) (s : ℕ) (x : Source) (fd : ℕ) (r : Request) (rearm : List Call)
    : Type 0 where
  of_timer :
      (interval : ℕ)
      → w.devices s ≡ some (timer fd interval)
      → x.funcs.check ≡ given timeout_check_at
      → x.funcs.prepare ≡ given timeout_prepare_at
      → r ≡ read_timer
      → rearm ≡ rearmed fd interval ∷ []
      → IsDevice w s x fd r rearm
  of_signal :
      w.devices s ≡ some (signaller fd)
      → x.funcs.check ≡ given signal_check_at
      → x.funcs.prepare ≡ standard
      → r ≡ read_signal
      → rearm ≡ []
      → IsDevice w s x fd r rearm

-- The world with one call more.
abbrev called : World → Call → World
called w c = record w { calls = c ∷ w.calls }

pub load_device-ok :
    (v : World) (s : ℕ) (x : Source) (dv : Device)
    → s ≢ 0
    → v.sources s ≡ some x
    → v.devices s ≡ some dv
    → load_device s v ≡ ok dv v
unfolding load_device
load_device-ok v s x dv live at there =
    rw (fetch-ok v.sources s x v live at, fetch-ok v.devices s dv v live there)

module _ (k : Kernel) (o : Outside) (w : World) (l f : ℕ) (d : Fd) (x : Source) (y : Loop)
    (watched : IsWatched w l f d x y) (fd : ℕ) (r : Request) (rearm : List Call)
    (dev : IsDevice w d.source x fd r rearm) where
  -- The check reads, since EPOLLIN is set.
  check-reads :
      bit_and 1 d.revents ≢ 0
      → call_check (installed k o) x.funcs.check d.source f w
        ≡ (log (device fd r) >> after_read f (k.reads fd w)) w
  check-reads set =
      let read : (bit_and 1 d.revents == 0) ≡ false = ground arith in
      let fd_ok = fetch-ok w.fds f d w watched.fd_address watched.fd_at in
      elim dev [
        | of_timer interval at check prepare what arms ↦
            unfold timeout_check in
            rw (
              check,
              fd_ok,
              read,
              load_device-ok w d.source x (timer fd interval) watched.source_address
                  watched.source_at at,
              what,
            )
        | of_signal at check prepare what arms ↦
            unfold signal_check in
            rw (
              check,
              fd_ok,
              read,
              load_device-ok w d.source x (signaller fd) watched.source_address watched.source_at
                  at,
              what,
            )
      ]

  check_arms :
      (v : World)
      → v.sources ≡ w.sources
      → v.devices ≡ w.devices
      → call_prepare (installed k o) x.funcs.prepare d.source v
        ≡ ok true (record v { calls = rearm ++ v.calls })
  check_arms v s e =
      let at = ap (λ (m : ℕ → Option Source). m d.source) s ∙ watched.source_at in
      elim dev [
        | of_timer interval there check prepare what arms ↦
            let found = ap (λ (m : ℕ → Option Device). m d.source) e ∙ there in
            unfold timeout_prepare in
            rw (
              prepare,
              load_device-ok v d.source x (timer fd interval) watched.source_address at found,
              arms,
            )
        | of_signal there check prepare what arms ↦ rw (prepare, arms)
      ]

  -- The world after the first descriptor's turn, by what the kernel answered to the read.
  abbrev pub Turned : (fs : List ℕ) → Reading → Outcome ℕ → Type 0
  Turned fs full run = run ≡ ok 0 (record w { calls = rearm ++ device fd r ∷ w.calls })
  Turned fs failed run = run ≡ ok 0 (record w { calls = device fd r ∷ w.calls })
  Turned fs again run =
      (fds : ℕ → Option Fd) × (run
        ≡ ok 0 (record w {
          fds = fds;
          loops = update w.loops l (some (record y { fd_list = fs }));
          calls = device fd r ∷ w.calls;
        }))
      × (fds f ≡ finished (record d { revents = without_in d.revents }))
      × ((g : ℕ) → g ≢ f → fds g ≡ w.fds g)

  module _ (fs : List ℕ) (list : y.fd_list ≡ f ∷ fs) (events : d.events ≡ edge_in)
      (set : d.revents % 2 ≡ 1) (small : d.revents < 2 ^ 31) (plain : x.funcs.dispatch ≡ standard)
      (content : (v : World)
        → call_dispatch o standard d.source f x.callback.callback x.callback.item v
          ≡ ok true v) where
    in_set : bit_and 1 d.revents ≢ 0
    in_set e = omega (arith, bit_and-one d.revents)

    still_waits : bit_and d.events d.revents ≢ 0
    still_waits e =
        let k : bit_and edge_in d.revents ≡ 0 = rw (sym events) e in
        omega (arith, bit_and-lowest 30 d.revents small)

    spent : bit_and d.events (without_in d.revents) ≡ 0
    spent = rw events (bit_and-lowest 30 (without_in d.revents) (omega arith) ∙ omega arith)

    -- A world that differs in the calls only.
    still_watched : (cs : List Call) → IsWatched (record w { calls = cs }) l f d x y
    still_watched cs = record {
      loop_address = watched.loop_address;
      fd_address = watched.fd_address;
      source_address = watched.source_address;
      loop_at = watched.loop_at;
      fd_at = watched.fd_at;
      source_at = watched.source_at;
      member = watched.member;
    }

    failed-Turned : k.reads fd w ≡ failed → Turned fs failed (dispatch_events (installed k o) l w)
    failed-Turned e =
        let v = called w (device fd r) in
        dispatch_events-valid w l f d x y watched (installed k o) v v fs list
          (dispatch_first-not_ready w l f d x y watched (installed k o) v
            (check-reads in_set ∙ unfold after_read in rw e))
          (retire_first-on v l f d x y (still_watched (device fd r ∷ w.calls)) still_waits)

    full-Turned : k.reads fd w ≡ full → Turned fs full (dispatch_events (installed k o) l w)
    full-Turned e =
        let v = called w (device fd r) in
        let u : World = record w { calls = rearm ++ device fd r ∷ w.calls } in
        dispatch_events-valid w l f d x y watched (installed k o) u u fs list
          (dispatch_first-ready w l f d x y watched (installed k o) v v x true
              (check-reads in_set ∙ unfold after_read in rw e) watched.source_at
              (rw plain (content v))
            ∙ after_dispatch-true v l f d x y (still_watched (device fd r ∷ w.calls))
                (installed k o) true u (check_arms v refl refl))
          (retire_first-on u l f d x y (still_watched (rearm ++ device fd r ∷ w.calls)) still_waits)

    abbrev cleared : Fd
    cleared = record d { revents = without_in d.revents }

    abbrev cleared_world : World
    cleared_world = record w { fds = update w.fds f (some cleared); calls = device fd r ∷ w.calls }

    cleared_watched : IsWatched cleared_world l f cleared x y
    cleared_watched = record {
      loop_address = watched.loop_address;
      fd_address = watched.fd_address;
      source_address = watched.source_address;
      loop_at = watched.loop_at;
      fd_at = update_self w.fds f (some cleared);
      source_at = watched.source_at;
      member = watched.member;
    }

    again-Turned : k.reads fd w ≡ again → Turned fs again (dispatch_events (installed k o) l w)
    again-Turned e =
        let v = called w (device fd r) in
        let (fds, run, off, others) =
          retire_first-off cleared_world l f cleared x y cleared_watched fs list spent in
        (
          fds,
          dispatch_events-valid w l f d x y watched (installed k o) cleared_world _ fs list
              (dispatch_first-not_ready w l f d x y watched (installed k o) cleared_world (
                check-reads in_set
                ∙ unfold after_read in
                  rw (e, fetch-ok w.fds f d v watched.fd_address watched.fd_at)))
              run,
          off,
          λ g ne. others g ne ∙ update_ne w.fds f g (some cleared) ne,
        )

    -- In the turn of a timeout or of a signal whose descriptor waits with EPOLLIN, and whose callback
    -- returns true and leaves the objects as they are: the descriptor is read once. If there was
    -- something to read, a timeout is armed again, and the descriptor stays first in the list, with
    -- its events. If the read failed, it stays there too. Only at EAGAIN it leaves the list, unmarked,
    -- and no other descriptor changes.
    pub turn-Turned : Turned fs (k.reads fd w) (dispatch_events (installed k o) l w)
    turn-Turned = by_reading (k.reads fd w) refl
      where
        by_reading :
            (a : Reading) → k.reads fd w ≡ a → Turned fs a (dispatch_events (installed k o) l w)
        by_reading full e = full-Turned e
        by_reading again e = again-Turned e
        by_reading failed e = failed-Turned e

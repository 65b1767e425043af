-- ===== src/Event/Devices.antt =====
-- The sources that the library brings: src/hev-event-source-timeout.c, src/hev-event-source-idle.c,
-- src/hev-event-source-signal.c and src/hev-event-source-fds.c.
--
-- The functions that these files put into a source have addresses of their own, which no function of
-- a user has, and `installed` has them called there. `self` points to a source, so that what the
-- subtype adds is read at the source's address.
use Prim.Native.Nat.{bit_and}
use hev_lib.Base.{
  ℕ, ◌+◌, ◌-◌, ◌*◌, ◌/◌, ◌%◌, ◌^◌, Bool, true, false, none, some, ◌==◌, if◌then◌else◌,
}
use hev_lib.Event.World.{
  Device, timer, idler, signaller, set_timer, read_timer, read_signal, write_event, read_event,
  close, device, block_signal, World, Cmd, pure, fail, ◌>>=◌, ◌>>◌, fetch, update, load_fd, put_fd,
  load_source, log, ok, Outside,
}
use hev_lib.Event.Source.{GivenFuncs, source_new, set_priority, add_fd}

-- What a read of a device's descriptor gives: what was asked for, the error EAGAIN, or another one.
pub data Reading : Type 0 where
  full : Reading
  again : Reading
  failed : Reading

-- The kernel's answers, and the functions of the user that the sources for descriptors call.
-- A descriptor is -1, as a bit pattern, where there is none.
pub record Kernel : Type 0 where
  pub timer_create : World → ℕ
  pub event_create : World → ℕ
  pub signal_create : (signal : ℕ) → World → ℕ
  pub reads : (fd : ℕ) → World → Reading
  pub fds_callback : (func fd item : ℕ) → Cmd Bool

abbrev pub no_fd : ℕ
no_fd = 2 ^ 32 - 1

-- `EPOLLIN | EPOLLET`
abbrev pub edge_in : ℕ
edge_in = 2 ^ 31 + 1

-- `fd->revents &= ~EPOLLIN`, for EPOLLIN is 1
abbrev pub without_in : ℕ → ℕ
without_in r = r - r % 2

abbrev pub timeout_prepare_at : ℕ
timeout_prepare_at = 1

abbrev pub timeout_check_at : ℕ
timeout_check_at = 2

abbrev pub timeout_finalize_at : ℕ
timeout_finalize_at = 3

abbrev pub idle_prepare_at : ℕ
idle_prepare_at = 4

abbrev pub idle_check_at : ℕ
idle_check_at = 5

abbrev pub idle_finalize_at : ℕ
idle_finalize_at = 6

abbrev pub signal_check_at : ℕ
signal_check_at = 7

abbrev pub signal_finalize_at : ℕ
signal_finalize_at = 8

abbrev pub fds_dispatch_at : ℕ
fds_dispatch_at = 9

abbrev pub timeout_funcs : GivenFuncs
timeout_funcs = record {
  prepare = some timeout_prepare_at;
  check = some timeout_check_at;
  dispatch = none;
  finalize = some timeout_finalize_at;
}

abbrev pub idle_funcs : GivenFuncs
idle_funcs = record {
  prepare = some idle_prepare_at;
  check = some idle_check_at;
  dispatch = none;
  finalize = some idle_finalize_at;
}

abbrev pub signal_funcs : GivenFuncs
signal_funcs = record {
  prepare = none;
  check = some signal_check_at;
  dispatch = none;
  finalize = some signal_finalize_at;
}

abbrev pub fds_funcs : GivenFuncs
fds_funcs = record {
  prepare = none;
  check = none;
  dispatch = some fds_dispatch_at;
  finalize = none;
}

-- What the subtype adds to a live source, and the first write to it.
unfoldable pub load_device : ℕ → Cmd Device
load_device s = load_source s >>= λ _ w. fetch w.devices s w

abbrev pub put_device : ℕ → Device → Cmd (Unit {0})
put_device s d w = ok tt (record w { devices = update w.devices s (some d) })

abbrev pub timer_of : Device → Cmd (ℕ × ℕ)
timer_of (timer fd interval) = pure (fd, interval)
timer_of (idler fd) = fail
timer_of (signaller fd) = fail

abbrev pub event_fd_of : Device → Cmd ℕ
event_fd_of (timer fd interval) = fail
event_fd_of (idler fd) = pure fd
event_fd_of (signaller fd) = fail

abbrev pub signal_fd_of : Device → Cmd ℕ
signal_fd_of (timer fd interval) = fail
signal_fd_of (idler fd) = fail
signal_fd_of (signaller fd) = pure fd

unfoldable pub timeout_new : Kernel → Outside → (interval : ℕ) → Cmd ℕ
unfolding source_new add_fd
timeout_new k o interval w =
    let fd = k.timer_create w in
    (if fd == no_fd
        then pure 0
        else (source_new o (some timeout_funcs) true >>= λ s.
            if s == 0
            then (log (close fd) >> pure 0)
            else (put_device s (timer fd interval) >> add_fd o s fd edge_in >> pure s)))
      w

-- `interval % 1000 * 1000 * 1000` is computed as an `unsigned int`.
unfoldable pub timeout_prepare : (s : ℕ) → Cmd Bool
unfolding load_device
timeout_prepare s = load_device s >>= timer_of >>= λ t.
    log (device t.0 (set_timer (t.1 / 1000) (t.1 % 1000 * 1000 % 2 ^ 32 * 1000 % 2 ^ 32)))
    >> pure true

-- What follows the read in both checks.
unfoldable pub after_read : (f : ℕ) → Reading → Cmd Bool
after_read f full = pure true
after_read f again =
    load_fd f >>= λ d. put_fd f (some (record d { revents = without_in d.revents })) >> pure false
after_read f failed = pure false

unfoldable pub timeout_check : Kernel → (s f : ℕ) → Cmd Bool
unfolding load_device after_read
timeout_check k s f = load_fd f >>= λ d.
    if bit_and 1 d.revents == 0
    then pure false
    else (load_device s >>= timer_of >>= λ t w.
        (log (device t.0 read_timer) >> after_read f (k.reads t.0 w)) w)

unfoldable pub timeout_finalize : (s : ℕ) → Cmd (Unit {0})
unfolding load_device
timeout_finalize s = load_device s >>= timer_of >>= λ t. log (close t.0)

-- Its priority is `INT32_MIN`.
unfoldable pub idle_new : Kernel → Outside → Cmd ℕ
unfolding source_new set_priority add_fd
idle_new k o w =
    let fd = k.event_create w in
    (if fd == no_fd
        then pure 0
        else (source_new o (some idle_funcs) true >>= λ s.
            if s == 0
            then (log (close fd) >> pure 0)
            else (put_device s (idler fd)
                >> set_priority s (2 ^ 31)
                >> add_fd o s fd edge_in
                >> pure s)))
      w

unfoldable pub idle_prepare : (s : ℕ) → Cmd Bool
unfolding load_device
idle_prepare s = load_device s >>= event_fd_of >>= λ fd. log (device fd write_event) >> pure true

unfoldable pub idle_check : (s f : ℕ) → Cmd Bool
unfolding load_device
idle_check s f = load_fd f >>= λ d.
    if bit_and 1 d.revents == 0
    then pure false
    else (load_device s >>= event_fd_of >>= λ fd. log (device fd read_event) >> load_fd f >>= λ e.
        put_fd f (some (record e { revents = without_in e.revents })) >> pure true)

unfoldable pub idle_finalize : (s : ℕ) → Cmd (Unit {0})
unfolding load_device
idle_finalize s = load_device s >>= event_fd_of >>= λ fd. log (close fd)

unfoldable pub signal_new : Kernel → Outside → (signal : ℕ) → Cmd ℕ
unfolding source_new add_fd
signal_new k o signal = log (block_signal signal) >> λ w.
    let fd = k.signal_create signal w in
    (if fd == no_fd
        then pure 0
        else (source_new o (some signal_funcs) true >>= λ s.
            if s == 0
            then (log (close fd) >> pure 0)
            else (put_device s (signaller fd) >> add_fd o s fd edge_in >> pure s)))
      w

unfoldable pub signal_check : Kernel → (s f : ℕ) → Cmd Bool
unfolding load_device after_read
signal_check k s f = load_fd f >>= λ d.
    if bit_and 1 d.revents == 0
    then pure false
    else (load_device s >>= signal_fd_of >>= λ fd w.
        (log (device fd read_signal) >> after_read f (k.reads fd w)) w)

unfoldable pub signal_finalize : (s : ℕ) → Cmd (Unit {0})
unfolding load_device
signal_finalize s = load_device s >>= signal_fd_of >>= λ fd. log (close fd)

unfoldable pub fds_new : Outside → Cmd ℕ
unfolding source_new
fds_new o = source_new o (some fds_funcs) true

unfoldable pub fds_dispatch : Kernel → (s f callback item : ℕ) → Cmd Bool
fds_dispatch k s f callback item = k.fds_callback callback f item

-- The library's functions at their addresses, and the user's at the others.
abbrev pub installed : Kernel → Outside → Outside
installed k o = record o {
  prepare = λ func s.
      if func == timeout_prepare_at
      then timeout_prepare s
      else if func == idle_prepare_at
      then idle_prepare s
      else o.prepare func s;
  check = λ func s f.
      if func == timeout_check_at
      then timeout_check k s f
      else if func == idle_check_at
      then idle_check s f
      else if func == signal_check_at
      then signal_check k s f
      else o.check func s f;
  dispatch = λ func s f callback item.
      if func == fds_dispatch_at
      then fds_dispatch k s f callback item
      else o.dispatch func s f callback item;
  finalize = λ func s.
      if func == timeout_finalize_at
      then timeout_finalize s
      else if func == idle_finalize_at
      then idle_finalize s
      else if func == signal_finalize_at
      then signal_finalize s
      else o.finalize func s;
}

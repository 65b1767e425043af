-- ===== src/Event/DeviceTests.antt =====
-- The theorems on timeouts, signals and idle sources in concrete worlds.
use hev_lib.Base.{◌≡◌, refl, true, false, none, some, [], ◌∷◌, arith}
use hev_lib.Event.World.{
  fetch, Fd, Source, Loop, Device, timer, idler, device, read_timer, World, update, done, pure,
  Outside, interrupted,
}
use hev_lib.Event.Source.{filled}
use hev_lib.Event.Loop.{dispatch_events}
use hev_lib.Event.Devices.{
  Kernel, full, again, edge_in, timeout_funcs, idle_funcs, timeout_check, timeout_prepare,
  installed,
}
use hev_lib.Event.Dispatching.{IsWatched}
use hev_lib.Event.Dismissing.{Dismissed, turn-Dismissed}
use hev_lib.Event.Draining.{of_timer, rearmed, Turned, turn-Turned}
use hev_lib.Event.Arming.{Armed, timeout_prepare-Armed, Rearmed, idle-Rearmed}

-- There is always memory, and the functions of the user do nothing.
abbrev calm : Outside
calm = record {
  accepts = λ c w. true;
  epoll_create = λ w. 5;
  epoll_wait = λ e t w. interrupted;
  has_node = λ w. true;
  alloc = λ w. 4096;
  prepare = λ f s. pure true;
  check = λ f s d. pure true;
  dispatch = λ f s d c x. pure true;
  finalize = λ f s. done;
  callback = λ f x. pure true;
  notify = λ f x. done;
}

-- The timer has not run out.
abbrev kernel : Kernel
kernel = record {
  timer_create = λ w. 3;
  event_create = λ w. 3;
  signal_create = λ n w. 3;
  reads = λ fd w. again;
  fds_callback = λ f d x. pure true;
}

abbrev source : Source
source = record {
  name = none;
  priority = 0;
  ref_count = 1;
  funcs = filled timeout_funcs;
  callback = record { item = 0; callback = 11; notify = 0 };
  fds = 24 ∷ [];
  loop = 64;
}

abbrev waiting : Fd
waiting = record {
  fd = 3;
  events = edge_in;
  revents = 1;
  dispatched = 1;
  ref_count = 2;
  source = 8;
  item = 0;
}

abbrev main_loop : Loop
main_loop = record { epoll_fd = 5; ref_count = 1; run = true; sources = 8 ∷ []; fd_list = 24 ∷ [] }

-- Descriptor 24 of source 8 waits with EPOLLIN.
abbrev world : Source → Device → World
world x dv = record {
  fds = update (λ _. none) 24 (some waiting);
  sources = update (λ _. none) 8 (some x);
  loops = update (λ _. none) 64 (some main_loop);
  devices = update (λ _. none) 8 (some dv);
  calls = [];
}

world-IsWatched :
    (x : Source) (dv : Device) → x.loop ≡ 64 → IsWatched (world x dv) 64 24 waiting x main_loop
world-IsWatched x dv ours = record {
  loop_address = omega arith;
  fd_address = omega arith;
  source_address = omega arith;
  loop_at = refl;
  fd_at = refl;
  source_at = refl;
  member = ours;
}

turn-Turned_example :
    Turned kernel calm
      (world source (timer 3 1500))
      64
      24
      waiting
      source
      main_loop
      (world-IsWatched source (timer 3 1500) refl)
      3
      read_timer
      (rearmed 3 1500 ∷ [])
      (of_timer 1500 refl refl refl refl refl)
      []
      again
      (dispatch_events (installed kernel calm) 64 (world source (timer 3 1500)))
turn-Turned_example =
    turn-Turned kernel calm (world source (timer 3 1500)) 64 24 waiting source main_loop
      (world-IsWatched source (timer 3 1500) refl) 3 read_timer (rearmed 3 1500 ∷ [])
      (of_timer 1500 refl refl refl refl refl) [] refl refl refl (omega arith) refl (λ v. refl)

timeout_prepare-Armed_example :
    Armed (world source (timer 3 1500)) 3 1500 (timeout_prepare 8 (world source (timer 3 1500)))
timeout_prepare-Armed_example =
    timeout_prepare-Armed (world source (timer 3 1500)) 8 3 1500 source (omega arith) refl refl
      (omega arith)

abbrev idle_source : Source
idle_source = record source { funcs = filled idle_funcs }

idle-Rearmed_example :
    Rearmed kernel calm
      (world idle_source (idler 3))
      64
      24
      waiting
      idle_source
      main_loop
      (world-IsWatched idle_source (idler 3) refl)
      3
      refl
      refl
      refl
      refl
      refl
      refl
      (omega arith)
      (λ v. refl)
      []
      (dispatch_events (installed kernel calm) 64 (world idle_source (idler 3)))
idle-Rearmed_example =
    idle-Rearmed kernel calm (world idle_source (idler 3)) 64 24 waiting idle_source main_loop
      (world-IsWatched idle_source (idler 3) refl) 3 refl refl refl refl refl refl (omega arith)
      (λ v. refl) [] refl

abbrev nothing : World
nothing = record (world source (timer 3 1500)) {
  fds = λ _. none;
  sources = λ _. none;
  devices = λ _. none;
}

-- A callback that has had enough.
abbrev leaving : Outside
leaving = record calm { callback = λ f x. pure false }

-- The timer has run out.
abbrev run_out : Kernel
run_out = record kernel { reads = λ fd w. full }

abbrev tired : Source
tired = record source { ref_count = 2 }

-- What the source's check leaves.
abbrev checked : World
checked = record (world tired (timer 3 1500)) { calls = device 3 read_timer ∷ [] }

checked-IsWatched : IsWatched checked 64 24 waiting tired main_loop
checked-IsWatched = record {
  loop_address = omega arith;
  fd_address = omega arith;
  source_address = omega arith;
  loop_at = refl;
  fd_at = refl;
  source_at = refl;
  member = refl;
}

turn-Dismissed_example :
    Dismissed
      (installed run_out leaving)
      checked
      64
      24
      waiting
      tired
      main_loop
      checked-IsWatched
      []
      (dispatch_events (installed run_out leaving) 64 (world tired (timer 3 1500)))
unfolding timeout_check fetch
turn-Dismissed_example =
    turn-Dismissed (installed run_out leaving) checked 64 24 waiting tired main_loop
      checked-IsWatched (world tired (timer 3 1500)) checked waiting
      (world-IsWatched tired (timer 3 1500) refl) refl [] refl refl refl refl refl (omega arith)
      (omega arith) (omega arith) (omega arith) ((omega arith, waiting, refl), tt)

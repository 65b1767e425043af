-- ===== src/Event/Tests.antt =====
-- The theorems on the event loop and its sources in a concrete world.
use hev_lib.Base.{
  ℕ, ◌-◌, ◌^◌, ◌≡◌, inl, inr, refl, true, not, none, some, List, [], ◌∷◌, arith, ◌==◌, Bool-cases,
}
use hev_lib.Event.World.{
  standard, Fd, Source, Loop, World, fault, update, done, pure, Outside, interrupted,
}
use hev_lib.Event.Source.{set_name}
use hev_lib.Event.Order.{IsLive, Placed, insert_sorted-Placed}
use hev_lib.Event.Changing.{among, IsQueue}
use hev_lib.Event.Gathering.{GatheredAll, gather-IsQueue}
use hev_lib.Event.Leaving.{CameAndWent, add-del_source}
use hev_lib.Event.Misuse.{set_name-fault}

-- There is always memory, and the functions of the user do nothing.
abbrev calm : Outside
calm = record {
  accepts = λ c w. true;
  epoll_create = λ w. 5;
  epoll_wait = λ e t w. interrupted;
  has_node = λ w. true;
  alloc = λ w. 4096;
  prepare = λ f s. pure true;
  check = λ f s d. pure true;
  dispatch = λ f s d c x. pure true;
  finalize = λ f s. done;
  callback = λ f x. pure true;
  notify = λ f x. done;
}

abbrev source_of : (priority loop : ℕ) → List ℕ → Source
source_of p l fs = record {
  name = none;
  priority = p;
  ref_count = 1;
  funcs = record { prepare = standard; check = standard; dispatch = standard; finalize = standard };
  callback = record { item = 0; callback = 0; notify = 0 };
  fds = fs;
  loop = l;
}

abbrev fd_of : (fd dispatched source : ℕ) → Fd
fd_of k dispatched s = record {
  fd = k;
  events = 1;
  revents = 0;
  dispatched = dispatched;
  ref_count = 1;
  source = s;
  item = 0;
}

abbrev main_loop : Loop
main_loop = record { epoll_fd = 5; ref_count = 1; run = true; sources = 8 ∷ []; fd_list = 24 ∷ [] }

-- Source 8 of priority 1, whose descriptor 24 waits in the queue, and source 16 of priority -1, with
-- descriptor 32.
abbrev world : World
world = record {
  fds = update (update (λ _. none) 24 (some (fd_of 3 1 8))) 32 (some (fd_of 4 0 16));
  sources =
      update (update (λ _. none) 8 (some (source_of 1 64 (24 ∷ [])))) 16
        (some (source_of (2 ^ 32 - 1) 0 (32 ∷ [])));
  loops = update (λ _. none) 64 (some main_loop);
  devices = λ _. none;
  calls = [];
}

IsLive-24 : IsLive world 24
IsLive-24 = record {
  object = fd_of 3 1 8;
  address = omega arith;
  at = refl;
  owned = inr (source_of 1 64 (24 ∷ []), refl);
}

IsLive-32 : IsLive world 32
IsLive-32 = record {
  object = fd_of 4 0 16;
  address = omega arith;
  at = refl;
  owned = inr (source_of (2 ^ 32 - 1) 0 (32 ∷ []), refl);
}

world-marked :
    (f : ℕ) (d : Fd) → world.fds f ≡ some d → (d.dispatched == 0) ≡ not (among f (24 ∷ []))
world-marked f d at = elim (Bool-cases (f == 32)) [ inl e ↦ ground arith | inr e ↦ ground arith ]

world-IsQueue : IsQueue world 64 (24 ∷ [])
world-IsQueue = record {
  loop = main_loop;
  address = omega arith;
  at = refl;
  list = refl;
  lives = (IsLive-24, tt);
  sorted = (tt, tt);
  distinct = (refl, tt);
  marked = world-marked;
}

insert_sorted-Placed_example : Placed calm world 32 (24 ∷ [])
insert_sorted-Placed_example =
    insert_sorted-Placed calm world 32 (24 ∷ []) refl IsLive-32 (IsLive-24, tt) (tt, tt)

gather-IsQueue_example : GatheredAll calm 64 ((32, 1) ∷ (24, 4) ∷ []) world (24 ∷ [])
gather-IsQueue_example =
    gather-IsQueue calm 64 ((32, 1) ∷ (24, 4) ∷ []) world (24 ∷ []) (λ v. refl) world-IsQueue
      (IsLive-32, (IsLive-24, tt))

add-del_source_example : CameAndWent calm 64 16 (source_of (2 ^ 32 - 1) 0 (32 ∷ [])) main_loop world
add-del_source_example =
    add-del_source calm 64 16 (source_of (2 ^ 32 - 1) 0 (32 ∷ [])) main_loop world (omega arith)
      (omega arith) refl refl ((omega arith, fd_of 4 0 16, refl), tt) (omega arith) (omega arith)
      refl refl (λ v. refl)

set_name-fault_example : set_name calm 8 (some (104 ∷ 105 ∷ [])) world ≡ fault
set_name-fault_example =
    set_name-fault calm 8 (source_of 1 64 (24 ∷ [])) world (some (104 ∷ 105 ∷ [])) (λ _. refl)

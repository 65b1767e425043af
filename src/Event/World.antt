-- ===== src/Event/World.antt =====
-- The state behind src/hev-event-source-fd.h, src/hev-event-source.c and src/hev-event-loop.c: the
-- objects by their addresses, commands that read and write them, and what lies outside.
--
-- A pointer is a number, NULL is 0. An `int` is its bit pattern of 32 bits. A list of src/hev-slist.c
-- is the list of its items.
use hev_lib.Base.{
  ℕ, ◌+◌, ◌-◌, ◌%◌, ◌^◌, Bool, Option, none, some, List, [], ◌∷◌, ◌==◌, if◌then◌else◌,
}

-- `struct _HevEventSourceFD`
pub record Fd : Type 0 where
  pub fd : ℕ
  pub events : ℕ
  pub revents : ℕ
  pub dispatched : ℕ
  pub ref_count : ℕ
  pub source : ℕ
  pub item : ℕ

-- A function pointer of a source, once `new` has put a default where there was none.
pub data Handler : Type 0 where
  standard : Handler
  given : ℕ → Handler

-- `struct _HevEventSourceFuncs`
pub record Funcs : Type 0 where
  pub prepare : Handler
  pub check : Handler
  pub dispatch : Handler
  pub finalize : Handler

-- The anonymous struct `callback`; `notify` is 0 where there is none.
pub record Callback : Type 0 where
  pub item : ℕ
  pub callback : ℕ
  pub notify : ℕ

-- `struct _HevEventSource`; `name` is `none` for NULL, else the bytes of the string.
pub record Source : Type 0 where
  pub name : Option (List ℕ)
  pub priority : ℕ
  pub ref_count : ℕ
  pub funcs : Funcs
  pub callback : Callback
  pub fds : List ℕ
  pub loop : ℕ

-- `struct _HevEventLoop`
pub record Loop : Type 0 where
  pub epoll_fd : ℕ
  pub ref_count : ℕ
  pub run : Bool
  pub sources : List ℕ
  pub fd_list : List ℕ

-- What the subtypes of a source have behind it: `struct _HevEventSourceTimeout`,
-- `struct _HevEventSourceIdle` and `struct _HevEventSourceSignal`.
pub data Device : Type 0 where
  timer : (timer_fd interval : ℕ) → Device
  idler : (event_fd : ℕ) → Device
  signaller : (signal_fd : ℕ) → Device

-- What a device's descriptor is asked for.
pub data Request : Type 0 where
  set_timer : (sec nsec : ℕ) → Request
  read_timer : Request
  read_signal : Request
  write_event : Request
  read_event : Request

-- A call that leaves the program.
pub data Call : Type 0 where
  ctl_add : (epoll_fd fd events pointer : ℕ) → Call
  ctl_del : (epoll_fd fd : ℕ) → Call
  close : (fd : ℕ) → Call
  device : (fd : ℕ) → Request → Call
  block_signal : (signal : ℕ) → Call

-- The objects at their addresses, and the calls so far, the last one first.
pub record World : Type 0 where
  pub fds : ℕ → Option Fd
  pub sources : ℕ → Option Source
  pub loops : ℕ → Option Loop
  pub devices : ℕ → Option Device
  pub calls : List Call

-- `fault` is an access to what is no live object, or past the end of a block; `stuck` is a loop that
-- has used up its rounds.
pub data Outcome (A : Type 0) : Type 0 where
  ok : A → World → Outcome A
  fault : Outcome A
  stuck : Outcome A

abbrev pub Cmd : Type 0 → Type 0
Cmd A = World → Outcome A

abbrev pub pure : {A : Type 0} → A → Cmd A
pure = ok

abbrev pub done : Cmd (Unit {0})
done = ok tt

abbrev pub fail : {A : Type 0} → Cmd A
fail w = fault

abbrev pub then_do : {A B : Type 0} → Outcome A → (A → Cmd B) → Outcome B
then_do (ok a w) k = k a w
then_do fault k = fault
then_do stuck k = stuck

infixl 5 ◌>>=◌ ◌>>◌
abbrev pub ◌>>=◌ : {A B : Type 0} → Cmd A → (A → Cmd B) → Cmd B
c >>= k = λ w. then_do (c w) k

abbrev pub ◌>>◌ : {A B : Type 0} → Cmd A → Cmd B → Cmd B
c >> d = c >>= λ _. d

abbrev pub update : {A : Type 0} → (ℕ → Option A) → ℕ → Option A → ℕ → Option A
update m p c q = if q == p then c else m q

-- The object at an address.
unfoldable pub fetch : {A : Type 0} → (ℕ → Option A) → ℕ → Cmd A
fetch m p w = if p == 0 then fault else elim (m p) [ none ↦ fault | some x ↦ ok x w ]

abbrev pub load_fd : ℕ → Cmd Fd
load_fd p w = fetch w.fds p w

abbrev pub load_source : ℕ → Cmd Source
load_source p w = fetch w.sources p w

abbrev pub load_loop : ℕ → Cmd Loop
load_loop p w = fetch w.loops p w

-- What is written to an address; `none` frees it.
abbrev pub put_fd : ℕ → Option Fd → Cmd (Unit {0})
put_fd p c w = ok tt (record w { fds = update w.fds p c })

abbrev pub put_source : ℕ → Option Source → Cmd (Unit {0})
put_source p c w = ok tt (record w { sources = update w.sources p c })

abbrev pub put_loop : ℕ → Option Loop → Cmd (Unit {0})
put_loop p c w = ok tt (record w { loops = update w.loops p c })

abbrev pub log : Call → Cmd (Unit {0})
log c w = ok tt (record w { calls = c ∷ w.calls })

-- A handler for each item of a list, in order.
unfoldable pub each : (ℕ → Cmd (Unit {0})) → List ℕ → Cmd (Unit {0})
each f [] = done
each f (x ∷ xs) = f x >> each f xs

-- What epoll_wait returns: events with the pointers that were registered, or an error.
pub data Waited : Type 0 where
  woken : List (ℕ × ℕ) → Waited
  interrupted : Waited
  failed : Waited

-- What lies outside: the kernel's answers, the allocator's, and the functions of the program that
-- uses the library, which may do anything to the objects.
pub record Outside : Type 0 where
  -- whether epoll_ctl returns 0
  pub accepts : Call → World → Bool
  pub epoll_create : World → ℕ
  pub epoll_wait : (epoll_fd timeout : ℕ) → World → Waited
  -- whether there is memory for a node of a list, or for a string
  pub has_node : World → Bool
  -- the address of a new object, 0 where there is no memory
  pub alloc : World → ℕ
  pub prepare : (func source : ℕ) → Cmd Bool
  pub check : (func source fd : ℕ) → Cmd Bool
  pub dispatch : (func source fd callback item : ℕ) → Cmd Bool
  pub finalize : (func source : ℕ) → Cmd (Unit {0})
  pub callback : (func item : ℕ) → Cmd Bool
  pub notify : (func item : ℕ) → Cmd (Unit {0})

-- `hev_slist_prepend` and `hev_slist_remove`, by the items.
unfoldable pub prepend : Outside → ℕ → List ℕ → Cmd (List ℕ)
prepend o x xs w = ok (if o.has_node w then x ∷ xs else xs) w

unfoldable pub remove : ℕ → List ℕ → List ℕ
remove x [] = []
remove x (y ∷ ys) = let rest = remove x ys in if x == y then ys else y ∷ rest

-- `count --` on an `unsigned int`
abbrev pub less_one : ℕ → ℕ
less_one n = (n + (2 ^ 32 - 1)) % 2 ^ 32

-- ===== src/Event/Making.antt =====
-- What making a timeout or a signal comes to, by what there is memory for.
use hev_lib.Base.{ℕ, ◌≡◌, ◌≢◌, true, false, none, some, List, [], ◌∷◌, ◌==◌, if◌then◌else◌}
use hev_lib.Event.World.{
  Fd, Source, Device, close, World, Outcome, ok, pure, ◌>>=◌, ◌>>◌, log, update, Outside,
}
use hev_lib.Event.Source.{GivenFuncs, filled, source_new, add_fd}
use hev_lib.Event.Devices.{edge_in, no_fd, put_device}

module _ (o : Outside) (w : World) (fd : ℕ) (funcs : GivenFuncs) (dv : Device) where
  -- The new source, with the descriptors that it has.
  abbrev pub source_with : List ℕ → Source
  source_with fs = record {
    name = none;
    priority = 0;
    ref_count = 1;
    funcs = filled funcs;
    callback = record { item = 0; callback = 0; notify = 0 };
    fds = fs;
    loop = 0;
  }

  abbrev pub address : ℕ
  address = o.alloc w

  -- The world with the source, before its descriptor is added.
  abbrev pub with_source : World
  with_source = record w {
    sources = update w.sources address (some (source_with []));
    devices = update w.devices address (some dv);
  }

  abbrev pub object : Fd
  object = record {
    fd = fd;
    events = edge_in;
    revents = 0;
    dispatched = 0;
    ref_count = 1;
    source = address;
    item = 0;
  }

  abbrev pub with_object : World
  with_object = record with_source { fds = update w.fds (o.alloc with_source) (some object) }

  abbrev listed : List ℕ → World
  listed fs = record with_object {
    sources = update with_source.sources address (some (source_with fs));
  }

  -- What the call comes to. Where there is no memory for the object of the descriptor, or for the
  -- list, the call returns a source that watches nothing.
  pub data Made (run : Outcome ℕ) : Type 0 where
    no_descriptor : fd ≡ no_fd → run ≡ ok 0 w → Made run
    no_source :
        fd ≢ no_fd → address ≡ 0 → run ≡ ok 0 (record w { calls = close fd ∷ w.calls }) → Made run
    no_object :
        fd ≢ no_fd → address ≢ 0 → o.alloc with_source ≡ 0 → run ≡ ok address with_source → Made run
    no_node :
        fd ≢ no_fd
        → address ≢ 0
        → o.alloc with_source ≢ 0
        → o.has_node with_object ≡ false
        → (v : World) → run ≡ ok address v
        → v.sources address ≡ some (source_with [])
        → v.devices address ≡ some dv
        → v.fds (o.alloc with_source) ≡ some object
        → v.calls ≡ w.calls
        → Made run
    watching :
        fd ≢ no_fd
        → address ≢ 0
        → o.alloc with_source ≢ 0
        → (v : World) → run ≡ ok address v
        → v.sources address ≡ some (source_with (o.alloc with_source ∷ []))
        → v.devices address ≡ some dv
        → v.fds (o.alloc with_source) ≡ some object
        → v.calls ≡ w.calls
        → Made run

  abbrev make_device : Outcome ℕ
  make_device =
      (if fd == no_fd
          then pure 0
          else (source_new o (some funcs) true >>= λ s.
              if s == 0
              then (log (close fd) >> pure 0)
              else (put_device s dv >> add_fd o s fd edge_in >> pure s)))
        w

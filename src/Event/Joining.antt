-- ===== src/Event/Joining.antt =====
-- `hev_event_loop_add_source` and `hev_event_loop_del_source` of src/hev-event-loop.c.
use hev_lib.Base.{
  ℕ, ◌+◌, ◌%◌, ◌^◌, ◌≤◌, ◌<◌, ◌≡◌, ◌≢◌, refl, Bool, true, false, ◌&&◌, Option, none, some, List, [],
  ◌∷◌, map, arith, ◌==◌, if◌then◌else◌, All,
}
use hev_lib.Event.World.{
  standard, Fd, Source, Loop, Call, ctl_add, ctl_del, close, device, block_signal, World, Outcome,
  ok, update, Outside, ◌>>◌, done, each,
}
use hev_lib.Event.Source.{set_loop, source_ref, loop_add_fd}
use hev_lib.Event.Loop.{add_source}
use hev_lib.Event.Order.{fetch-ok, prepend-ok}
use hev_lib.Event.Changing.{among, update_self}

-- Whether the kernel was last told to watch a descriptor, or to stop.
unfoldable pub interest : (epoll_fd fd : ℕ) → List Call → Bool
interest e k [] = false
interest e k (ctl_add e' k' events p ∷ cs) =
    if (e == e') && (k == k') then true else interest e k cs
interest e k (ctl_del e' k' ∷ cs) = if (e == e') && (k == k') then false else interest e k cs
interest e k (close e' ∷ cs) = interest e k cs
interest e k (device d r ∷ cs) = interest e k cs
interest e k (block_signal n ∷ cs) = interest e k cs

-- The object of a descriptor is live, with a number.
abbrev pub Watches : (ℕ → Option Fd) → ℕ → Type 0
Watches fds f = (f ≢ 0) × (d : Fd) × (fds f ≡ some d)

-- The number that an object watches.
abbrev pub number : (ℕ → Option Fd) → ℕ → ℕ
number fds f = elim (fds f) [ none ↦ 0 | some d ↦ d.fd ]

pub number-at : (fds : ℕ → Option Fd) (f : ℕ) (d : Fd) → fds f ≡ some d → number fds f ≡ d.fd
number-at fds f d at = ground arith

-- A run of calls that changes what the kernel watches, and nothing else.
pub record Told (w : World) (e : ℕ) (on : Bool) (fs : List ℕ) (run : Outcome (Unit {0}))
    : Type 0 where
  pub calls : List Call
  pub returns : run ≡ ok tt (record w { calls = calls })
  pub now :
      (k : ℕ)
      → interest e k calls ≡ (if among k (map (number w.fds) fs) then on else interest e k w.calls)

module _ (o : Outside) (l : ℕ) (live : l ≢ 0) where
  add-Told :
      (y : Loop) (fs : List ℕ) (w : World)
      → w.loops l ≡ some y
      → All (Watches w.fds) fs
      → Told w y.epoll_fd true fs (each (λ f. loop_add_fd o l f >> done) fs w)
  unfolding each loop_add_fd interest
  add-Told y [] w at fds = record { calls = w.calls; returns = refl; now = λ k. refl }
  add-Told y (f ∷ fs) w at ((a, d, p), fds) =
      let call = ctl_add y.epoll_fd d.fd (d.events % 2 ^ 31 + 2 ^ 31) f in
      let r = add-Told y fs (record w { calls = call ∷ w.calls }) at fds in
      record {
        calls = r.calls;
        returns = rw (fetch-ok w.fds f d w a p, fetch-ok w.loops l y w live at) r.returns;
        now = λ k. ground (arith, r.now k, number-at w.fds f d p);
      }

  module _ (s : ℕ) (x : Source) (y : Loop) (w : World) (address : s ≢ 0) (at : w.sources s ≡ some x)
      (loop_at : w.loops l ≡ some y) (fds : All (Watches w.fds) x.fds) (low : 1 ≤ x.ref_count)
      (high : x.ref_count < 2 ^ 32) where
    -- The world after the source was added.
    pub record Joined : Type 0 where
      pub after : World
      pub returns : add_source o l s w ≡ ok true after
      pub source :
          after.sources s ≡ some (record x { loop = l; ref_count = (x.ref_count + 1) % 2 ^ 32 })
      pub loop : after.loops l ≡ some (record y { sources = s ∷ y.sources })
      pub same_fds : after.fds ≡ w.fds
      pub others : (q : ℕ) → q ≢ s → after.sources q ≡ w.sources q
      pub now :
          (k : ℕ)
          → interest y.epoll_fd k after.calls
            ≡ (if among k (map (number w.fds) x.fds) then true else interest y.epoll_fd k w.calls)

    abbrev kept : Source
    kept = record x { loop = l }

    abbrev held : Source
    held = record x { loop = l; ref_count = (x.ref_count + 1) % 2 ^ 32 }

    abbrev sources_then : ℕ → Option Source
    sources_then = update (update w.sources s (some kept)) s (some held)

    abbrev loops_then : ℕ → Option Loop
    loops_then = update w.loops l (some (record y { sources = s ∷ y.sources }))

    set_loop-free :
        x.loop ≡ 0 → set_loop s l w ≡ ok tt (record w { sources = update w.sources s (some kept) })
    unfolding set_loop
    set_loop-free free =
        let a : (s == 0) ≡ false = ground arith in
        let b : (x.loop == 0) ≡ true = ground arith in
        let c : (l == 0) ≡ false = ground arith in rw (a, fetch-ok w.sources s x w address at, b, c)

    source_ref-kept :
        source_ref s (record w { sources = update w.sources s (some kept) })
        ≡ ok s (record w { sources = sources_then })
    unfolding source_ref
    source_ref-kept =
        let a : (s == 0) ≡ false = ground arith in
        rw (
          a,
          fetch-ok (update w.sources s (some kept)) s kept
              (record w { sources = update w.sources s (some kept) }) address
              (update_self w.sources s (some kept)),
        )

    pub add_source-Joined :
        x.loop ≡ 0 → x.funcs.prepare ≡ standard → ((v : World) → o.has_node v ≡ true) → Joined
    unfolding add_source
    add_source-Joined free plain room =
        let w₁ : World = record w { sources = sources_then } in
        let w₂ : World = record w₁ { loops = loops_then } in
        let loop_now = update_self w.loops l (some (record y { sources = s ∷ y.sources })) in
        let source_now = update_self (update w.sources s (some kept)) s (some held) in
        let t = add-Told (record y { sources = s ∷ y.sources }) x.fds w₂ loop_now fds in
        let apart : (x.loop == l) ≡ false = ground arith in
        record {
          after = record w₂ { calls = t.calls };
          returns = rw (
            fetch-ok w.sources s x w address at,
            apart,
            set_loop-free free,
            source_ref-kept,
            fetch-ok w.loops l y w₁ live loop_at,
            prepend-ok o s y.sources w₁ (room w₁),
            fetch-ok sources_then s held w₂ address source_now,
            t.returns,
            fetch-ok sources_then s held (record w₂ { calls = t.calls }) address source_now,
            plain,
          );
          source = source_now;
          loop = loop_now;
          same_fds = refl;
          others = λ q ne. let e : (q == s) ≡ false = ground arith in rw e;
          now = t.now;
        }

-- ===== src/Event/Loop.antt =====
-- src/hev-event-loop.c: the event loop.
use Prim.Native.Nat.{bit_and, bit_or}
use hev_lib.Base.{
  ℕ, zero, suc, ◌+◌, ◌-◌, ◌%◌, ◌^◌, Bool, true, false, ◌||◌, Option, List, [], ◌∷◌, some, none, ltb,
  ◌==◌, if◌then◌else◌,
}
use hev_lib.Event.World.{
  close, ok, stuck, Cmd, pure, done, ◌>>=◌, ◌>>◌, load_fd, put_fd, load_source, load_loop, put_loop,
  log, each, Outside, woken, interrupted, failed, prepend, remove, less_one,
}
use hev_lib.Event.Fd.{fd_dispatch, dispatch_finish}
use hev_lib.Event.Source.{
  source_ref, source_unref, get_priority, get_loop, set_loop, loop_add_fd, loop_del_fd,
  call_prepare, call_check, call_dispatch,
}

unfoldable pub loop_new : Outside → Cmd ℕ
loop_new o w =
    let p = o.alloc w in
    (if p == 0
        then pure 0
        else (put_loop p (
              some (record {
                epoll_fd = o.epoll_create w;
                ref_count = 1;
                run = true;
                sources = [];
                fd_list = [];
              }))
            >> pure p))
      w

unfoldable pub loop_ref : ℕ → Cmd ℕ
loop_ref l = load_loop l >>= λ x.
    put_loop l (some (record x { ref_count = (x.ref_count + 1) % 2 ^ 32 })) >> pure l

unfoldable pub sources_free_handler : Outside → ℕ → Cmd (Unit {0})
unfolding set_loop source_unref
sources_free_handler o s = set_loop s 0 >> source_unref o s

unfoldable pub loop_unref : Outside → ℕ → Cmd (Unit {0})
unfolding dispatch_finish sources_free_handler
loop_unref o l = load_loop l >>= λ x.
    put_loop l (some (record x { ref_count = less_one x.ref_count }))
    >> (if ltb 0 (less_one x.ref_count) then done else (do
      y ← load_loop l
      _ ← each dispatch_finish y.fd_list
      z ← load_loop l
      _ ← each (sources_free_handler o) z.sources
      e ← load_loop l
      _ ← log (close e.epoll_fd)
      put_loop l none))

-- `a > b` on two values of type `int`.
abbrev pub int_gt : ℕ → ℕ → Bool
int_gt a b = ltb ((b + 2 ^ 31) % 2 ^ 32) ((a + 2 ^ 31) % 2 ^ 32)

-- The priority of the source of a watched descriptor.
unfoldable pub fd_priority : ℕ → Cmd ℕ
unfolding get_priority
fd_priority f = load_fd f >>= λ d. get_priority d.source

-- It looks for the first one of a lower priority and puts the new one before that.
unfoldable pub insert_sorted : Outside → (f : ℕ) → List ℕ → Cmd (List ℕ)
unfolding fd_priority prepend
insert_sorted o f [] = prepend o f []
insert_sorted o f (g ∷ gs) = do
  p ← fd_priority f
  q ← fd_priority g
  (if int_gt p q then prepend o f (g ∷ gs) else (insert_sorted o f gs >>= λ r. pure (g ∷ r)))

unfoldable pub add_source : Outside → (l s : ℕ) → Cmd Bool
unfolding set_loop source_ref loop_add_fd
add_source o l s = load_source s >>= λ x. if x.loop == l then pure false else (do
  _ ← set_loop s l
  _ ← source_ref s
  y ← load_loop l
  ss ← prepend o s y.sources
  _ ← put_loop l (some (record y { sources = ss }))
  z ← load_source s
  _ ← each (λ f. loop_add_fd o l f >> done) z.fds
  e ← load_source s
  _ ← call_prepare o e.funcs.prepare s
  pure true)

unfoldable pub del_source : Outside → (l s : ℕ) → Cmd Bool
unfolding set_loop source_unref loop_del_fd
del_source o l s = load_source s >>= λ x.
    if x.loop == l
    then (do
      _ ← set_loop s 0
      y ← load_loop l
      _ ← put_loop l (some (record y { sources = remove s y.sources }))
      z ← load_source s
      _ ← each (λ f. loop_del_fd o l f >> done) z.fds
      _ ← source_unref o s
      pure true)
    else pure false

-- What follows the call of a source's dispatch function; `true` says that the source is invalid.
unfoldable pub after_dispatch : Outside → (l s f : ℕ) → (res : Bool) → Cmd Bool
unfolding get_loop
after_dispatch o l s f res = load_fd f >>= λ d.
    if d.source == 0
    then pure false
    else if res
    then (get_loop s >>= λ k.
        (if k == l then (load_source s >>= λ x. call_prepare o x.funcs.prepare s >> done) else done)
        >> pure false)
    else (put_fd f (some (record d { revents = 0 })) >> λ w. ok (o.has_node w) w)

-- The check and the dispatch of the first descriptor; it returns as `after_dispatch` does.
unfoldable pub dispatch_first : Outside → (l f : ℕ) → Cmd Bool
unfolding get_loop after_dispatch
dispatch_first o l f = load_fd f >>= λ d. if d.source == 0 then pure false else (do
  k ← get_loop d.source
  x ← load_source d.source
  ready ← (if k == l then call_check o x.funcs.check d.source f else pure false)
  if ready
      then (load_source d.source >>= λ y.
          call_dispatch o y.funcs.dispatch d.source f y.callback.callback y.callback.item >>= λ res.
          after_dispatch o l d.source f res)
      else pure false)

-- The descriptor leaves the list when no event is left that it waits for, or when it lost its source.
unfoldable pub retire_first : (l f : ℕ) → Cmd (Unit {0})
unfolding dispatch_finish
retire_first l f = load_fd f >>= λ d.
    if (bit_and d.events d.revents == 0) || (d.source == 0)
    then (load_loop l >>= λ y.
        put_loop l (some (record y { fd_list = remove f y.fd_list })) >> dispatch_finish f)
    else done

-- The result is the timeout of the next wait: -1, as a bit pattern, where the list was empty. The
-- list of invalid sources holds at most one, which is deleted from the loop that it names.
unfoldable pub dispatch_events : Outside → (l : ℕ) → Cmd ℕ
unfolding dispatch_first retire_first del_source
dispatch_events o l = load_loop l >>= λ x. elim x.fd_list [
  | [] ↦ pure (2 ^ 32 - 1)
  | f ∷ fs ↦ do
    d ← load_fd f
    invalid ← dispatch_first o l f
    _ ← retire_first l f
    _ ←
        (if invalid
          then (load_source d.source >>= λ y. del_source o y.loop d.source >> done)
          else done)
    pure 0
]

-- What the loop does with one event of `epoll_wait`.
unfoldable pub gather_one : Outside → (l f revents : ℕ) → Cmd (Unit {0})
unfolding fd_dispatch insert_sorted
gather_one o l f e = load_fd f >>= λ d.
    put_fd f (some (record d { revents = bit_or d.revents e }))
    >> (if d.dispatched == 0
        then (do
          _ ← fd_dispatch f
          x ← load_loop l
          fs ← insert_sorted o f x.fd_list
          put_loop l (some (record x { fd_list = fs })))
        else done)

unfoldable pub gather : Outside → (l : ℕ) → List (ℕ × ℕ) → Cmd (Unit {0})
unfolding gather_one
gather o l [] = done
gather o l ((f, e) ∷ es) = gather_one o l f e >> gather o l es

-- One round of `run`, the loop's body: the next timeout, or none where the wait has failed.
unfoldable pub run_round : Outside → (l timeout : ℕ) → Cmd (Option ℕ)
unfolding gather dispatch_events
run_round o l timeout = load_loop l >>= λ x w. elim (o.epoll_wait x.epoll_fd timeout w) [
  | failed ↦ ok none w
  | interrupted ↦ (dispatch_events o l >>= λ t. pure (some t)) w
  | woken es ↦ (gather o l es >> dispatch_events o l >>= λ t. pure (some t)) w
]

unfoldable pub run_loop : Outside → (l rounds timeout : ℕ) → Cmd (Unit {0})
unfolding run_round
run_loop o l zero timeout w = stuck
run_loop o l (suc f) timeout w =
    (load_loop l >>= λ x. elim x.run [
      | false ↦ done
      | true ↦
          run_round o l timeout >>= λ t. elim t [ none ↦ done | some next ↦ run_loop o l f next ]
    ])
      w

unfoldable pub quit : ℕ → Cmd (Unit {0})
quit l = load_loop l >>= λ x. put_loop l (some (record x { run = false }))

-- ===== src/Event/Source.antt =====
-- src/hev-event-source.c: event sources, with the two calls of src/hev-event-loop.c that they make.
use hev_lib.Base.{
  ℕ, ◌+◌, ◌-◌, ◌%◌, ◌^◌, Bool, true, false, not, Option, none, some, List, [], ◌∷◌, leb, ◌==◌, ◌||◌,
  ◌&&◌, if◌then◌else◌, length,
}
use hev_lib.Event.World.{
  Handler, standard, given, Funcs, ctl_add, ctl_del, Cmd, pure, done, fail, ◌>>=◌, ◌>>◌, load_fd,
  load_source, load_loop, put_source, log, each, Outside, prepend, less_one,
}
use hev_lib.Event.Fd.{fd_new, fd_unref, clear_source}

abbrev or_standard : Option ℕ → Handler
or_standard none = standard
or_standard (some f) = given f

-- The functions that are passed to `source_new`, NULL where there is none.
pub record GivenFuncs : Type 0 where
  pub prepare : Option ℕ
  pub check : Option ℕ
  pub dispatch : Option ℕ
  pub finalize : Option ℕ

abbrev pub filled : GivenFuncs → Funcs
filled g = record {
  prepare = or_standard g.prepare;
  check = or_standard g.check;
  dispatch = or_standard g.dispatch;
  finalize = or_standard g.finalize;
}

-- `fits` says that `struct_size` is large enough. Without `funcs` the code tests pointers that
-- nothing was written to.
unfoldable pub source_new : Outside → (funcs : Option GivenFuncs) → (fits : Bool) → Cmd ℕ
source_new o funcs fits w =
    let p = o.alloc w in
    (if not fits || (p == 0) then pure 0 else elim funcs [
      | none ↦ fail
      | some g ↦
          put_source p (
            some (record {
              name = none;
              priority = 0;
              ref_count = 1;
              funcs = filled g;
              callback = record { item = 0; callback = 0; notify = 0 };
              fds = [];
              loop = 0;
            }))
          >> pure p
    ])
      w

unfoldable pub source_ref : ℕ → Cmd ℕ
source_ref s =
    if s == 0
    then pure 0
    else (load_source s >>= λ x.
        put_source s (some (record x { ref_count = (x.ref_count + 1) % 2 ^ 32 })) >> pure s)

unfoldable pub fds_free_handler : ℕ → Cmd (Unit {0})
unfolding clear_source fd_unref
fds_free_handler f = clear_source f >> fd_unref f

abbrev pub call_finalize : Outside → Handler → ℕ → Cmd (Unit {0})
call_finalize o standard s = done
call_finalize o (given f) s = o.finalize f s

-- What `unref` does when the last reference is gone.
unfoldable pub source_end : Outside → ℕ → Cmd (Unit {0})
unfolding fds_free_handler
source_end o s = do
  x ← load_source s
  _ ← call_finalize o x.funcs.finalize s
  y ← load_source s
  _ ← (if y.callback.notify == 0 then done else o.notify y.callback.notify y.callback.item)
  z ← load_source s
  _ ← each fds_free_handler z.fds
  put_source s none

unfoldable pub source_unref : Outside → ℕ → Cmd (Unit {0})
unfolding source_end
source_unref o s =
    if s == 0
    then done
    else (load_source s >>= λ x.
        put_source s (some (record x { ref_count = less_one x.ref_count }))
        >> (if less_one x.ref_count == 0 then source_end o s else done))

-- `strcpy` into a block of `size` bytes, of a string without its final 0.
abbrev copied : (size : ℕ) → List ℕ → Cmd (List ℕ)
copied size text = if leb (length text + 1) size then pure text else fail

-- `name` is `none` for NULL.
unfoldable pub set_name : Outside → ℕ → (name : Option (List ℕ)) → Cmd (Unit {0})
set_name o s none = done
set_name o s (some text) =
    if s == 0
    then done
    else (load_source s >>= λ x w.
        (if o.has_node w
            then (copied (length text) text >>= λ t.
                put_source s (some (record x { name = some t })))
            else fail)
          w)

unfoldable pub get_name : ℕ → Cmd (Option (List ℕ))
get_name s = if s == 0 then pure none else (load_source s >>= λ x. pure x.name)

unfoldable pub set_priority : (s priority : ℕ) → Cmd (Unit {0})
set_priority s p =
    if s == 0
    then done
    else (load_source s >>= λ x. put_source s (some (record x { priority = p })))

-- NULL has the priority `INT32_MAX`.
unfoldable pub get_priority : ℕ → Cmd ℕ
get_priority s = if s == 0 then pure (2 ^ 31 - 1) else (load_source s >>= λ x. pure x.priority)

unfoldable pub set_callback : (s callback item notify : ℕ) → Cmd (Unit {0})
set_callback s f x n =
    if s == 0
    then done
    else (load_source s >>= λ y.
        put_source s (some (record y { callback = record { item = x; callback = f; notify = n } })))

abbrev epollet : ℕ
epollet = 2 ^ 31

-- `events | EPOLLET`
abbrev with_edge : ℕ → ℕ
with_edge e = e % epollet + epollet

-- `_hev_event_loop_add_fd` and `_hev_event_loop_del_fd`
unfoldable pub loop_add_fd : Outside → (loop f : ℕ) → Cmd Bool
loop_add_fd o l f = load_fd f >>= λ d. load_loop l >>= λ x.
    let call = ctl_add x.epoll_fd d.fd (with_edge d.events) f in
    λ w. (log call >> pure (o.accepts call w)) w

unfoldable pub loop_del_fd : Outside → (loop f : ℕ) → Cmd Bool
loop_del_fd o l f = load_loop l >>= λ x. load_fd f >>= λ d.
    let call = ctl_del x.epoll_fd d.fd in λ w. (log call >> pure (o.accepts call w)) w

-- The loop of `add_fd`: whether a descriptor is watched already.
unfoldable pub has_fd : (fd : ℕ) → List ℕ → Cmd Bool
has_fd fd [] = pure false
has_fd fd (f ∷ fs) = load_fd f >>= λ d. if d.fd == fd then pure true else has_fd fd fs

-- What `add_fd` does with the object that it made; the list is changed before the kernel refuses.
unfoldable pub attach_fd : Outside → (s f : ℕ) → Cmd ℕ
unfolding loop_add_fd fd_unref prepend
attach_fd o s f = do
  x ← load_source s
  fs ← prepend o f x.fds
  _ ← put_source s (some (record x { fds = fs }))
  (if x.loop == 0
      then pure f
      else (loop_add_fd o x.loop f >>= λ accepted.
          if accepted then pure f else (fd_unref f >> pure 0)))

unfoldable pub add_fd : Outside → (s fd events : ℕ) → Cmd ℕ
unfolding has_fd fd_new attach_fd
add_fd o s fd events =
    if s == 0
    then pure 0
    else (load_source s >>= λ x. has_fd fd x.fds >>= λ watched.
        if watched
        then pure 0
        else (fd_new o s fd events >>= λ f. if f == 0 then pure 0 else attach_fd o s f))

-- The object that watches a descriptor with the list without it, and whether it is the first.
pub data Watcher : Type 0 where
  nowhere : Watcher
  first : ℕ → Watcher
  later : ℕ → List ℕ → Watcher

abbrev behind : ℕ → List ℕ → Watcher → Watcher
behind g fs nowhere = nowhere
behind g [] (first f) = nowhere
behind g (_ ∷ fs) (first f) = later f (g ∷ fs)
behind g fs (later f rest) = later f (g ∷ rest)

unfoldable pub find_fd : (fd : ℕ) → List ℕ → Cmd Watcher
find_fd fd [] = pure nowhere
find_fd fd (f ∷ fs) = load_fd f >>= λ d.
    if d.fd == fd then pure (first f) else (find_fd fd fs >>= λ r. pure (behind f fs r))

-- The end of `del_fd`, once the node is out of the list.
unfoldable pub detach_fd : Outside → (s f : ℕ) → Cmd Bool
unfolding loop_del_fd clear_source fd_unref
detach_fd o s f = do
  x ← load_source s
  res ← (if x.loop == 0 then pure false else loop_del_fd o x.loop f)
  _ ← clear_source f
  _ ← fd_unref f
  pure res

-- `hev_slist_remove_next` reads the first node after it has freed it.
unfoldable pub del_fd : Outside → (s fd : ℕ) → Cmd Bool
unfolding find_fd detach_fd
del_fd o s fd =
    if s == 0
    then pure false
    else (load_source s >>= λ x. find_fd fd x.fds >>= λ r. elim r [
      | nowhere ↦ pure false
      | first f ↦ fail
      | later f rest ↦ put_source s (some (record x { fds = rest })) >> detach_fd o s f
    ])

unfoldable pub get_loop : ℕ → Cmd ℕ
get_loop s = if s == 0 then pure 0 else (load_source s >>= λ x. pure x.loop)

-- It writes only over NULL, and never NULL.
unfoldable pub set_loop : (s loop : ℕ) → Cmd (Unit {0})
set_loop s l =
    if s == 0
    then done
    else (load_source s >>= λ x.
        if (x.loop == 0) && not (l == 0) then put_source s (some (record x { loop = l })) else done)

abbrev pub call_prepare : Outside → Handler → ℕ → Cmd Bool
call_prepare o standard s = pure true
call_prepare o (given f) s = o.prepare f s

abbrev pub call_check : Outside → Handler → (s f : ℕ) → Cmd Bool
call_check o standard s f = pure true
call_check o (given g) s f = o.check g s f

-- The default calls the callback, if there is one.
abbrev pub call_dispatch : Outside → Handler → (s f callback item : ℕ) → Cmd Bool
call_dispatch o standard s f callback x = if callback == 0 then pure true else o.callback callback x
call_dispatch o (given g) s f callback x = o.dispatch g s f callback x

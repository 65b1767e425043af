-- ===== src/Event/Fd.antt =====
-- src/hev-event-source-fd.h: a watched file descriptor.
use hev_lib.Base.{ℕ, ◌+◌, ◌%◌, ◌^◌, none, some, ◌==◌, if◌then◌else◌}
use hev_lib.Event.World.{Outside, Cmd, pure, ◌>>=◌, ◌>>◌, load_fd, put_fd, less_one}

unfoldable pub fd_new : Outside → (source fd events : ℕ) → Cmd ℕ
fd_new o source fd events w =
    let p = o.alloc w in
    (if p == 0
        then pure 0
        else (put_fd p (
              some (record {
                fd = fd;
                events = events;
                revents = 0;
                dispatched = 0;
                ref_count = 1;
                source = source;
                item = 0;
              }))
            >> pure p))
      w

unfoldable pub fd_ref : ℕ → Cmd (Unit {0})
fd_ref p = load_fd p >>= λ d. put_fd p (some (record d { ref_count = (d.ref_count + 1) % 2 ^ 32 }))

unfoldable pub fd_unref : ℕ → Cmd (Unit {0})
fd_unref p = load_fd p >>= λ d.
    let count = less_one d.ref_count in
    if count == 0 then put_fd p none else put_fd p (some (record d { ref_count = count }))

unfoldable pub fd_dispatch : ℕ → Cmd (Unit {0})
unfolding fd_ref
fd_dispatch p = load_fd p >>= λ d. put_fd p (some (record d { dispatched = 1 })) >> fd_ref p

unfoldable pub dispatch_finish : ℕ → Cmd (Unit {0})
unfolding fd_unref
dispatch_finish p = load_fd p >>= λ d. put_fd p (some (record d { dispatched = 0 })) >> fd_unref p

unfoldable pub set_item : (p item : ℕ) → Cmd (Unit {0})
set_item p x = load_fd p >>= λ d. put_fd p (some (record d { item = x }))

unfoldable pub get_item : ℕ → Cmd ℕ
get_item p = load_fd p >>= λ d. pure d.item

unfoldable pub clear_source : ℕ → Cmd (Unit {0})
clear_source p = load_fd p >>= λ d. put_fd p (some (record d { source = 0 }))

-- ===== src/SList.antt =====
-- src/hev-slist.c: singly linked lists over an explicit memory.
--
-- A node is at an address, NULL is 0, and what an address of a list holds is a node or, before it
-- is allocated and after it is freed, nothing. `fresh` is what the allocator returns. A loop takes
-- the number of rounds that it may make.
pub mod Memory
pub mod Chain
pub mod Adding
pub mod Removing
pub mod Walking
pub mod Sweeping
mod Tests
use hev_lib.Base.{ℕ, zero, suc, ◌+◌, ◌%◌, ◌^◌, Bool, some, List, [], ◌∷◌, ◌++◌, ◌==◌, if◌then◌else◌}
use hev_lib.SList.Memory.{
  Cmd, ok, put, pure, ◌>>=◌, ◌>>◌, run_out, node, load, store, set_next, free,
}

unfoldable pub last : (rounds self : ℕ) → Cmd ℕ
last zero self = run_out
last (suc f) self =
    if self == 0
    then pure 0
    else (load self >>= λ n. if n.next == 0 then pure self else last f n.next)

unfoldable pub append : (rounds self item fresh : ℕ) → Cmd ℕ
append f self item fresh =
    if fresh == 0
    then pure self
    else (store fresh (node item 0)
        >> (if self == 0 then pure fresh else (last f self >>= λ l. set_next l fresh >> pure self)))

unfoldable pub prepend : (self item fresh : ℕ) → Cmd ℕ
prepend self item fresh =
    if fresh == 0 then pure self else (store fresh (node item self) >> pure fresh)

-- Where the loop of `insert` and `insert_before` stops; `before` is both `prev` and `last`, which
-- the loop always sets together.
pub record Spot : Type 0 where
  pub place : ℕ
  pub before : ℕ

abbrev pub spot : ℕ → ℕ → Spot
spot p q = record { place = p; before = q }

unfoldable pub seek : (test : ℕ → ℕ → Bool) → (rounds place before i : ℕ) → Cmd Spot
seek test zero place before i = run_out
seek test (suc f) place before i =
    if place == 0
    then pure (spot 0 before)
    else if test place i
    then pure (spot place before)
    else (load place >>= λ n. seek test f n.next place ((i + 1) % 2 ^ 32))

-- What both do with the spot that they found.
unfoldable pub link_at : (self item fresh : ℕ) → Spot → Cmd ℕ
link_at self item fresh s =
    if s.place == 0
    then (store fresh (node item 0) >> set_next s.before fresh >> pure self)
    else (store fresh (node item s.place)
        >> (if s.before == 0 then pure fresh else (set_next s.before fresh >> pure self)))

unfoldable pub insert_where : (test : ℕ → ℕ → Bool) → (rounds self item fresh : ℕ) → Cmd ℕ
insert_where test f self item fresh =
    if fresh == 0
    then pure self
    else if self == 0
    then (store fresh (node item 0) >> pure fresh)
    else (seek test f self 0 0 >>= λ s. link_at self item fresh s)

unfoldable pub insert : (rounds self item position fresh : ℕ) → Cmd ℕ
unfolding insert_where
insert f self item position fresh = insert_where (λ place i. i == position) f self item fresh

unfoldable pub insert_before : (rounds self item sibling fresh : ℕ) → Cmd ℕ
unfolding insert_where
insert_before f self item sibling fresh =
    insert_where (λ place i. place == sibling) f self item fresh

unfoldable pub insert_after : (self item sibling fresh : ℕ) → Cmd ℕ
insert_after self item sibling fresh =
    if fresh == 0
    then pure self
    else if sibling == 0
    then (store fresh (node item self) >> pure fresh)
    else (load sibling >>= λ n.
        store fresh (node item n.next) >> set_next sibling fresh >> pure self)

-- The loop of `remove`: it frees the first node with the item.
unfoldable pub remove_loop : (item rounds self place prev : ℕ) → Cmd ℕ
remove_loop item zero self place prev = run_out
remove_loop item (suc f) self place prev =
    if place == 0
    then pure self
    else (load place >>= λ n.
        if item == n.item
        then (if prev == 0
            then (free place >> pure n.next)
            else (set_next prev n.next >> free place >> pure self))
        else remove_loop item f self n.next place)

unfoldable pub remove : (rounds self item : ℕ) → Cmd ℕ
remove f self item = if self == 0 then pure 0 else remove_loop item f self self 0

unfoldable pub remove_all_loop : (item rounds self place prev : ℕ) → Cmd ℕ
remove_all_loop item zero self place prev = run_out
remove_all_loop item (suc f) self place prev =
    if place == 0
    then pure self
    else (load place >>= λ n.
        if item == n.item
        then (if prev == 0
            then (free place >> remove_all_loop item f n.next n.next prev)
            else (set_next prev n.next >> free place >> remove_all_loop item f self n.next prev))
        else remove_all_loop item f self n.next place)

unfoldable pub remove_all : (rounds self item : ℕ) → Cmd ℕ
remove_all f self item = if self == 0 then pure 0 else remove_all_loop item f self self 0

-- With no sibling it frees the first node and then reads it.
unfoldable pub remove_next : (self sibling : ℕ) → Cmd ℕ
remove_next self sibling =
    if self == 0
    then pure 0
    else if sibling == 0
    then (free self >> load self >>= λ n. pure n.next)
    else (load sibling >>= λ n.
        if n.next == 0
        then pure self
        else (load n.next >>= λ gone. set_next sibling gone.next >> free n.next >> pure self))

unfoldable pub next : (self : ℕ) → Cmd ℕ
next self = if self == 0 then pure 0 else (load self >>= λ n. pure n.next)

unfoldable pub item : (self : ℕ) → Cmd ℕ
item self = if self == 0 then pure 0 else (load self >>= λ n. pure n.item)

unfoldable pub set_item : (self item : ℕ) → Cmd (Unit {0})
set_item self x =
    if self == 0
    then pure tt
    else (load self >>= λ n m. ok tt (put m self (some (record n { item = x }))))

unfoldable pub length_loop : (rounds place count : ℕ) → Cmd ℕ
length_loop zero place count = run_out
length_loop (suc f) place count =
    if place == 0
    then pure count
    else (load place >>= λ n. length_loop f n.next ((count + 1) % 2 ^ 32))

unfoldable pub length : (rounds self : ℕ) → Cmd ℕ
unfolding length_loop
length f self = length_loop f self 0

-- It frees each node, and returns the items that `notify` is called with, in order.
unfoldable pub free_loop : (rounds place : ℕ) → List ℕ → Cmd (List ℕ)
free_loop zero place seen = run_out
free_loop (suc f) place seen =
    if place == 0
    then pure seen
    else (load place >>= λ n. free place >> free_loop f n.next (seen ++ (n.item ∷ [])))

-- `notify` says whether the function is given.
unfoldable pub free_notify : (rounds self : ℕ) → (notify : Bool) → Cmd (List ℕ)
unfolding free_loop
free_notify f self notify = free_loop f self [] >>= λ seen. pure (if notify then seen else [])

unfoldable pub free_all : (rounds self : ℕ) → Cmd (Unit {0})
unfolding free_loop
free_all f self = free_loop f self [] >> pure tt

-- ===== src/LinkedList.antt =====
-- src/hev-list.c: doubly linked lists over an explicit memory.
--
-- A node is at an address, and NULL is 0. `fresh` is what the allocator returns. The links of a
-- new node are 0 until they are written. A loop takes the number of rounds that it may make.
pub mod Memory
pub mod Zipper
pub mod Unlinking
pub mod Removing
pub mod Linking
pub mod Freeing
pub mod Inserting
mod Tests
use hev_lib.Base.{ℕ, zero, suc, ◌+◌, ◌%◌, ◌^◌, Bool, ◌==◌, if◌then◌else◌}
use hev_lib.LinkedList.Memory.{
  Cmd, pure, ◌>>=◌, ◌>>◌, run_out, make, load, set_prev, set_next, free,
}

unfoldable pub first : (rounds self : ℕ) → Cmd ℕ
unfolding load
first zero self = run_out
first (suc f) self =
    if self == 0
    then pure 0
    else (load self >>= λ n. if n.prev == 0 then pure self else first f n.prev)

unfoldable pub last : (rounds self : ℕ) → Cmd ℕ
unfolding load
last zero self = run_out
last (suc f) self =
    if self == 0
    then pure 0
    else (load self >>= λ n. if n.next == 0 then pure self else last f n.next)

-- Without memory it returns NULL.
unfoldable pub append : (rounds self item fresh : ℕ) → Cmd ℕ
unfolding last set_next set_prev
append f self item fresh =
    if fresh == 0
    then pure 0
    else (make fresh item
        >> set_next fresh 0
        >> (if self == 0
            then (set_prev fresh 0 >> pure fresh)
            else (last f self >>= λ l. set_next l fresh >> set_prev fresh l >> pure self)))

unfoldable pub prepend : (rounds self item fresh : ℕ) → Cmd ℕ
unfolding first set_next set_prev
prepend f self item fresh =
    if fresh == 0
    then pure 0
    else (make fresh item
        >> set_prev fresh 0
        >> (if self == 0
            then (set_next fresh 0 >> pure fresh)
            else (first f self >>= λ p. set_prev p fresh >> set_next fresh p >> pure fresh)))

-- Where the loop of `insert` and `insert_before` stops, and the node that it passed last.
pub record Spot : Type 0 where
  pub place : ℕ
  pub passed : ℕ

unfoldable pub find_spot : (test : ℕ → ℕ → Bool) → (rounds place passed i : ℕ) → Cmd Spot
unfolding load
find_spot test zero place passed i = run_out
find_spot test (suc f) place passed i =
    if place == 0
    then pure (record { place = 0; passed = passed })
    else if test place i
    then pure (record { place = place; passed = passed })
    else (load place >>= λ n. find_spot test f n.next place ((i + 1) % 2 ^ 32))

-- What both do with the spot that they found; `head` is the first node.
unfoldable pub link : (head fresh : ℕ) → Spot → Cmd ℕ
unfolding load set_next set_prev
link head fresh s =
    if s.place == 0
    then (set_next fresh 0 >> set_prev fresh s.passed >> set_next s.passed fresh >> pure head)
    else (set_next fresh s.place >> load s.place >>= λ n.
        set_prev fresh n.prev
        >> (if n.prev == 0
            then (set_prev s.place fresh >> pure fresh)
            else (set_next n.prev fresh >> set_prev s.place fresh >> pure head)))

unfoldable pub insert_at : (test : ℕ → ℕ → Bool) → (rounds self item fresh : ℕ) → Cmd ℕ
unfolding first find_spot link set_next set_prev
insert_at test f self item fresh =
    if fresh == 0
    then pure 0
    else (make fresh item
        >> (if self == 0
            then (set_prev fresh 0 >> set_next fresh 0 >> pure fresh)
            else (first f self >>= λ head. find_spot test f head 0 0 >>= λ s. link head fresh s)))

unfoldable pub insert : (rounds self item position fresh : ℕ) → Cmd ℕ
unfolding insert_at
insert f self item position fresh = insert_at (λ place i. i == position) f self item fresh

unfoldable pub insert_before : (rounds self item sibling fresh : ℕ) → Cmd ℕ
unfolding insert_at
insert_before f self item sibling fresh = insert_at (λ place i. place == sibling) f self item fresh

-- The node at `place` is taken out of its list, whose first node is `head`, and freed; it gives
-- the first node after that.
unfoldable pub unlink : (head place : ℕ) → Cmd ℕ
unfolding load set_next set_prev free
unlink head place = load place >>= λ n.
    (if n.prev == 0 then pure n.next else (set_next n.prev n.next >> pure head)) >>= λ head'.
    (if n.next == 0 then pure tt else set_prev n.next n.prev) >> free place >> pure head'

unfoldable pub remove_first : (item rounds head place : ℕ) → Cmd ℕ
unfolding load unlink
remove_first item zero head place = run_out
remove_first item (suc f) head place =
    if place == 0
    then pure head
    else (load place >>= λ n.
        if item == n.item then unlink head place else remove_first item f head n.next)

unfoldable pub remove : (rounds self item : ℕ) → Cmd ℕ
unfolding first remove_first
remove f self item =
    if self == 0 then pure 0 else (first f self >>= λ head. remove_first item f head head)

unfoldable pub remove_each : (item rounds head place : ℕ) → Cmd ℕ
unfolding load unlink
remove_each item zero head place = run_out
remove_each item (suc f) head place =
    if place == 0
    then pure head
    else (load place >>= λ n.
        if item == n.item
        then (unlink head place >>= λ head'. remove_each item f head' n.next)
        else remove_each item f head n.next)

unfoldable pub remove_all : (rounds self item : ℕ) → Cmd ℕ
unfolding first remove_each
remove_all f self item =
    if self == 0 then pure 0 else (first f self >>= λ head. remove_each item f head head)

unfoldable pub previous : (self : ℕ) → Cmd ℕ
unfolding load
previous self = if self == 0 then pure 0 else (load self >>= λ n. pure n.prev)

unfoldable pub next : (self : ℕ) → Cmd ℕ
unfolding load
next self = if self == 0 then pure 0 else (load self >>= λ n. pure n.next)

unfoldable pub count_from : (rounds place count : ℕ) → Cmd ℕ
unfolding load
count_from zero place count = run_out
count_from (suc f) place count =
    if place == 0
    then pure count
    else (load place >>= λ n. count_from f n.next ((count + 1) % 2 ^ 32))

unfoldable pub length : (rounds self : ℕ) → Cmd ℕ
unfolding first count_from
length f self = first f self >>= λ head. if head == 0 then pure 0 else count_from f head 0

-- The two loops of `free`: to the end, and back to the start.
unfoldable pub free_forward : (rounds place : ℕ) → Cmd (Unit {0})
unfolding load free
free_forward zero place = run_out
free_forward (suc f) place =
    if place == 0 then pure tt else (load place >>= λ n. free place >> free_forward f n.next)

unfoldable pub free_backward : (rounds place : ℕ) → Cmd (Unit {0})
unfolding load free
free_backward zero place = run_out
free_backward (suc f) place =
    if place == 0 then pure tt else (load place >>= λ n. free place >> free_backward f n.prev)

unfoldable pub free_list : (rounds self : ℕ) → Cmd (Unit {0})
unfolding load free_forward free_backward
free_list f self =
    if self == 0
    then pure tt
    else (load self >>= λ n. free_forward f n.next >> free_backward f self)

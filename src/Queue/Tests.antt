-- ===== src/Queue/Tests.antt =====
-- The theorem on src/hev-queue.c at a concrete queue, and a run of the code.
use hev_lib.Base.{refl, none, some, List, [], ◌∷◌, arith, Option-cases}
use hev_lib.SList.Memory.{Memory, node, put}
use hev_lib.SList.Chain.{IsList}
use hev_lib.Queue.Fifo.{
  Op, put_item, take_item, see_head, see_tail, Alloc, IsAlloc, Logged, run-Logged,
}

-- An allocator with two addresses.
abbrev first_free : Alloc
first_free m = elim (m 16) [ none ↦ 16 | some _ ↦ elim (m 8) [ none ↦ 8 | some _ ↦ 0 ] ]

first_free-IsAlloc : IsAlloc first_free
first_free-IsAlloc m = ground (arith, Option-cases (m 16), Option-cases (m 8))

abbrev one : Memory
one = put (λ _. none) 8 (some (node 5 0))

one-IsList : IsList one 8 ((8, 5) ∷ [])
unfolding put
one-IsList = (refl, (omega arith, refl, refl, tt))

abbrev script : List Op
script =
    put_item 6
    ∷ put_item 7
    ∷ see_head
    ∷ take_item
    ∷ put_item 5
    ∷ see_tail
    ∷ take_item
    ∷ take_item
    ∷ take_item
    ∷ []

run-Logged_example : Logged first_free 20 script (record { slist = 8; ref_count = 1 }) one (5 ∷ [])
run-Logged_example =
    run-Logged first_free 20 script (record { slist = 8; ref_count = 1 }) one ((8, 5) ∷ [])
      first_free-IsAlloc one-IsList (omega arith)

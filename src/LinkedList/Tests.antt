-- ===== src/LinkedList/Tests.antt =====
-- Tests of the model of src/hev-list.c.
use hev_lib.Base.{[], ◌∷◌, arith, ℕ, Option, none, some, ◌≡◌, refl}
use hev_lib.LinkedList.Zipper.{Ahead, Zipper, Zipper-right}
use hev_lib.LinkedList.Freeing.{Freed, free_list-Freed}
use hev_lib.LinkedList.Inserting.{insertions-Left}
use hev_lib.LinkedList.Removing.{Left, removals-Left}
use hev_lib.LinkedList.Memory.{Node, node, Memory, Outcome, ok, fault, stuck, put}
use hev_lib.LinkedList.{append, insert, insert_before, remove, remove_all, length, free_list}

abbrev nothing : Memory
nothing a = none

-- The items 7, 8 and 7 at 1, 2 and 3.
abbrev three : Memory
three = put (put (put nothing 1 (some (node 7 0 2))) 2 (some (node 8 1 3))) 3 (some (node 7 2 0))

abbrev result : Outcome ℕ → ℕ
result (ok a m) = a
result fault = 98
result stuck = 99

abbrev node_after : Outcome ℕ → ℕ → Option Node
node_after (ok a m) p = m p
node_after fault p = none
node_after stuck p = none

length_from_end : result (length 4 3 three) ≡ 3
unfolding length put
length_from_end = refl

append_last : node_after (append 4 1 9 4 three) 3 ≡ some (node 7 2 4)
unfolding append put
append_last = refl

insert_second : node_after (insert 4 2 9 1 4 three) 4 ≡ some (node 9 1 2)
unfolding insert put
insert_second = refl

remove_all_first : result (remove_all 4 1 7 three) ≡ 2
unfolding remove_all put
remove_all_first = refl

remove_all_middle : node_after (remove_all 4 3 7 three) 2 ≡ some (node 8 0 0)
unfolding remove_all put
remove_all_middle = refl

three-Ahead : Ahead three 0 ((1, 7) ∷ (2, 8) ∷ (3, 7) ∷ [])
unfolding put
three-Ahead = (
  (λ e. omega arith),
  refl,
  refl,
  ((λ e. omega arith), refl, refl, ((λ e. omega arith), refl, refl, tt)),
)

removals-Left_example :
    Left three ((1, 7) ∷ (2, 8) ∷ (3, 7) ∷ []) ((2, 8) ∷ (3, 7) ∷ []) (remove 4 1 7 three)
    × Left three ((1, 7) ∷ (2, 8) ∷ (3, 7) ∷ []) ((2, 8) ∷ []) (remove_all 4 1 7 three)
removals-Left_example =
    removals-Left three 4 7 ((1, 7) ∷ (2, 8) ∷ (3, 7) ∷ []) three-Ahead (omega arith)

insertions-Left_example :
    Left three
      ((4, 9) ∷ (1, 7) ∷ (2, 8) ∷ (3, 7) ∷ [])
      ((1, 7) ∷ (4, 9) ∷ (2, 8) ∷ (3, 7) ∷ [])
      (insert 4 1 9 1 4 three)
    × Left three
        ((4, 9) ∷ (1, 7) ∷ (2, 8) ∷ (3, 7) ∷ [])
        ((1, 7) ∷ (2, 8) ∷ (4, 9) ∷ (3, 7) ∷ [])
        (insert_before 4 1 9 3 4 three)
unfolding put
insertions-Left_example =
    insertions-Left three 4 4 9 1 3 ((1, 7) ∷ (2, 8) ∷ (3, 7) ∷ []) three-Ahead (omega arith)
      (omega arith) refl

-- The list, seen from behind its second node.
three-Zipper : Zipper three ((2, 8) ∷ (1, 7) ∷ []) ((3, 7) ∷ [])
three-Zipper = Zipper-right three ((1, 7) ∷ []) 2 8 ((3, 7) ∷ []) (
    Zipper-right three [] 1 7 ((2, 8) ∷ (3, 7) ∷ [])
      (record { ahead = three-Ahead; behind = tt; apart = λ a e. absurd cc }))

free_list-Freed_example : Freed three ((1, 7) ∷ (2, 8) ∷ (3, 7) ∷ []) (free_list 4 2 three)
free_list-Freed_example =
    free_list-Freed three 4 2 8 ((1, 7) ∷ []) ((3, 7) ∷ []) three-Zipper (omega arith) (omega arith)

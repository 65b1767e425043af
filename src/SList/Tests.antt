-- ===== src/SList/Tests.antt =====
-- The theorems on src/hev-slist.c at a concrete list, and runs of the code.
use hev_lib.Base.{◌≡◌, refl, true, none, some, [], ◌∷◌, arith}
use hev_lib.SList.{remove, remove_all, free_notify}
use hev_lib.SList.Memory.{node, Memory, ok, put}
use hev_lib.SList.Chain.{Cells, IsList}
use hev_lib.SList.Removing.{erase, Removed, remove-Removed}
use hev_lib.SList.Sweeping.{others, remove_all-Removed}
use hev_lib.SList.Walking.{AllFreed, free_notify-AllFreed}

-- Three nodes, at 8, 24 and 16, with the items 5, 7 and 5.
abbrev three : Cells
three = (8, 5) ∷ (24, 7) ∷ (16, 5) ∷ []

abbrev heap : Memory
heap = put (put (put (λ _. none) 16 (some (node 5 0))) 24 (some (node 7 16))) 8 (some (node 5 24))

heap-IsList : IsList heap 8 three
unfolding put
heap-IsList =
    (refl, (omega arith, refl, refl, (omega arith, refl, refl, (omega arith, refl, refl, tt))))

heap-unused : heap 32 ≡ none
unfolding put
heap-unused = refl

remove-Removed_example : Removed heap three (erase 7 three) (remove 4 8 7 heap)
remove-Removed_example = remove-Removed heap 8 7 4 three heap-IsList (omega arith)

free_notify-AllFreed_example :
    (m' : Memory) × (free_notify 4 8 true heap ≡ ok (5 ∷ 7 ∷ 5 ∷ []) m') × AllFreed heap m' three
free_notify-AllFreed_example = free_notify-AllFreed heap 8 4 true three heap-IsList (omega arith)

remove_all-Removed_example : Removed heap three (others 5 three) (remove_all 4 8 5 heap)
remove_all-Removed_example = remove_all-Removed heap 8 5 4 three heap-IsList (omega arith)

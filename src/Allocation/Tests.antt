-- ===== src/Allocation/Tests.antt =====
-- An allocation and a release (src/common/alloc.c).
use zscript.Base.{ℕ, ◌+◌, ◌-◌, ◌^◌, ◌≡◌, refl, none, some, [], ◌∷◌, arith}
use zscript.Allocation.{HeapUse, Malloc, with_word, alloc_or_die, decorate_ptr, take_block, free}
use zscript.Allocation.Accounting.{IsAccounted, total, free-alloc_or_die, free-IsAccounted}

-- blocks one after the other in a large region
abbrev bump : Malloc
bump size [] = 4096
bump size ((p, s) ∷ blocks) = p + s

abbrev heap : HeapUse
heap = record { used_heap = 24; blocks = (4096, 24) ∷ [] }

heap-IsAccounted : IsAccounted heap
unfolding total
heap-IsAccounted = record { counted = refl; sizes = (omega arith, tt) }

allocated :
    alloc_or_die bump heap 8
    ≡ some (record { used_heap = 40; blocks = (4120, 16) ∷ (4096, 24) ∷ [] }, 4128)
unfolding alloc_or_die decorate_ptr with_word
allocated = refl

-- a size that wraps
wrapped : alloc_or_die bump heap (2 ^ 64 - 8) ≡ none
unfolding alloc_or_die decorate_ptr with_word
wrapped = refl

freed : free heap 4104 ≡ some (record { used_heap = 0; blocks = [] })
unfolding free take_block
freed = refl

free-alloc_or_die_example :
    (after : HeapUse) × (ptr : ℕ) × (alloc_or_die bump heap 8 ≡ some (after, ptr))
    × IsAccounted after
    × (free after ptr ≡ some heap)
free-alloc_or_die_example =
    free-alloc_or_die bump heap 8 heap-IsAccounted (omega arith) (ground arith)

free-IsAccounted_example : IsAccounted (record { used_heap = 0; blocks = [] })
free-IsAccounted_example =
    free-IsAccounted heap (record { used_heap = 0; blocks = [] }) 4104 heap-IsAccounted freed

-- ===== src/Allocation/Accounting.antt =====
-- `used_heap` of src/common/alloc.c is the sum of the sizes of the blocks.
use zscript.Base.{
  ℕ, ◌+◌, ◌-◌, ◌%◌, ◌^◌, ◌<◌, ◌≡◌, ◌≢◌, refl, false, some, List, [], ◌∷◌, ◌==◌, ltb, ◌>>=◌, arith,
  inl, inr, Bool-cases, Option-cases, All, ==_refl,
}
use zscript.Allocation.{
  HeapUse, Malloc, word_size, with_word, decorate_ptr, alloc_or_die, take_block, free,
}

unfoldable pub total : List (ℕ × ℕ) → ℕ
total [] = 0
total ((p, size) ∷ blocks) = size + total blocks

-- the count of the used heap is right
pub record IsAccounted (heap : HeapUse) : Type 0 where
  pub counted : heap.used_heap ≡ total heap.blocks % 2 ^ 64
  pub sizes : All (λ b. b.1 < 2 ^ 64) heap.blocks

-- Unless there is no memory, an allocation of a size that does not wrap with the word for it keeps the
-- count right, and gives a pointer that can be freed: that brings back the heap as it was.
pub free-alloc_or_die :
    (malloc : Malloc) (heap : HeapUse) (size : ℕ)
    → IsAccounted heap
    → size + word_size < 2 ^ 64
    → malloc (with_word size) heap.blocks ≢ 0
    → (after : HeapUse) × (ptr : ℕ) × (alloc_or_die malloc heap size ≡ some (after, ptr))
      × IsAccounted after
      × (free after ptr ≡ some heap)
unfolding alloc_or_die decorate_ptr free take_block total with_word
free-alloc_or_die malloc heap size h fits there =
    let block = malloc (with_word size) heap.blocks in
    let proper : (block == 0) ≡ false = ground (arith, there) in
    let back : block + word_size - word_size ≡ block = omega arith in
    let bytes = (size + 8) % 2 ^ 64 in
    let long : ltb ((size + 8) % 2 ^ 64) 8 ≡ false = ground arith in
    let restored : ((heap.used_heap + bytes) % 2 ^ 64 + 2 ^ 64 - bytes) % 2 ^ 64 ≡ heap.used_heap =
      omega (arith, h.counted) in
    (
      record {
        used_heap = (heap.used_heap + bytes) % 2 ^ 64;
        blocks = (block, bytes) ∷ heap.blocks;
      },
      block + word_size,
      rw (proper, long),
      record { counted = omega (arith, h.counted); sizes = (omega arith, h.sizes) },
      rw (back, ==_refl block, ◌>>=◌, restored),
    )

take_block-total :
    (ptr : ℕ) (blocks rest : List (ℕ × ℕ)) (size : ℕ)
    → take_block ptr blocks ≡ some (size, rest)
    → All (λ b. b.1 < 2 ^ 64) blocks
    → (total blocks ≡ size + total rest) × (size < 2 ^ 64) × All (λ b. b.1 < 2 ^ 64) rest
unfolding take_block total
take_block-total ptr [] rest size h a = cc
take_block-total ptr ((p, s) ∷ blocks) rest size h a = elim (Bool-cases (p == ptr)) [
  | inl here ↦
      let size_is : s ≡ size = ground arith in
      let rest_is : blocks ≡ rest = ground arith in rw (← size_is, ← rest_is) (refl, a.0, a.1)
  | inr there ↦ elim (Option-cases (take_block ptr blocks)) [
    | inl e ↦ cc (rw (there, e, ◌>>=◌) at h)
    | inr (r, e) ↦
        let (sum, small, others) = take_block-total ptr blocks (r.1) (r.0) e a.1 in
        let same : some (r.0, (p, s) ∷ r.1) ≡ some (size, rest) = rw (there, e, ◌>>=◌) at h in
        let size_is : r.0 ≡ size = ground arith in
        let rest_is : (p, s) ∷ r.1 ≡ rest = ground arith in
        rw (← size_is, ← rest_is) (omega arith, small, (a.0, others))
  ]
]

-- A release that is defined, of a pointer to a block, keeps the count right.
pub free-IsAccounted :
    (heap after : HeapUse) (ptr : ℕ)
    → IsAccounted heap
    → free heap ptr ≡ some after
    → IsAccounted after
unfolding free
free-IsAccounted heap after ptr h run =
    elim (Option-cases (take_block (ptr - word_size) heap.blocks)) [
      | inl e ↦ cc (rw (e, ◌>>=◌) at run)
      | inr (r, e) ↦
          let (sum, small, rest) =
            take_block-total (ptr - word_size) heap.blocks (r.1) (r.0) e h.sizes in
          let made : record { used_heap = (heap.used_heap + 2 ^ 64 - r.0) % 2 ^ 64; blocks = r.1 }
              ≡ after =
            ground arith in
          rw (← made) (record { counted = omega (arith, h.counted); sizes = rest })
    ]

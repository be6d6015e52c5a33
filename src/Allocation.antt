-- ===== src/Allocation.antt =====
-- src/common/alloc.c: the count of the heap in use. Each block begins with a word that holds its size,
-- and the program's pointer leads behind it. `malloc` is a parameter, which gives the address of a new
-- block; 0 is the null pointer, with which the program ends: `none`. The locks are not modelled.
pub mod Accounting
mod Tests
use zscript.Base.{
  ℕ, zero, suc, ◌+◌, ◌-◌, ◌%◌, ◌^◌, Bool, true, false, Option, none, some, List, [], ◌∷◌, ◌==◌, ltb,
  ◌&&◌, if◌then◌else◌, ◌>>=◌,
}

-- sizeof(uint_t)
abbrev pub word_size : ℕ
word_size = 8

abbrev pub heap_limit : ℕ
heap_limit = 1048576

-- `used_heap`, and the blocks with the word at their start
pub record HeapUse : Type 0 where
  pub used_heap : ℕ
  pub blocks : List (ℕ × ℕ)

-- what `malloc` gives for a size, with the blocks that there are
abbrev pub Malloc : Type 0
Malloc = ℕ → List (ℕ × ℕ) → ℕ

-- the size with the word for it, as a `size_t`
unfoldable pub with_word : ℕ → ℕ
with_word size = (size + word_size) % 2 ^ 64

-- z_decorate_ptr: the block gets its size, and the pointer behind that is returned
-- a block that is shorter than the word, which a size has that wraps, is written beyond its end
unfoldable pub decorate_ptr : HeapUse → ℕ → ℕ → Option (HeapUse × ℕ)
decorate_ptr heap ptr size =
    if ltb size word_size
    then none
    else some (record heap { blocks = (ptr, size) ∷ heap.blocks }, ptr + word_size)

unfoldable pub alloc_or_die : Malloc → HeapUse → ℕ → Option (HeapUse × ℕ)
alloc_or_die malloc heap size =
    let total = with_word size in
    let ptr = malloc total heap.blocks in
    if ptr == 0
    then none
    else decorate_ptr (record heap { used_heap = (heap.used_heap + total) % 2 ^ 64 }) ptr total

-- whether `z_alloc_or_gc` schedules a collection before it allocates; the sizes are signed there
unfoldable pub schedules_gc : HeapUse → ℕ → Bool
schedules_gc heap size =
    let used = (heap.used_heap + with_word size) % 2 ^ 64 in
    ltb heap_limit used && ltb used (2 ^ 63)

-- the block at an address, and the others
unfoldable pub take_block : ℕ → List (ℕ × ℕ) → Option (ℕ × List (ℕ × ℕ))
take_block ptr [] = none
take_block ptr ((p, size) ∷ blocks) =
    let rest = take_block ptr blocks in
    if p == ptr then some (size, blocks) else (rest >>= λ r. some (r.0, (p, size) ∷ r.1))

-- z_free with z_undecorate_ptr; a pointer to no block is undefined
unfoldable pub free : HeapUse → ℕ → Option HeapUse
free heap ptr = do
  (size, blocks) ← take_block (ptr - word_size) heap.blocks
  some (record { used_heap = (heap.used_heap + 2 ^ 64 - size) % 2 ^ 64; blocks = blocks })

-- ===== src/ArrayList.antt =====
-- src/common/data_structures/arraylist.c: a growable array of items of one size, as a block of
-- bytes. `top` is an offset into the block, as is each pointer that an operation returns.
pub mod Holds
pub mod Stack
pub mod Access
pub mod Remove
mod Tests
use zscript.Base.{
  ℕ, zero, suc, ◌+◌, ◌-◌, ◌*◌, Bool, true, false, Option, none, some, List, [], ◌++◌, ltb, leb,
  ◌==◌, if◌then◌else◌, ◌>>=◌, length, ◌&&◌, ◌∷◌,
}
use zscript.Base.Memory.{Allocator, read_bytes, write_bytes, copy_within}

abbrev pub array_list_initial_capacity : ℕ
array_list_initial_capacity = 3

pub record ArrayList : Type 0 where
  pub size : ℕ
  pub capacity : ℕ
  pub bytes : List ℕ
  pub top : ℕ
  pub size_of_item : ℕ

-- what a pointer to an item leads to
unfoldable pub item_at : ArrayList → ℕ → Option (List ℕ)
item_at self p = read_bytes self.bytes p self.size_of_item

unfoldable pub arraylist_get : ArrayList → ℕ → ℕ
arraylist_get self index = index * self.size_of_item

-- `char` by `char`, to the first difference
unfoldable pub same_bytes : List ℕ → List ℕ → Bool
same_bytes [] [] = true
same_bytes (x ∷ xs) (y ∷ ys) = (x == y) && same_bytes xs ys
same_bytes _ _ = false

module _ (heap : Allocator) where
  unfoldable pub arraylist_new_capacity : ℕ → ℕ → ArrayList
  arraylist_new_capacity sizeof_item initial_capacity = record {
    size = 0;
    capacity = initial_capacity;
    bytes = heap.malloc (sizeof_item * initial_capacity);
    top = 0;
    size_of_item = sizeof_item;
  }

  unfoldable pub arraylist_new : ℕ → ArrayList
  unfolding arraylist_new_capacity
  arraylist_new sizeof_item = arraylist_new_capacity sizeof_item array_list_initial_capacity

  unfoldable pub extend_capacity : ArrayList → Option ArrayList
  extend_capacity self = do
    old ← read_bytes self.bytes 0 (self.size * self.size_of_item)
    new_data ← write_bytes (heap.malloc (self.capacity * self.size_of_item * 2)) 0 old
    some (record self {
      bytes = new_data;
      capacity = self.capacity * 2;
      top = self.size * self.size_of_item;
    })

  -- the test that `push` and `set` begin with
  unfoldable pub make_room : ArrayList → Option ArrayList
  make_room self = if leb self.capacity self.size then extend_capacity self else some self

  -- the item is what its pointer leads to, of which `size_of_item` bytes are read
  unfoldable pub arraylist_push : ArrayList → List ℕ → Option (ArrayList × ℕ)
  arraylist_push self item = do
    self ← make_room self
    source ← read_bytes item 0 self.size_of_item
    bytes ← write_bytes self.bytes self.top source
    some (
      record self { bytes = bytes; top = self.top + self.size_of_item; size = self.size + 1 },
      self.size + 1 - 1,
    )

  unfoldable pub arraylist_set : ArrayList → List ℕ → ℕ → Option ArrayList
  arraylist_set self item index = do
    self ← make_room self
    source ← read_bytes item 0 self.size_of_item
    bytes ← write_bytes self.bytes (self.size_of_item * index) source
    some (record self { bytes = bytes })

-- a pointer before the block is undefined
unfoldable pub arraylist_top : ArrayList → Option ℕ
arraylist_top self =
    if leb self.size_of_item self.top then some (self.top - self.size_of_item) else none

unfoldable pub arraylist_pop : ArrayList → Option (ArrayList × ℕ)
arraylist_pop self =
    if leb self.size_of_item self.top && leb 1 self.size
    then some (
      record self { size = self.size - 1; top = self.top - self.size_of_item },
      self.top - self.size_of_item,
    )
    else none

-- The count of bytes is the number of items behind the removed one. With no item at `i` it is
-- negative, and `size_t` makes it huge.
unfoldable pub arraylist_remove_index : ArrayList → ℕ → Option ArrayList
arraylist_remove_index self i =
    if ltb i self.size
    then (do
      bytes ←
          copy_within self.bytes (arraylist_get self i) (arraylist_get self (i + 1))
            (self.size - 1 - i)
      some (record self { bytes = bytes; size = self.size - 1 }))
    else none

-- the loop over `i`, with the number of rounds left first
unfoldable pub remove_item_loop : ℕ → ArrayList → List ℕ → ℕ → Option ArrayList
remove_item_loop zero self ptr i = some self
remove_item_loop (suc rounds) self ptr i =
    let rest = remove_item_loop rounds self ptr (i + 1) in
    do
      next ← item_at self (arraylist_get self i)
      if same_bytes ptr next then arraylist_remove_index self i else rest

unfoldable pub arraylist_remove_item : ArrayList → List ℕ → Option ArrayList
unfolding remove_item_loop
arraylist_remove_item self ptr = remove_item_loop self.size self ptr 0

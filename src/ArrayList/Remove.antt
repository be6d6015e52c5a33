-- ===== src/ArrayList/Remove.antt =====
-- `arraylist_remove_index`, on which the event queue rests: how many bytes it moves, and what it
-- leaves of `top`.
use mathlib.Core.List.{flatten}
use zscript.Base.{
  ℕ, ◌+◌, ◌-◌, ◌*◌, ◌≤◌, ◌<◌, ◌≡◌, refl, sym, ap, ◌∙◌, none, some, List, [], ◌∷◌, ◌++◌,
  append_assoc, arith, leb, ltb, ◌>>=◌, length, length-append, true, false, take, drop,
  take-append-drop, length-take,
}
use zscript.Base.Memory.{
  Allocator, read_bytes, write_bytes, read_bytes-append, write_bytes-append, copy_within,
  copy_within_none, split_room, read_bytes_all,
}
use zscript.ArrayList.{
  ArrayList, item_at, arraylist_get, arraylist_remove_index, arraylist_push, make_room,
}
use zscript.ArrayList.Holds.{Items, Holds, length-flatten}
use zscript.ArrayList.Stack.{widths_of}
use zscript.ArrayList.Access.{flatten-middle}

mul_le : (a b w : ℕ) → a ≤ b → a * w ≤ b * w
mul_le a b w h = grind arith

regroup : (n : ℕ) (x rest : List ℕ) → take n x ++ (drop n x ++ rest) ≡ x ++ rest
regroup n x rest = sym (append_assoc (take n x) (drop n x) rest) ∙ rw (take-append-drop n x)

-- a list with a removed item `a` between `xs` and `b ∷ ys`
module _ (self : ArrayList) (xs : Items) (a b : List ℕ) (ys : Items)
    (h : Holds self (xs ++ a ∷ b ∷ ys)) where
  abbrev behind : ℕ
  behind = length ys + 1

  count : self.size ≡ length xs + 2 + length ys
  count = omega (arith, h.sized, length-append xs (a ∷ b ∷ ys))

  moved : self.size - 1 - length xs ≡ behind
  moved = omega (arith, count)

  inside : ltb (length xs) self.size ≡ true
  inside = ground (arith, count)

  abbrev offset : ℕ
  offset = arraylist_get self (length xs)

  abbrev next : ℕ
  next = arraylist_get self (length xs + 1)

  next_place : next ≡ offset + self.size_of_item
  unfolding arraylist_get
  next_place = omega arith

  -- Where more bytes are moved than an item has, the regions of the `memcpy` overlap: the removal
  -- of an item with more than `size_of_item` items behind it is undefined.
  pub remove_index-overlap :
      self.size_of_item < length ys + 1 → arraylist_remove_index self (length xs) ≡ none
  unfolding arraylist_remove_index copy_within
  remove_index-overlap many =
      let left : leb (offset + behind) next ≡ false = ground (arith, next_place) in
      let right : leb (next + behind) offset ≡ false = ground (arith, next_place) in
      rw (inside, moved, left, right)

  -- the bytes that are left where `a` stood
  abbrev pub mixed : List ℕ
  mixed = take behind b ++ drop behind a

  -- A removal with another item behind the removed one, and with no more items behind it than an
  -- item has bytes, is defined, moves one byte for each item behind the removed one, counts one
  -- item less, and leaves `top` and all other items where they were.
  pub remove_index-mixed :
      length ys + 1 ≤ self.size_of_item
      → (t : ArrayList) × (arraylist_remove_index self (length xs) ≡ some t)
        × (t.bytes ≡ flatten (xs ++ mixed ∷ b ∷ ys) ++ h.rest)
        × (t.size ≡ self.size - 1)
        × (t.top ≡ self.top)
        × (t.size_of_item ≡ self.size_of_item)
  unfolding arraylist_remove_index copy_within flatten
  remove_index-mixed few =
      let w = self.size_of_item in
      let (l, (size_a, (size_b, r))) = widths_of w xs (a ∷ b ∷ ys) h.widths in
      let tail = flatten ys ++ h.rest in
      let at_a : offset ≡ length (flatten xs) =
        unfold arraylist_get in sym (length-flatten w xs l) in
      let block : self.bytes ≡ flatten xs ++ (a ++ (b ++ tail)) =
        h.laid_out
        ∙ flatten-middle xs a (b ∷ ys) h.rest
        ∙ ap (λ (z : List ℕ). flatten xs ++ (a ++ z)) (append_assoc b (flatten ys) h.rest) in
      let seen : self.bytes ≡ (flatten xs ++ a) ++ (take behind b ++ (drop behind b ++ tail)) =
        block
        ∙ sym (append_assoc (flatten xs) a (b ++ tail))
        ∙ ap (λ (z : List ℕ). (flatten xs ++ a) ++ z) (sym (regroup behind b tail)) in
      let target : self.bytes ≡ flatten xs ++ (take behind a ++ (drop behind a ++ (b ++ tail))) =
        block ∙ ap (λ (z : List ℕ). flatten xs ++ z) (sym (regroup behind a (b ++ tail))) in
      let size_take_b : length (take behind b) ≡ behind = omega (arith, length-take behind b) in
      let size_take_a : length (take behind a) ≡ behind = omega (arith, length-take behind a) in
      let at_b : next ≡ length (flatten xs ++ a) =
        omega (arith, next_place, length-append (flatten xs) a) in
      let now = flatten xs ++ (take behind b ++ (drop behind a ++ (b ++ tail))) in
      let read : read_bytes self.bytes next behind ≡ some (take behind b) =
        ap (λ (z : List ℕ). read_bytes z next behind) seen
        ∙ read_bytes-append (flatten xs ++ a) _ _ next behind at_b (sym size_take_b) in
      let write : write_bytes self.bytes offset (take behind b) ≡ some now =
        ap (λ (z : List ℕ). write_bytes z offset (take behind b)) target
        ∙ write_bytes-append (flatten xs) _ _ _ offset at_a (size_take_b ∙ sym size_take_a) in
      let apart : leb (offset + behind) next ≡ true = ground (arith, next_place) in
      (
        record self { bytes = now; size = self.size - 1 },
        rw (inside, moved, apart, read, ◌>>=◌, write),
        sym (
            flatten-middle xs mixed (b ∷ ys) h.rest
            ∙ ap (λ (z : List ℕ). flatten xs ++ z)
                (append_assoc (take behind b) (drop behind a) _
                  ∙ ap (λ (z : List ℕ). take behind b ++ (drop behind a ++ z))
                      (append_assoc b (flatten ys) h.rest))),
        refl,
        refl,
        refl,
      )

-- Taking the last item off with `arraylist_remove_index` changes the size alone.
remove_index-last :
    (self : ArrayList) (xs : Items) (a : List ℕ)
    → Holds self (xs ++ a ∷ [])
    → arraylist_remove_index self (length xs) ≡ some (record self { size = self.size - 1 })
unfolding arraylist_remove_index arraylist_get
remove_index-last self xs a h =
    let n = length xs in
    let w = self.size_of_item in
    let count : self.size ≡ n + 1 = omega (arith, h.sized, length-append xs (a ∷ [])) in
    let inside : ltb n self.size ≡ true = ground (arith, count) in
    let moved : self.size - 1 - n ≡ 0 = omega (arith, count) in
    let fits : (n + 1) * w ≤ length self.bytes =
      rw h.allocated (mul_le (n + 1) self.capacity w (omega (arith, count, h.within))) in
    rw (inside, moved, copy_within_none self.bytes (n * w) ((n + 1) * w) (omega arith) fits, ◌>>=◌)

-- Taking the last item off with `arraylist_remove_index` leaves `top` behind it: a push of an item
-- of the right size that follows on a list that was not full returns the removed item's index, but
-- a read at that index gives the removed item again, and the new one stands one place further on.
pub push-remove_last :
    (heap : Allocator) (self : ArrayList) (xs : Items) (a y : List ℕ)
    → Holds self (xs ++ a ∷ [])
    → self.size < self.capacity
    → length y ≡ self.size_of_item
    → (t : ArrayList) × (u : ArrayList) × (arraylist_remove_index self (length xs) ≡ some t)
      × (arraylist_push heap t y ≡ some (u, length xs))
      × (item_at u (arraylist_get u (length xs)) ≡ some a)
      × (item_at u (arraylist_get u (length xs + 1)) ≡ some y)
unfolding arraylist_push make_room item_at arraylist_get
push-remove_last heap self xs a y h free width =
    let w = self.size_of_item in
    let n = length xs in
    let (l, (size_a, r)) = widths_of w xs (a ∷ []) h.widths in
    let count : self.size ≡ n + 1 = omega (arith, h.sized, length-append xs (a ∷ [])) in
    let pre = flatten xs ++ a in
    let size_xs : length (flatten xs) ≡ n * w = length-flatten w xs l in
    let size_pre : length pre ≡ (n + 1) * w = omega (arith, length-append (flatten xs) a) in
    let block : self.bytes ≡ pre ++ h.rest =
      unfold flatten in
      h.laid_out ∙ flatten-middle xs a [] h.rest ∙ sym (append_assoc (flatten xs) a h.rest) in
    let total : length self.bytes ≡ (n + 1) * w + length h.rest =
      ap length block ∙ length-append pre h.rest ∙ ap (λ (k : ℕ). k + length h.rest) size_pre in
    let roomy : w ≤ length h.rest =
      omega (arith, h.allocated, mul_le (n + 2) self.capacity w (omega (arith, count))) in
    let (ys, zs, split, size_ys) = split_room w h.rest roomy in
    let now = pre ++ (y ++ zs) in
    let source : read_bytes y 0 w ≡ some y = read_bytes_all y w (sym width) in
    let top_is : self.top ≡ length pre = omega (arith, h.at_top, ap (λ (k : ℕ). k * w) count) in
    let write : write_bytes self.bytes self.top y ≡ some now =
      ap (λ (z : List ℕ). write_bytes z self.top y) (block ∙ ap (λ (z : List ℕ). pre ++ z) split)
      ∙ write_bytes-append pre ys zs y self.top top_is (width ∙ sym size_ys) in
    let room : leb self.capacity (self.size - 1) ≡ false = ground arith in
    let back : self.size - 1 + 1 - 1 ≡ n = omega (arith, count) in
    (
      record self { size = self.size - 1 },
      record self { bytes = now; top = self.top + w; size = self.size - 1 + 1 },
      remove_index-last self xs a h,
      rw (room, source, write, back),
      rw append_assoc
          (read_bytes-append (flatten xs) a (y ++ zs) (n * w) w (sym size_xs) (sym size_a)),
      read_bytes-append pre y zs ((n + 1) * w) w (sym size_pre) (sym width),
    )

-- ===== src/ArrayList/Holds.antt =====
-- The list of items that an array list stands for, and what each operation does to it
-- (src/common/data_structures/arraylist.c).
use mathlib.Core.List.{flatten}
use zscript.Base.{
  ℕ, ◌*◌, ◌≤◌, ◌<◌, ◌≡◌, refl, sym, ap, ◌∙◌, Option, some, List, [], ◌∷◌, ◌++◌, append_assoc, arith,
  leb, ◌>>=◌, length, length-append, All, Bool-cases, inl, inr,
}
use zscript.Base.Memory.{
  Allocator, read_bytes, write_bytes, read_bytes-append, write_bytes-append, split_room,
}
use zscript.ArrayList.{ArrayList, arraylist_new_capacity, extend_capacity, make_room}

abbrev pub Items : Type 0
Items = List (List ℕ)

-- The items lie one after the other at the start of the block, and `top` is behind the last.
pub record Holds (self : ArrayList) (xs : Items) : Type 0 where
  pub rest : List ℕ
  pub sized : self.size ≡ length xs
  pub widths : All (λ x. length x ≡ self.size_of_item) xs
  pub laid_out : self.bytes ≡ flatten xs ++ rest
  pub allocated : length self.bytes ≡ self.capacity * self.size_of_item
  pub within : self.size ≤ self.capacity
  pub at_top : self.top ≡ self.size * self.size_of_item

pub length-flatten :
    (w : ℕ) (xs : Items) → All (λ x. length x ≡ w) xs → length (flatten xs) ≡ length xs * w
unfolding flatten
length-flatten w [] h = omega arith
length-flatten w (x ∷ xs) h =
    omega (arith, length-append x (flatten xs), length-flatten w xs h.1, h.0)

pub flatten-append : (xs ys : Items) → flatten (xs ++ ys) ≡ flatten xs ++ flatten ys
unfolding flatten
flatten-append [] ys = refl
flatten-append (x ∷ xs) ys = rw (flatten-append xs ys, append_assoc)

pub All-append :
    (w : ℕ) (xs ys : Items)
    → All (λ x. length x ≡ w) xs
    → All (λ x. length x ≡ w) ys
    → All (λ x. length x ≡ w) (xs ++ ys)
All-append w [] ys h k = k
All-append w (x ∷ xs) ys h k = (h.0, All-append w xs ys h.1 k)

module _ (heap : Allocator) where
  -- A new list of any capacity holds nothing.
  pub new_capacity-Holds : (w c : ℕ) → Holds (arraylist_new_capacity heap w c) []
  unfolding arraylist_new_capacity flatten
  new_capacity-Holds w c = record {
    rest = heap.malloc (w * c);
    sized = refl;
    widths = tt;
    laid_out = refl;
    allocated = omega (arith, heap.length-malloc (w * c));
    within = omega arith;
    at_top = omega arith;
  }

  -- what `extend_capacity` and the growth test give: the same items, and room for one more
  pub record Grown (self : ArrayList) (xs : Items) (r : Option ArrayList) : Type 0 where
    pub to : ArrayList
    pub runs : r ≡ some to
    pub holds : Holds to xs
    pub roomy : to.size < to.capacity
    pub same_width : to.size_of_item ≡ self.size_of_item
    pub same_size : to.size ≡ self.size

  -- Growing a list with a capacity above 0 is defined, keeps its items and their width, and leaves room
  -- for one more at least.
  pub extend_capacity-Grown :
      (self : ArrayList) (xs : Items)
      → Holds self xs
      → 0 < self.capacity
      → Grown self xs (extend_capacity heap self)
  unfolding extend_capacity
  extend_capacity-Grown self xs h pos =
      let w = self.size_of_item in
      let block = heap.malloc (self.capacity * w * 2) in
      let used : length (flatten xs) ≡ self.size * w =
        length-flatten w xs h.widths ∙ ap (λ (n : ℕ). n * w) (sym h.sized) in
      let fits : self.size * w ≤ length block =
        grind (arith, heap.length-malloc (self.capacity * w * 2), h.within) in
      let (ys, zs, split, size_ys) = split_room (self.size * w) block fits in
      let read : read_bytes self.bytes 0 (self.size * w) ≡ some (flatten xs) =
        rw h.laid_out
          (read_bytes-append [] (flatten xs) h.rest 0 (self.size * w) refl (sym used)) in
      let write : write_bytes block 0 (flatten xs) ≡ some (flatten xs ++ zs) =
        rw split (write_bytes-append [] ys zs (flatten xs) 0 refl (used ∙ sym size_ys)) in
      record {
        to = record self {
          bytes = flatten xs ++ zs;
          capacity = self.capacity * 2;
          top = self.size * w;
        };
        runs = rw (read, ◌>>=◌, write);
        holds = record {
          rest = zs;
          sized = h.sized;
          widths = h.widths;
          laid_out = refl;
          allocated = omega (
            arith,
            length-append (flatten xs) zs,
            length-append ys zs,
            ap length split,
            heap.length-malloc (self.capacity * w * 2),
          );
          within = omega arith;
          at_top = refl;
        };
        roomy = omega arith;
        same_width = refl;
        same_size = refl;
      }

  pub make_room-Grown :
      (self : ArrayList) (xs : Items)
      → Holds self xs
      → 0 < self.capacity
      → Grown self xs (make_room heap self)
  unfolding make_room
  make_room-Grown self xs h pos = elim (Bool-cases (leb self.capacity self.size)) [
    | inl full ↦ rw full (extend_capacity-Grown self xs h pos)
    | inr free ↦ record {
      to = self;
      runs = rw free;
      holds = h;
      roomy = ground arith;
      same_width = refl;
      same_size = refl;
    }
  ]

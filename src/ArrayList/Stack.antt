-- ===== src/ArrayList/Stack.antt =====
-- `arraylist_push`, `arraylist_top` and `arraylist_pop`: the list as a stack.
use mathlib.Core.List.{flatten}
use zscript.Base.{
  ℕ, ◌+◌, ◌-◌, ◌*◌, ◌≤◌, ◌<◌, ◌≡◌, refl, sym, ap, ◌∙◌, Option, none, some, List, [], ◌∷◌, ◌++◌,
  append_assoc, append-nil, arith, leb, ◌>>=◌, length, length-append, All, true, false,
}
use zscript.Base.Memory.{
  Allocator, read_bytes, write_bytes, read_bytes_all, read_bytes-append, write_bytes-append,
  split_room,
}
use zscript.ArrayList.{
  arraylist_new_capacity, extend_capacity, make_room, ArrayList, item_at, arraylist_push,
  arraylist_top, arraylist_pop,
}
use zscript.ArrayList.Holds.{
  Items, Holds, make_room-Grown, length-flatten, flatten-append, All-append,
}

-- the outcome of pushing `x` behind `xs`
pub record Pushed (xs : Items) (x : List ℕ) (w : ℕ) (r : Option (ArrayList × ℕ)) : Type 0 where
  pub to : ArrayList
  pub runs : r ≡ some (to, length xs)
  pub holds : Holds to (xs ++ x ∷ [])
  pub roomy : 0 < to.capacity
  pub same_width : to.size_of_item ≡ w

one : (x zs : List ℕ) → x ++ zs ≡ flatten (x ∷ []) ++ zs
unfolding flatten
one x zs = rw append-nil

module _ (heap : Allocator) where
  -- Pushing an item of the right size on a list with a capacity above 0 is defined, whether or not
  -- the list has to grow: it puts the item behind the others and returns its index.
  pub push-append :
      (self : ArrayList) (xs : Items) (x : List ℕ)
      → Holds self xs
      → 0 < self.capacity
      → length x ≡ self.size_of_item
      → Pushed xs x self.size_of_item (arraylist_push heap self x)
  unfolding arraylist_push
  push-append self xs x h pos width =
      let g = make_room-Grown heap self xs h pos in
      let t = g.to in
      let k = g.holds in
      let width' : length x ≡ t.size_of_item = width ∙ sym g.same_width in
      let used : length (flatten xs) ≡ t.size * t.size_of_item =
        length-flatten t.size_of_item xs k.widths
        ∙ ap (λ (n : ℕ). n * t.size_of_item) (sym k.sized) in
      let total : t.capacity * t.size_of_item ≡ length (flatten xs) + length k.rest =
        sym k.allocated ∙ ap length k.laid_out ∙ length-append (flatten xs) k.rest in
      let fits : t.size_of_item ≤ length k.rest = grind (arith, g.roomy) in
      let (ys, zs, split, size_ys) = split_room t.size_of_item k.rest fits in
      let source : read_bytes x 0 t.size_of_item ≡ some x =
        read_bytes_all x t.size_of_item (sym width') in
      let index : t.size + 1 - 1 ≡ length xs = omega (arith, k.sized) in
      let write : write_bytes t.bytes t.top x ≡ some (flatten xs ++ (x ++ zs)) =
        rw (k.laid_out, split)
          (write_bytes-append (flatten xs) ys zs x t.top (k.at_top ∙ sym used)
            (width' ∙ sym size_ys)) in
      record {
        to = record t {
          bytes = flatten xs ++ (x ++ zs);
          top = t.top + t.size_of_item;
          size = t.size + 1;
        };
        runs = rw (g.runs, ◌>>=◌, source, write, index);
        holds = record {
          rest = zs;
          sized = omega (arith, length-append xs (x ∷ []), k.sized);
          widths = All-append t.size_of_item xs (x ∷ []) k.widths (width', tt);
          laid_out =
              rw (flatten-append, append_assoc) (ap (λ (l : List ℕ). flatten xs ++ l) (one x zs));
          allocated = omega (
            arith,
            length-append (flatten xs) (x ++ zs),
            length-append x zs,
            length-append ys zs,
            ap length split,
          );
          within = omega (arith, g.roomy);
          at_top = omega (arith, k.at_top);
        };
        roomy = omega (arith, g.roomy);
        same_width = g.same_width;
      }

-- The block of a list that ends in `x`.
last_split :
    (self : ArrayList) (xs : Items) (x : List ℕ) (h : Holds self (xs ++ x ∷ []))
    → self.bytes ≡ flatten xs ++ (x ++ h.rest)
last_split self xs x h =
    h.laid_out
    ∙ rw (flatten-append, append_assoc) (ap (λ (l : List ℕ). flatten xs ++ l) (sym (one x h.rest)))

-- The widths of a list's two parts.
pub widths_of :
    (w : ℕ) (xs ys : Items)
    → All (λ x. length x ≡ w) (xs ++ ys)
    → All (λ x. length x ≡ w) xs × All (λ x. length x ≡ w) ys
widths_of w [] ys h = (tt, h)
widths_of w (x ∷ xs) ys h = let (l, r) = widths_of w xs ys h.1 in ((h.0, l), r)

-- the offset of the last item
abbrev last_at : ArrayList → ℕ
last_at self = self.top - self.size_of_item

last_item :
    (self : ArrayList) (xs : Items) (x : List ℕ)
    → Holds self (xs ++ x ∷ [])
    → (last_at self ≡ length (flatten xs))
      × (read_bytes self.bytes (last_at self) self.size_of_item ≡ some x)
last_item self xs x h =
    let w = self.size_of_item in
    let (l, r) = widths_of w xs (x ∷ []) h.widths in
    let e : self.size ≡ length xs + 1 = omega (arith, h.sized, length-append xs (x ∷ [])) in
    let at : last_at self ≡ length (flatten xs) =
      omega (arith, h.at_top, ap (λ (n : ℕ). n * w) e, length-flatten w xs l) in
    (at, rw (last_split self xs x h) (read_bytes-append (flatten xs) x h.rest _ w at (sym r.0)))

-- On a list that is not empty `arraylist_top` points at the last item.
pub top_lem :
    (self : ArrayList) (xs : Items) (x : List ℕ)
    → Holds self (xs ++ x ∷ [])
    → (p : ℕ) × (arraylist_top self ≡ some p) × (item_at self p ≡ some x)
unfolding arraylist_top item_at
top_lem self xs x h =
    let e : self.size ≡ length xs + 1 = omega (arith, h.sized, length-append xs (x ∷ [])) in
    let fits : leb self.size_of_item self.top ≡ true = grind (arith, h.at_top, e) in
    (last_at self, rw fits, (last_item self xs x h).1)

-- On a list that is not empty `arraylist_pop` takes the last item off and points at it.
pub pop_lem :
    (self : ArrayList) (xs : Items) (x : List ℕ)
    → Holds self (xs ++ x ∷ [])
    → (t : ArrayList) × (p : ℕ) × (arraylist_pop self ≡ some (t, p))
      × Holds t xs
      × (item_at t p ≡ some x)
unfolding arraylist_pop item_at
pop_lem self xs x h =
    let w = self.size_of_item in
    let e : self.size ≡ length xs + 1 = omega (arith, h.sized, length-append xs (x ∷ [])) in
    let fits : leb w self.top ≡ true = grind (arith, h.at_top, e) in
    let some_left : leb 1 self.size ≡ true = ground (arith, e) in
    (
      record self { size = self.size - 1; top = last_at self },
      last_at self,
      rw (fits, some_left),
      record {
        rest = x ++ h.rest;
        sized = omega (arith, e);
        widths = (widths_of w xs (x ∷ []) h.widths).0;
        laid_out = last_split self xs x h;
        allocated = h.allocated;
        within = omega (arith, h.within);
        at_top =
            (last_item self xs x h).0
            ∙ length-flatten w xs (widths_of w xs (x ∷ []) h.widths).0
            ∙ ap (λ (n : ℕ). n * w) {x = length xs} {y = self.size - 1} (omega (arith, e));
      },
      (last_item self xs x h).1,
    )

-- `arraylist_pop` of an empty list is undefined.
pub pop-empty : (self : ArrayList) → Holds self [] → arraylist_pop self ≡ none
unfolding arraylist_pop
pop-empty self h = let empty : leb 1 self.size ≡ false = ground (arith, h.sized) in ground arith

-- A list made with the capacity 0 cannot take an item of at least one byte: the growth doubles 0,
-- and the push writes behind the block.
pub push-no_capacity :
    (heap : Allocator) (x : List ℕ)
    → 0 < length x
    → arraylist_push heap (arraylist_new_capacity heap (length x) 0) x ≡ none
unfolding arraylist_push make_room extend_capacity arraylist_new_capacity read_bytes write_bytes
push-no_capacity heap x h =
    let none_used : 0 * length x ≡ 0 = omega arith in
    let block = heap.malloc (length x * 0) in
    let new = heap.malloc 0 in
    let size : length new ≡ 0 = heap.length-malloc 0 in
    let inside : leb 0 (length block) ≡ true = ground arith in
    let empty : leb 0 (length new) ≡ true = ground arith in
    let full : leb (0 + length x) (length new) ≡ false = ground (arith, size) in
    rw (none_used, inside, ◌>>=◌, empty, read_bytes_all x (length x) refl, full)

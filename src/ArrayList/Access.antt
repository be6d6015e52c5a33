-- ===== src/ArrayList/Access.antt =====
-- `arraylist_get` and `arraylist_set`: the list as an array.
use mathlib.Core.List.{flatten}
use zscript.Base.{
  ℕ, zero, suc, ◌*◌, ◌<◌, ◌≡◌, refl, sym, ap, ◌∙◌, some, List, [], ◌∷◌, ◌++◌, append_assoc, arith,
  ◌>>=◌, length, length-append, length-set, All, get_elem?, set,
}
use zscript.Base.Memory.{
  Allocator, read_bytes, write_bytes, read_bytes-append, write_bytes-append, read_bytes_all,
}
use zscript.ArrayList.{ArrayList, item_at, arraylist_get, arraylist_set}
use zscript.ArrayList.Holds.{
  Items, Holds, make_room-Grown, length-flatten, flatten-append, All-append,
}
use zscript.ArrayList.Stack.{widths_of}

-- A list seen from one of its items.
pub record At (xs : Items) (i : ℕ) (x : List ℕ) : Type 0 where
  pub before : Items
  pub after : Items
  pub parts : xs ≡ before ++ x ∷ after
  pub place : i ≡ length before

pub At_lem : (xs : Items) (i : ℕ) (x : List ℕ) → get_elem? xs i ≡ some x → At xs i x
At_lem [] i x h = cc
At_lem (y ∷ xs) zero x h = record { before = []; after = xs; parts = ground arith; place = refl }
At_lem (y ∷ xs) (suc i) x h =
    let a = At_lem xs i x h in
    record {
      before = y ∷ a.before;
      after = a.after;
      parts = rw (← a.parts);
      place = omega (arith, a.place);
    }

set-append :
    (xs : Items) (x y : List ℕ) (zs : Items) → set (xs ++ x ∷ zs) (length xs) y ≡ xs ++ y ∷ zs
set-append [] x y zs = refl
set-append (z ∷ xs) x y zs = rw (set-append xs x y zs)

pub flatten-middle :
    (xs : Items) (x : List ℕ) (zs : Items) (rest : List ℕ)
    → flatten (xs ++ x ∷ zs) ++ rest ≡ flatten xs ++ (x ++ (flatten zs ++ rest))
unfolding flatten
flatten-middle xs x zs rest = rw (flatten-append, append_assoc, append_assoc)

-- Replacing a part by one of its length keeps the length.
pub same_length :
    (block pre x y post : List ℕ)
    → block ≡ pre ++ (x ++ post)
    → length y ≡ length x
    → length (pre ++ (y ++ post)) ≡ length block
same_length block pre x y post e h = omega (
  arith,
  ap length e,
  length-append pre (y ++ post),
  length-append y post,
  length-append pre (x ++ post),
  length-append x post,
)

-- Reading at an index below the size gives the item there.
pub get-item :
    (self : ArrayList) (xs : Items) (i : ℕ) (x : List ℕ)
    → Holds self xs
    → get_elem? xs i ≡ some x
    → item_at self (arraylist_get self i) ≡ some x
unfolding item_at arraylist_get
get-item self xs i x h at =
    let a = At_lem xs i x at in
    let w = self.size_of_item in
    let widths : All (λ x. length x ≡ w) (a.before ++ x ∷ a.after) = rw a.parts at h.widths in
    let (l, r) = widths_of w a.before (x ∷ a.after) widths in
    let offset : i * w ≡ length (flatten a.before) =
      ap (λ (n : ℕ). n * w) a.place ∙ sym (length-flatten w a.before l) in
    let block : self.bytes ≡ flatten a.before ++ (x ++ (flatten a.after ++ h.rest)) =
      h.laid_out ∙ rw a.parts (flatten-middle a.before x a.after h.rest) in
    rw block (read_bytes-append (flatten a.before) x _ (i * w) w offset (sym r.0))

-- Setting an index below the size, on a list with a capacity above 0, to an item of the right size
-- replaces that item and leaves the others, whether or not the list is full and grows first.
pub set-item :
    (heap : Allocator) (self : ArrayList) (xs : Items) (i : ℕ) (x y : List ℕ)
    → Holds self xs
    → 0 < self.capacity
    → get_elem? xs i ≡ some x
    → length y ≡ self.size_of_item
    → (t : ArrayList) × (arraylist_set heap self y i ≡ some t) × Holds t (set xs i y)
unfolding arraylist_set
set-item heap self xs i x y h pos at width =
    let g = make_room-Grown heap self xs h pos in
    let t = g.to in
    let k = g.holds in
    let w = t.size_of_item in
    let a = At_lem xs i x at in
    let width' : length y ≡ w = width ∙ sym g.same_width in
    let widths : All (λ x. length x ≡ w) (a.before ++ x ∷ a.after) = rw a.parts at k.widths in
    let (l, r) = widths_of w a.before (x ∷ a.after) widths in
    let offset : w * i ≡ length (flatten a.before) =
      grind (arith, length-flatten w a.before l, a.place) in
    let block : t.bytes ≡ flatten a.before ++ (x ++ (flatten a.after ++ k.rest)) =
      k.laid_out ∙ rw a.parts (flatten-middle a.before x a.after k.rest) in
    let source : read_bytes y 0 w ≡ some y = read_bytes_all y w (sym width') in
    let now = flatten a.before ++ (y ++ (flatten a.after ++ k.rest)) in
    let write : write_bytes t.bytes (w * i) y ≡ some now =
      rw block (write_bytes-append (flatten a.before) x _ y (w * i) offset (width' ∙ sym r.0)) in
    let result : set xs i y ≡ a.before ++ y ∷ a.after =
      rw (a.place, a.parts) (set-append a.before x y a.after) in
    (
      record t { bytes = now },
      rw (g.runs, ◌>>=◌, source, write),
      record {
        rest = k.rest;
        sized = omega (arith, k.sized, length-set xs i y);
        widths = rw result (All-append w a.before (y ∷ a.after) l (width', r.1));
        laid_out = rw result (sym (flatten-middle a.before y a.after k.rest));
        allocated =
            same_length t.bytes (flatten a.before) x y _ block (width' ∙ sym r.0) ∙ k.allocated;
        within = k.within;
        at_top = k.at_top;
      },
    )

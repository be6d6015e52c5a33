-- ===== src/ArrayList/Tests.antt =====
-- The array list on concrete lists (src/common/data_structures/arraylist.c).
use mathlib.Core.List.{flatten}
use zscript.Base.{ℕ, ◌+◌, ◌-◌, ◌≡◌, refl, none, some, List, [], ◌∷◌, ◌++◌, arith, set}
use zscript.Base.Memory.{clearing}
use zscript.ArrayList.{
  arraylist_new_capacity, ArrayList, item_at, arraylist_get, arraylist_push, arraylist_set,
  arraylist_remove_index,
}
use zscript.ArrayList.Holds.{Items, Holds}
use zscript.ArrayList.Stack.{Pushed, push-append, push-no_capacity}
use zscript.ArrayList.Access.{set-item}
use zscript.ArrayList.Remove.{remove_index-overlap, remove_index-mixed, push-remove_last}

abbrev first : List ℕ
first = 1 ∷ 2 ∷ []

abbrev second : List ℕ
second = 3 ∷ 4 ∷ []

abbrev third : List ℕ
third = 5 ∷ 6 ∷ []

abbrev pair : Items
pair = first ∷ second ∷ []

-- a full list of two items
abbrev full : ArrayList
full = record { size = 2; capacity = 2; bytes = 1 ∷ 2 ∷ 3 ∷ 4 ∷ []; top = 4; size_of_item = 2 }

full-Holds : Holds full pair
unfolding flatten
full-Holds = record {
  rest = [];
  sized = refl;
  widths = (refl, (refl, tt));
  laid_out = refl;
  allocated = refl;
  within = omega arith;
  at_top = refl;
}

-- the same with room for one more
abbrev roomy : ArrayList
roomy = record {
  size = 2;
  capacity = 3;
  bytes = 1 ∷ 2 ∷ 3 ∷ 4 ∷ 0 ∷ 0 ∷ [];
  top = 4;
  size_of_item = 2;
}

roomy-Holds : Holds roomy pair
unfolding flatten
roomy-Holds = record {
  rest = 0 ∷ 0 ∷ [];
  sized = refl;
  widths = (refl, (refl, tt));
  laid_out = refl;
  allocated = refl;
  within = omega arith;
  at_top = refl;
}

-- one byte to an item
abbrev bytes3 : ArrayList
bytes3 = record { size = 3; capacity = 3; bytes = 7 ∷ 8 ∷ 9 ∷ []; top = 3; size_of_item = 1 }

bytes3-Holds : Holds bytes3 ((7 ∷ []) ∷ (8 ∷ []) ∷ (9 ∷ []) ∷ [])
unfolding flatten
bytes3-Holds = record {
  rest = [];
  sized = refl;
  widths = (refl, (refl, (refl, tt)));
  laid_out = refl;
  allocated = refl;
  within = omega arith;
  at_top = refl;
}

push-append_example : Pushed pair third 2 (arraylist_push clearing full third)
push-append_example = push-append clearing full pair third full-Holds (omega arith) refl

set-item_example :
    (t : ArrayList) × (arraylist_set clearing full third 0 ≡ some t) × Holds t (set pair 0 third)
set-item_example = set-item clearing full pair 0 first third full-Holds (omega arith) refl refl

remove_index-overlap_example : arraylist_remove_index bytes3 0 ≡ none
remove_index-overlap_example =
    remove_index-overlap bytes3 [] (7 ∷ []) (8 ∷ []) ((9 ∷ []) ∷ []) bytes3-Holds (omega arith)

remove_index-mixed_example :
    (t : ArrayList) × (arraylist_remove_index full 0 ≡ some t)
    × (t.bytes ≡ flatten ((3 ∷ 2 ∷ []) ∷ second ∷ []) ++ full-Holds.rest)
    × (t.size ≡ 2 - 1)
    × (t.top ≡ 4)
    × (t.size_of_item ≡ 2)
remove_index-mixed_example = remove_index-mixed full [] first second [] full-Holds (omega arith)

push-remove_last_example :
    (t : ArrayList) × (u : ArrayList) × (arraylist_remove_index roomy 1 ≡ some t)
    × (arraylist_push clearing t third ≡ some (u, 1))
    × (item_at u (arraylist_get u 1) ≡ some second)
    × (item_at u (arraylist_get u (1 + 1)) ≡ some third)
push-remove_last_example =
    push-remove_last clearing roomy (first ∷ []) second third roomy-Holds (omega arith) refl

push-no_capacity_example :
    arraylist_push clearing (arraylist_new_capacity clearing 2 0) third ≡ none
push-no_capacity_example = push-no_capacity clearing third (omega arith)

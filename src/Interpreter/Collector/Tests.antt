-- ===== src/Interpreter/Collector/Tests.antt =====
-- The collector on a concrete heap (src/interpreter/garbage_collector.h).
use zscript.Base.{
  ◌↔◌, ℕ, zero, suc, ◌≡◌, refl, ◌≤◌, ◌++◌, All, true, false, none, some, List, [], ◌∷◌, arith,
  get_elem?,
}
use zscript.Interpreter.State.{Reg, zero_reg, Ptr, Context, context, string, type_str}
use zscript.Interpreter.Collector.{
  Heap, gc, children, visit_children, visit_context, visit_registers, visit_register, visit_roots,
  visit_state, visit_stack, visit_statics, visit_names, visit_each, visit_object, sweep,
}
use zscript.Interpreter.Collector.Visit.{In, IsClosed}
use zscript.Interpreter.Collector.Points.{Points}
use zscript.Interpreter.Collector.Edges.{visit_children-Points}
use zscript.Interpreter.Collector.Sweep.{IsHeap, Selects, gc_lem}
use zscript.Interpreter.Collector.Roots.{IsReachable, roots-IsRoot}
use zscript.Interpreter.Collector.Statics.{visit_statics-AllKept}
use zscript.Interpreter.Collector.Reach.{All-In}
use zscript.Base.Strings.{str_eq}
use zscript.Map.{
  Map, map_new, map_insert, map_insert_flags, map_get, map_get_flags, map_key_list, key_list_of,
  keys_of, enumerable_keys, bag_get, get_hash, hash_from, char_value, bag_of, open_bag, index_of,
}

-- a context whose fourth local is the string at 3
abbrev root : Context
root = record {
  parent_context = 0;
  return_context = 0;
  locals = some (zero_reg ∷ zero_reg ∷ zero_reg ∷ record { type = type_str; val = 3 } ∷ []);
  locals_count = 4;
  symbol_table = none;
  catches_list = none;
  symbols_address = 0;
  requested_return_register_index = 0;
  return_address = 0;
}

-- a class whose static variable "a" is the string at 4
abbrev variables : Map Reg
variables = map_insert map_new (97 ∷ []) (record { type = type_str; val = 4 })

-- The second state is no root any more: only its contexts lead to the object at 2.
abbrev heap : Heap
heap = record {
  objects = context root ∷ string (97 ∷ []) ∷ string (98 ∷ []) ∷ string (99 ∷ []) ∷ [];
  versions = 0 ∷ 0 ∷ 0 ∷ 0 ∷ [];
  states =
      record {
        current_context = 1;
        root_context = 1;
        stack = zero_reg ∷ zero_reg ∷ [];
        stack_ptr = 0;
        removed_as_a_root = false;
      }
      ∷ record {
        current_context = 2;
        root_context = 2;
        stack = zero_reg ∷ [];
        stack_ptr = 0;
        removed_as_a_root = true;
      }
      ∷ [];
  static_variables = variables ∷ [];
  gc_objects_list = 1 ∷ 2 ∷ 3 ∷ 4 ∷ [];
  gc_version = 0;
}

gc-heap :
    gc heap
    ≡ some (
      record heap {
        gc_version = 1;
        versions = 1 ∷ 0 ∷ 1 ∷ 1 ∷ [];
        gc_objects_list = 1 ∷ 3 ∷ 4 ∷ [];
      },
      2 ∷ [],
    )
unfolding gc visit_statics visit_roots visit_state visit_stack visit_registers visit_register
    visit_names map_new map_insert map_insert_flags map_get map_get_flags map_key_list key_list_of
    keys_of enumerable_keys bag_get get_hash hash_from char_value bag_of open_bag index_of str_eq
    visit_each visit_object children visit_children visit_context sweep
gc-heap = refl

heap_closed : IsClosed heap.objects heap.states
unfolding children visit_children visit_context visit_registers visit_register
heap_closed zero h = (3 ∷ 0 ∷ 0 ∷ [], refl, (omega arith, (omega arith, (omega arith, tt))))
heap_closed (suc zero) h = ([], refl, tt)
heap_closed (suc (suc zero)) h = ([], refl, tt)
heap_closed (suc (suc (suc zero))) h = ([], refl, tt)
heap_closed (suc (suc (suc (suc i)))) h = absurd (omega arith)

statics_run : visit_statics heap.static_variables ≡ some (4 ∷ [])
unfolding visit_statics visit_register visit_names map_new map_insert map_insert_flags map_get
    map_get_flags map_key_list key_list_of keys_of enumerable_keys bag_get get_hash hash_from
    char_value bag_of open_bag index_of str_eq
statics_run = refl

heap_roots : All (λ p. p ≤ 4) (visit_roots heap.states ++ 4 ∷ [])
unfolding visit_roots visit_state visit_stack visit_registers
heap_roots = (omega arith, (omega arith, (omega arith, tt)))

heap-IsHeap : IsHeap heap
heap-IsHeap = record {
  versions = refl;
  closed = heap_closed;
  kept = visit_statics-AllKept heap.static_variables (4 ∷ []) statics_run;
  roots = λ p r.
      All-In (λ p. p ≤ 4) (visit_roots heap.states ++ 4 ∷ []) p heap_roots
        ((roots-IsRoot heap (4 ∷ []) statics_run p).1 r);
  listed = (
    (omega arith, omega arith),
    ((omega arith, omega arith), ((omega arith, omega arith), ((omega arith, omega arith), tt))),
  );
  fresh = fresh;
}
  where
    fresh : (i : ℕ) → ¬ (get_elem? heap.versions i ≡ some 1)
    fresh zero h = ground arith
    fresh (suc zero) h = ground arith
    fresh (suc (suc zero)) h = ground arith
    fresh (suc (suc (suc zero))) h = ground arith
    fresh (suc (suc (suc (suc i)))) h = cc

gc_lem_example :
    (after : Heap) × (freed : List Ptr) × (gc heap ≡ some (after, freed))
    × Selects (IsReachable heap) (1 ∷ 2 ∷ 3 ∷ 4 ∷ []) after.gc_objects_list
    × Selects (λ p. ¬ IsReachable heap p) (1 ∷ 2 ∷ 3 ∷ 4 ∷ []) freed
gc_lem_example = gc_lem heap heap-IsHeap

visit_root : visit_children heap.states (context root) ≡ some (3 ∷ 0 ∷ 0 ∷ [])
unfolding visit_children visit_context visit_registers visit_register
visit_root = refl

visit_children-Points_example : In {A = ℕ} 3 (3 ∷ 0 ∷ 0 ∷ []) ↔ Points heap.states 3 (context root)
visit_children-Points_example =
    visit_children-Points heap.states (context root) (3 ∷ 0 ∷ 0 ∷ []) 3 visit_root

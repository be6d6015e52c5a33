-- ===== src/Interpreter/Collector.antt =====
-- src/interpreter/garbage_collector.h: mark and sweep. A visit of an object sets its version to the
-- collection's and goes on to what the object leads to, in the order of the source.
pub mod Visit
pub mod Reach
pub mod Points
pub mod Bags
pub mod Edges
pub mod Keys
pub mod Statics
pub mod Roots
pub mod Sweep
mod Tests
use zscript.Base.{
  ℕ, zero, suc, ◌+◌, ◌-◌, ◌%◌, ◌^◌, Bool, true, false, Option, none, some, List, [], ◌∷◌, ◌++◌,
  ◌==◌, ◌||◌, leb, if◌then◌else◌, ◌>>=◌, length, get_elem?, set, take, drop,
}
use zscript.Base.Strings.{Text}
use zscript.Map.{Map, Bag, map_key_list, map_get}
use zscript.Interpreter.State.{
  Reg, Ptr, Context, FunctionRef, Object, string, context, function_ref, class_ref, obj,
  instance_object, type_number, type_native_func,
}

-- what the collector reads of a `z_interpreter_state_t`
pub record InterpreterState : Type 0 where
  pub current_context : Ptr
  pub root_context : Ptr
  pub stack : List Reg
  pub stack_ptr : ℕ
  pub removed_as_a_root : Bool

-- the globals; `versions` has the `gc_version` of each object
pub record Heap : Type 0 where
  pub objects : List Object
  pub versions : List ℕ
  pub states : List InterpreterState
  pub static_variables : List (Map Reg)
  pub gc_objects_list : List Ptr
  pub gc_version : ℕ

-- gc_visit_register
unfoldable pub visit_register : Reg → List Ptr
visit_register r = if r.type == type_number || r.type == type_native_func then [] else r.val ∷ []

unfoldable pub visit_registers : List Reg → List Ptr
visit_registers [] = []
visit_registers (r ∷ rs) = visit_register r ++ visit_registers rs

-- gc_visit_stack
unfoldable pub visit_stack : List Reg → ℕ → List Ptr
visit_stack stack stack_ptr = visit_registers (take stack_ptr (drop 1 stack))

-- gc_visit_state
unfoldable pub visit_state : InterpreterState → List Ptr
visit_state s = s.current_context ∷ s.root_context ∷ visit_stack s.stack s.stack_ptr

-- gc_visit_context: the first two locals are left out; with no block there is none to visit
unfoldable pub visit_context : Context → Option (List Ptr)
visit_context c = do
  locals ← elim c.locals [
    | none ↦ if leb c.locals_count 2 then some [] else none
    | some locals ↦ if leb c.locals_count (length locals) then some locals else none
  ]
  some (
      visit_registers (drop 2 (take c.locals_count locals))
      ++ c.parent_context ∷ c.return_context ∷ [])

-- gc_visit_object_with_map
unfoldable pub visit_bags : List (Option (Bag Reg)) → List Ptr
visit_bags [] = []
visit_bags (none ∷ bags) = visit_bags bags
visit_bags (some bag ∷ bags) =
    visit_registers (take (length bag.keys) bag.values) ++ visit_bags bags

-- the switch of gc_visit_object, with gc_visit_function_ref and gc_visit_instance
unfoldable pub visit_children : List InterpreterState → Object → Option (List Ptr)
visit_children states (obj m cache) = some (visit_bags m.bags)
visit_children states (context c) = visit_context c
visit_children states (instance_object name saved_state) =
    get_elem? states saved_state >>= λ s. some (visit_state s)
visit_children states (function_ref f) = get_elem? states f.responsible_interpreter_state >>= λ s.
    some (f.parent_context ∷ visit_state s)
visit_children states (string t) = some []
visit_children states (class_ref t) = some []

-- what the object at place `i` leads to
unfoldable pub children : List Object → List InterpreterState → ℕ → Option (List Ptr)
children objects states i = get_elem? objects i >>= visit_children states

-- one visit after the other
unfoldable pub visit_each : (Ptr → List ℕ → Option (List ℕ)) → List Ptr → List ℕ → Option (List ℕ)
visit_each visit [] versions = some versions
visit_each visit (p ∷ ps) versions = visit p versions >>= visit_each visit ps

module _ (objects : List Object) (states : List InterpreterState) (version : ℕ) where
  -- gc_visit_object, on fuel
  unfoldable pub visit_object : ℕ → Ptr → List ℕ → Option (List ℕ)
  visit_object zero p versions = none
  visit_object (suc fuel) zero versions = some versions
  visit_object (suc fuel) (suc i) versions = elim (get_elem? versions i) [
    | none ↦ none
    | some v ↦ elim (v == version) [
      | true ↦ some versions
      | false ↦ children objects states i >>= λ ps.
          visit_each (visit_object fuel) ps (set versions i version)
    ]
  ]

-- the states that are still roots
unfoldable pub visit_roots : List InterpreterState → List Ptr
visit_roots [] = []
visit_roots (s ∷ states) =
    if s.removed_as_a_root then visit_roots states else visit_state s ++ visit_roots states

-- the loop over the names of a class's static variables
unfoldable pub visit_names : Map Reg → List Text → Option (List Ptr)
visit_names m [] = some []
visit_names m (k ∷ ks) = do
  r ← map_get m k
  rest ← visit_names m ks
  some (visit_register r ++ rest)

unfoldable pub visit_statics : List (Map Reg) → Option (List Ptr)
visit_statics [] = some []
visit_statics (m ∷ maps) = do
  here ← visit_names m (map_key_list m)
  rest ← visit_statics maps
  some (here ++ rest)

-- the second loop of `gc`: the objects kept, and those given to gc_free_object
unfoldable pub sweep : ℕ → List ℕ → List Ptr → Option (List Ptr × List Ptr)
sweep version versions [] = some ([], [])
sweep version versions (zero ∷ ps) = none
sweep version versions (suc i ∷ ps) = do
  v ← get_elem? versions i
  (kept, freed) ← sweep version versions ps
  (if v == version then some (suc i ∷ kept, freed) else some (kept, suc i ∷ freed))

-- the heap after a collection, and the objects that were freed; a visit goes no deeper than there are
-- objects
unfoldable pub gc : Heap → Option (Heap × List Ptr)
gc heap = do
  statics ← visit_statics heap.static_variables
  let version = (heap.gc_version + 1) % 2 ^ 32
  versions ←
      visit_each (visit_object heap.objects heap.states version (length heap.objects + 2))
        (visit_roots heap.states ++ statics) heap.versions
  (kept, freed) ← sweep version versions heap.gc_objects_list
  some (record heap { gc_version = version; versions = versions; gc_objects_list = kept }, freed)

-- ===== src/Interpreter/Throw.antt =====
-- Exceptions of src/interpreter/interpreter_dd.c: catch points, the search for one, and the way there.
use zscript.Base.{
  ℕ, zero, suc, ◌+◌, Option, none, some, List, [], ◌∷◌, ◌++◌, ◌==◌, if◌then◌else◌, ◌>>=◌, length,
}
use zscript.Base.Strings.{Text}
use zscript.Program.Instruction.{Instruction}
use zscript.Interpreter.Numbers.{Float64}
use zscript.Interpreter.State.{
  Ptr, Context, string, Vm, type_str, context_at, put_context, allocate, get_reg, push_value,
  goto_next,
}
use zscript.Interpreter.Data.{operand_text}

-- the loop goes on, or `goto end`
pub data Outcome : Type 0 where
  running : Vm → Outcome
  ended : Vm → Outcome

-- `*(int_t *) arraylist_top(list)`, for a list that is there and not empty
unfoldable pub last_catch : Option (List ℕ) → Option ℕ
last_catch none = none
last_catch (some []) = none
last_catch (some (p ∷ [])) = some p
last_catch (some (p ∷ q ∷ ps)) = last_catch (some (q ∷ ps))

-- no catch point anywhere: `snprintf` of "%s \nclass:%s" into a buffer that is long enough
unfoldable pub uncaught : Vm → Text → Vm
uncaught vm message = record vm {
  return_code = 1;
  exception_details = message ++ (32 ∷ 10 ∷ 99 ∷ 108 ∷ 97 ∷ 115 ∷ 115 ∷ 58 ∷ []) ++ vm.class_name;
}

-- the message goes on the stack as a new string
unfoldable pub caught : Vm → Text → ℕ → Option Vm
caught vm message catch_ptr =
    let new = allocate vm.objects (string message) in
    push_value (record vm { objects = new.0; instruction_pointer = catch_ptr })
      (record { type = type_str; val = new.1 })

-- The search of `interpreter_throw_exception_from_str` from `context` outwards, on fuel.
unfoldable pub search_catch : ℕ → Vm → Text → Ptr → Option Vm
search_catch zero vm message p = none
search_catch (suc fuel) vm message zero = some (uncaught vm message)
search_catch (suc fuel) vm message (suc p) = elim (context_at vm.objects (suc p)) [
  | none ↦ none
  | some c ↦ elim (last_catch c.catches_list) [
    | some catch_ptr ↦ caught vm message catch_ptr
    | none ↦
        search_catch fuel (record vm { state_context = c.return_context }) message c.return_context
  ]
]

-- a chain of callers has no more members than there are objects
unfoldable pub throw_exception_from_str : Vm → Text → Option Vm
throw_exception_from_str vm message =
    search_catch (length vm.objects + 2) vm message vm.state_context

unfoldable pub goto_catch_block : Vm → Vm
goto_catch_block vm = record vm { ip = vm.instruction_pointer; current_context = vm.state_context }

-- RETURN_IF_ERROR; GOTO_CATCH
unfoldable pub after_throw : Vm → Outcome
after_throw vm = if vm.return_code == 0 then running (goto_catch_block vm) else ended vm

unfoldable pub raise : Vm → Text → Option Outcome
raise vm message = throw_exception_from_str vm message >>= λ vm. some (after_throw vm)

unfoldable pub op_throw : Float64 → (Ptr → Text) → Instruction → Vm → Option Outcome
op_throw f describe i vm = do
  r0 ← get_reg vm i.r0
  message ← operand_text f describe vm r0
  raise (record vm { state_context = vm.current_context }) message

-- the list of catch points, made at the first; only then is the state's context brought up to date
unfoldable pub add_catch : Vm → ℕ → Context → Vm
add_catch vm target c = elim c.catches_list [
  | none ↦ record vm {
    state_context = vm.current_context;
    objects =
        put_context vm.objects vm.current_context (record c { catches_list = some (target ∷ []) });
  }
  | some points ↦ record vm {
    objects =
        put_context vm.objects vm.current_context
          (record c { catches_list = some (points ++ target ∷ []) });
  }
]

unfoldable pub op_set_catch : Instruction → Vm → Option Vm
op_set_catch i vm = do
  c ← context_at vm.objects vm.current_context
  some (goto_next (add_catch vm i.r0 c))

-- all but the last; a pop of an empty list is undefined
unfoldable pub pop_catch : List ℕ → Option (List ℕ)
pop_catch [] = none
pop_catch (p ∷ []) = some []
pop_catch (p ∷ q ∷ ps) = elim (pop_catch (q ∷ ps)) [ none ↦ none | some rest ↦ some (p ∷ rest) ]

unfoldable pub op_clear_catch : Instruction → Vm → Option Vm
op_clear_catch i vm = do
  c ← context_at vm.objects vm.current_context
  points ← c.catches_list
  rest ← pop_catch points
  some (
      goto_next (record vm {
        objects = put_context vm.objects vm.current_context (record c { catches_list = some rest });
      }))

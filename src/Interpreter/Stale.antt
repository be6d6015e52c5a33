-- ===== src/Interpreter/Stale.antt =====
-- The catch points of a function that has returned (src/interpreter/interpreter_dd.c).
use zscript.Base.{
  ℕ, zero, suc, ◌+◌, ◌<◌, ◌≡◌, refl, ◌∙◌, true, false, Option, some, List, [], ◌∷◌, ◌++◌, ◌==◌, ltb,
  ◌>>=◌, length, set, arith, get_elem?, ==_refl,
}
use zscript.Base.Strings.{Text}
use zscript.Program.Instruction.{Instruction}
use zscript.Interpreter.Numbers.{Float64}
use zscript.Interpreter.State.{Reg, Ptr, Context, Vm, context_at, push_value, allocate}
use zscript.Interpreter.Throw.{
  Outcome, running, ended, last_catch, caught, search_catch, throw_exception_from_str, raise,
  after_throw, goto_catch_block,
}
use zscript.Interpreter.Control.{op_return, op_div, divide_by_0}
use zscript.Interpreter.Store.{context_at-bounds, context_at-put_context, Frame, get_reg-Frame}
use zscript.Interpreter.Unwind.{handled, last_catch-end}
use zscript.Interpreter.Calls.{Block, returned, op_return-returned}

-- a context with a catch point takes the exception itself
search_catch-handled :
    (vm : Vm) (message : Text) (fuel : ℕ) (p : Ptr) (c : Context) (target : ℕ)
    → context_at vm.objects p ≡ some c
    → last_catch c.catches_list ≡ some target
    → vm.stack_ptr + 1 < length vm.stack
    → search_catch (suc fuel) (record vm { state_context = p }) message p
      ≡ some (handled vm message p target)
unfolding search_catch caught push_value allocate
search_catch-handled vm message fuel zero c target at e room =
    absurd (omega (arith, (context_at-bounds vm.objects zero c at).0))
search_catch-handled vm message fuel (suc p) c target at e room =
    let fits : ltb (vm.stack_ptr + 1) (length vm.stack) ≡ true = ground arith in
    rw (at, search_catch, e, fits)

pub raise-handled :
    (vm : Vm) (message : Text) (c : Context) (target : ℕ)
    → context_at vm.objects vm.state_context ≡ some c
    → last_catch c.catches_list ≡ some target
    → vm.stack_ptr + 1 < length vm.stack
    → vm.return_code ≡ 0
    → raise vm message
      ≡ some (running (goto_catch_block (handled vm message vm.state_context target)))
unfolding raise throw_exception_from_str after_throw goto_catch_block
raise-handled vm message c target at e room fine =
    let fuel : length vm.objects + 2 ≡ suc (length vm.objects + 1) = omega arith in
    rw (
      fuel,
      search_catch-handled vm message (length vm.objects + 1) vm.state_context c target at e room,
      ◌>>=◌,
      fine,
    )

-- the next instruction, if the run goes on
unfoldable pub then_run : (Vm → Option Outcome) → Outcome → Option Outcome
then_run step (running vm) = step vm
then_run step (ended vm) = some (ended vm)

-- A function that returns to an older context while one of its catch points is set leaves that
-- catch point in charge: a division by 0 that its caller runs next, with no error recorded and room
-- for one more value on the stack, goes on at the last catch point of the function that returned, and
-- in that function's context, whatever catch points the caller has.
pub return-stale_catch :
    (f : Float64) (i d : Instruction) (vm : Vm) (locals caller_locals : List Reg) (v x y : Reg)
    (c : Context) (before : List ℕ) (target : ℕ)
    → context_at vm.objects vm.current_context ≡ some c
    → c.locals ≡ some locals
    → get_elem? locals i.r0 ≡ some v
    → (b : Block vm.objects c.return_context caller_locals)
    → c.requested_return_register_index < length caller_locals
    → c.return_context < vm.current_context
    → c.catches_list ≡ some (before ++ target ∷ [])
    → get_elem? (set caller_locals c.requested_return_register_index v) d.r0 ≡ some x
    → get_elem? (set caller_locals c.requested_return_register_index v) d.r1 ≡ some y
    → f.equal y.val 0 ≡ true
    → vm.stack_ptr + 1 < length vm.stack
    → vm.return_code ≡ 0
    → (op_return i vm >>= then_run (op_div f d))
      ≡ some (
          running
            (record (handled
              (returned vm c b.here caller_locals v)
              divide_by_0
              vm.current_context
              target) { ip = target; current_context = vm.current_context }))
unfolding then_run op_div goto_catch_block
return-stale_catch f i d vm locals caller_locals v x y c before target at block result b inside
      older handler dx dy by_0 room fine =
    let back = returned vm c b.here caller_locals v in
    let new_locals = set caller_locals c.requested_return_register_index v in
    let new_here = record (b.here) { locals = some new_locals } in
    let other : (c.return_context == vm.current_context) ≡ false = ground arith in
    let caller : Frame back new_locals = record {
      here = new_here;
      there =
          context_at-put_context vm.objects c.return_context c.return_context b.here new_here
            b.there
          ∙ rw ==_refl;
      block = refl;
    } in
    let still : context_at back.objects vm.current_context ≡ some c =
      context_at-put_context vm.objects c.return_context vm.current_context b.here new_here b.there
      ∙ rw other at in
    rw
      (
        op_return-returned i vm locals caller_locals v c at block result b inside,
        ◌>>=◌,
        get_reg-Frame back new_locals d.r0 caller,
        dx,
        get_reg-Frame back new_locals d.r1 caller,
        dy,
        by_0,
      )
      (raise-handled back divide_by_0 c target still (last_catch-end c before target handler) room
        fine)

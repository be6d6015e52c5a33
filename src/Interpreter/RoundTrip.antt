-- ===== src/Interpreter/RoundTrip.antt =====
-- A call and the return from it (src/interpreter/interpreter_dd.c), and an exception after the return.
use zscript.Base.{
  ℕ, ◌+◌, ◌-◌, ◌≤◌, ◌<◌, ◌≡◌, refl, ◌∙◌, false, some, List, ◌==◌, if◌then◌else◌, ◌>>=◌, length, set,
  arith, get_elem?, get_elem?-set, replicate, length-replicate, ==_refl,
}
use zscript.Program.Instruction.{Instruction}
use zscript.Interpreter.State.{
  Reg, zero_reg, Ptr, FunctionRef, Object, context, Vm, Code, context_at, allocate, get_reg,
}
use zscript.Interpreter.Throw.{running}
use zscript.Interpreter.Control.{call_context, call_own, op_return}
use zscript.Interpreter.Store.{
  context_at-bounds, context_at-put_context, context_at-allocate, Frame, get_reg-Frame,
}
use zscript.Interpreter.Arguments.{placed, length-placed, placed-argument}
use zscript.Interpreter.Calls.{
  HasThis, Ready, new_locals, called, entered, Block, returned, call_own-entered, context_at-new,
  op_return-returned,
}

-- the caller's block after the call, with the result in its register
abbrev pub ReturnsTo : Instruction → Vm → List Reg → List Reg → Reg → Vm → Type 0
ReturnsTo i vm args locals v vm' =
    (vm'.ip ≡ vm.ip + 32)
    × (vm'.current_context ≡ vm.current_context)
    × (vm'.stack_ptr ≡ vm.stack_ptr - length args)
    × ((r : ℕ) → get_reg vm' r ≡ (if i.r1 == r then some v else get_elem? locals r))

module _ (code : Code) (i j frame : Instruction) (f : FunctionRef) (vm : Vm)
    (args locals : List Reg) (this : Reg) where
  abbrev new_objects : List Object
  new_objects = (allocate vm.objects (context (call_context f vm i))).0

  abbrev new_context : Ptr
  new_context = (allocate vm.objects (context (call_context f vm i))).1

  caller_kept :
      (fr : Frame vm locals)
      → context_at (entered f vm i frame args this).objects vm.current_context ≡ some fr.here
  unfolding allocate
  caller_kept fr =
      let b = (context_at-bounds vm.objects vm.current_context fr.here fr.there).1 in
      let apart : (new_context == vm.current_context) ≡ false = ground arith in
      context_at-put_context new_objects new_context vm.current_context _ _
        (context_at-new vm.objects (call_context f vm i))
      ∙ rw apart (
          context_at-allocate vm.objects (context (call_context f vm i)) vm.current_context fr.here
            fr.there)

  -- A call and return, where the caller has pushed the arguments that the instruction counts and
  -- the stack has room for the count, the root context has `this`, the function begins with a frame
  -- that has room for the arguments, it returns the register of its argument number `k`, and the
  -- caller has the register for the result: the caller goes on behind the call with that argument
  -- in the register asked for, every other register as it was, and the arguments gone from the
  -- stack.
  pub return-call :
      (k : ℕ) (a : Reg)
      → Frame vm locals
      → Ready code i frame f vm args
      → HasThis vm this
      → 3 + length args ≤ frame.r0 + 1
      → j.r0 ≡ 3 + k
      → get_elem? args k ≡ some a
      → i.r1 < length locals
      → (vm' : Vm) × ((call_own code i f vm >>= op_return j) ≡ some (running vm'))
        × ReturnsTo i vm args locals a vm'
  unfolding call_context
  return-call k a fr ready has fits same result inside =
      let mid = entered f vm i frame args this in
      let block = new_locals frame args this in
      let blank = replicate (frame.r0 + 1) zero_reg in
      let width = length-replicate (frame.r0 + 1) zero_reg in
      let at : context_at mid.objects mid.current_context ≡ some (called f vm i frame block) =
        context_at-put_context new_objects new_context new_context _ _
          (context_at-new vm.objects (call_context f vm i))
        ∙ rw ==_refl in
      let other : (1 == 3 + k) ≡ false = ground arith in
      let value : get_elem? block j.r0 ≡ some a =
        rw
          (
            same,
            get_elem?-set (placed 3 args blank) 1 (3 + k) this
                (omega (arith, width, length-placed args 3 blank)),
            other,
          )
          (placed-argument args 3 k blank a (omega (arith, width)) result) in
      let caller : Block mid.objects vm.current_context locals = record {
        here = fr.here;
        there = caller_kept fr;
        block = fr.block;
      } in
      let back = returned mid (called f vm i frame block) fr.here locals a in
      let after : Frame back (set locals i.r1 a) = record {
        here = record (fr.here) { locals = some (set locals i.r1 a) };
        there =
            context_at-put_context mid.objects vm.current_context vm.current_context fr.here _
              (caller_kept fr)
            ∙ rw ==_refl;
        block = refl;
      } in
      (
        back,
        rw (call_own-entered code i frame f vm args this ready has fits, ◌>>=◌)
            (op_return-returned j mid block locals a (called f vm i frame block) at refl value
              caller inside),
        (
          refl,
          refl,
          refl,
          λ r.
              get_reg-Frame back (set locals i.r1 a) r after ∙ get_elem?-set locals i.r1 r a inside,
        ),
      )

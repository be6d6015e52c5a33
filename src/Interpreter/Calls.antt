-- ===== src/Interpreter/Calls.antt =====
-- Calls and returns of src/interpreter/interpreter_dd.c.
use zscript.Base.{
  ℕ, ◌+◌, ◌-◌, ◌≤◌, ◌<◌, ◌≡◌, sym, ap, ◌∙◌, true, false, none, some, List, ◌==◌, ltb, leb, ◌>>=◌,
  length, set, arith, get_elem?, get_elem?-set, replicate, length-replicate, ==_refl,
}
use zscript.Program.Instruction.{Instruction}
use zscript.Interpreter.State.{
  Reg, zero_reg, Ptr, Context, FunctionRef, Object, context, context_of, Vm, Code, fetch,
  type_number, context_at, put_context, allocate, push_value, pop_value, goto_next,
}
use zscript.Interpreter.Throw.{running}
use zscript.Interpreter.Control.{
  set_arguments_count, place_arguments, place_this, op_fframe, call_context, call_own, op_return,
}
use zscript.Interpreter.Store.{
  context_at-bounds, object_at-allocate_self, context_at-allocate, Frame, get_reg-Frame,
  set_reg-Frame,
}
use zscript.Interpreter.Arguments.{
  OnStack, OnStack-set, placed, place_arguments-placed, place_arguments-outside, length-placed,
}

-- A root context whose second local is `this`.
pub record HasThis (vm : Vm) (this : Reg) : Type 0 where
  pub root : Context
  pub root_locals : List Reg
  pub there : context_at vm.objects vm.root_context ≡ some root
  pub block : root.locals ≡ some root_locals
  pub second : get_elem? root_locals 1 ≡ some this

-- what the caller has set up for a call of `f` by the instruction `i`, and the function's first
-- instruction `frame`
pub record Ready (code : Code) (i frame : Instruction) (f : FunctionRef) (vm : Vm) (args : List Reg)
    : Type 0 where
  pub starts : fetch code f.start_address ≡ some frame
  pub counted : length args ≡ i.r2
  pub pushed : OnStack vm.stack vm.stack_ptr args
  pub room : vm.stack_ptr + 1 < length vm.stack

-- the locals of the new frame
abbrev pub new_locals : Instruction → List Reg → Reg → List Reg
new_locals frame args this = set (placed 3 args (replicate (frame.r0 + 1) zero_reg)) 1 this

-- the context of the called function
abbrev pub called : FunctionRef → Vm → Instruction → Instruction → List Reg → Context
called f vm i frame locals = record (call_context f vm i) {
  locals = some locals;
  locals_count = frame.r0 + 1;
  symbols_address = frame.r1;
}

-- the state in which the function's second instruction runs
abbrev pub entered : FunctionRef → Vm → Instruction → Instruction → List Reg → Reg → Vm
entered f vm i frame args this =
    let new = allocate vm.objects (context (call_context f vm i)) in
    record vm {
      objects = put_context new.0 new.1 (called f vm i frame (new_locals frame args this));
      state_context = new.1;
      current_context = new.1;
      stack = set vm.stack (vm.stack_ptr + 1) (record { type = type_number; val = i.r2 });
      stack_ptr = vm.stack_ptr - length args;
      ip = f.start_address + 32;
    }

pub context_at-new :
    (objects : List Object) (c : Context)
    → context_at (allocate objects (context c)).0 (allocate objects (context c)).1 ≡ some c
unfolding context_at context_of
context_at-new objects c = rw (object_at-allocate_self objects (context c))

module _ (code : Code) (i frame : Instruction) (f : FunctionRef) (vm : Vm) (args : List Reg)
    (this : Reg) where
  abbrev count : Reg
  count = record { type = type_number; val = i.r2 }

  counted_vm :
      Ready code i frame f vm args
      → set_arguments_count vm i.r2
        ≡ some (record vm {
          stack = set vm.stack (vm.stack_ptr + 1) count;
          stack_ptr = vm.stack_ptr + 1;
        })
  unfolding set_arguments_count push_value
  counted_vm ready =
      let fits : ltb (vm.stack_ptr + 1) (length vm.stack) ≡ true = ground (arith, ready.room) in
      rw fits

  placing_this :
      (objects : List Object) (locals : List Reg)
      → HasThis vm this
      → ((p : Ptr) (c : Context) → context_at vm.objects p ≡ some c → context_at objects p ≡ some c)
      → 1 < length locals
      → place_this objects vm.root_context locals ≡ some (set locals 1 this)
  unfolding place_this
  placing_this objects locals has kept h =
      let inside : ltb 1 (length locals) ≡ true = ground arith in
      rw (kept vm.root_context has.root has.there, ◌>>=◌, has.block, has.second, inside)

  -- the state that OP_FFRAME begins in, less the count
  abbrev framing : Vm
  framing =
      let new = allocate vm.objects (context (call_context f vm i)) in
      record vm {
        objects = new.0;
        state_context = new.1;
        current_context = new.1;
        stack = set vm.stack (vm.stack_ptr + 1) count;
        ip = f.start_address;
      }

  abbrev blank : List Reg
  blank = replicate (frame.r0 + 1) zero_reg

  placing :
      Ready code i frame f vm args
      → 3 + length args ≤ frame.r0 + 1
      → place_arguments i.r2 3 blank (record framing { stack_ptr = vm.stack_ptr + 1 - 1 })
        ≡ some (placed 3 args blank, record framing { stack_ptr = vm.stack_ptr - length args })
  placing ready fits =
      let down : vm.stack_ptr + 1 - 1 ≡ vm.stack_ptr = omega arith in
      ap
        (λ (n : ℕ). place_arguments n 3 blank (record framing { stack_ptr = vm.stack_ptr + 1 - 1 }))
        (sym ready.counted)
      ∙ ap (λ (p : ℕ). place_arguments (length args) 3 blank (record framing { stack_ptr = p }))
          down
      ∙ place_arguments-placed args 3 blank framing
          (OnStack-set vm.stack vm.stack_ptr (vm.stack_ptr + 1) count args (omega arith) ready.room
            ready.pushed)
          (omega (arith, length-replicate (frame.r0 + 1) zero_reg))

  -- A call, where the caller has pushed the arguments that the instruction counts and the stack has
  -- room for the count, the root context has `this`, and the function begins with a frame that has
  -- room for the arguments, pushes the count, makes the context, and takes the count and the
  -- arguments off the stack again: the callee starts behind its first instruction with `this` and
  -- the arguments in its locals, and with the way back to the caller.
  pub call_own-entered :
      Ready code i frame f vm args
      → HasThis vm this
      → 3 + length args ≤ frame.r0 + 1
      → call_own code i f vm ≡ some (entered f vm i frame args this)
  unfolding call_own op_fframe goto_next pop_value call_context
  call_own-entered ready has fits =
      let new = allocate vm.objects (context (call_context f vm i)) in
      let stack = set vm.stack (vm.stack_ptr + 1) count in
      let top : get_elem? stack (vm.stack_ptr + 1) ≡ some count =
        rw (
          get_elem?-set vm.stack (vm.stack_ptr + 1) (vm.stack_ptr + 1) count ready.room,
          ==_refl,
        ) in
      let above : leb 1 (vm.stack_ptr + 1) ≡ true = ground arith in
      let wide : 1 < length (placed 3 args blank) =
        omega (arith, length-placed args 3 blank, length-replicate (frame.r0 + 1) zero_reg) in
      let this_placed =
        placing_this new.0 (placed 3 args blank) has
          (λ p c. context_at-allocate vm.objects (context (call_context f vm i)) p c) wide in
      rw (
        counted_vm ready,
        ◌>>=◌,
        ready.starts,
        top,
        above,
        placing ready fits,
        this_placed,
        context_at-new vm.objects (call_context f vm i),
      )

  -- A call, where the caller has pushed the arguments that the instruction counts and the stack has
  -- room for the count, of a function whose frame has at least three locals but fewer than the
  -- arguments need behind the first three, writes behind the block of locals.
  pub call_own-overflow :
      Ready code i frame f vm args
      → 2 ≤ frame.r0
      → frame.r0 + 1 < 3 + length args
      → call_own code i f vm ≡ none
  unfolding call_own op_fframe goto_next pop_value call_context
  call_own-overflow ready own over =
      let stack = set vm.stack (vm.stack_ptr + 1) count in
      let top : get_elem? stack (vm.stack_ptr + 1) ≡ some count =
        rw (
          get_elem?-set vm.stack (vm.stack_ptr + 1) (vm.stack_ptr + 1) count ready.room,
          ==_refl,
        ) in
      let above : leb 1 (vm.stack_ptr + 1) ≡ true = ground arith in
      let width = length-replicate (frame.r0 + 1) zero_reg in
      let down : vm.stack_ptr + 1 - 1 ≡ vm.stack_ptr = omega arith in
      let outside : place_arguments i.r2 3 blank
            (record framing { stack_ptr = vm.stack_ptr + 1 - 1 })
          ≡ none =
        ap
          (λ (n : ℕ).
            place_arguments n 3 blank (record framing { stack_ptr = vm.stack_ptr + 1 - 1 }))
          (sym ready.counted)
        ∙ ap (λ (p : ℕ). place_arguments (length args) 3 blank (record framing { stack_ptr = p }))
            down
        ∙ place_arguments-outside args 3 blank framing
            (OnStack-set vm.stack vm.stack_ptr (vm.stack_ptr + 1) count args (omega arith)
              ready.room ready.pushed)
            (omega (arith, width)) (omega (arith, width)) in
      rw (counted_vm ready, ◌>>=◌, ready.starts, top, above, outside)

-- a block of locals of the context at `p`
pub record Block (objects : List Object) (p : Ptr) (locals : List Reg) : Type 0 where
  pub here : Context
  pub there : context_at objects p ≡ some here
  pub block : here.locals ≡ some locals

-- The state behind a call, given the callee's context and the caller's block.
abbrev pub returned : Vm → Context → Context → List Reg → Reg → Vm
returned vm c caller locals v = record vm {
  objects =
      put_context vm.objects c.return_context
        (record caller { locals = some (set locals c.requested_return_register_index v) });
  state_context = vm.current_context;
  current_context = c.return_context;
  ip = c.return_address + 32;
}

-- A return from a context that was called from one whose block has the register for the result goes
-- on behind the call in the caller, writes the returned register to the one that the call asked
-- for, and leaves the stack alone; it is the callee that stays the context of the state.
pub op_return-returned :
    (i : Instruction) (vm : Vm) (locals caller_locals : List Reg) (v : Reg) (c : Context)
    → context_at vm.objects vm.current_context ≡ some c
    → c.locals ≡ some locals
    → get_elem? locals i.r0 ≡ some v
    → (b : Block vm.objects c.return_context caller_locals)
    → c.requested_return_register_index < length caller_locals
    → op_return i vm ≡ some (running (returned vm c b.here caller_locals v))
unfolding op_return goto_next
op_return-returned i vm locals caller_locals v c at block result b h =
    let fr : Frame vm locals = record { here = c; there = at; block = block } in
    let back : Vm = record vm {
      ip = c.return_address;
      state_context = vm.current_context;
      current_context = c.return_context;
    } in
    let caller : Frame back caller_locals = record {
      here = b.here;
      there = b.there;
      block = b.block;
    } in
    let has_caller : (c.return_context == 0) ≡ false =
      ground (arith, (context_at-bounds vm.objects c.return_context b.here b.there).0) in
    rw (
      get_reg-Frame vm locals i.r0 fr,
      result,
      ◌>>=◌,
      at,
      has_caller,
      set_reg-Frame back caller_locals c.requested_return_register_index v caller h,
    )

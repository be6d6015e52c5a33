-- ===== src/Compiler/Straight.antt =====
-- Straight code in a frame of the interpreter (src/interpreter/interpreter_dd.c) does what it does to the block
-- of locals.
use zscript.Base.{
  ℕ, ◌+◌, ◌*◌, ◌<◌, ◌≡◌, refl, ap, ◌∙◌, false, Option, none, some, List, [], ◌∷◌, ◌==◌, ltb, ◌>>=◌,
  length, get_elem?, set, arith, inl, inr, Bool-cases, Option-cases,
}
use zscript.Base.Strings.{Text}
use zscript.Program.Instruction
use zscript.Program.Instruction.{Instruction, is_compare}
use zscript.Interpreter.Numbers.{Float64}
use zscript.Interpreter.State.{Reg, Ptr, Vm, get_reg, set_reg, goto_next, type_number}
use zscript.Interpreter.Data.{op_number, op_mod, op_add, op_cmp}
use zscript.Interpreter.Control.{op_div}
use zscript.Interpreter.Store.{Frame, get_reg-Frame, set_reg-Frame}
use zscript.Interpreter.Frames.{op_mov-Frame, with_local, Frame-set, op_mov_number-Frame}
use zscript.Compiler.Machine.{number, write, compute, local_step, local_run, dispatch, run_straight}

write-none :
    (locals : List Reg) (r : ℕ) (locals' : List Reg) → write locals r none ≡ some locals' → ⊥
unfolding write
write-none locals r locals' h = cc h

module _ (f : Float64) (describe : Ptr → Text) where
  -- A run to a block of locals, of so many instructions.
  pub record RunsTo (vm : Vm) (steps : ℕ) (locals' : List Reg) (r : Option Vm) : Type 0 where
    pub after : Vm
    pub runs : r ≡ some after
    pub frame : Frame after locals'
    pub next : after.ip ≡ vm.ip + steps * 32
    pub context_kept : after.current_context ≡ vm.current_context

  write-RunsTo :
      (vm : Vm) (locals locals' : List Reg) (r : ℕ) (v : Reg) (result : Option Vm)
      (fr : Frame vm locals)
      → write locals r (some v) ≡ some locals'
      → (r < length locals
          → result ≡ some (record vm { objects = with_local vm locals fr r v; ip = vm.ip + 32 }))
      → RunsTo vm 1 locals' result
  unfolding write
  write-RunsTo vm locals locals' r v result fr w h = elim (Bool-cases (ltb r (length locals))) [
    | inr out ↦ cc (rw out at w)
    | inl inside ↦
        let e : some (set locals r v) ≡ some locals' = rw inside at w in
        let same : set locals r v ≡ locals' = cc e in
        record {
          after = record vm { objects = with_local vm locals fr r v; ip = vm.ip + 32 };
          runs = h (ground arith);
          frame = rw (← same) (Frame-set vm locals r v (vm.ip + 32) fr);
          next = omega arith;
          context_kept = refl;
        }
  ]

  -- the state after a handler has written to `r2`
  abbrev stored :
      (i : Instruction) (vm : Vm) (locals : List Reg) → Frame vm locals → Reg → Option Vm
  stored i vm locals fr v =
      some (record vm { objects = with_local vm locals fr i.r2 v; ip = vm.ip + 32 })

  -- what the handler of an instruction with two numbers does
  dispatch-compute :
      (i : Instruction) (vm : Vm) (locals : List Reg) (x y v : Reg) (fr : Frame vm locals)
      → (i.opcode == Instruction.mov_number) ≡ false
      → (i.opcode == Instruction.mov) ≡ false
      → get_elem? locals i.r0 ≡ some x
      → get_elem? locals i.r1 ≡ some y
      → compute f i.opcode x y ≡ some v
      → i.r2 < length locals
      → dispatch f describe i vm ≡ stored i vm locals fr v
  unfolding dispatch compute op_add op_number op_div op_mod op_cmp goto_next
  dispatch-compute i vm locals x y v fr other other' gx gy c h =
      elim (Bool-cases (x.type == type_number)) [
        | inr nx ↦ cc (rw nx at c)
        | inl nx ↦ elim (Bool-cases (y.type == type_number)) [
          | inr ny ↦ cc (rw (nx, ny) at c)
          | inl ny ↦
              let c = rw (nx, ny) at c in
              elim (Bool-cases (i.opcode == Instruction.add)) [
                | inl op ↦ rw (other, other', op, ex, ◌>>=◌, ey, nx, ny, sets _) (same (rw op at c))
                | inr op0 ↦
                    let c = rw op0 at c in
                    elim (Bool-cases (i.opcode == Instruction.sub)) [
                      | inl op ↦
                          rw (other, other', op0, op, ex, ◌>>=◌, ey, sets _) (same (rw op at c))
                      | inr op1 ↦
                          let c = rw op1 at c in
                          elim (Bool-cases (i.opcode == Instruction.div)) [
                            | inl op ↦
                                let c = rw op at c in
                                elim (Bool-cases (f.equal y.val 0)) [
                                  | inl nil ↦ cc (rw nil at c)
                                  | inr proper ↦
                                      rw
                                        (other, other', op0, op1, op, ex, ◌>>=◌, ey, proper, sets _)
                                        (same (rw proper at c))
                                ]
                            | inr op2 ↦
                                let c = rw op2 at c in
                                elim (Bool-cases (i.opcode == Instruction.mul)) [
                                  | inl op ↦
                                      rw (other, other', op0, op1, op2, op, ex, ◌>>=◌, ey, sets _)
                                        (same (rw op at c))
                                  | inr op3 ↦
                                      let c = rw op3 at c in
                                      elim (Bool-cases (i.opcode == Instruction.mod')) [
                                        | inl op ↦
                                            rw
                                              (
                                                other,
                                                other',
                                                op0,
                                                op1,
                                                op2,
                                                op3,
                                                op,
                                                ex,
                                                ◌>>=◌,
                                                ey,
                                                nx,
                                                sets _,
                                              )
                                              (same (rw op at c))
                                        | inr op4 ↦
                                            let c = rw op4 at c in
                                            elim (Bool-cases (is_compare i.opcode)) [
                                              | inl op ↦
                                                  rw
                                                    (
                                                      other,
                                                      other',
                                                      op0,
                                                      op1,
                                                      op2,
                                                      op3,
                                                      op4,
                                                      op,
                                                      ex,
                                                      ◌>>=◌,
                                                      ey,
                                                      sets _,
                                                    )
                                                    (same (rw op at c))
                                              | inr op ↦ cc (rw op at c)
                                            ]
                                      ]
                                ]
                          ]
                    ]
              ]
        ]
      ]
    where
      ex : get_reg vm i.r0 ≡ some x
      ex = get_reg-Frame vm locals i.r0 fr ∙ gx

      ey : get_reg vm i.r1 ≡ some y
      ey = get_reg-Frame vm locals i.r1 fr ∙ gy

      sets :
          (v : Reg)
          → set_reg vm i.r2 v ≡ some (record vm { objects = with_local vm locals fr i.r2 v })
      sets v = set_reg-Frame vm locals i.r2 v fr h

      same : {a : Reg} → some a ≡ some v → stored i vm locals fr a ≡ stored i vm locals fr v
      same {a} e = ap (stored i vm locals fr) (inner e)
        where
          inner : some a ≡ some v → a ≡ v
          inner e = cc e

  -- one step of an instruction with two numbers
  computing :
      (i : Instruction) (vm : Vm) (locals locals' : List Reg)
      → Frame vm locals
      → (i.opcode == Instruction.mov_number) ≡ false
      → (i.opcode == Instruction.mov) ≡ false
      → write locals i.r2
          (get_elem? locals i.r0 >>= λ x. get_elem? locals i.r1 >>= λ y. compute f i.opcode x y)
        ≡ some locals'
      → RunsTo vm 1 locals' (dispatch f describe i vm)
  computing i vm locals locals' fr op op' h = elim (Option-cases (get_elem? locals i.r0)) [
    | inl e ↦ absurd (write-none locals i.r2 locals' (rw (e, ◌>>=◌) at h))
    | inr (x, ex) ↦
        let h = rw (ex, ◌>>=◌) at h in
        elim (Option-cases (get_elem? locals i.r1)) [
          | inl e ↦ absurd (write-none locals i.r2 locals' (rw (e, ◌>>=◌) at h))
          | inr (y, ey) ↦
              let h = rw (ey, ◌>>=◌) at h in
              elim (Option-cases (compute f i.opcode x y)) [
                | inl e ↦ absurd (write-none locals i.r2 locals' (rw e at h))
                | inr (v, e) ↦
                    write-RunsTo vm locals locals' i.r2 v (dispatch f describe i vm) fr (rw e at h)
                      (λ inside. dispatch-compute i vm locals x y v fr op op' ex ey e inside)
              ]
        ]
  ]

  -- one step on the block is one step of the interpreter
  dispatch-RunsTo :
      (i : Instruction) (vm : Vm) (locals locals' : List Reg)
      → Frame vm locals
      → local_step f i locals ≡ some locals'
      → RunsTo vm 1 locals' (dispatch f describe i vm)
  unfolding local_step dispatch
  dispatch-RunsTo i vm locals locals' fr h =
      elim (Bool-cases (i.opcode == Instruction.mov_number)) [
        | inl op ↦
            write-RunsTo vm locals locals' i.r0 (number i.r1) (dispatch f describe i vm) fr
              (rw op at h) (λ inside. rw op (op_mov_number-Frame i vm locals fr inside))
        | inr op ↦
            let h = rw op at h in
            elim (Bool-cases (i.opcode == Instruction.mov)) [
              | inl move ↦
                  let h = rw move at h in
                  elim (Option-cases (get_elem? locals i.r1)) [
                    | inl e ↦ absurd (write-none locals i.r0 locals' (rw e at h))
                    | inr (x, e) ↦
                        write-RunsTo vm locals locals' i.r0 x (dispatch f describe i vm) fr
                          (rw e at h)
                          (λ inside. rw (op, move) (op_mov-Frame i vm locals x fr e inside))
                  ]
              | inr op' ↦ computing i vm locals locals' fr op op' (rw op' at h)
            ]
      ]

  -- Straight code that takes a block of locals to another, instruction by instruction, does so in
  -- the interpreter: run in a frame with the one, its handlers end in the frame with the other,
  -- behind the code.
  pub run_straight-RunsTo :
      (code : List Instruction) (vm : Vm) (locals locals' : List Reg)
      → Frame vm locals
      → local_run f code locals ≡ some locals'
      → RunsTo vm (length code) locals' (run_straight f describe code vm)
  unfolding local_run run_straight
  run_straight-RunsTo [] vm locals locals' fr h =
      let same : locals ≡ locals' = (cc h) in
      record {
        after = vm;
        runs = refl;
        frame = rw (← same) fr;
        next = omega arith;
        context_kept = refl;
      }
  run_straight-RunsTo (i ∷ code) vm locals locals' fr h =
      elim (Option-cases (local_step f i locals)) [
        | inl e ↦ cc (rw e at h)
        | inr (mid, e) ↦
            let first = dispatch-RunsTo i vm locals mid fr e in
            let rest =
              run_straight-RunsTo code (first.after) mid locals' (first.frame) (rw e at h) in
            record {
              after = rest.after;
              runs = rw (first.runs, ◌>>=◌) (rest.runs);
              frame = rest.frame;
              next = omega (arith, first.next, rest.next);
              context_kept = rest.context_kept ∙ first.context_kept;
            }
      ]

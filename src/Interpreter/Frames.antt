-- ===== src/Interpreter/Frames.antt =====
-- What the handlers of src/interpreter/interpreter_dd.c do in a frame whose block of locals is known.
use zscript.Base.{
  ℕ, ◌+◌, ◌<◌, ◌≡◌, refl, Bool, true, false, some, List, if◌then◌else◌, ◌>>=◌, length, get_elem?,
  set, ==_refl,
}
use zscript.Program.Instruction.{Instruction}
use zscript.Interpreter.Numbers.{Float64, of_bool}
use zscript.Interpreter.State.{Reg, Object, Vm, put_context, get_reg, goto_next, type_number}
use zscript.Interpreter.Data.{
  jump_if, compare_value, op_cmp, jump_test, op_jump, op_mov, op_mov_number, op_jump_immediate,
  immediate_test,
}
use zscript.Interpreter.Store.{Frame, get_reg-Frame, set_reg-Frame, context_at-put_context}

-- the objects after a write of `v` to register `r` of the current frame
abbrev pub with_local : (vm : Vm) (locals : List Reg) → Frame vm locals → ℕ → Reg → List Object
with_local vm locals fr r v =
    put_context vm.objects vm.current_context (record (fr.here) { locals = some (set locals r v) })

-- the frame after a write to register `r`
pub Frame-set :
    (vm : Vm) (locals : List Reg) (r : ℕ) (v : Reg) (ip : ℕ) (fr : Frame vm locals)
    → Frame (record vm { objects = with_local vm locals fr r v; ip = ip }) (set locals r v)
Frame-set vm locals r v ip fr = record {
  here = record (fr.here) { locals = some (set locals r v) };
  there = rw (
    context_at-put_context vm.objects vm.current_context vm.current_context fr.here _ fr.there,
    ==_refl,
  );
  block = refl;
}

-- the value that a compare stores
abbrev pub result_of : Float64 → Instruction → Reg → Reg → Reg
result_of f c x y = record {
  type = type_number;
  val = of_bool f (compare_value f c.opcode x.val y.val);
}

-- what a compare does in a frame
pub op_cmp-Frame :
    (f : Float64) (c : Instruction) (vm : Vm) (locals : List Reg) (x y : Reg) (fr : Frame vm locals)
    → get_elem? locals c.r0 ≡ some x
    → get_elem? locals c.r1 ≡ some y
    → c.r2 < length locals
    → op_cmp f c vm
      ≡ some (record vm {
        objects = with_local vm locals fr c.r2 (result_of f c x y);
        ip = vm.ip + 32;
      })
unfolding op_cmp goto_next
op_cmp-Frame f c vm locals x y fr gx gy h = rw (
  get_reg-Frame vm locals c.r0 fr,
  gx,
  ◌>>=◌,
  get_reg-Frame vm locals c.r1 fr,
  gy,
  set_reg-Frame vm locals c.r2 _ fr h,
)

pub op_jump-Frame :
    (f : Float64) (i : Instruction) (vm : Vm) (locals : List Reg) (x y : Reg) (fr : Frame vm locals)
    → get_elem? locals i.r0 ≡ some x
    → get_elem? locals i.r1 ≡ some y
    → op_jump f i vm ≡ jump_if (jump_test f i.opcode x.val y.val) i.r2 vm
unfolding op_jump
op_jump-Frame f i vm locals x y fr gx gy =
    rw (get_reg-Frame vm locals i.r0 fr, gx, ◌>>=◌, get_reg-Frame vm locals i.r1 fr, gy)

-- where a jump that is taken or not leads
pub lands :
    (b : Bool) (target : ℕ) (vm : Vm)
    → jump_if b target vm ≡ some (record vm { ip = if b then target else vm.ip + 32 })
unfolding goto_next
lands true target vm = refl
lands false target vm = refl

-- what a move does in a frame
pub op_mov-Frame :
    (n : Instruction) (vm : Vm) (locals : List Reg) (v : Reg) (fr : Frame vm locals)
    → get_elem? locals n.r1 ≡ some v
    → n.r0 < length locals
    → op_mov n vm ≡ some (record vm { objects = with_local vm locals fr n.r0 v; ip = vm.ip + 32 })
unfolding op_mov goto_next
op_mov-Frame n vm locals v fr g h =
    rw (get_reg-Frame vm locals n.r1 fr, g, ◌>>=◌, set_reg-Frame vm locals n.r0 v fr h)

pub op_mov_number-Frame :
    (c : Instruction) (vm : Vm) (locals : List Reg) (fr : Frame vm locals)
    → c.r0 < length locals
    → op_mov_number c vm
      ≡ some (record vm {
        objects = with_local vm locals fr c.r0 (record { type = type_number; val = c.r1 });
        ip = vm.ip + 32;
      })
unfolding op_mov_number goto_next
op_mov_number-Frame c vm locals fr h = rw (set_reg-Frame vm locals c.r0 _ fr h)

pub op_jump_immediate-Frame :
    (f : Float64) (i : Instruction) (vm : Vm) (locals : List Reg) (x : Reg)
    → Frame vm locals
    → get_elem? locals i.r0 ≡ some x
    → op_jump_immediate f i vm ≡ jump_if (immediate_test f i.opcode x.val i.r1) i.r2 vm
unfolding op_jump_immediate
op_jump_immediate-Frame f i vm locals x fr g = rw (get_reg-Frame vm locals i.r0 fr, g, ◌>>=◌)

-- a jump changes no register
pub get_reg-ip :
    (vm : Vm) (locals : List Reg) (r ip : ℕ)
    → Frame vm locals
    → get_reg (record vm { ip = ip }) r ≡ get_elem? locals r
get_reg-ip vm locals r ip fr =
    get_reg-Frame (record vm { ip = ip }) locals r
      (record { here = fr.here; there = fr.there; block = fr.block })

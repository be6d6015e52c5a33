-- ===== src/Interpreter/Fields/RoundTrip.antt =====
-- A variable is read as it was written (OP_SET_FIELD and OP_GET_FIELD on `this`, in
-- src/interpreter/interpreter_dd.c).
use zscript.Base.{
  ℕ, ◌+◌, ◌<◌, ◌≡◌, refl, ◌∙◌, Option, none, some, List, ◌>>=◌, length, get_elem?, set, inl, inr,
  Option-cases, ==_refl, get_elem?-set,
}
use zscript.Base.Strings.{Text, str_eq_refl}
use zscript.Map.{Map, map_get, map_insert}
use zscript.Map.Lookup.{IsOpen, map_get-map_insert}
use zscript.Program.Instruction.{Instruction}
use zscript.Interpreter.Numbers.{Float64}
use zscript.Interpreter.State.{
  Reg, Ptr, Object, Vm, context_at, put_context, get_reg, set_reg, goto_next,
}
use zscript.Interpreter.Store.{Frame, get_reg-Frame, set_reg-Frame, context_at-put_context}
use zscript.Interpreter.Data.{operand_text}
use zscript.Interpreter.Throw.{Outcome, running}
use zscript.Interpreter.Scopes.{read_local}
use zscript.Interpreter.Scopes.Resolve.{
  block_at, SameScopes, Chain, Nearest, Chain-SameScopes, Nearest-scope_at, SameScopes-trans,
}
use zscript.Interpreter.Scopes.Search.{search_scope_runs, Nearest-unique, Nearest-Chain}
use zscript.Interpreter.Scopes.Write.{read_local-block, write_local-Written}
use zscript.Interpreter.Fields.Types.{Fields, World}
use zscript.Interpreter.Fields.Handlers.{
  next_with, search_outside, search_this, get_field_named, set_this, op_set_field,
}

-- a handler that ends with the value in register `r`, in the same context
pub record Gets (vm : Vm) (fields : Fields) (r : ℕ) (v : Reg) (result : Option (Outcome × Fields))
    : Type 0 where
  pub after : Vm
  pub runs : result ≡ some (running after, fields)
  pub holds : get_reg after r ≡ some v
  pub context_kept : after.current_context ≡ vm.current_context
  pub next : after.ip ≡ vm.ip + 32

frame_of :
    (vm : Vm) (locals : List Reg)
    → block_at vm.objects vm.current_context ≡ some locals
    → Frame vm locals
unfolding block_at
frame_of vm locals b = elim (Option-cases (context_at vm.objects vm.current_context)) [
  | inl gone ↦ cc (rw gone at b)
  | inr (c, e) ↦ record { here = c; there = e; block = rw e at b }
]

-- the end of a read: the register is written
next_with-Gets :
    (vm : Vm) (fields : Fields) (r : ℕ) (v : Reg) (locals : List Reg)
    → Frame vm locals
    → r < length locals
    → Gets vm fields r v (next_with fields (set_reg vm r v))
unfolding goto_next
next_with-Gets vm fields r v locals fr h =
    let objects =
      put_context vm.objects vm.current_context
        (record (fr.here) { locals = some (set locals r v) }) in
    let after = goto_next (record vm { objects = objects }) in
    let block : Frame after (set locals r v) = record {
      here = record (fr.here) { locals = some (set locals r v) };
      there =
          context_at-put_context vm.objects vm.current_context vm.current_context fr.here _ fr.there
          ∙ rw ==_refl;
      block = refl;
    } in
    record {
      after = after;
      runs = rw (set_reg-Frame vm locals r v fr h);
      holds =
          get_reg-Frame after (set locals r v) r block ∙ get_elem?-set locals r r v h ∙ rw ==_refl;
      context_kept = refl;
      next = refl;
    }

-- where a search finds a variable, and what is there
abbrev Remembers : Map Reg → List Object → Text → Reg → Option (Ptr × ℕ) → Type 0
Remembers shared objects name v none = map_get shared name ≡ some v
Remembers shared objects name v (some (q, index)) =
    (block : List Reg) × (block_at objects q ≡ some block) × (get_elem? block index ≡ some v)

-- a write that has been made
record Sets (vm : Vm) (fields : Fields) (name : Text) (v : Reg) (result : Option (Outcome × Fields))
    : Type 0 where
  after : Vm
  shared : Map Reg
  runs : result ≡ some (running after, record fields { synchronized_variables = shared })
  same : SameScopes fields.byte_stream vm.objects after.objects
  context_kept : after.current_context ≡ vm.current_context
  next : after.ip ≡ vm.ip + 32
  place : Option (Ptr × ℕ)
  nearest : Nearest fields.byte_stream vm.objects name vm.current_context place
  remembers : Remembers shared after.objects name v place

module _ (load : Text → Option (List ℕ)) (run_static : World → List ℕ → Text → Option World) where
  set_this-Sets :
      (vm : Vm) (fields : Fields) (name : Text) (v : Reg)
      → Chain fields.byte_stream vm.objects vm.current_context
      → IsOpen fields.synchronized_variables
      → Sets vm fields name v (set_this load run_static vm fields name v)
  unfolding set_this goto_next
  set_this-Sets vm fields name v chain shared_open =
      let bytes = fields.byte_stream in
      let s = search_scope_runs bytes vm.objects vm.current_context name chain in
      elim (Option-cases s.place) [
        | inl e ↦ record {
          after = goto_next (record vm { objects = s.after });
          shared = map_insert fields.synchronized_variables name v;
          runs = rw (s.runs, ◌>>=◌, e);
          same = s.cached.same;
          context_kept = refl;
          next = refl;
          place = none;
          nearest = rw e at (s.nearest);
          remembers =
              map_get-map_insert fields.synchronized_variables name name v shared_open
              ∙ rw str_eq_refl;
        }
        | inr ((q, index), e) ↦
            let n : Nearest bytes vm.objects name vm.current_context (some (q, index)) =
              rw e at (s.nearest) in
            let (locals, b, inside) =
              Nearest-Chain bytes vm.objects name vm.current_context q index chain n in
            let w =
              write_local-Written bytes s.after q index v locals (s.cached.blocks q ∙ b) inside in
            record {
              after = goto_next (record vm { objects = w.after });
              shared = fields.synchronized_variables;
              runs = rw (s.runs, ◌>>=◌, e, w.runs);
              same = SameScopes-trans bytes vm.objects s.after w.after (s.cached.same) (w.same);
              context_kept = refl;
              next = refl;
              place = some (q, index);
              nearest = n;
              remembers = (w.block, w.there, w.holds);
            }
      ]

search_this-Gets :
    (vm : Vm) (fields : Fields) (name : Text) (v : Reg) (r : ℕ) (place : Option (Ptr × ℕ))
    (locals : List Reg)
    → Chain fields.byte_stream vm.objects vm.current_context
    → Nearest fields.byte_stream vm.objects name vm.current_context place
    → Remembers fields.synchronized_variables vm.objects name v place
    → block_at vm.objects vm.current_context ≡ some locals
    → r < length locals
    → Gets vm fields r v (search_this vm fields r name)
unfolding search_this search_outside
search_this-Gets vm fields name v r none locals chain near holds b h =
    let bytes = fields.byte_stream in
    let s = search_scope_runs bytes vm.objects vm.current_context name chain in
    let found : s.place ≡ none =
      Nearest-unique bytes vm.objects name vm.current_context s.place none (s.nearest) near in
    let vm' : Vm = record vm { objects = s.after } in
    let g =
      next_with-Gets vm' fields r v locals
        (frame_of vm' locals (s.cached.blocks vm.current_context ∙ b)) h in
    record {
      after = g.after;
      runs = rw (s.runs, ◌>>=◌, found, search_outside, holds) (g.runs);
      holds = g.holds;
      context_kept = g.context_kept;
      next = g.next;
    }
search_this-Gets vm fields name v r (some (q, index)) locals chain near (block, there, holds) b h =
    let bytes = fields.byte_stream in
    let s = search_scope_runs bytes vm.objects vm.current_context name chain in
    let found : s.place ≡ some (q, index) =
      Nearest-unique bytes vm.objects name vm.current_context s.place (some (q, index)) (s.nearest)
        near in
    let vm' : Vm = record vm { objects = s.after } in
    let g =
      next_with-Gets vm' fields r v locals
        (frame_of vm' locals (s.cached.blocks vm.current_context ∙ b)) h in
    let read : read_local s.after q index ≡ some v =
      read_local-block s.after q index block (s.cached.blocks q ∙ there) ∙ holds in
    record {
      after = g.after;
      runs = rw (s.runs, ◌>>=◌, found, read) (g.runs);
      holds = g.holds;
      context_kept = g.context_kept;
      next = g.next;
    }

-- a write of `v` to a name, and a read of the name after it into the register `r`
pub record Restores (vm : Vm) (r : ℕ) (v : Reg) (written : Option (Outcome × Fields))
    (read : Vm → Fields → Option (Outcome × Fields)) : Type 0 where
  pub between : Vm
  pub shared : Fields
  pub writes : written ≡ some (running between, shared)
  pub between_next : between.ip ≡ vm.ip + 32
  pub reads : Gets between shared r v (read between shared)

module _ (load : Text → Option (List ℕ)) (run_static : World → List ℕ → Text → Option World) where
  -- the two handlers on `this`
  op_set_field-this :
      (f : Float64) (describe : Ptr → Text) (i : Instruction) (vm : Vm) (fields : Fields)
      (name : Text) (r1 v : Reg)
      → i.r0 ≡ 1
      → get_reg vm i.r1 ≡ some r1
      → operand_text f describe vm r1 ≡ some name
      → get_reg vm i.r2 ≡ some v
      → op_set_field load run_static f describe i vm fields
        ≡ set_this load run_static vm fields name v
  unfolding op_set_field
  op_set_field-this f describe i vm fields name r1 v this e1 named e2 =
      rw (e1, ◌>>=◌, named, e2, this)

  get_field_named-this :
      (f : Float64) (j : Instruction) (vm : Vm) (fields : Fields) (name : Text)
      → j.r0 ≡ 1
      → map_get fields.native_functions name ≡ none
      → get_field_named load run_static f j vm fields name ≡ search_this vm fields j.r2 name
  unfolding get_field_named
  get_field_named-this f j vm fields name this native = rw (get_field_named, native, this)

  -- A write of a register to a name on `this` and a read of the name after it, with any conversions
  -- of the names: the read finds what was written, whether a scope declares the name or not (it is
  -- then a variable that threads share). The conditions are that the name is none of a native
  -- function, that the scopes of the running function are a chain, and that the shared variables
  -- are in a valid map that is not immutable. Both handlers go on to the next instruction.
  pub get_field_named-op_set_field :
      (f : Float64) (describe : Ptr → Text) (i j : Instruction) (vm : Vm) (fields : Fields)
      (name : Text) (r1 v : Reg) (locals : List Reg)
      → i.r0 ≡ 1
      → j.r0 ≡ 1
      → get_reg vm i.r1 ≡ some r1
      → operand_text f describe vm r1 ≡ some name
      → get_reg vm i.r2 ≡ some v
      → block_at vm.objects vm.current_context ≡ some locals
      → j.r2 < length locals
      → Chain fields.byte_stream vm.objects vm.current_context
      → map_get fields.native_functions name ≡ none
      → IsOpen fields.synchronized_variables
      → Restores vm j.r2 v
          (op_set_field load run_static f describe i vm fields)
          (λ vm fields. get_field_named load run_static f j vm fields name)
  get_field_named-op_set_field f describe i j vm fields name r1 v locals this this' e1 named e2 b
        inside chain native shared_open =
      let bytes = fields.byte_stream in
      let s = set_this-Sets load run_static vm fields name v chain shared_open in
      let (locals', b', wide) = s.same.sizes vm.current_context locals b in
      let mid : Vm = s.after in
      let at = s.context_kept in
      let chain' : Chain bytes mid.objects mid.current_context =
        rw at (Chain-SameScopes bytes vm.objects mid.objects vm.current_context (s.same) chain) in
      record {
        between = mid;
        shared = record fields { synchronized_variables = s.shared };
        writes = op_set_field-this f describe i vm fields name r1 v this e1 named e2 ∙ s.runs;
        between_next = s.next;
        reads =
            rw
              (get_field_named-this f j mid (record fields { synchronized_variables = s.shared })
                name this' native)
              (search_this-Gets mid (record fields { synchronized_variables = s.shared }) name v
                j.r2 (s.place) locals' chain'
                (rw at (
                  Nearest-scope_at bytes mid.objects vm.objects name vm.current_context (s.place)
                    (s.same.scopes) (s.nearest)))
                (s.remembers) (rw at b') (rw wide inside));
      }

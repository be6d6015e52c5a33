-- ===== src/Interpreter/Collector/Edges.antt =====
-- The visits of src/interpreter/garbage_collector.h go exactly to what an object leads to.
use zscript.Base.{
  ℕ, zero, suc, ◌+◌, ◌≡◌, refl, sym, ◌∙◌, none, some, List, [], ◌∷◌, ◌++◌, leb, ◌>>=◌, length,
  get_elem?, take, drop, arith, inl, inr, Bool-cases, Option-cases, ◌↔◌,
}
use zscript.Interpreter.State.{
  Reg, Ptr, Context, Object, string, context, function_ref, class_ref, obj, instance_object,
}
use zscript.Interpreter.Collector.{
  InterpreterState, visit_registers, visit_stack, visit_state, visit_context, visit_bags,
  visit_children,
}
use zscript.Interpreter.Collector.Visit.{In}
use zscript.Interpreter.Collector.Points.{
  StatePoints, current, root, stacked, Points, property, closure, responsible, saved, In-pair,
  In-none, visit_registers-Held, get_elem?-take, get_elem?-drop,
}
use zscript.Interpreter.Collector.Bags.{InBags, in_bag, visit_bags-InBags, visit_context-Points}

-- a visit of a state goes to what the state leads to
pub visit_state-StatePoints :
    (s : InterpreterState) (q : Ptr) → In q (visit_state s) ↔ StatePoints s q
unfolding visit_state visit_stack
visit_state-StatePoints s q = (to, from)
  where
    regs : List Reg
    regs = take s.stack_ptr (drop 1 s.stack)

    to : In q (s.current_context ∷ s.root_context ∷ visit_registers regs) → StatePoints s q
    to h = elim ((In-pair q s.current_context (s.root_context ∷ visit_registers regs)).0 h) [
      | inl e ↦ current e
      | inr m ↦ elim ((In-pair q s.root_context (visit_registers regs)).0 m) [
        | inl e ↦ root e
        | inr n ↦
            let (k, r, e, f) = (visit_registers-Held regs q).0 n in
            let (small, at) = (get_elem?-take s.stack_ptr k (drop 1 s.stack) r).0 e in
            stacked (1 + k) r (omega arith) (omega arith) (sym (get_elem?-drop 1 k s.stack) ∙ at) f
      ]
    ]

    from : StatePoints s q → In q (s.current_context ∷ s.root_context ∷ visit_registers regs)
    from (current e) =
        (In-pair q s.current_context (s.root_context ∷ visit_registers regs)).1 (inl e)
    from (root e) =
        (In-pair q s.current_context (s.root_context ∷ visit_registers regs)).1
          (inr ((In-pair q s.root_context (visit_registers regs)).1 (inl e)))
    from (stacked zero r low high at f) = absurd (omega arith)
    from (stacked (suc k) r low high at f) =
        let e : 1 + k ≡ suc k = omega arith in
        let get : get_elem? (drop 1 s.stack) k ≡ some r = get_elem?-drop 1 k s.stack ∙ rw e at in
        let n =
          (visit_registers-Held regs q).1
            (k, r, (get_elem?-take s.stack_ptr k (drop 1 s.stack) r).1 (omega arith, get), f) in
        (In-pair q s.current_context (s.root_context ∷ visit_registers regs)).1
          (inr ((In-pair q s.root_context (visit_registers regs)).1 (inr n)))

string_ends : (states : List InterpreterState) (q : Ptr) (t : List ℕ) → ¬ Points states q (string t)
string_ends states q t m = elim m [ ]

class_ref_ends :
    (states : List InterpreterState) (q : Ptr) (t : List ℕ) → ¬ Points states q (class_ref t)
class_ref_ends states q t m = elim m [ ]

context_children :
    (c : Context) (locals : List Reg) (ps : List Ptr)
    → c.locals ≡ some locals
    → visit_context c ≡ some ps
    → visit_registers (drop 2 (take c.locals_count locals))
        ++ c.parent_context ∷ c.return_context ∷ []
      ≡ ps
unfolding visit_context
context_children c locals ps b h = elim (Bool-cases (leb c.locals_count (length locals))) [
  | inl fits ↦ let g = rw (b, visit_context, fits, ◌>>=◌) at h in ground arith
  | inr wide ↦ cc (rw (b, visit_context, wide, ◌>>=◌) at h)
]

bare_children :
    (c : Context) (ps : List Ptr)
    → c.locals ≡ none
    → visit_context c ≡ some ps
    → visit_registers (drop 2 (take c.locals_count [])) ++ c.parent_context ∷ c.return_context ∷ []
      ≡ ps
unfolding visit_context
bare_children c ps b h = elim (Bool-cases (leb c.locals_count 2)) [
  | inl few ↦ let g = rw (b, visit_context, few, ◌>>=◌) at h in ground arith
  | inr wide ↦ cc (rw (b, visit_context, wide, ◌>>=◌) at h)
]

-- A visit of an object that is defined goes on exactly to what the object leads to: the values of a
-- map's properties; the locals of a context from the third on, its scope and its caller; the scope and
-- the state of a function; the state of an instance; and for a state its two contexts and its stack.
-- Of these only registers that hold neither a number nor a native function count.
pub visit_children-Points :
    (states : List InterpreterState) (o : Object) (ps : List Ptr) (q : Ptr)
    → visit_children states o ≡ some ps
    → In q ps ↔ Points states q o
unfolding visit_children
visit_children-Points states (string t) ps q h =
    let e : ps ≡ [] = ground arith in
    rw e ((λ m. absurd (In-none q m)), λ m. absurd (string_ends states q t m))
visit_children-Points states (class_ref t) ps q h =
    let e : ps ≡ [] = ground arith in
    rw e ((λ m. absurd (In-none q m)), λ m. absurd (class_ref_ends states q t m))
visit_children-Points states (obj m cache) ps q h =
    let e : visit_bags m.bags ≡ ps = ground arith in
    let i = visit_bags-InBags m.bags q in rw (← e) ((λ n. to (i.0 n)), λ n. i.1 (from n))
  where
    to : InBags m.bags q → Points states q (obj m cache)
    to (in_bag i bag k r at l e f) = property i bag k r at l e f

    from : Points states q (obj m cache) → InBags m.bags q
    from (property i bag k r at l e f) = in_bag i bag k r at l e f
visit_children-Points states (context c) ps q h = elim (Option-cases c.locals) [
  | inl b ↦ rw (← bare_children c ps b h) (visit_context-Points states c [] q (inr (b, refl)))
  | inr (locals, b) ↦
      rw (← context_children c locals ps b h) (visit_context-Points states c locals q (inl b))
]
visit_children-Points states (instance_object name n) ps q h =
    elim (Option-cases (get_elem? states n)) [
      | inl b ↦ cc (rw (b, visit_children, ◌>>=◌) at h)
      | inr (s, b) ↦
          let e : visit_state s ≡ ps = let g = rw (b, visit_children, ◌>>=◌) at h in ground arith in
          let i = visit_state-StatePoints s q in
          rw (← e) ((λ m. saved s b (i.0 m)), λ m. i.1 (from s b m))
    ]
  where
    from :
        (s : InterpreterState)
        → get_elem? states n ≡ some s
        → Points states q (instance_object name n)
        → StatePoints s q
    from s b (saved s' b' p) = let e : s' ≡ s = cc (b, b') in rw (← e) p
visit_children-Points states (function_ref f) ps q h =
    elim (Option-cases (get_elem? states f.responsible_interpreter_state)) [
      | inl b ↦ cc (rw (b, visit_children, ◌>>=◌) at h)
      | inr (s, b) ↦
          let e : f.parent_context ∷ visit_state s ≡ ps =
            let g = rw (b, visit_children, ◌>>=◌) at h in ground arith in
          rw (← e) (to s b, from s b)
    ]
  where
    to :
        (s : InterpreterState)
        → get_elem? states f.responsible_interpreter_state ≡ some s
        → In q (f.parent_context ∷ visit_state s)
        → Points states q (function_ref f)
    to s b m = elim ((In-pair q f.parent_context (visit_state s)).0 m) [
      | inl e ↦ closure e
      | inr n ↦ responsible s b ((visit_state-StatePoints s q).0 n)
    ]

    from :
        (s : InterpreterState)
        → get_elem? states f.responsible_interpreter_state ≡ some s
        → Points states q (function_ref f)
        → In q (f.parent_context ∷ visit_state s)
    from s b (closure e) = (In-pair q f.parent_context (visit_state s)).1 (inl e)
    from s b (responsible s' b' p) =
        let e : s' ≡ s = cc (b, b') in
        (In-pair q f.parent_context (visit_state s)).1
          (inr ((visit_state-StatePoints s q).1 (rw (← e) p)))

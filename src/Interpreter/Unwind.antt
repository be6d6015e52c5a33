-- ===== src/Interpreter/Unwind.antt =====
-- Where an exception of src/interpreter/interpreter_dd.c goes.
use zscript.Base.{
  ℕ, zero, suc, ◌+◌, ◌<◌, ◌≡◌, refl, sym, ap, ◌∙◌, true, Option, none, some, List, [], ◌∷◌, ◌++◌,
  ltb, length, set, arith, inl, inr, ◌⊎◌, Option-cases,
}
use zscript.Base.Strings.{Text}
use zscript.Interpreter.State.{
  Ptr, Context, Object, string, Vm, type_str, context_at, allocate, push_value,
}
use zscript.Interpreter.Throw.{last_catch, uncaught, caught, search_catch, throw_exception_from_str}
use zscript.Interpreter.Store.{context_at-bounds}

abbrev pub IsContextOrNull : List Object → Ptr → Type 0
IsContextOrNull objects p = (p ≡ 0) ⊎ ((c : Context) × (context_at objects p ≡ some c))

-- A context returns to one that was made before it, or to none.
pub record IsLinked (objects : List Object) : Type 0 where
  pub earlier : (p : Ptr) (c : Context) → context_at objects p ≡ some c → c.return_context < p
  pub closed :
      (p : Ptr) (c : Context)
      → context_at objects p ≡ some c
      → IsContextOrNull objects c.return_context

-- The context has no list of catch points, or an empty one.
abbrev pub HasNoCatch : Context → Type 0
HasNoCatch c = (c.catches_list ≡ none) ⊎ (c.catches_list ≡ some [])

-- From `p` outwards no context has a catch point before `q`.
pub data Unwinds (objects : List Object) : Ptr → Ptr → Type 0 where
  stop : {p : Ptr} → Unwinds objects p p
  up :
      {p q : Ptr} (c : Context)
      → context_at objects p ≡ some c
      → HasNoCatch c
      → Unwinds objects c.return_context q
      → Unwinds objects p q

-- the state after the exception was caught at `q`, whose last catch point is `target`
abbrev pub handled : Vm → Text → Ptr → ℕ → Vm
handled vm message q target = record vm {
  objects = vm.objects ++ string message ∷ [];
  state_context = q;
  instruction_pointer = target;
  stack = set vm.stack (vm.stack_ptr + 1) (record { type = type_str; val = length vm.objects + 1 });
  stack_ptr = vm.stack_ptr + 1;
}

-- the state after an exception that no context caught: with " \nclass:" and the class behind the message
abbrev pub unhandled : Vm → Text → Vm
unhandled vm message = record vm {
  state_context = 0;
  return_code = 1;
  exception_details = message ++ (32 ∷ 10 ∷ 99 ∷ 108 ∷ 97 ∷ 115 ∷ 115 ∷ 58 ∷ []) ++ vm.class_name;
}

-- the two ends of a throw from the context `p`
pub data Thrown (vm : Vm) (message : Text) (p : Ptr) (r : Option Vm) : Type 0 where
  caught_at :
      (q : Ptr) (c : Context) (before : List ℕ) (target : ℕ)
      → Unwinds vm.objects p q
      → context_at vm.objects q ≡ some c
      → c.catches_list ≡ some (before ++ target ∷ [])
      → r ≡ some (handled vm message q target)
      → Thrown vm message p r
  escaped : Unwinds vm.objects p 0 → r ≡ some (unhandled vm message) → Thrown vm message p r

-- the last member of a list, as `arraylist_top` finds it
last_catch-last :
    (points : List ℕ) (target : ℕ)
    → last_catch (some points) ≡ some target
    → (before : List ℕ) × (points ≡ before ++ target ∷ [])
unfolding last_catch
last_catch-last [] target h = cc
last_catch-last (p ∷ []) target h = let e : p ≡ target = ground arith in ([], rw e)
last_catch-last (p ∷ q ∷ ps) target h =
    let (before, e) = last_catch-last (q ∷ ps) target h in (p ∷ before, ap (λ rest. p ∷ rest) e)

last_catch-append :
    (before : List ℕ) (target : ℕ) → last_catch (some (before ++ target ∷ [])) ≡ some target
unfolding last_catch
last_catch-append [] target = refl
last_catch-append (p ∷ []) target = refl
last_catch-append (p ∷ q ∷ before) target = last_catch-append (q ∷ before) target

last_catch-empty : (points : List ℕ) → last_catch (some points) ≡ none → points ≡ []
unfolding last_catch
last_catch-empty [] h = refl
last_catch-empty (p ∷ []) h = cc
last_catch-empty (p ∷ q ∷ ps) h = let e = last_catch-empty (q ∷ ps) h in cc

pub last_catch-end :
    (c : Context) (before : List ℕ) (target : ℕ)
    → c.catches_list ≡ some (before ++ target ∷ [])
    → last_catch c.catches_list ≡ some target
last_catch-end c before target e = ap last_catch e ∙ last_catch-append before target

last_catch-before :
    (c : Context) (target : ℕ)
    → last_catch c.catches_list ≡ some target
    → (before : List ℕ) × (c.catches_list ≡ some (before ++ target ∷ []))
unfolding last_catch
last_catch-before c target h = elim (Option-cases c.catches_list) [
  | inl e ↦ cc (rw (e, last_catch) at h)
  | inr (points, e) ↦
      let (before, l) = last_catch-last points target (ap last_catch (sym e) ∙ h) in
      (before, e ∙ ap (λ ps. some ps) l)
]

last_catch-none : (c : Context) → last_catch c.catches_list ≡ none → HasNoCatch c
last_catch-none c h = elim (Option-cases c.catches_list) [
  | inl e ↦ inl e
  | inr (points, e) ↦
      inr (e ∙ ap (λ ps. some ps) (last_catch-empty points (ap last_catch (sym e) ∙ h)))
]

module _ (vm : Vm) (message : Text) (linked : IsLinked vm.objects)
    (room : vm.stack_ptr + 1 < length vm.stack) where
  further :
      (p : Ptr) (c : Context) {r r' : Option Vm}
      → context_at vm.objects p ≡ some c
      → HasNoCatch c
      → r' ≡ r
      → Thrown vm message c.return_context r
      → Thrown vm message p r'
  further p c at none_here same (caught_at q d b t u f l e) =
      caught_at q d b t (up c at none_here u) f l (same ∙ e)
  further p c at none_here same (escaped u e) = escaped (up c at none_here u) (same ∙ e)

  caught-handled :
      (q : Ptr) (target : ℕ)
      → caught (record vm { state_context = q }) message target ≡ some (handled vm message q target)
  unfolding caught push_value allocate
  caught-handled q target =
      let fits : ltb (vm.stack_ptr + 1) (length vm.stack) ≡ true = ground arith in rw fits

  search_catch-Thrown :
      (fuel : ℕ) (p : Ptr)
      → p < fuel
      → IsContextOrNull vm.objects p
      → Thrown vm message p (search_catch fuel (record vm { state_context = p }) message p)
  unfolding search_catch uncaught
  search_catch-Thrown zero p enough h = absurd (omega arith)
  search_catch-Thrown (suc fuel) zero enough h = escaped stop refl
  search_catch-Thrown (suc fuel) (suc p) enough (inl e) = absurd (omega arith)
  search_catch-Thrown (suc fuel) (suc p) enough (inr (c, at)) =
      elim (Option-cases (last_catch c.catches_list)) [
        | inr (target, e) ↦
            let (before, l) = last_catch-before c target e in
            caught_at (suc p) c before target stop at l
              (rw (at, search_catch, e) (caught-handled (suc p) target))
        | inl e ↦ further (suc p) c at (last_catch-none c e) (rw (at, search_catch, e)) (
            search_catch-Thrown fuel c.return_context (omega (arith, linked.earlier (suc p) c at))
              (linked.closed (suc p) c at))
      ]

-- Where each context returns to an older context or to none, the current context of the state is a
-- context or none, and the stack has room for one more value, a throw always ends: at the nearest
-- context, from the state's current one outwards, that has a catch point, with the message as a
-- string on the stack and the last of its catch points to go on at; or, with no catch point on the
-- way, with the error code set and the state left with no context.
pub throw-Thrown :
    (vm : Vm) (message : Text)
    → IsLinked vm.objects
    → vm.stack_ptr + 1 < length vm.stack
    → IsContextOrNull vm.objects vm.state_context
    → Thrown vm message vm.state_context (throw_exception_from_str vm message)
unfolding throw_exception_from_str
throw-Thrown vm message linked room h =
    search_catch-Thrown vm message linked room (length vm.objects + 2) vm.state_context (bound h) h
  where
    bound : IsContextOrNull vm.objects vm.state_context → vm.state_context < length vm.objects + 2
    bound (inl e) = omega arith
    bound (inr (c, at)) = omega (arith, (context_at-bounds vm.objects vm.state_context c at).1)

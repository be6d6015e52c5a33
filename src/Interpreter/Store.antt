-- ===== src/Interpreter/Store.antt =====
-- Reads of the store of objects after a write or an allocation, and of registers after a write.
use zscript.Base.{
  ℕ, zero, suc, ◌+◌, ◌≤◌, ◌<◌, ◌≡◌, refl, true, Option, none, some, List, [], ◌∷◌, ◌++◌, ◌==◌, ltb,
  if◌then◌else◌, ◌>>=◌, length, get_elem?, set, arith, get_elem?-set, length-set,
  get_elem?-append_length,
}
use zscript.Interpreter.State.{
  Reg, Ptr, Context, Object, context, Vm, object_at, context_of, context_at, put_context, allocate,
  get_reg, set_reg, store_reg,
}

get_elem?-some_lt {ℓ} :
    {A : Type ℓ} (xs : List A) (i : ℕ) (x : A) → get_elem? xs i ≡ some x → i < length xs
get_elem?-some_lt [] i x h = cc
get_elem?-some_lt (y ∷ xs) zero x h = omega arith
get_elem?-some_lt (y ∷ xs) (suc i) x h = omega (arith, get_elem?-some_lt xs i x h)

object_of_context : (o : Option Object) (c : Context) → context_of o ≡ some c → o ≡ some (context c)
unfolding context_of
object_of_context none c h = cc
object_of_context (some (context d)) c h = cc
object_of_context (some (Object.string t)) c h = cc
object_of_context (some (Object.function_ref f)) c h = cc
object_of_context (some (Object.class_ref t)) c h = cc
object_of_context (some (Object.obj m cache)) c h = cc
object_of_context (some (Object.instance_object t s)) c h = cc

-- A context's address is one of the store.
pub context_at-bounds :
    (objects : List Object) (p : Ptr) (c : Context)
    → context_at objects p ≡ some c
    → (0 < p) × (p ≤ length objects)
unfolding context_at object_at
context_at-bounds objects zero c h = cc (object_of_context none c h)
context_at-bounds objects (suc p) c h =
    let e = object_of_context (get_elem? objects p) c h in
    (omega arith, omega (arith, get_elem?-some_lt objects p (context c) e))

-- A read after a write to a context.
pub context_at-put_context :
    (objects : List Object) (p q : Ptr) (old c : Context)
    → context_at objects p ≡ some old
    → context_at (put_context objects p c) q ≡ (if p == q then some c else context_at objects q)
unfolding put_context
context_at-put_context objects zero q old c h =
    absurd (omega (arith, (context_at-bounds objects zero old h).0))
context_at-put_context objects (suc p) zero old c h =
    unfold context_at object_at context_of in ground arith
context_at-put_context objects (suc p) (suc q) old c h =
    let small : p < length objects = omega (arith, (context_at-bounds objects (suc p) old h).1) in
    unfold context_at object_at context_of in ground (arith, get_elem?-set objects p q (context c))

pub length-put_context :
    (objects : List Object) (p : Ptr) (c : Context)
    → length (put_context objects p c) ≡ length objects
unfolding put_context
length-put_context objects zero c = refl
length-put_context objects (suc p) c = length-set objects p (context c)

get_elem?-append_old {ℓ} :
    {A : Type ℓ} (xs : List A) (x : A) (i : ℕ)
    → i < length xs
    → get_elem? (xs ++ x ∷ []) i ≡ get_elem? xs i
get_elem?-append_old [] x i h = absurd (omega arith)
get_elem?-append_old (y ∷ xs) x zero h = refl
get_elem?-append_old (y ∷ xs) x (suc i) h = get_elem?-append_old xs x i (omega arith)

-- An allocation leaves the objects that were there.
pub object_at-allocate :
    (objects : List Object) (o : Object) (p : Ptr)
    → p ≤ length objects
    → object_at (allocate objects o).0 p ≡ object_at objects p
unfolding object_at allocate
object_at-allocate objects o zero h = refl
object_at-allocate objects o (suc p) h = get_elem?-append_old objects o p (omega arith)

pub object_at-allocate_self :
    (objects : List Object) (o : Object)
    → object_at (allocate objects o).0 (allocate objects o).1 ≡ some o
unfolding allocate object_at
object_at-allocate_self objects o =
    let e : length objects + 1 ≡ suc (length objects) = omega arith in
    rw e (get_elem?-append_length objects o [])

pub context_at-allocate :
    (objects : List Object) (o : Object) (p : Ptr) (c : Context)
    → context_at objects p ≡ some c
    → context_at (allocate objects o).0 p ≡ some c
context_at-allocate objects o p c h =
    let b = (context_at-bounds objects p c h).1 in
    unfold context_at in rw (object_at-allocate objects o p b) h

-- the current context, with its block of locals
pub record Frame (vm : Vm) (locals : List Reg) : Type 0 where
  pub here : Context
  pub there : context_at vm.objects vm.current_context ≡ some here
  pub block : here.locals ≡ some locals

pub get_reg-Frame :
    (vm : Vm) (locals : List Reg) (r : ℕ) → Frame vm locals → get_reg vm r ≡ get_elem? locals r
unfolding get_reg
get_reg-Frame vm locals r fr = rw (fr.there, ◌>>=◌, fr.block)

-- A write inside the block changes that register and nothing but it.
pub set_reg-Frame :
    (vm : Vm) (locals : List Reg) (r : ℕ) (v : Reg)
    → (fr : Frame vm locals) → r < length locals
    → set_reg vm r v
      ≡ some (record vm {
        objects =
            put_context vm.objects vm.current_context
              (record (fr.here) { locals = some (set locals r v) });
      })
unfolding set_reg store_reg
set_reg-Frame vm locals r v fr h =
    let inside : ltb r (length locals) ≡ true = ground arith in
    rw (fr.there, ◌>>=◌, fr.block, inside)

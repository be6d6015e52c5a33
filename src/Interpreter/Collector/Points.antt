-- ===== src/Interpreter/Collector/Points.antt =====
-- What an object leads to, said without the visits of src/interpreter/garbage_collector.h.
use zscript.Base.{
  ℕ, zero, suc, ◌+◌, ◌≤◌, ◌<◌, ◌≡◌, ◌≢◌, refl, false, some, List, [], ◌∷◌, ◌++◌, ◌==◌, ◌||◌, length,
  get_elem?, take, drop, arith, inl, inr, ◌⊎◌, Bool-cases, ◌↔◌,
}
use zscript.Map.{Map, Bag, bag_of}
use zscript.Interpreter.State.{
  Reg, Ptr, Context, FunctionRef, Object, context, function_ref, obj, instance_object, type_number,
  type_native_func,
}
use zscript.Interpreter.Collector.{InterpreterState, visit_register, visit_registers}
use zscript.Interpreter.Collector.Visit.{In}

-- The register holds a pointer to an object.
pub record Refers (r : Reg) (q : Ptr) : Type 0 where
  pub no_number : r.type ≢ type_number
  pub no_native : r.type ≢ type_native_func
  pub points : r.val ≡ q

-- an interpreter state leads to its two contexts and to what is on its stack
pub data StatePoints (s : InterpreterState) (q : Ptr) : Type 0 where
  current : q ≡ s.current_context → StatePoints s q
  root : q ≡ s.root_context → StatePoints s q
  stacked :
      (k : ℕ) (r : Reg)
      → 1 ≤ k
      → k ≤ s.stack_ptr
      → get_elem? s.stack k ≡ some r
      → Refers r q
      → StatePoints s q

-- what an object leads to
pub data Points (states : List InterpreterState) (q : Ptr) : Object → Type 0 where
  property :
      {m : Map Reg} {cache : Ptr} (i : ℕ) (bag : Bag Reg) (k : ℕ) (r : Reg)
      → bag_of m.bags i ≡ some bag
      → k < length bag.keys
      → get_elem? bag.values k ≡ some r
      → Refers r q
      → Points states q (obj m cache)
  local :
      {c : Context} (locals : List Reg) (k : ℕ) (r : Reg)
      → c.locals ≡ some locals
      → 2 ≤ k
      → k < c.locals_count
      → get_elem? locals k ≡ some r
      → Refers r q
      → Points states q (context c)
  scope : {c : Context} → q ≡ c.parent_context → Points states q (context c)
  caller : {c : Context} → q ≡ c.return_context → Points states q (context c)
  closure : {f : FunctionRef} → q ≡ f.parent_context → Points states q (function_ref f)
  responsible :
      {f : FunctionRef} (s : InterpreterState)
      → get_elem? states f.responsible_interpreter_state ≡ some s
      → StatePoints s q
      → Points states q (function_ref f)
  saved :
      {name : List ℕ} {n : ℕ} (s : InterpreterState)
      → get_elem? states n ≡ some s
      → StatePoints s q
      → Points states q (instance_object name n)

pub In-append : {A : Type 0} (q : A) (xs ys : List A) → In q (xs ++ ys) ↔ (In q xs ⊎ In q ys)
In-append q [] ys = (λ h. inr h, λ h. elim h [ inl (k, e) ↦ absurd (none_there k e) | inr m ↦ m ])
  where
    none_there : (k : ℕ) → ¬ (get_elem? [] k ≡ some q)
    none_there k e = cc
In-append q (x ∷ xs) ys = let rest = In-append q xs ys in (to rest, from rest)
  where
    Rest : Type 0
    Rest = In q (xs ++ ys) ↔ (In q xs ⊎ In q ys)

    to : Rest → In q (x ∷ (xs ++ ys)) → In q (x ∷ xs) ⊎ In q ys
    to rest (zero, e) = inl (zero, e)
    to rest (suc k, e) = elim (rest.0 (k, e)) [ inl (n, g) ↦ inl (suc n, g) | inr m ↦ inr m ]

    from : Rest → In q (x ∷ xs) ⊎ In q ys → In q (x ∷ (xs ++ ys))
    from rest (inl (zero, e)) = (zero, e)
    from rest (inl (suc k, e)) = let (n, g) = rest.1 (inl (k, e)) in (suc n, g)
    from rest (inr m) = let (n, g) = rest.1 (inr m) in (suc n, g)

pub visit_register-Refers : (r : Reg) (q : Ptr) → In q (visit_register r) ↔ Refers r q
unfolding visit_register
visit_register-Refers r q =
    elim (Bool-cases (r.type == type_number || r.type == type_native_func)) [
      | inl plain ↦
          rw plain
            ((λ h. absurd (nothing h)), λ h. absurd (ground (arith, h.no_number, h.no_native)))
      | inr holds ↦ rw holds (to holds, λ h. (zero, rw (h.points)))
    ]
  where
    nothing : ¬ In q []
    nothing (k, e) = cc

    to :
        (r.type == type_number || r.type == type_native_func) ≡ false
        → In q (r.val ∷ [])
        → Refers r q
    to h (zero, e) = record {
      no_number = ground arith;
      no_native = ground arith;
      points = ground arith;
    }
    to h (suc k, e) = cc

-- a register of the list that leads to `q`
abbrev pub Held : List Reg → Ptr → Type 0
Held rs q = (k : ℕ) × (r : Reg) × (get_elem? rs k ≡ some r) × Refers r q

pub visit_registers-Held : (rs : List Reg) (q : Ptr) → In q (visit_registers rs) ↔ Held rs q
unfolding visit_registers
visit_registers-Held [] q = ((λ h. absurd (nothing h)), λ (k, r, e, h). absurd (no_reg k r e))
  where
    nothing : ¬ In q []
    nothing (k, e) = cc

    no_reg : (k : ℕ) (r : Reg) → ¬ (get_elem? [] k ≡ some r)
    no_reg k r e = cc
visit_registers-Held (x ∷ rs) q = let rest = visit_registers-Held rs q in (to rest, from rest)
  where
    Rest : Type 0
    Rest = In q (visit_registers rs) ↔ Held rs q

    to : Rest → In q (visit_register x ++ visit_registers rs) → Held (x ∷ rs) q
    to rest h = elim ((In-append q (visit_register x) (visit_registers rs)).0 h) [
      | inl m ↦ (zero, x, refl, (visit_register-Refers x q).0 m)
      | inr m ↦ let (k, r, e, f) = rest.0 m in (suc k, r, e, f)
    ]

    from : Rest → Held (x ∷ rs) q → In q (visit_register x ++ visit_registers rs)
    from rest (zero, r, e, f) =
        let same : x ≡ r = ground arith in
        (In-append q (visit_register x) (visit_registers rs)).1
          (inl ((visit_register-Refers x q).1 (rw same f)))
    from rest (suc k, r, e, f) =
        (In-append q (visit_register x) (visit_registers rs)).1 (inr (rest.1 (k, r, e, f)))

pub get_elem?-take :
    (n k : ℕ) (rs : List Reg) (r : Reg)
    → get_elem? (take n rs) k ≡ some r ↔ ((k < n) × (get_elem? rs k ≡ some r))
get_elem?-take zero k rs r = (λ h. cc, λ h. absurd (omega (arith, h.0)))
get_elem?-take (suc n) k [] r = (λ h. cc, λ h. cc (h.1))
get_elem?-take (suc n) zero (x ∷ rs) r = (λ h. (omega arith, h), λ h. h.1)
get_elem?-take (suc n) (suc k) (x ∷ rs) r =
    let i = get_elem?-take n k rs r in
    (λ h. (omega (arith, (i.0 h).0), (i.0 h).1), λ h. i.1 (omega (arith, h.0), h.1))

pub get_elem?-drop : (n k : ℕ) (rs : List Reg) → get_elem? (drop n rs) k ≡ get_elem? rs (n + k)
get_elem?-drop zero k rs = let e : 0 + k ≡ k = omega arith in rw e
get_elem?-drop (suc n) k [] = refl
get_elem?-drop (suc n) k (x ∷ rs) =
    let e : suc n + k ≡ suc (n + k) = omega arith in rw e (get_elem?-drop n k rs)

pub In-pair : {A : Type 0} (q x : A) (xs : List A) → In q (x ∷ xs) ↔ ((q ≡ x) ⊎ In q xs)
In-pair q x xs = (to, from)
  where
    to : In q (x ∷ xs) → (q ≡ x) ⊎ In q xs
    to (zero, e) = inl (ground arith)
    to (suc k, e) = inr (k, e)

    from : (q ≡ x) ⊎ In q xs → In q (x ∷ xs)
    from (inl e) = (zero, rw e)
    from (inr (k, e)) = (suc k, e)

pub In-none : {A : Type 0} (q : A) → ¬ In q []
In-none q (k, e) = cc

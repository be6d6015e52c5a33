-- ===== src/Interpreter/Collector/Bags.antt =====
-- The visits of src/interpreter/garbage_collector.h to the values of a map and to the locals of a context.
use zscript.Base.{
  ℕ, zero, suc, ◌+◌, ◌<◌, ◌≡◌, refl, sym, ◌∙◌, Option, none, some, List, [], ◌∷◌, ◌++◌, length,
  get_elem?, take, drop, arith, inl, inr, ◌⊎◌, ◌↔◌,
}
use zscript.Map.{Bag, bag_of}
use zscript.Interpreter.State.{Reg, Ptr, Context, context}
use zscript.Interpreter.Collector.{InterpreterState, visit_registers, visit_bags}
use zscript.Interpreter.Collector.Visit.{In}
use zscript.Interpreter.Collector.Points.{
  Refers, Points, local, scope, caller, In-append, In-pair, In-none, Held, visit_registers-Held,
  get_elem?-take, get_elem?-drop,
}

-- a value of a bag that leads to `q`
pub data InBags (bags : List (Option (Bag Reg))) (q : Ptr) : Type 0 where
  in_bag :
      (i : ℕ) (bag : Bag Reg) (k : ℕ) (r : Reg)
      → bag_of bags i ≡ some bag
      → k < length bag.keys
      → get_elem? bag.values k ≡ some r
      → Refers r q
      → InBags bags q

pub visit_bags-InBags :
    (bags : List (Option (Bag Reg))) (q : Ptr) → In q (visit_bags bags) ↔ InBags bags q
unfolding visit_bags bag_of
visit_bags-InBags [] q = (λ h. absurd (In-none q h), from)
  where
    from : InBags [] q → In q []
    from (in_bag i bag k r at l e f) = cc
visit_bags-InBags (none ∷ bags) q =
    let rest = visit_bags-InBags bags q in (λ h. to (rest.0 h), λ h. rest.1 (from h))
  where
    to : InBags bags q → InBags (none ∷ bags) q
    to (in_bag i bag k r at l e f) = in_bag (suc i) bag k r at l e f

    from : InBags (none ∷ bags) q → InBags bags q
    from (in_bag zero bag k r at l e f) = cc
    from (in_bag (suc i) bag k r at l e f) = in_bag i bag k r at l e f
visit_bags-InBags (some b ∷ bags) q = let rest = visit_bags-InBags bags q in (to rest, from rest)
  where
    regs : List Reg
    regs = take (length b.keys) b.values

    Rest : Type 0
    Rest = In q (visit_bags bags) ↔ InBags bags q

    later : InBags bags q → InBags (some b ∷ bags) q
    later (in_bag i bag k r at l e f) = in_bag (suc i) bag k r at l e f

    to : Rest → In q (visit_registers regs ++ visit_bags bags) → InBags (some b ∷ bags) q
    to rest h = elim ((In-append q (visit_registers regs) (visit_bags bags)).0 h) [
      | inl m ↦
          let (k, r, e, f) = (visit_registers-Held regs q).0 m in
          let (small, at) = (get_elem?-take (length b.keys) k b.values r).0 e in
          in_bag 0 b k r refl small at f
      | inr m ↦ later (rest.0 m)
    ]

    from : Rest → InBags (some b ∷ bags) q → In q (visit_registers regs ++ visit_bags bags)
    from rest (in_bag zero bag k r at l e f) =
        let same : b ≡ bag = ground arith in
        let get : get_elem? regs k ≡ some r =
          (get_elem?-take (length b.keys) k b.values r).1 (rw same l, rw same e) in
        (In-append q (visit_registers regs) (visit_bags bags)).1
          (inl ((visit_registers-Held regs q).1 (k, r, get, f)))
    from rest (in_bag (suc i) bag k r at l e f) =
        (In-append q (visit_registers regs) (visit_bags bags)).1
          (inr (rest.1 (in_bag i bag k r at l e f)))

-- the registers of a context that are visited
pub visit_context-Points :
    (states : List InterpreterState) (c : Context) (locals : List Reg) (q : Ptr)
    → (c.locals ≡ some locals) ⊎ ((c.locals ≡ none) × (locals ≡ []))
    → In q (
        visit_registers (drop 2 (take c.locals_count locals))
        ++ c.parent_context ∷ c.return_context ∷ [])
      ↔ Points states q (context c)
visit_context-Points states c locals q block = (to, from)
  where
    regs : List Reg
    regs = drop 2 (take c.locals_count locals)

    ends : List Ptr
    ends = c.parent_context ∷ c.return_context ∷ []

    held : Held regs q → Points states q (context c)
    held (k, r, e, f) =
        let (small, at) =
          (get_elem?-take c.locals_count (2 + k) locals r).0
            (sym (get_elem?-drop 2 k (take c.locals_count locals)) ∙ e) in
        elim block [
          | inl b ↦ local locals (2 + k) r b (omega arith) small at f
          | inr (b, none_there) ↦ absurd (cc (rw none_there at at))
        ]

    to : In q (visit_registers regs ++ ends) → Points states q (context c)
    to h = elim ((In-append q (visit_registers regs) ends).0 h) [
      | inl m ↦ held ((visit_registers-Held regs q).0 m)
      | inr m ↦ elim ((In-pair q c.parent_context (c.return_context ∷ [])).0 m) [
        | inl e ↦ scope e
        | inr n ↦ elim ((In-pair q c.return_context []).0 n) [
          | inl e ↦ caller e
          | inr o ↦ absurd (In-none q o)
        ]
      ]
    ]

    last : In q ends → In q (visit_registers regs ++ ends)
    last m = (In-append q (visit_registers regs) ends).1 (inr m)

    from : Points states q (context c) → In q (visit_registers regs ++ ends)
    from (scope e) = last ((In-pair q c.parent_context (c.return_context ∷ [])).1 (inl e))
    from (caller e) = last (
        (In-pair q c.parent_context (c.return_context ∷ [])).1
          (inr ((In-pair q c.return_context []).1 (inl e))))
    from (local ls zero r b low high at f) = absurd (omega arith)
    from (local ls (suc zero) r b low high at f) = absurd (omega arith)
    from (local ls (suc (suc k)) r b low high at f) =
        let same : locals ≡ ls = elim block [
          | inl b' ↦ ground (arith, b, b')
          | inr (b', n) ↦ absurd (cc (b, b'))
        ] in
        let e : 2 + k ≡ suc (suc k) = omega arith in
        let get : get_elem? regs k ≡ some r =
          get_elem?-drop 2 k (take c.locals_count locals)
          ∙ rw e ((get_elem?-take c.locals_count (suc (suc k)) locals r).1 (high, rw same at)) in
        (In-append q (visit_registers regs) ends).1
          (inl ((visit_registers-Held regs q).1 (k, r, get, f)))

-- ===== src/Interpreter/Collector/Roots.antt =====
-- What a collection of src/interpreter/garbage_collector.h keeps, said without its visits.
use zscript.Base.{
  ℕ, zero, suc, ◌<◌, ◌≡◌, refl, sym, ap, subst, if◌then◌else◌, Bool, false, true, some, List, [],
  ◌∷◌, ◌++◌, ◌>>=◌, length, get_elem?, arith, inl, inr, ◌⊎◌, Bool-cases, Option-cases, ◌↔◌,
}
use zscript.Interpreter.State.{Ptr, Object}
use zscript.Interpreter.Collector.{
  InterpreterState, Heap, children, visit_state, visit_roots, visit_statics,
}
use zscript.Interpreter.Collector.Visit.{In, Reach, start, step, IsClosed}
use zscript.Interpreter.Collector.Points.{StatePoints, Points, In-append, In-none}
use zscript.Interpreter.Collector.Edges.{visit_state-StatePoints, visit_children-Points}
use zscript.Interpreter.Collector.Statics.{IsStatic, visit_statics-IsStatic}

-- a state that is not removed as a root leads to `q`
pub data IsStateRoot (states : List InterpreterState) (q : Ptr) : Type 0 where
  state_root :
      (s : InterpreterState)
      → In s states
      → s.removed_as_a_root ≡ false
      → StatePoints s q
      → IsStateRoot states q

abbrev pub IsRoot : Heap → Ptr → Type 0
IsRoot heap q = IsStateRoot heap.states q ⊎ IsStatic heap.static_variables q

-- what can be reached from the roots, from object to object
pub data IsReachable (heap : Heap) : Ptr → Type 0 where
  from_root : {q : Ptr} → IsRoot heap q → IsReachable heap q
  from_object :
      {q : Ptr} (i : ℕ) (o : Object)
      → IsReachable heap (suc i)
      → get_elem? heap.objects i ≡ some o
      → Points heap.states q o
      → IsReachable heap q

visit_roots-IsStateRoot :
    (states : List InterpreterState) (q : Ptr) → In q (visit_roots states) ↔ IsStateRoot states q
unfolding visit_roots
visit_roots-IsStateRoot [] q = (λ i. absurd (In-none q i), none_there)
  where
    none_there : IsStateRoot [] q → In q []
    none_there (state_root s (k, i) root p) = cc
visit_roots-IsStateRoot (s ∷ states) q =
    let rest = visit_roots-IsStateRoot states q in
    elim (Bool-cases s.removed_as_a_root) [
      | inl gone ↦
          subst (λ ps. In q ps ↔ IsStateRoot (s ∷ states) q) (sym (chosen gone))
            ((λ i. later (rest.0 i)), λ r. rest.1 (not_first gone r))
      | inr root ↦
          subst (λ ps. In q ps ↔ IsStateRoot (s ∷ states) q) (sym (chosen root))
            (to root rest, from rest)
    ]
  where
    chosen :
        {b : Bool}
        → s.removed_as_a_root ≡ b
        → visit_roots (s ∷ states)
          ≡ (if b then visit_roots states else visit_state s ++ visit_roots states)
    chosen e = ap (λ b. if b then visit_roots states else visit_state s ++ visit_roots states) e

    later : IsStateRoot states q → IsStateRoot (s ∷ states) q
    later (state_root t (k, i) root p) = state_root t (suc k, i) root p

    not_first : s.removed_as_a_root ≡ true → IsStateRoot (s ∷ states) q → IsStateRoot states q
    not_first gone (state_root t (zero, e) root p) =
        let same : s ≡ t = ground arith in cc (rw (← same, gone) at root)
    not_first gone (state_root t (suc k, e) root p) = state_root t (k, e) root p

    to :
        s.removed_as_a_root ≡ false
        → In q (visit_roots states) ↔ IsStateRoot states q
        → In q (visit_state s ++ visit_roots states)
        → IsStateRoot (s ∷ states) q
    to root rest i = elim ((In-append q (visit_state s) (visit_roots states)).0 i) [
      | inl n ↦ state_root s (zero, refl) root ((visit_state-StatePoints s q).0 n)
      | inr n ↦ later (rest.0 n)
    ]

    from :
        In q (visit_roots states) ↔ IsStateRoot states q
        → IsStateRoot (s ∷ states) q
        → In q (visit_state s ++ visit_roots states)
    from rest (state_root t (zero, e) root p) =
        let same : s ≡ t = ground arith in
        (In-append q (visit_state s) (visit_roots states)).1
          (inl ((visit_state-StatePoints s q).1 (rw same p)))
    from rest (state_root t (suc k, e) root p) =
        (In-append q (visit_state s) (visit_roots states)).1
          (inr (rest.1 (state_root t (k, e) root p)))

inside :
    (objects : List Object) (i : ℕ) (o : Object) → get_elem? objects i ≡ some o → i < length objects
inside [] i o e = cc
inside (x ∷ objects) zero o e = omega arith
inside (x ∷ objects) (suc i) o e = omega (arith, inside objects i o e)

module _ (heap : Heap) (statics : List Ptr)
    (run : visit_statics heap.static_variables ≡ some statics) where
  pub roots-IsRoot : (q : Ptr) → In q (visit_roots heap.states ++ statics) ↔ IsRoot heap q
  roots-IsRoot q =
      let states = visit_roots-IsStateRoot heap.states q in
      let variables = visit_statics-IsStatic heap.static_variables statics q run in
      let both = In-append q (visit_roots heap.states) statics in
      (
        λ i. elim (both.0 i) [ inl n ↦ inl (states.0 n) | inr n ↦ inr (variables.0 n) ],
        λ r. elim r [ inl n ↦ both.1 (inl (states.1 n)) | inr n ↦ both.1 (inr (variables.1 n)) ],
      )

  pub Reach-IsReachable :
      (p : Ptr)
      → Reach heap.objects heap.states (visit_roots heap.states ++ statics) p
      → IsReachable heap p
  unfolding children
  Reach-IsReachable p (start i) = from_root ((roots-IsRoot p).0 i)
  Reach-IsReachable p (step {i = i} qs r c m) = elim (Option-cases (get_elem? heap.objects i)) [
    | inl e ↦ cc (rw (e, ◌>>=◌) at c)
    | inr (o, e) ↦
        from_object i o (Reach-IsReachable (suc i) r) e
          ((visit_children-Points heap.states o qs p (rw (e, ◌>>=◌) at c)).0 m)
  ]

  pub IsReachable-Reach :
      IsClosed heap.objects heap.states
      → (p : Ptr) → IsReachable heap p
      → Reach heap.objects heap.states (visit_roots heap.states ++ statics) p
  unfolding children
  IsReachable-Reach closed p (from_root r) = start ((roots-IsRoot p).1 r)
  IsReachable-Reach closed p (from_object i o r at points) =
      let (qs, there, _) = closed i (inside heap.objects i o at) in
      step qs (IsReachable-Reach closed (suc i) r) there
        ((visit_children-Points heap.states o qs p (rw (at, ◌>>=◌) at there)).1 points)

-- ===== src/Interpreter/Collector/Reach.antt =====
-- A collection of src/interpreter/garbage_collector.h keeps what can be reached and frees the rest.
use zscript.Base.{
  ℕ, zero, suc, ◌≤◌, ◌<◌, ◌≡◌, refl, ◌∙◌, Option, some, List, [], ◌∷◌, ◌==◌, ◌>>=◌, length, set,
  arith, get_elem?-lt, length-set, inl, inr, Bool-cases, All,
}
use zscript.Interpreter.State.{Ptr, Object}
use zscript.Interpreter.Collector.{InterpreterState, visit_each, visit_object}
use zscript.Interpreter.Collector.Visit.{
  IsMarked, IsSeen, In, Reach, start, step, IsClosed, unmarked, Visited, Visited-none, Visited-cons,
  Visited-seen, Visited-new, unmarked-set,
}

pub All-In : (P : Ptr → Type 0) (ps : List Ptr) (p : Ptr) → All P ps → In p ps → P p
All-In P [] p h (k, e) = cc
All-In P (x ∷ xs) p h (zero, e) = let s : x ≡ p = ground arith in rw (← s) (h.0)
All-In P (x ∷ xs) p h (suc k, e) = All-In P xs p h.1 (k, e)

module _ (objects : List Object) (states : List InterpreterState) (version : ℕ) where
  -- visits that end, and what they mark
  abbrev pub Marks : Option (List ℕ) → List Ptr → List ℕ → Type 0
  Marks r ps vs = (us : List ℕ) × (r ≡ some us) × Visited objects states version ps vs us

  abbrev MarksFrom : ℕ → Type 0
  MarksFrom fuel =
      (p : Ptr) (vs : List ℕ)
      → p ≤ length objects
      → length vs ≡ length objects
      → unmarked objects states version vs < fuel
      → Marks (visit_object objects states version fuel p vs) (p ∷ []) vs

  pub visit_each-Marks :
      (fuel : ℕ)
      → MarksFrom fuel
      → (ps : List Ptr) (vs : List ℕ) → All (λ p. p ≤ length objects) ps
      → length vs ≡ length objects
      → unmarked objects states version vs < fuel
      → Marks (visit_each (visit_object objects states version fuel) ps vs) ps vs
  unfolding visit_each
  visit_each-Marks fuel visit [] vs valid size enough =
      (vs, refl, Visited-none objects states version vs)
  visit_each-Marks fuel visit (p ∷ ps) vs valid size enough =
      let (us, run, a) = visit p vs valid.0 size enough in
      let (ws, run', b) =
        visit_each-Marks fuel visit ps us valid.1 (a.same_length ∙ size) (omega (arith, a.fewer)) in
      (ws, rw (run, ◌>>=◌) run', Visited-cons objects states version p ps vs us ws a b)

  pub visit_object-Marks : IsClosed objects states → (fuel : ℕ) → MarksFrom fuel
  unfolding visit_object
  visit_object-Marks closed zero p vs valid size enough = absurd (omega arith)
  visit_object-Marks closed (suc fuel) zero vs valid size enough =
      (vs, refl, Visited-seen objects states version zero vs tt)
  visit_object-Marks closed (suc fuel) (suc i) vs valid size enough =
      let inside : i < length vs = omega arith in
      let (v, at) = get_elem?-lt vs i inside in
      elim (Bool-cases (v == version)) [
        | inl old ↦
            let e : v ≡ version = ground arith in
            (
              vs,
              rw (at, visit_object, old),
              Visited-seen objects states version (suc i) vs (rw at (rw e)),
            )
        | inr fresh ↦
            let (qs, there, good) = closed i (omega arith) in
            let (us, run, a) =
              visit_each-Marks fuel (visit_object-Marks closed fuel) qs (set vs i version) good
                (length-set vs i version ∙ size)
                (omega (arith, unmarked-set objects states version vs i v at fresh)) in
            (
              us,
              rw (at, visit_object, fresh, there, ◌>>=◌) run,
              Visited-new objects states version i v qs vs us at fresh inside there a,
            )
      ]

  module _ (roots : List Ptr) (vs us : List ℕ) (a : Visited objects states version roots vs us)
      (new : (i : ℕ) → ¬ IsMarked objects states version vs i) where
    pub Reach-IsSeen : (p : Ptr) → Reach objects states roots p → IsSeen objects states version us p
    Reach-IsSeen p (start h) = All-In (IsSeen objects states version us) roots p a.seen h
    Reach-IsSeen p (step {i = i} qs r there h) = elim (a.explored i (Reach-IsSeen (suc i) r)) [
      | inl old ↦ absurd (new i old)
      | inr e ↦
          let same : e.leads_to ≡ qs = cc (e.there, there) in
          All-In (IsSeen objects states version us) qs p (rw same at e.seen) h
    ]

    pub marked-Reach :
        (i : ℕ) → IsMarked objects states version us i → Reach objects states roots (suc i)
    marked-Reach i h = elim (a.reached i h) [ inl old ↦ absurd (new i old) | inr r ↦ r ]

-- ===== src/Interpreter/Collector/Sweep.antt =====
-- What a collection of src/interpreter/garbage_collector.h keeps and frees.
use zscript.Base.{
  ℕ, zero, suc, ◌+◌, ◌%◌, ◌^◌, ◌≤◌, ◌≡◌, refl, Option, some, List, [], ◌∷◌, ◌++◌, ◌==◌, ◌>>=◌,
  length, arith, get_elem?-lt, inl, inr, ◌⊎◌, Bool-cases, All, ◌↔◌,
}
use zscript.Interpreter.State.{Ptr, Object}
use zscript.Interpreter.Collector.{InterpreterState, Heap, visit_roots, visit_statics, sweep, gc}
use zscript.Interpreter.Collector.Visit.{IsMarked, IsSeen, In, IsClosed, unmarked, Visited}
use zscript.Interpreter.Collector.Statics.{AllKept, visit_statics-some}
use zscript.Interpreter.Collector.Roots.{
  IsRoot, IsReachable, roots-IsRoot, Reach-IsReachable, IsReachable-Reach,
}
use zscript.Interpreter.Collector.Reach.{
  visit_each-Marks, visit_object-Marks, Reach-IsSeen, marked-Reach, All-In,
}

In-cons : (p x : Ptr) (xs : List Ptr) → In p (x ∷ xs) ↔ ((p ≡ x) ⊎ In p xs)
In-cons p x xs = (to, from)
  where
    to : In p (x ∷ xs) → (p ≡ x) ⊎ In p xs
    to (zero, e) = inl (ground arith)
    to (suc k, e) = inr (k, e)

    from : (p ≡ x) ⊎ In p xs → In p (x ∷ xs)
    from (inl e) = (zero, rw e)
    from (inr (k, e)) = (suc k, e)

-- a list that has just those members of `ps` that fulfil `P`
abbrev pub Selects : (Ptr → Type 0) → List Ptr → List Ptr → Type 0
Selects P ps qs = (p : Ptr) → In p qs ↔ (In p ps × P p)

Selects-none : (P : Ptr → Type 0) → Selects P [] []
Selects-none P p = (λ h. absurd (nothing h), λ h. h.0)
  where
    nothing : ¬ In p []
    nothing (k, e) = cc

Selects-take :
    (P : Ptr → Type 0) (x : Ptr) (ps qs : List Ptr)
    → P x
    → Selects P ps qs
    → Selects P (x ∷ ps) (x ∷ qs)
Selects-take P x ps qs h s p = (to, from)
  where
    to : In p (x ∷ qs) → In p (x ∷ ps) × P p
    to m = elim ((In-cons p x qs).0 m) [
      | inl e ↦ ((In-cons p x ps).1 (inl e), rw e h)
      | inr n ↦ ((In-cons p x ps).1 (inr ((s p).0 n).0), ((s p).0 n).1)
    ]

    from : In p (x ∷ ps) × P p → In p (x ∷ qs)
    from (m, k) = elim ((In-cons p x ps).0 m) [
      | inl e ↦ (In-cons p x qs).1 (inl e)
      | inr n ↦ (In-cons p x qs).1 (inr ((s p).1 (n, k)))
    ]

Selects-skip :
    (P : Ptr → Type 0) (x : Ptr) (ps qs : List Ptr)
    → ¬ P x
    → Selects P ps qs
    → Selects P (x ∷ ps) qs
Selects-skip P x ps qs h s p = (to, from)
  where
    to : In p qs → In p (x ∷ ps) × P p
    to m = ((In-cons p x ps).1 (inr ((s p).0 m).0), ((s p).0 m).1)

    from : In p (x ∷ ps) × P p → In p qs
    from (m, k) = elim ((In-cons p x ps).0 m) [
      | inl e ↦ absurd (h (rw (← e) k))
      | inr n ↦ (s p).1 (n, k)
    ]

-- pointers to objects that have a version
abbrev pub IsListed : List ℕ → List Ptr → Type 0
IsListed versions ps = All (λ p. (1 ≤ p) × (p ≤ length versions)) ps

module _ (objects : List Object) (states : List InterpreterState) (version : ℕ) where
  -- the two lists that a sweep makes
  pub record Swept (versions : List ℕ) (ps : List Ptr) (r : Option (List Ptr × List Ptr))
      : Type 0 where
    pub kept : List Ptr
    pub freed : List Ptr
    pub runs : r ≡ some (kept, freed)
    pub keeps : Selects (IsSeen objects states version versions) ps kept
    pub frees : Selects (λ p. ¬ IsSeen objects states version versions p) ps freed

  pub sweep-Swept :
      (versions : List ℕ) (ps : List Ptr)
      → IsListed versions ps
      → Swept versions ps (sweep version versions ps)
  unfolding sweep
  sweep-Swept versions [] h = record {
    kept = [];
    freed = [];
    runs = refl;
    keeps = Selects-none _;
    frees = Selects-none _;
  }
  sweep-Swept versions (zero ∷ ps) h = absurd (omega (arith, h.0.0))
  sweep-Swept versions (suc i ∷ ps) h =
      let (v, at) = get_elem?-lt versions i (omega (arith, h.0.1)) in
      let rest = sweep-Swept versions ps h.1 in
      elim (Bool-cases (v == version)) [
        | inl same ↦
            let marked : IsMarked objects states version versions i = ground arith in
            record {
              kept = suc i ∷ rest.kept;
              freed = rest.freed;
              runs = rw (at, ◌>>=◌, rest.runs, same);
              keeps = Selects-take _ (suc i) ps rest.kept marked rest.keeps;
              frees = Selects-skip _ (suc i) ps rest.freed (λ n. n marked) rest.frees;
            }
        | inr other ↦
            let unseen : ¬ IsMarked objects states version versions i =
              λ m. absurd (ground arith) in
            record {
              kept = rest.kept;
              freed = suc i ∷ rest.freed;
              runs = rw (at, ◌>>=◌, rest.runs, other);
              keeps = Selects-skip _ (suc i) ps rest.kept unseen rest.keeps;
              frees = Selects-take _ (suc i) ps rest.freed unseen rest.frees;
            }
      ]

Selects-map :
    (P Q : Ptr → Type 0) (ps qs : List Ptr)
    → ((p : Ptr) → In p ps → P p ↔ Q p)
    → Selects P ps qs
    → Selects Q ps qs
Selects-map P Q ps qs f s p = (to, from)
  where
    to : In p qs → In p ps × Q p
    to m = let (n, k) = (s p).0 m in (n, (f p n).0 k)

    from : In p ps × Q p → In p qs
    from (n, k) = (s p).1 (n, (f p n).1 k)

-- the version of the next collection
abbrev pub next_version : Heap → ℕ
next_version heap = (heap.gc_version + 1) % 2 ^ 32

-- A heap in order: the pointers of objects, of roots and of the collector's list lead to objects, each
-- enumerable static variable is there, and no object has the next version yet.
pub record IsHeap (heap : Heap) : Type 0 where
  pub versions : length heap.versions ≡ length heap.objects
  pub closed : IsClosed heap.objects heap.states
  pub kept : AllKept heap.static_variables
  pub roots : (p : Ptr) → IsRoot heap p → p ≤ length heap.objects
  pub listed : IsListed heap.versions heap.gc_objects_list
  pub fresh : (i : ℕ) → ¬ IsMarked heap.objects heap.states (next_version heap) heap.versions i

unmarked-bound :
    (objects : List Object) (states : List InterpreterState) (version : ℕ) (vs : List ℕ)
    → unmarked objects states version vs ≤ length vs
unfolding unmarked
unmarked-bound objects states version [] = omega arith
unmarked-bound objects states version (v ∷ vs) =
    ground (arith, unmarked-bound objects states version vs)

All-of-In : (P : Ptr → Type 0) (ps : List Ptr) → ((p : Ptr) → In p ps → P p) → All P ps
All-of-In P [] h = tt
All-of-In P (p ∷ ps) h = (h p (zero, refl), All-of-In P ps (λ q (k, e). h q (suc k, e)))

-- Of a heap in order, where pointers lead to objects and no object has the version of the
-- collection yet, a collection ends. It keeps on the collector's list exactly the objects of the
-- list that can be reached, from object to object, from the two contexts and the stack of a state that is
-- not removed as a root, or from an enumerable static variable; and it frees exactly the others.
pub gc_lem :
    (heap : Heap)
    → IsHeap heap
    → (after : Heap) × (freed : List Ptr) × (gc heap ≡ some (after, freed))
      × Selects (IsReachable heap) heap.gc_objects_list after.gc_objects_list
      × Selects (λ p. ¬ IsReachable heap p) heap.gc_objects_list freed
unfolding gc
gc_lem heap h =
    let version = next_version heap in
    let (statics, static_run) = visit_statics-some heap.static_variables h.kept in
    let roots = visit_roots heap.states ++ statics in
    let bounded =
      All-of-In (λ p. p ≤ length heap.objects) roots
        (λ p i. h.roots p ((roots-IsRoot heap statics static_run p).0 i)) in
    let enough = unmarked-bound heap.objects heap.states version heap.versions in
    let fuel = length heap.objects + 2 in
    let (us, run, a) =
      visit_each-Marks heap.objects heap.states version fuel
        (visit_object-Marks heap.objects heap.states version h.closed fuel) roots heap.versions
        bounded h.versions (omega (arith, h.versions)) in
    let swept =
      sweep-Swept heap.objects heap.states version us heap.gc_objects_list
        (rw a.same_length (h.listed)) in
    let seen : (p : Ptr)
        → In p heap.gc_objects_list
        → IsSeen heap.objects heap.states version us p ↔ IsReachable heap p =
      seen_iff statics static_run us a in
    (
      record heap { gc_version = version; versions = us; gc_objects_list = swept.kept },
      swept.freed,
      rw (static_run, ◌>>=◌, run, swept.runs),
      Selects-map _ _ heap.gc_objects_list swept.kept seen swept.keeps,
      Selects-map _ _ heap.gc_objects_list swept.freed
          (λ p m. (λ n r. n ((seen p m).1 r), λ n r. n ((seen p m).0 r))) swept.frees,
    )
  where
    seen_iff :
        (statics : List Ptr)
        → visit_statics heap.static_variables ≡ some statics
        → (us : List ℕ)
        → Visited heap.objects heap.states
            (next_version heap)
            (visit_roots heap.states ++ statics)
            heap.versions
            us
        → (p : Ptr) → In p heap.gc_objects_list
        → IsSeen heap.objects heap.states (next_version heap) us p ↔ IsReachable heap p
    seen_iff statics run us a zero m =
        absurd (omega (arith, (All-In _ heap.gc_objects_list zero h.listed m).0))
    seen_iff statics run us a (suc i) m = (
      λ k. Reach-IsReachable heap statics run (suc i) (
          marked-Reach heap.objects heap.states (next_version heap) _ heap.versions us a h.fresh i
            k),
      λ r.
          Reach-IsSeen heap.objects heap.states (next_version heap) _ heap.versions us a h.fresh
            (suc i) (IsReachable-Reach heap statics run h.closed (suc i) r),
    )

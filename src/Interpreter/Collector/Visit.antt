-- ===== src/Interpreter/Collector/Visit.antt =====
-- What a visit of src/interpreter/garbage_collector.h marks.
use zscript.Base.{
  ℕ, zero, suc, ◌+◌, ◌≤◌, ◌<◌, ◌≡◌, refl, ◌∙◌, false, some, List, [], ◌∷◌, ◌==◌, if◌then◌else◌,
  length, get_elem?, set, arith, get_elem?-set, length-set, inl, inr, ◌⊎◌, Bool-cases, All, ==_refl,
}
use zscript.Interpreter.State.{Ptr, Object}
use zscript.Interpreter.Collector.{InterpreterState, children}

abbrev pub In : {A : Type 0} → A → List A → Type 0
In p ps = (k : ℕ) × (get_elem? ps k ≡ some p)

module _ (objects : List Object) (states : List InterpreterState) where
  -- what can be reached from the pointers `ps`
  pub data Reach (ps : List Ptr) : Ptr → Type 0 where
    start : {p : Ptr} → In p ps → Reach ps p
    step :
        {i : ℕ} {q : Ptr} (qs : List Ptr)
        → Reach ps (suc i)
        → children objects states i ≡ some qs
        → In q qs
        → Reach ps q

  -- The pointers of the objects all lead to an object or nowhere.
  abbrev pub IsClosed : Type 0
  IsClosed =
      (i : ℕ)
      → i < length objects
      → (qs : List Ptr) × (children objects states i ≡ some qs) × All (λ q. q ≤ length objects) qs

module _ (objects : List Object) (states : List InterpreterState) (version : ℕ) where
  -- the object at place `i` has been visited
  abbrev pub IsMarked : List ℕ → ℕ → Type 0
  IsMarked versions i = get_elem? versions i ≡ some version

  -- the null pointer, or an object that has been visited
  abbrev pub IsSeen : List ℕ → Ptr → Type 0
  IsSeen versions zero = Unit
  IsSeen versions (suc i) = IsMarked versions i

  -- how many objects are still to be visited
  unfoldable pub unmarked : List ℕ → ℕ
  unmarked [] = 0
  unmarked (v ∷ vs) = (if v == version then 0 else 1) + unmarked vs

  -- All that an object leads to has been visited.
  pub record Explored (versions : List ℕ) (i : ℕ) : Type 0 where
    pub leads_to : List Ptr
    pub there : children objects states i ≡ some leads_to
    pub seen : All (IsSeen versions) leads_to

  -- A visit of the pointers `ps` that turns the versions `vs` into `vs'`.
  pub record Visited (ps : List Ptr) (vs vs' : List ℕ) : Type 0 where
    pub same_length : length vs' ≡ length vs
    pub kept : (i : ℕ) → IsMarked vs i → IsMarked vs' i
    pub seen : All (IsSeen vs') ps
    pub explored : (i : ℕ) → IsMarked vs' i → IsMarked vs i ⊎ Explored vs' i
    pub reached : (i : ℕ) → IsMarked vs' i → IsMarked vs i ⊎ Reach objects states ps (suc i)
    pub fewer : unmarked vs' ≤ unmarked vs

  Reach-map :
      (ps qs : List Ptr) (p : Ptr)
      → ((q : Ptr) → In q ps → Reach objects states qs q)
      → Reach objects states ps p
      → Reach objects states qs p
  Reach-map ps qs p f (start h) = f p h
  Reach-map ps qs p f (step {i = i} rs r c h) = step rs (Reach-map ps qs (suc i) f r) c h

  IsSeen-kept :
      (vs vs' : List ℕ)
      → ((i : ℕ) → IsMarked vs i → IsMarked vs' i)
      → (ps : List Ptr) → All (IsSeen vs) ps
      → All (IsSeen vs') ps
  IsSeen-kept vs vs' keep [] h = tt
  IsSeen-kept vs vs' keep (zero ∷ ps) h = (tt, IsSeen-kept vs vs' keep ps h.1)
  IsSeen-kept vs vs' keep (suc i ∷ ps) h = (keep i h.0, IsSeen-kept vs vs' keep ps h.1)

  Explored-kept :
      (vs vs' : List ℕ)
      → ((i : ℕ) → IsMarked vs i → IsMarked vs' i)
      → (i : ℕ) → Explored vs i
      → Explored vs' i
  Explored-kept vs vs' keep i e = record {
    leads_to = e.leads_to;
    there = e.there;
    seen = IsSeen-kept vs vs' keep e.leads_to e.seen;
  }

  pub Visited-none : (vs : List ℕ) → Visited [] vs vs
  Visited-none vs = record {
    same_length = refl;
    kept = λ i h. h;
    seen = tt;
    explored = λ i h. inl h;
    reached = λ i h. inl h;
    fewer = omega arith;
  }

  -- one visit after another
  pub Visited-cons :
      (p : Ptr) (ps : List Ptr) (vs us ws : List ℕ)
      → Visited (p ∷ []) vs us
      → Visited ps us ws
      → Visited (p ∷ ps) vs ws
  Visited-cons p ps vs us ws a b = record {
    same_length = b.same_length ∙ a.same_length;
    kept = λ i h. b.kept i (a.kept i h);
    seen = ((IsSeen-kept us ws b.kept (p ∷ []) a.seen).0, b.seen);
    explored = λ i h. elim (b.explored i h) [
      | inr e ↦ inr e
      | inl m ↦ elim (a.explored i m) [
        | inl n ↦ inl n
        | inr e ↦ inr (Explored-kept us ws b.kept i e)
      ]
    ];
    reached = λ i h. elim (b.reached i h) [
      | inr r ↦ inr (Reach-map ps (p ∷ ps) (suc i) later r)
      | inl m ↦ elim (a.reached i m) [
        | inl n ↦ inl n
        | inr r ↦ inr (Reach-map (p ∷ []) (p ∷ ps) (suc i) first r)
      ]
    ];
    fewer = omega (arith, a.fewer, b.fewer);
  }
    where
      later : (q : Ptr) → In q ps → Reach objects states (p ∷ ps) q
      later q (k, h) = start (suc k, h)

      first : (q : Ptr) → In q (p ∷ []) → Reach objects states (p ∷ ps) q
      first q (zero, h) = start (zero, h)
      first q (suc k, h) = cc

  -- a null pointer, or an object that was visited before
  pub Visited-seen : (p : Ptr) (vs : List ℕ) → IsSeen vs p → Visited (p ∷ []) vs vs
  Visited-seen p vs h = record {
    same_length = refl;
    kept = λ i h. h;
    seen = (h, tt);
    explored = λ i h. inl h;
    reached = λ i h. inl h;
    fewer = omega arith;
  }

  pub unmarked-set :
      (vs : List ℕ) (i v : ℕ)
      → get_elem? vs i ≡ some v
      → (v == version) ≡ false
      → unmarked (set vs i version) + 1 ≡ unmarked vs
  unfolding unmarked
  unmarked-set [] i v h e = cc
  unmarked-set (u ∷ vs) zero v h e = ground (arith, ==_refl version)
  unmarked-set (u ∷ vs) (suc i) v h e = omega (arith, unmarked-set vs i v h e)

  -- an object that is marked first, and then what it leads to
  pub Visited-new :
      (i v : ℕ) (qs : List Ptr) (vs us : List ℕ)
      → get_elem? vs i ≡ some v
      → (v == version) ≡ false
      → i < length vs
      → children objects states i ≡ some qs
      → Visited qs (set vs i version) us
      → Visited (suc i ∷ []) vs us
  Visited-new i v qs vs us at fresh inside there a =
      let get : (j : ℕ)
          → get_elem? (set vs i version) j ≡ (if i == j then some version else get_elem? vs j) =
        λ j. get_elem?-set vs i j version inside in
      let mark : (j : ℕ) → IsMarked vs j → IsMarked (set vs i version) j =
        λ j h. ground (arith, get j) in
      let this : IsMarked us i = a.kept i (ground (arith, get i)) in
      record {
        same_length = a.same_length ∙ length-set vs i version;
        kept = λ j h. a.kept j (mark j h);
        seen = (this, tt);
        explored = λ j h. elim (a.explored j h) [
          | inr e ↦ inr e
          | inl m ↦ elim (Bool-cases (i == j)) [
            | inl same ↦
                let e : i ≡ j = ground arith in
                inr (rw (← e) (record { leads_to = qs; there = there; seen = a.seen }))
            | inr other ↦ inl (rw (get j, other) at m)
          ]
        ];
        reached = λ j h. elim (a.reached j h) [
          | inr r ↦
              inr
                (Reach-map qs (suc i ∷ []) (suc j) (λ q k. step qs (start (zero, refl)) there k) r)
          | inl m ↦ elim (Bool-cases (i == j)) [
            | inl same ↦ let e : i ≡ j = ground arith in inr (start (zero, rw e))
            | inr other ↦ inl (rw (get j, other) at m)
          ]
        ];
        fewer = omega (arith, a.fewer, unmarked-set vs i v at fresh);
      }

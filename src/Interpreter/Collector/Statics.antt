-- ===== src/Interpreter/Collector/Statics.antt =====
-- The static variables that a collection of src/interpreter/garbage_collector.h starts from, said without its
-- visits.
use zscript.Base.{
  zero, suc, ◌≡◌, refl, some, List, [], ◌∷◌, ◌++◌, ◌>>=◌, arith, inl, inr, Option-cases, ◌↔◌,
}
use zscript.Base.Strings.{Text}
use zscript.Map.{Map, map_key_list, map_get}
use zscript.Interpreter.State.{Reg, Ptr}
use zscript.Interpreter.Collector.{visit_register, visit_names, visit_statics}
use zscript.Interpreter.Collector.Visit.{In}
use zscript.Interpreter.Collector.Keys.{IsKey, keys-IsKey}
use zscript.Interpreter.Collector.Points.{Refers, In-append, In-none, visit_register-Refers}

-- the variable of an enumerable key leads to `q`
abbrev Named : Map Reg → List Text → Ptr → Type 0
Named m ks q = (name : Text) × (r : Reg) × In name ks × (map_get m name ≡ some r) × Refers r q

-- each of the names has a variable
abbrev AllThere : Map Reg → List Text → Type 0
AllThere m ks = (name : Text) → In name ks → (r : Reg) × (map_get m name ≡ some r)

visit_names-some :
    (m : Map Reg) (ks : List Text) → AllThere m ks → (ps : List Ptr) × (visit_names m ks ≡ some ps)
unfolding visit_names
visit_names-some m [] there = ([], refl)
visit_names-some m (k ∷ ks) there =
    let (r, e) = there k (zero, refl) in
    let (ps, h) = visit_names-some m ks (λ name (n, g). there name (suc n, g)) in
    (visit_register r ++ ps, rw (e, ◌>>=◌, h))

-- the visit of a name and then of the others
visit_names-cons :
    (m : Map Reg) (k : Text) (ks : List Text) (ps : List Ptr)
    → visit_names m (k ∷ ks) ≡ some ps
    → (r : Reg) × (rest : List Ptr) × (map_get m k ≡ some r)
      × (visit_names m ks ≡ some rest)
      × (visit_register r ++ rest ≡ ps)
unfolding visit_names
visit_names-cons m k ks ps h = elim (Option-cases (map_get m k)) [
  | inl e ↦ cc (rw (e, ◌>>=◌) at h)
  | inr (r, e) ↦ elim (Option-cases (visit_names m ks)) [
    | inl g ↦ cc (rw (e, ◌>>=◌, g) at h)
    | inr (rest, g) ↦ (r, rest, e, g, let i = rw (e, ◌>>=◌, g) at h in ground arith)
  ]
]

visit_names-Named :
    (m : Map Reg) (ks : List Text) (ps : List Ptr) (q : Ptr)
    → visit_names m ks ≡ some ps
    → In q ps ↔ Named m ks q
unfolding visit_names
visit_names-Named m [] ps q h =
    let e : ps ≡ [] = ground arith in
    rw e ((λ i. absurd (In-none q i)), λ (name, r, i, e, s). absurd (In-none name i))
visit_names-Named m (k ∷ ks) ps q h =
    let (r, rest, e, g, l) = visit_names-cons m k ks ps h in
    let i = visit_names-Named m ks rest q g in rw (← l) (to r rest e i, from r rest e i)
  where
    to :
        (r : Reg) (rest : List Ptr)
        → map_get m k ≡ some r
        → In q rest ↔ Named m ks q
        → In q (visit_register r ++ rest)
        → Named m (k ∷ ks) q
    to r rest e i h = elim ((In-append q (visit_register r) rest).0 h) [
      | inl n ↦ (k, r, (zero, refl), e, (visit_register-Refers r q).0 n)
      | inr n ↦ let (name, s, (j, g), f, t) = i.0 n in (name, s, (suc j, g), f, t)
    ]

    from :
        (r : Reg) (rest : List Ptr)
        → map_get m k ≡ some r
        → In q rest ↔ Named m ks q
        → Named m (k ∷ ks) q
        → In q (visit_register r ++ rest)
    from r rest e i (name, s, (zero, g), f, t) =
        let name_is : k ≡ name = ground arith in
        let same : r ≡ s = cc (rw (← name_is) at f, e) in
        (In-append q (visit_register r) rest).1 (inl ((visit_register-Refers r q).1 (rw same t)))
    from r rest e i (name, s, (suc j, g), f, t) =
        (In-append q (visit_register r) rest).1 (inr (i.1 (name, s, (j, g), f, t)))

visit_names-AllThere :
    (m : Map Reg) (ks : List Text) (ps : List Ptr) → visit_names m ks ≡ some ps → AllThere m ks
visit_names-AllThere m [] ps h name (n, e) = cc
visit_names-AllThere m (k ∷ ks) ps h name (zero, e) =
    let (r, rest, g, l, s) = visit_names-cons m k ks ps h in
    let same : k ≡ name = ground arith in (r, rw (← same) g)
visit_names-AllThere m (k ∷ ks) ps h name (suc n, e) =
    let (r, rest, g, l, s) = visit_names-cons m k ks ps h in
    visit_names-AllThere m ks rest l name (n, e)

-- an enumerable static variable that leads to `q`
pub data IsStatic (maps : List (Map Reg)) (q : Ptr) : Type 0 where
  static :
      (m : Map Reg) (name : Text) (r : Reg)
      → In m maps
      → IsKey m.bags name
      → map_get m name ≡ some r
      → Refers r q
      → IsStatic maps q

-- each enumerable key has a variable
abbrev pub AllKept : List (Map Reg) → Type 0
AllKept maps =
    (m : Map Reg) (name : Text)
    → In m maps
    → IsKey m.bags name
    → (r : Reg) × (map_get m name ≡ some r)

pub visit_statics-some :
    (maps : List (Map Reg)) → AllKept maps → (ps : List Ptr) × (visit_statics maps ≡ some ps)
unfolding visit_statics
visit_statics-some [] kept = ([], refl)
visit_statics-some (m ∷ maps) kept =
    let (ps, h) =
      visit_names-some m (map_key_list m)
        (λ name i. kept m name (zero, refl) ((keys-IsKey m name).0 i)) in
    let (qs, g) = visit_statics-some maps (λ n name (k, i). kept n name (suc k, i)) in
    (ps ++ qs, rw (h, ◌>>=◌, g))

visit_statics-cons :
    (m : Map Reg) (maps : List (Map Reg)) (ps : List Ptr)
    → visit_statics (m ∷ maps) ≡ some ps
    → (here : List Ptr) × (rest : List Ptr) × (visit_names m (map_key_list m) ≡ some here)
      × (visit_statics maps ≡ some rest)
      × (here ++ rest ≡ ps)
unfolding visit_statics
visit_statics-cons m maps ps h = elim (Option-cases (visit_names m (map_key_list m))) [
  | inl e ↦ cc (rw (e, ◌>>=◌) at h)
  | inr (here, e) ↦ elim (Option-cases (visit_statics maps)) [
    | inl g ↦ cc (rw (e, ◌>>=◌, g) at h)
    | inr (rest, g) ↦ (here, rest, e, g, let i = rw (e, ◌>>=◌, g) at h in ground arith)
  ]
]

pub visit_statics-AllKept :
    (maps : List (Map Reg)) (ps : List Ptr) → visit_statics maps ≡ some ps → AllKept maps
visit_statics-AllKept [] ps h m name (k, e) is_key = cc
visit_statics-AllKept (m ∷ maps) ps h n name (zero, e) is_key =
    let (here, rest, g, l, s) = visit_statics-cons m maps ps h in
    let same : m ≡ n = ground arith in
    rw (← same) (
      visit_names-AllThere m (map_key_list m) here g name
        ((keys-IsKey m name).1 (rw (← same) at is_key)))
visit_statics-AllKept (m ∷ maps) ps h n name (suc k, e) is_key =
    let (here, rest, g, l, s) = visit_statics-cons m maps ps h in
    visit_statics-AllKept maps rest l n name (k, e) is_key

-- A visit of the static variables goes to what the enumerable ones lead to.
pub visit_statics-IsStatic :
    (maps : List (Map Reg)) (ps : List Ptr) (q : Ptr)
    → visit_statics maps ≡ some ps
    → In q ps ↔ IsStatic maps q
unfolding visit_statics
visit_statics-IsStatic [] ps q h =
    let e : ps ≡ [] = ground arith in rw e ((λ i. absurd (In-none q i)), none_there)
  where
    none_there : IsStatic [] q → In q []
    none_there (static m name r (k, i) is_key at t) = cc
visit_statics-IsStatic (m ∷ maps) ps q h =
    let (here, rest, g, l, s) = visit_statics-cons m maps ps h in
    let i = visit_statics-IsStatic maps rest q l in rw (← s) (to here rest g i, from here rest g i)
  where
    to :
        (here rest : List Ptr)
        → visit_names m (map_key_list m) ≡ some here
        → In q rest ↔ IsStatic maps q
        → In q (here ++ rest)
        → IsStatic (m ∷ maps) q
    to here rest g ih i = elim ((In-append q here rest).0 i) [
      | inl n ↦
          let (name, r, k, e, t) = (visit_names-Named m (map_key_list m) here q g).0 n in
          static m name r (zero, refl) ((keys-IsKey m name).0 k) e t
      | inr n ↦ later (ih.0 n)
    ]
      where
        later : IsStatic maps q → IsStatic (m ∷ maps) q
        later (static n name r (k, i) is_key at t) = static n name r (suc k, i) is_key at t

    from :
        (here rest : List Ptr)
        → visit_names m (map_key_list m) ≡ some here
        → In q rest ↔ IsStatic maps q
        → IsStatic (m ∷ maps) q
        → In q (here ++ rest)
    from here rest g ih (static n name r (zero, e) is_key at t) =
        let same : m ≡ n = ground arith in
        (In-append q here rest).1 (
          inl (
            (visit_names-Named m (map_key_list m) here q g).1
              (name, r, (keys-IsKey m name).1 (rw same is_key), rw same at, t)))
    from here rest g ih (static n name r (suc k, e) is_key at t) =
        (In-append q here rest).1 (inr (ih.1 (static n name r (k, e) is_key at t)))

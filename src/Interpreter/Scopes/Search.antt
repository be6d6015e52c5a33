-- ===== src/Interpreter/Scopes/Search.antt =====
-- The search for a name in the scopes: it ends, finds the innermost scope that declares the name, and
-- changes nothing that a later search sees (src/interpreter/interpreter_dd.c).
use zscript.Base.{
  ℕ, zero, suc, ◌+◌, ◌<◌, ◌≤◌, ◌≡◌, refl, sym, ap, ◌∙◌, Option, none, some, List, length, arith,
  inl, inr, Option-cases,
}
use zscript.Base.Strings.{Text}
use zscript.Map.{Map, map_get}
use zscript.Interpreter.State.{Reg, Ptr, Context, Object, context_at}
use zscript.Interpreter.Store.{context_at-bounds}
use zscript.Interpreter.Scopes.{symbol_table_of, search_scope}
use zscript.Interpreter.Scopes.Resolve.{
  table_of, beside_parts, scope_at, block_at, SameScopes, Chain, outermost, scope, Nearest,
  undeclared, declared, outer, Chain-SameScopes, Nearest-scope_at, Cached, Cached-refl,
  Cached-trans, tabled,
}

module _ (bytes : List ℕ) where
  -- what a search that ends gives
  pub record Searched (objects : List Object) (name : Text) (p : Ptr)
      (r : Option (List Object × Option (Ptr × ℕ))) : Type 0 where
    pub after : List Object
    pub place : Option (Ptr × ℕ)
    pub runs : r ≡ some (after, place)
    pub nearest : Nearest bytes objects name p place
    pub cached : Cached bytes objects after

  -- the two ways that a round of the search goes
  search_scope-declared :
      (fuel i index : ℕ) (objects after : List Object) (name : Text) (c : Context) (table : Map ℕ)
      → context_at objects (suc i) ≡ some c
      → symbol_table_of bytes objects (suc i) c ≡ some (after, table)
      → map_get table name ≡ some index
      → search_scope (suc fuel) bytes objects (suc i) name ≡ some (after, some (suc i, index))
  unfolding search_scope
  search_scope-declared fuel i index objects after name c table here gives g =
      rw (search_scope, here, gives, g)

  search_scope-outer :
      (fuel i : ℕ) (objects after : List Object) (name : Text) (c : Context) (table : Map ℕ)
      → context_at objects (suc i) ≡ some c
      → symbol_table_of bytes objects (suc i) c ≡ some (after, table)
      → map_get table name ≡ none
      → search_scope (suc fuel) bytes objects (suc i) name
        ≡ search_scope fuel bytes after c.parent_context name
  unfolding search_scope
  search_scope-outer fuel i objects after name c table here gives g =
      rw (search_scope, here, gives, g)

  -- The search for a name from a chain of scopes ends with as much fuel as the address of the first
  -- has steps. It gives the innermost scope that declares the name, with the name's index there, or
  -- none if no scope does; the tables that it keeps on its way change neither a scope nor a variable.
  pub search_scope-Searched :
      (fuel : ℕ) (objects : List Object) (p : Ptr) (name : Text)
      → p < fuel
      → Chain bytes objects p
      → Searched objects name p (search_scope fuel bytes objects p name)
  unfolding search_scope scope_at
  search_scope-Searched zero objects p name h chain = absurd (omega arith)
  search_scope-Searched (suc fuel) objects _ name h outermost = record {
    after = objects;
    place = none;
    runs = refl;
    nearest = undeclared;
    cached = Cached-refl bytes objects;
  }
  search_scope-Searched (suc fuel) objects _ name h
        (scope i parent table locals e older block fits rest) =
      elim (Option-cases (context_at objects (suc i))) [
        | inl gone ↦ cc (rw gone at e)
        | inr (c, here) ↦
            let (up, tab) =
              beside_parts c.parent_context parent (table_of bytes c) table (rw here at e) in
            let t = tabled bytes objects (suc i) table c here tab in
            elim (Option-cases (map_get table name)) [
              | inr (index, g) ↦ record {
                after = t.after;
                place = some (suc i, index);
                runs =
                    search_scope-declared fuel i index objects (t.after) name c table here (t.gives)
                      g;
                nearest = declared i parent index table e g;
                cached = t.cached;
              }
              | inl g ↦
                  let same : SameScopes bytes objects t.after = t.cached.same in
                  let s =
                    search_scope-Searched fuel (t.after) parent name (omega arith)
                      (Chain-SameScopes bytes objects (t.after) parent same rest) in
                  record {
                    after = s.after;
                    place = s.place;
                    runs =
                        search_scope-outer fuel i objects (t.after) name c table here (t.gives) g
                        ∙ ap (λ q. search_scope fuel bytes t.after q name) up
                        ∙ s.runs;
                    nearest = outer i parent table (s.place) e g (
                        Nearest-scope_at bytes objects (t.after) name parent (s.place)
                          (λ q. sym (same.scopes q)) (s.nearest));
                    cached = Cached-trans bytes objects (t.after) (s.after) (t.cached) (s.cached);
                  }
            ]
      ]

  one_scope :
      (o : Option (Ptr × Map ℕ)) (p p' : Ptr) (t t' : Map ℕ)
      → o ≡ some (p, t)
      → o ≡ some (p', t')
      → (p ≡ p') × (t ≡ t')
  one_scope o p p' t t' e e' = (cc (e, e'), cc (e, e'))

  -- Two answers to one question are the same.
  pub Nearest-unique :
      (objects : List Object) (name : Text) (p : Ptr) (r s : Option (Ptr × ℕ))
      → Nearest bytes objects name p r
      → Nearest bytes objects name p s
      → r ≡ s
  Nearest-unique objects name _ _ _ undeclared undeclared = refl
  Nearest-unique objects name _ _ _ (declared i parent index table e g)
        (declared _ parent' index' table' e' g') =
      let same = (one_scope _ parent parent' table table' e e').1 in
      let found : some index ≡ some index' = sym g ∙ rw same g' in
      ap (λ n. some (suc i, n)) (cc found)
  Nearest-unique objects name _ _ _ (declared i parent index table e g)
        (outer _ parent' table' r e' g' rest) =
      let same = (one_scope _ parent parent' table table' e e').1 in
      let clash : map_get table name ≡ none = rw same g' in cc (g, clash)
  Nearest-unique objects name _ _ _ (outer i parent table r e g rest)
        (declared _ parent' index table' e' g') =
      let same = (one_scope _ parent parent' table table' e e').1 in
      let clash : map_get table name ≡ some index = rw same g' in cc (g, clash)
  Nearest-unique objects name _ _ _ (outer i parent table r e g rest)
        (outer _ parent' table' r' e' g' rest') =
      Nearest-unique objects name parent r r' rest
        (rw ((one_scope _ parent parent' table table' e e').0) rest')

  -- a variable that is found is one of its block
  pub Nearest-Chain :
      (objects : List Object) (name : Text) (p q : Ptr) (index : ℕ)
      → Chain bytes objects p
      → Nearest bytes objects name p (some (q, index))
      → (locals : List Reg) × (block_at objects q ≡ some locals) × (index < length locals)
  Nearest-Chain objects name _ q index outermost n =
      cc (Nearest-unique objects name zero (some (q, index)) none n undeclared)
  Nearest-Chain objects name _ _ index (scope i parent table locals e older b fits rest)
        (declared _ parent' _ table' e' g) =
      (locals, b, fits name index (rw ((one_scope _ parent parent' table table' e e').1) g))
  Nearest-Chain objects name _ q index (scope i parent table locals e older b fits rest)
        (outer _ parent' table' _ e' g n) =
      Nearest-Chain objects name parent q index rest
        (rw ((one_scope _ parent parent' table table' e e').0) n)

  -- the address of a scope is one of the store
  pub Chain-bounds : (objects : List Object) (p : Ptr) → Chain bytes objects p → p ≤ length objects
  unfolding scope_at
  Chain-bounds objects _ outermost = omega arith
  Chain-bounds objects _ (scope i parent table locals e older b fits rest) =
      elim (Option-cases (context_at objects (suc i))) [
        | inl gone ↦ cc (rw gone at e)
        | inr (c, here) ↦ (context_at-bounds objects (suc i) c here).1
      ]

  -- the fuel of the handlers is enough
  pub search_scope_runs :
      (objects : List Object) (p : Ptr) (name : Text)
      → Chain bytes objects p
      → Searched objects name p (search_scope (length objects + 2) bytes objects p name)
  search_scope_runs objects p name chain =
      search_scope-Searched (length objects + 2) objects p name
        (omega (arith, Chain-bounds objects p chain)) chain

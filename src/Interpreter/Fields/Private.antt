-- ===== src/Interpreter/Fields/Private.antt =====
-- The fields of an instance that another instance sees (interpreter_get_field_virtual of
-- src/interpreter/interpreter_dd.c).
use zscript.Base.{
  ℕ, zero, suc, ◌<◌, ◌/◌, ◌%◌, ◌≡◌, ◌≢◌, refl, sym, ap, ◌∙◌, true, false, Option, none, some, List,
  ◌>>=◌, get_elem?, arith, inl, inr, Bool-cases, Option-cases, get_elem?-lt,
}
use zscript.Base.Strings.{Text, str_eq, str_eq_iff}
use zscript.Map.{Map, map_get, map_get_flags}
use zscript.Interpreter.State.{Reg, Ptr, Context, Object, context_at}
use zscript.Interpreter.Scopes.{symbol_table_of, read_local}
use zscript.Interpreter.Scopes.Resolve.{
  scope_at, block_at, Chain, outermost, scope, Cached, Cached-refl, Cached-trans, Chain-SameScopes,
  tabled, table_of, beside_parts,
}
use zscript.Interpreter.Scopes.Write.{read_local-block}
use zscript.Interpreter.Fields.Virtual.{is_private_flag, is_hidden, get_field_virtual}

map_get-flags {ℓ} :
    {V : Type ℓ} (m : Map V) (name : Text) (v : V) (flags : ℕ)
    → map_get_flags m name ≡ some (v, flags)
    → map_get m name ≡ some v
unfolding map_get
map_get-flags m name v flags h = rw (h, ◌>>=◌)

-- The second bit of the flags, MAP_FLAG_PRIVATE, is set, and the class that asks is another one.
abbrev pub IsHidden : ℕ → Text → Text → Type 0
IsHidden flags ours theirs = (flags / 2 % 2 ≡ 1) × (ours ≢ theirs)

is_hidden-IsHidden :
    (flags : ℕ) (ours theirs : Text)
    → is_hidden flags ours theirs ≡ true
    → IsHidden flags ours theirs
unfolding is_private_flag
is_hidden-IsHidden flags ours theirs h = (
  ground arith,
  λ same.
      let e : str_eq ours theirs ≡ true = (str_eq_iff ours theirs).1 same in absurd (ground arith),
)

is_hidden-visible :
    (flags : ℕ) (ours theirs : Text)
    → is_hidden flags ours theirs ≡ false
    → ¬ IsHidden flags ours theirs
unfolding is_private_flag
is_hidden-visible flags ours theirs h (bit, other) = elim (Bool-cases (str_eq ours theirs)) [
  | inl same ↦ other ((str_eq_iff ours theirs).0 same)
  | inr apart ↦ absurd (ground arith)
]

-- What the class `ours` sees of a field of an instance of the class `theirs`: the field of the
-- innermost scope from `p` on that declares the name, but nothing if that field is private and the classes are
-- two.
pub data Sees (bytes : List ℕ) (objects : List Object) (ours theirs name : Text)
    : Ptr → Option Reg → Type 0 where
  undeclared : Sees bytes objects ours theirs name zero none
  hidden :
      (i parent index flags : ℕ) (table : Map ℕ)
      → scope_at bytes objects (suc i) ≡ some (parent, table)
      → map_get_flags table name ≡ some (index, flags)
      → IsHidden flags ours theirs
      → Sees bytes objects ours theirs name (suc i) none
  visible :
      (i parent index flags : ℕ) (table : Map ℕ) (block : List Reg) (v : Reg)
      → scope_at bytes objects (suc i) ≡ some (parent, table)
      → map_get_flags table name ≡ some (index, flags)
      → ¬ IsHidden flags ours theirs
      → block_at objects (suc i) ≡ some block
      → get_elem? block index ≡ some v
      → Sees bytes objects ours theirs name (suc i) (some v)
  outer :
      (i parent : ℕ) (table : Map ℕ) (r : Option Reg)
      → scope_at bytes objects (suc i) ≡ some (parent, table)
      → map_get_flags table name ≡ none
      → Sees bytes objects ours theirs name parent r
      → Sees bytes objects ours theirs name (suc i) r

module _ (bytes : List ℕ) (ours theirs name : Text) where
  Sees-Cached :
      (objects objects' : List Object) (p : Ptr) (r : Option Reg)
      → Cached bytes objects objects'
      → Sees bytes objects' ours theirs name p r
      → Sees bytes objects ours theirs name p r
  Sees-Cached objects objects' _ _ c undeclared = undeclared
  Sees-Cached objects objects' _ _ c (hidden i parent index flags table e g h) =
      hidden i parent index flags table (sym (c.same.scopes (suc i)) ∙ e) g h
  Sees-Cached objects objects' _ _ c (visible i parent index flags table block v e g h b x) =
      visible i parent index flags table block v (sym (c.same.scopes (suc i)) ∙ e) g h
        (sym (c.blocks (suc i)) ∙ b) x
  Sees-Cached objects objects' _ _ c (outer i parent table r e g rest) =
      outer i parent table r (sym (c.same.scopes (suc i)) ∙ e) g
        (Sees-Cached objects objects' parent r c rest)

  -- what a search that ends gives
  pub record Fetched (objects : List Object) (p : Ptr) (result : Option (List Object × Option Reg))
      : Type 0 where
    pub after : List Object
    pub field_value : Option Reg
    pub runs : result ≡ some (after, field_value)
    pub sees : Sees bytes objects ours theirs name p field_value
    pub cached : Cached bytes objects after

  -- the three ways that a round of the search goes
  module _ (fuel i : ℕ) (objects after : List Object) (c : Context) (table : Map ℕ)
      (here : context_at objects (suc i) ≡ some c)
      (gives : symbol_table_of bytes objects (suc i) c ≡ some (after, table)) where
    fetch_outer :
        map_get_flags table name ≡ none
        → get_field_virtual (suc fuel) bytes ours theirs objects (suc i) name
          ≡ get_field_virtual fuel bytes ours theirs after c.parent_context name
    unfolding get_field_virtual
    fetch_outer g = rw (get_field_virtual, here, gives, g)

    fetch_hidden :
        (index flags : ℕ)
        → map_get_flags table name ≡ some (index, flags)
        → is_hidden flags ours theirs ≡ true
        → get_field_virtual (suc fuel) bytes ours theirs objects (suc i) name ≡ some (after, none)
    unfolding get_field_virtual
    fetch_hidden index flags g h = rw (get_field_virtual, here, gives, g, h)

    fetch_visible :
        (index flags : ℕ) (v : Reg)
        → map_get_flags table name ≡ some (index, flags)
        → is_hidden flags ours theirs ≡ false
        → read_local after (suc i) index ≡ some v
        → get_field_virtual (suc fuel) bytes ours theirs objects (suc i) name ≡ some (after, some v)
    unfolding get_field_virtual
    fetch_visible index flags v g h r = rw (get_field_virtual, here, gives, g, h, r)

  -- The search for a field of an instance from a chain of scopes ends with as much fuel as the
  -- address of the first has steps. It gives the variable of the innermost scope that declares the
  -- name, or nothing if no scope does, or if that variable is private and the class that asks is
  -- not the instance's, even if a scope farther out declares the name, too. The tables that it
  -- keeps change neither a scope nor a variable.
  pub get_field_virtual-Fetched :
      (fuel : ℕ) (objects : List Object) (p : Ptr)
      → p < fuel
      → Chain bytes objects p
      → Fetched objects p (get_field_virtual fuel bytes ours theirs objects p name)
  unfolding get_field_virtual scope_at
  get_field_virtual-Fetched zero objects p h chain = absurd (omega arith)
  get_field_virtual-Fetched (suc fuel) objects _ h outermost = record {
    after = objects;
    field_value = none;
    runs = refl;
    sees = undeclared;
    cached = Cached-refl bytes objects;
  }
  get_field_virtual-Fetched (suc fuel) objects _ h
        (scope i parent table locals e older block fits rest) =
      elim (Option-cases (context_at objects (suc i))) [
        | inl gone ↦ cc (rw gone at e)
        | inr (c, here) ↦
            let (up, tab) =
              beside_parts c.parent_context parent (table_of bytes c) table (rw here at e) in
            let t = tabled bytes objects (suc i) table c here tab in
            elim (Option-cases (map_get_flags table name)) [
              | inl g ↦
                  let s =
                    get_field_virtual-Fetched fuel (t.after) parent (omega arith)
                      (Chain-SameScopes bytes objects (t.after) parent (t.cached.same) rest) in
                  record {
                    after = s.after;
                    field_value = s.field_value;
                    runs =
                        fetch_outer fuel i objects (t.after) c table here (t.gives) g
                        ∙ ap (λ q. get_field_virtual fuel bytes ours theirs t.after q name) up
                        ∙ s.runs;
                    sees =
                        outer i parent table (s.field_value) e g (
                          Sees-Cached objects (t.after) parent (s.field_value) (t.cached) (s.sees));
                    cached = Cached-trans bytes objects (t.after) (s.after) (t.cached) (s.cached);
                  }
              | inr ((index, flags), g) ↦ elim (Bool-cases (is_hidden flags ours theirs)) [
                | inl secret ↦ record {
                  after = t.after;
                  field_value = none;
                  runs =
                      fetch_hidden fuel i objects (t.after) c table here (t.gives) index flags g
                        secret;
                  sees =
                      hidden i parent index flags table e g
                        (is_hidden-IsHidden flags ours theirs secret);
                  cached = t.cached;
                }
                | inr open_field ↦
                    let (v, x) =
                      get_elem?-lt locals index
                        (fits name index (map_get-flags table name index flags g)) in
                    record {
                      after = t.after;
                      field_value = some v;
                      runs =
                          fetch_visible fuel i objects (t.after) c table here (t.gives) index flags
                            v g open_field
                            (read_local-block t.after (suc i) index locals
                                (t.cached.blocks (suc i) ∙ block)
                              ∙ x);
                      sees =
                          visible i parent index flags table locals v e g
                            (is_hidden-visible flags ours theirs open_field) block x;
                      cached = t.cached;
                    }
              ]
            ]
      ]

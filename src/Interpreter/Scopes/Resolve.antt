-- ===== src/Interpreter/Scopes/Resolve.antt =====
-- What the search for a name in the scopes finds, and that the symbol tables it keeps in the contexts
-- change no later search (src/interpreter/interpreter_dd.c).
use zscript.Base.{
  ℕ, zero, suc, ◌<◌, ◌≡◌, refl, sym, ap, ◌∙◌, Option, none, some, List, ◌==◌, ◌>>=◌, length, arith,
  inl, inr, Bool-cases, Option-cases,
}
use zscript.Base.Strings.{Text}
use zscript.Map.{Map, map_get}
use zscript.Interpreter.State.{Reg, Ptr, Context, Object, context_at, put_context}
use zscript.Interpreter.Store.{context_at-put_context, length-put_context}
use zscript.Interpreter.Scopes.{read_symbols, symbol_table_of}

-- the table that a context keeps, or else the one that is built from the bytes
abbrev pub table_of : List ℕ → Context → Option (Map ℕ)
table_of bytes c = elim c.symbol_table [
  | some table ↦ some table
  | none ↦ read_symbols bytes c.symbols_address
]

abbrev pub beside : Ptr → Option (Map ℕ) → Option (Ptr × Map ℕ)
beside parent none = none
beside parent (some table) = some (parent, table)

pub beside_parts :
    (p parent : Ptr) (o : Option (Map ℕ)) (table : Map ℕ)
    → beside p o ≡ some (parent, table)
    → (p ≡ parent) × (o ≡ some table)
beside_parts p parent none table h = cc h
beside_parts p parent (some t) table h = (cc h, cc h)

abbrev pub outline : List ℕ → Context → Option (Ptr × Map ℕ)
outline bytes c = beside c.parent_context (table_of bytes c)

-- the parent and the table of the context at an address
unfoldable pub scope_at : List ℕ → List Object → Ptr → Option (Ptr × Map ℕ)
scope_at bytes objects p = context_at objects p >>= outline bytes

-- the block of locals of the context at an address
unfoldable pub block_at : List Object → Ptr → Option (List Reg)
block_at objects p = context_at objects p >>= λ c. c.locals

pub block_at-here :
    (objects : List Object) (p : Ptr) (c : Context)
    → context_at objects p ≡ some c
    → block_at objects p ≡ c.locals
unfolding block_at
block_at-here objects p c h = rw (h, ◌>>=◌)

-- Another store with the same scopes, and blocks of the same lengths.
pub record SameScopes (bytes : List ℕ) (objects objects' : List Object) : Type 0 where
  pub scopes : (p : Ptr) → scope_at bytes objects' p ≡ scope_at bytes objects p
  pub sizes :
      (p : Ptr) (locals : List Reg)
      → block_at objects p ≡ some locals
      → (locals' : List Reg) × (block_at objects' p ≡ some locals')
        × (length locals' ≡ length locals)
  pub size : length objects' ≡ length objects

-- The scopes from `p` on: each has a table and a block with room for its variables, and lies in an
-- older one, or is the outermost.
pub data Chain (bytes : List ℕ) (objects : List Object) : Ptr → Type 0 where
  outermost : Chain bytes objects zero
  scope :
      (i parent : ℕ) (table : Map ℕ) (locals : List Reg)
      → scope_at bytes objects (suc i) ≡ some (parent, table)
      → parent < suc i
      → block_at objects (suc i) ≡ some locals
      → ((name : Text) (index : ℕ) → map_get table name ≡ some index → index < length locals)
      → Chain bytes objects parent
      → Chain bytes objects (suc i)

-- The innermost of the scopes from `p` on that declares the name, and the name's index there.
pub data Nearest (bytes : List ℕ) (objects : List Object) (name : Text)
    : Ptr → Option (Ptr × ℕ) → Type 0 where
  undeclared : Nearest bytes objects name zero none
  declared :
      (i parent index : ℕ) (table : Map ℕ)
      → scope_at bytes objects (suc i) ≡ some (parent, table)
      → map_get table name ≡ some index
      → Nearest bytes objects name (suc i) (some (suc i, index))
  outer :
      (i parent : ℕ) (table : Map ℕ) (r : Option (Ptr × ℕ))
      → scope_at bytes objects (suc i) ≡ some (parent, table)
      → map_get table name ≡ none
      → Nearest bytes objects name parent r
      → Nearest bytes objects name (suc i) r

module _ (bytes : List ℕ) where
  pub Chain-SameScopes :
      (objects objects' : List Object) (p : Ptr)
      → SameScopes bytes objects objects'
      → Chain bytes objects p
      → Chain bytes objects' p
  Chain-SameScopes objects objects' _ same outermost = outermost
  Chain-SameScopes objects objects' _ same (scope i parent table locals e older block fits rest) =
      let (locals', block', wide) = same.sizes (suc i) locals block in
      scope i parent table locals' (same.scopes (suc i) ∙ e) older block'
        (λ name index g. rw wide (fits name index g))
        (Chain-SameScopes objects objects' parent same rest)

  pub Nearest-scope_at :
      (objects objects' : List Object) (name : Text) (p : Ptr) (r : Option (Ptr × ℕ))
      → ((q : Ptr) → scope_at bytes objects q ≡ scope_at bytes objects' q)
      → Nearest bytes objects' name p r
      → Nearest bytes objects name p r
  Nearest-scope_at objects objects' name _ _ same undeclared = undeclared
  Nearest-scope_at objects objects' name _ _ same (declared i parent index table e g) =
      declared i parent index table (same (suc i) ∙ e) g
  Nearest-scope_at objects objects' name _ _ same (outer i parent table r e g rest) =
      outer i parent table r (same (suc i) ∙ e) g
        (Nearest-scope_at objects objects' name parent r same rest)

  -- A context replaced by one with the same table, parent and size of its block.
  pub put_context-SameScopes :
      (objects : List Object) (p : Ptr) (old c : Context)
      → context_at objects p ≡ some old
      → outline bytes c ≡ outline bytes old
      → ((locals : List Reg)
          → old.locals ≡ some locals
          → (locals' : List Reg) × (c.locals ≡ some locals') × (length locals' ≡ length locals))
      → SameScopes bytes objects (put_context objects p c)
  unfolding scope_at block_at
  put_context-SameScopes objects p old c h lines blocks = record {
    scopes = λ q. elim (Bool-cases (p == q)) [
      | inl here ↦
          let at : p ≡ q = ground arith in
          rw (context_at-put_context objects p q old c h, here) (rw (← at, h) lines)
      | inr away ↦ rw (context_at-put_context objects p q old c h, away)
    ];
    sizes = λ q locals b. elim (Bool-cases (p == q)) [
      | inl here ↦
          let at : p ≡ q = ground arith in
          rw (context_at-put_context objects p q old c h, here)
            (blocks locals (sym (block_at-here objects p old h) ∙ rw at b))
      | inr away ↦ rw (context_at-put_context objects p q old c h, away) (locals, b, refl)
    ];
    size = length-put_context objects p c;
  }

  -- A store with the same scopes, where the blocks are kept, too.
  pub record Cached (objects objects' : List Object) : Type 0 where
    pub same : SameScopes bytes objects objects'
    pub blocks : (p : Ptr) → block_at objects' p ≡ block_at objects p

  pub SameScopes-trans :
      (a b c : List Object) → SameScopes bytes a b → SameScopes bytes b c → SameScopes bytes a c
  SameScopes-trans a b c x y = record {
    scopes = λ p. y.scopes p ∙ x.scopes p;
    sizes = λ p locals e.
        let (locals1, e1, w1) = x.sizes p locals e in
        let (locals2, e2, w2) = y.sizes p locals1 e1 in (locals2, e2, w2 ∙ w1);
    size = y.size ∙ x.size;
  }

  pub Cached-refl : (objects : List Object) → Cached objects objects
  Cached-refl objects = record {
    same = record { scopes = λ p. refl; sizes = λ p locals e. (locals, e, refl); size = refl };
    blocks = λ p. refl;
  }

  pub Cached-trans : (a b c : List Object) → Cached a b → Cached b c → Cached a c
  Cached-trans a b c x y = record {
    same = SameScopes-trans a b c (x.same) (y.same);
    blocks = λ p. y.blocks p ∙ x.blocks p;
  }

  block_at-put_context :
      (objects : List Object) (p q : Ptr) (old c : Context)
      → context_at objects p ≡ some old
      → c.locals ≡ old.locals
      → block_at (put_context objects p c) q ≡ block_at objects q
  unfolding block_at
  block_at-put_context objects p q old c h same = elim (Bool-cases (p == q)) [
    | inl here ↦
        let at : p ≡ q = ground arith in
        rw (context_at-put_context objects p q old c h, here) (rw (← at, h) same)
    | inr away ↦ rw (context_at-put_context objects p q old c h, away)
  ]

  -- What the table of a context costs: the store keeps it.
  pub record Tabled (objects : List Object) (p : Ptr) (c : Context) (table : Map ℕ) : Type 0 where
    pub after : List Object
    pub gives : symbol_table_of bytes objects p c ≡ some (after, table)
    pub cached : Cached objects after

  pub tabled :
      (objects : List Object) (p : Ptr) (table : Map ℕ) (c : Context)
      → context_at objects p ≡ some c
      → table_of bytes c ≡ some table
      → Tabled objects p c table
  unfolding symbol_table_of
  tabled objects p table c h lines = elim (Option-cases c.symbol_table) [
    | inr (t, e) ↦ record {
      after = objects;
      gives = rw e (ap (λ t. some (objects, t)) (kept t e));
      cached = Cached-refl objects;
    }
    | inl e ↦
        let built : read_symbols bytes c.symbols_address ≡ some table = rw e at lines in
        let new : Context = record c { symbol_table = some table } in
        record {
          after = put_context objects p new;
          gives = rw (e, built, ◌>>=◌);
          cached = record {
            same =
                put_context-SameScopes objects p c new h (rw (e, built, ◌>>=◌))
                  (λ l b. (l, b, refl));
            blocks = λ q. block_at-put_context objects p q c new h refl;
          };
        }
  ]
    where
      kept : (t : Map ℕ) → c.symbol_table ≡ some t → t ≡ table
      kept t e = let found : some t ≡ some table = rw e at lines in cc found

-- ===== src/Interpreter/Scopes.antt =====
-- The search of src/interpreter/interpreter_dd.c for a name in the scopes of a function: the symbol
-- table of a context is built when it is first asked for, and kept in the context.
pub mod Resolve
pub mod Search
pub mod Write
use zscript.Base.{
  ℕ, zero, suc, ◌+◌, Bool, true, false, Option, none, some, List, [], ◌∷◌, ◌==◌, leb, if◌then◌else◌,
  ◌>>=◌, length, get_elem?, set, drop, ltb,
}
use zscript.Base.Strings.{Text}
use zscript.Map.{Map, map_get}
use zscript.Symbols.{build_symbol_table}
use zscript.Interpreter.State.{Reg, Ptr, Context, Object, context_at, put_context}

-- `byte_stream + symbols_address`, which has to lie in the stream
unfoldable pub read_symbols : List ℕ → ℕ → Option (Map ℕ)
read_symbols bytes address =
    if leb address (length bytes) then build_symbol_table (drop address bytes) else none

-- the symbol table of the context `c` at `p`, and the objects with the table in the context
unfoldable pub symbol_table_of : List ℕ → List Object → Ptr → Context → Option (List Object × Map ℕ)
symbol_table_of bytes objects p c = elim c.symbol_table [
  | some table ↦ some (objects, table)
  | none ↦ do
    table ← read_symbols bytes c.symbols_address
    some (put_context objects p (record c { symbol_table = some table }), table)
]

-- The loop over `context`, on fuel: the context and the index of the local that has the name.
unfoldable pub search_scope :
    ℕ → List ℕ → List Object → Ptr → Text → Option (List Object × Option (Ptr × ℕ))
search_scope zero bytes objects p name = none
search_scope (suc fuel) bytes objects zero name = some (objects, none)
search_scope (suc fuel) bytes objects (suc i) name = elim (context_at objects (suc i)) [
  | none ↦ none
  | some c ↦ elim (symbol_table_of bytes objects (suc i) c) [
    | none ↦ none
    | some (objects, table) ↦ elim (map_get table name) [
      | some index ↦ some (objects, some (suc i, index))
      | none ↦ search_scope fuel bytes objects c.parent_context name
    ]
  ]
]

-- `locals[index]` of a context
unfoldable pub read_local : List Object → Ptr → ℕ → Option Reg
read_local objects p index = do c ← context_at objects p; locals ← c.locals; get_elem? locals index

-- `locals[index] = v`
unfoldable pub write_local : List Object → Ptr → ℕ → Reg → Option (List Object)
write_local objects p index v = do
  c ← context_at objects p
  locals ← c.locals
  if ltb index (length locals)
      then some (put_context objects p (record c { locals = some (set locals index v) }))
      else none

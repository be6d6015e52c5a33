-- ===== src/Registers.antt =====
-- The registers of a function in the compiler (src/compiler/ast/FunctionKind.cpp). The variables have
-- the registers 1 to `symbols`; behind them come the temporary ones. `registerTable` is the list of its
-- pairs, in the order of their keys; `none` is the exception of `at` for a missing key.
pub mod Temporary
mod Tests
use zscript.Base.{
  ℕ, zero, suc, ◌+◌, Bool, true, false, Option, none, some, List, [], ◌∷◌, ◌++◌, ◌==◌, ltb,
  if◌then◌else◌, ◌>>=◌, length, is_some,
}
use zscript.Base.Strings.{Text}
use zscript.Symbols.{Table, find}

-- `true` is free
abbrev pub RegisterTable : Type 0
RegisterTable = List (ℕ × Bool)

-- `registerTable->at` and `registerTable->find`
unfoldable pub register_at : ℕ → RegisterTable → Option Bool
register_at index [] = none
register_at index ((k, free) ∷ table) = if k == index then some free else register_at index table

-- `(*registerTable)[index] = free`, at the end if the key is new
unfoldable pub put_register : ℕ → Bool → RegisterTable → RegisterTable
put_register index free [] = (index, free) ∷ []
put_register index free ((k, old) ∷ table) =
    if k == index then (k, free) ∷ table else (k, old) ∷ put_register index free table

unfoldable pub free_register : ℕ → ℕ → RegisterTable → RegisterTable
free_register symbols index table =
    if ltb symbols index
    then (if is_some (register_at index table) then put_register index true table else table)
    else table

-- The loop over `i`, with the number of rounds left first; 0 is no register.
unfoldable pub free_index : ℕ → ℕ → RegisterTable → Option ℕ
free_index zero index table = some 0
free_index (suc rounds) index table = elim (register_at index table) [
  | none ↦ none
  | some true ↦ some index
  | some false ↦ free_index rounds (index + 1) table
]

-- `getRegister(NULL)`
unfoldable pub get_register : ℕ → RegisterTable → Option (ℕ × RegisterTable)
get_register symbols table = do
  ret ← free_index (length table) (symbols + 1) table
  if ret == 0
      then some (length table + symbols + 1, put_register (length table + symbols + 1) false table)
      else some (ret, put_register ret false table)

-- `getRegister(ident)` with a name
unfoldable pub get_named_register : Table → Text → ℕ
get_named_register symbol_table ident = elim (find ident symbol_table) [ none ↦ 0 | some r ↦ r ]

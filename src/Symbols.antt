-- ===== src/Symbols.antt =====
-- The symbol table of a function on its way from the compiler to the interpreter: the numbers that
-- src/compiler/AddressCalculator.cpp gives, the bytes that src/program/Assembler.cpp writes for FFRAME,
-- and `build_symbol_table` of src/interpreter/object.c, which reads them. A `std::map` is the list of its
-- pairs, in the order of their insertion, and `in_key_order` is what an iterator gives; words are
-- stored with the low byte first.
pub mod Words
pub mod Numbered
pub mod Order
pub mod Reading
mod Tests
use zscript.Base.{
  ℕ, zero, suc, ◌+◌, ◌-◌, ◌*◌, ◌/◌, ◌%◌, Bool, true, false, Option, none, some, List, [], ◌∷◌, ◌++◌,
  ◌==◌, ltb, if◌then◌else◌, ◌>>=◌, length, is_some,
}
use zscript.Base.Strings.{Text, str_eq}
use zscript.Map.{Map, map_new, map_insert_flags, map_flag_enumerable, map_flag_private}

abbrev pub Table : Type 0
Table = List (Text × ℕ)

-- `symbolTable->find`
unfoldable pub find : Text → Table → Option ℕ
find ident [] = none
find ident ((name, address) ∷ table) = if str_eq name ident then some address else find ident table

-- `insert` of a `std::map` does nothing if the key is there
unfoldable pub add_to_current_table : Table → Text → Table
add_to_current_table table identifier =
    if is_some (find identifier table) then table else table ++ (identifier, length table + 1) ∷ []

-- `privatesTable->find(str) != privatesTable->end()`
unfoldable pub is_private : Text → List Text → Bool
is_private name [] = false
is_private name (p ∷ privates) = if str_eq p name then true else is_private name privates

-- `std::less` on strings
unfoldable pub text_less : Text → Text → Bool
text_less [] [] = false
text_less [] (d ∷ ds) = true
text_less (c ∷ cs) [] = false
text_less (c ∷ cs) (d ∷ ds) =
    let rest = text_less cs ds in if ltb c d then true else if ltb d c then false else rest

unfoldable pub insert_by_name : Text × ℕ → Table → Table
insert_by_name x [] = x ∷ []
insert_by_name x (y ∷ table) =
    let rest = insert_by_name x table in if text_less x.0 y.0 then x ∷ y ∷ table else y ∷ rest

-- from `begin()` to `end()` of a `std::map`, whose keys are all different
unfoldable pub in_key_order : Table → Table
in_key_order [] = []
in_key_order (x ∷ table) = insert_by_name x (in_key_order table)

-- `insert` of the set that is ordered by the second components: an element with the same one is there
-- already
unfoldable pub insert_by_address : Text × ℕ → Table → Table
insert_by_address x [] = x ∷ []
insert_by_address (name, address) ((n, a) ∷ set) =
    let rest = insert_by_address (name, address) set in
    if ltb address a
    then (name, address) ∷ (n, a) ∷ set
    else if address == a
    then (n, a) ∷ set
    else (n, a) ∷ rest

-- `setOfWords` from a range
unfoldable pub set_of_words : Table → Table → Table
set_of_words set [] = set
set_of_words set (x ∷ table) = set_of_words (insert_by_address x set) table

-- the bytes of a word of `n` bytes
unfoldable pub word_bytes : ℕ → ℕ → List ℕ
word_bytes zero value = []
word_bytes (suc n) value = value % 256 ∷ word_bytes n (value / 256)

unfoldable pub word_of : ℕ → List ℕ → Option (ℕ × List ℕ)
word_of zero bytes = some (0, bytes)
word_of (suc n) [] = none
word_of (suc n) (b ∷ bytes) = do (high, rest) ← word_of n bytes; some (b + 256 * high, rest)

-- one name with its terminating zero, and the byte behind it
unfoldable pub symbol_bytes : List Text → Text × ℕ → List ℕ
symbol_bytes privates (name, address) = name ++ 0 ∷ (if is_private name privates then 1 else 0) ∷ []

unfoldable pub symbols_bytes : List Text → Table → List ℕ
symbols_bytes privates [] = []
symbols_bytes privates (x ∷ table) = symbol_bytes privates x ++ symbols_bytes privates table

-- what the first loop of `assemble` adds for FFRAME
unfoldable pub assemble_frame : Table → List Text → List ℕ
assemble_frame symbol_table privates =
    word_bytes 8 (length symbol_table)
    ++ symbols_bytes privates (set_of_words [] (in_key_order symbol_table))

-- a C string, and what is behind its zero
unfoldable pub read_string : List ℕ → Option (Text × List ℕ)
read_string [] = none
read_string (zero ∷ bytes) = some ([], bytes)
read_string (suc c ∷ bytes) = do (item, rest) ← read_string bytes; some (suc c ∷ item, rest)

-- the loop over `i`, with the number of rounds left first
unfoldable pub build_symbols : ℕ → ℕ → List ℕ → Map ℕ → Option (Map ℕ)
build_symbols zero i bytes symbol_table = some symbol_table
build_symbols (suc rounds) i bytes symbol_table = elim (read_string bytes) [
  | none ↦ none
  | some (item, []) ↦ none
  | some (item, private_byte ∷ rest) ↦ build_symbols rounds (i + 1) rest (
      map_insert_flags symbol_table item (i + 1)
        (if private_byte == 0 then map_flag_enumerable else map_flag_enumerable + map_flag_private))
]

unfoldable pub build_symbol_table : List ℕ → Option (Map ℕ)
build_symbol_table bytes = do (size, rest) ← word_of 8 bytes; build_symbols size 0 rest map_new

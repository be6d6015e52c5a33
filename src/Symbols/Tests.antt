-- ===== src/Symbols/Tests.antt =====
-- A symbol table from its names to the interpreter (src/compiler/AddressCalculator.cpp,
-- src/program/Assembler.cpp, src/interpreter/object.c).
use zscript.Base.{ℕ, ◌^◌, ◌<◌, ◌≡◌, refl, some, [], ◌∷◌, ◌++◌, length, arith}
use zscript.Base.Strings.{Text, str_eq}
use zscript.Map.{Map, map_get_flags}
use zscript.Symbols.{
  Table, find, add_to_current_table, assemble_frame, build_symbol_table, set_of_words,
  insert_by_address, in_key_order, insert_by_name, text_less,
}
use zscript.Symbols.Words.{IsText}
use zscript.Symbols.Numbered.{IsNumbered, add_to_current_table-IsNumbered}
use zscript.Symbols.Reading.{Known, build_symbol_table-assemble_frame}

-- "this"
abbrev this : Text
this = 116 ∷ 104 ∷ 105 ∷ 115 ∷ []

-- "f"
abbrev f : Text
f = 102 ∷ []

this-IsText : IsText this
this-IsText = (ground arith, (ground arith, (ground arith, (ground arith, tt))))

f-IsText : IsText f
f-IsText = (ground arith, tt)

abbrev table : Table
table = add_to_current_table (add_to_current_table (add_to_current_table [] this) f) this

numbered_names : table ≡ (this, 1) ∷ (f, 2) ∷ []
unfolding add_to_current_table find str_eq
numbered_names = refl

key_order : in_key_order ((this, 1) ∷ (f, 2) ∷ []) ≡ (f, 2) ∷ (this, 1) ∷ []
unfolding in_key_order insert_by_name text_less
key_order = refl

ordered : set_of_words [] ((f, 2) ∷ (this, 1) ∷ []) ≡ (this, 1) ∷ (f, 2) ∷ []
unfolding set_of_words insert_by_address
ordered = refl

table-IsNumbered : IsNumbered 1 table
table-IsNumbered =
    add_to_current_table-IsNumbered _ this
      (add_to_current_table-IsNumbered _ f (add_to_current_table-IsNumbered [] this tt this-IsText)
        f-IsText)
      this-IsText

add_to_current_table-IsNumbered_example : IsNumbered 1 (add_to_current_table table f)
add_to_current_table-IsNumbered_example =
    add_to_current_table-IsNumbered table f table-IsNumbered f-IsText

small : length table < 2 ^ 64
small = rw numbered_names (omega arith)

build_symbol_table-assemble_frame_example :
    (m : Map ℕ) × (build_symbol_table (assemble_frame table (f ∷ []) ++ 7 ∷ []) ≡ some m)
    × ((k : Text) → Known (f ∷ []) table k (map_get_flags m k))
build_symbol_table-assemble_frame_example =
    build_symbol_table-assemble_frame (f ∷ []) table (7 ∷ []) table-IsNumbered small

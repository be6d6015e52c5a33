-- ===== src/Symbols/Numbered.antt =====
-- The numbers that `addToCurrentTable` of src/compiler/AddressCalculator.cpp gives, and the order in which
-- src/program/Assembler.cpp writes the names.
use zscript.Base.{
  ℕ, suc, ◌+◌, ◌<◌, ◌≡◌, refl, sym, ◌∙◌, false, none, some, [], ◌∷◌, ◌++◌, ◌==◌, ltb, if◌then◌else◌,
  length, arith, All, inl, inr, Option-cases, append-nil, append_assoc,
}
use zscript.Base.Strings.{Text, str_eq, str_eq_iff}
use zscript.Symbols.{Table, find, add_to_current_table, insert_by_address, set_of_words}
use zscript.Symbols.Words.{IsText}

-- the names are different and numbered one after the other
abbrev pub IsNumbered : ℕ → Table → Type 0
IsNumbered from [] = Unit
IsNumbered from ((name, address) ∷ table) =
    (address ≡ from) × (find name table ≡ none) × IsText name × IsNumbered (from + 1) table

find-append :
    (table : Table) (name ident : Text) (address : ℕ)
    → find name table ≡ none
    → find name (table ++ (ident, address) ∷ [])
      ≡ (if str_eq ident name then some address else none)
unfolding find
find-append [] name ident address h = refl
find-append ((n, a) ∷ table) name ident address h =
    ground (arith, find-append table name ident address)

IsNumbered-append :
    (from : ℕ) (table : Table) (ident : Text)
    → IsNumbered from table
    → IsText ident
    → find ident table ≡ none
    → IsNumbered from (table ++ (ident, from + length table) ∷ [])
unfolding find
IsNumbered-append from [] ident h t new = (omega arith, refl, t, tt)
IsNumbered-append from ((n, a) ∷ table) ident h t new =
    let other : str_eq n ident ≡ false = ground arith in
    let here : str_eq ident n ≡ false = ground (arith, str_eq_iff n ident, str_eq_iff ident n) in
    let later : find ident table ≡ none = rw other at new in
    let at : from + 1 + length table ≡ from + suc (length table) = omega arith in
    (
      h.0,
      find-append table n ident _ h.1 ∙ rw here,
      h.2,
      rw at at (IsNumbered-append (from + 1) table ident h.3 t later),
    )

-- Adding a name without a zero inside to a table that numbers different names from 1 on leaves such
-- a table.
pub add_to_current_table-IsNumbered :
    (table : Table) (identifier : Text)
    → IsNumbered 1 table
    → IsText identifier
    → IsNumbered 1 (add_to_current_table table identifier)
unfolding add_to_current_table
add_to_current_table-IsNumbered table identifier h t = elim (Option-cases (find identifier table)) [
  | inr (a, e) ↦ rw e h
  | inl e ↦
      let at : 1 + length table ≡ length table + 1 = omega arith in
      rw e (rw at at (IsNumbered-append 1 table identifier h t e))
]

insert_by_address-last :
    (set : Table) (name : Text) (address : ℕ)
    → All (λ x. x.1 < address) set
    → insert_by_address (name, address) set ≡ set ++ (name, address) ∷ []
unfolding insert_by_address
insert_by_address-last [] name address h = refl
insert_by_address-last ((n, a) ∷ set) name address h =
    let over : ltb address a ≡ false = ground (arith, h.0) in
    let other : (address == a) ≡ false = ground (arith, h.0) in
    rw (over, other, insert_by_address-last set name address h.1)

All-below :
    (set : Table) (name : Text) (from : ℕ)
    → All (λ x. x.1 < from) set
    → All (λ x. x.1 < from + 1) (set ++ (name, from) ∷ [])
All-below [] name from h = (omega arith, tt)
All-below ((n, a) ∷ set) name from h = (omega (arith, h.0), All-below set name from h.1)

set_of_words-append :
    (set table : Table) (from : ℕ)
    → All (λ x. x.1 < from) set
    → IsNumbered from table
    → set_of_words set table ≡ set ++ table
unfolding set_of_words
set_of_words-append set [] from below h = sym (append-nil set)
set_of_words-append set ((n, a) ∷ table) from below h =
    rw (h.0, insert_by_address-last set n from below)
      (set_of_words-append (set ++ (n, from) ∷ []) table (from + 1) (All-below set n from below) h.3
        ∙ append_assoc set ((n, from) ∷ []) table)

pub set_of_words-numbered : (table : Table) → IsNumbered 1 table → set_of_words [] table ≡ table
set_of_words-numbered table h = set_of_words-append [] table 1 tt h

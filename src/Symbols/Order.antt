-- ===== src/Symbols/Order.antt =====
-- The set in which src/program/Assembler.cpp orders the names of a function, whatever the order in which it
-- gets them.
use zscript.Base.{ℕ, ◌+◌, ◌≤◌, ◌≡◌, ◌≢◌, refl, ap, ◌∙◌, [], ◌∷◌, arith, All, inl, inr, Bool-cases}
use zscript.Base.Strings.{Text}
use zscript.Symbols.{
  Table, text_less, insert_by_name, in_key_order, insert_by_address, set_of_words,
}
use zscript.Symbols.Numbered.{IsNumbered, set_of_words-numbered}

-- two insertions with different addresses can be exchanged
insert_by_address-swap :
    (x y : Text × ℕ) (set : Table)
    → x.1 ≢ y.1
    → insert_by_address x (insert_by_address y set) ≡ insert_by_address y (insert_by_address x set)
unfolding insert_by_address
insert_by_address-swap (n, a) (m, b) [] apart = ground arith
insert_by_address-swap (n, a) (m, b) ((k, c) ∷ set) apart =
    ground (arith, insert_by_address-swap (n, a) (m, b) set apart)

insert_by_name-All :
    (P : Text × ℕ → Type 0) (x : Text × ℕ) (table : Table)
    → P x
    → All P table
    → All P (insert_by_name x table)
unfolding insert_by_name
insert_by_name-All P x [] h all = (h, tt)
insert_by_name-All P x (y ∷ table) h all = elim (Bool-cases (text_less x.0 y.0)) [
  | inl e ↦ rw e (h, all)
  | inr e ↦ rw e (all.0, insert_by_name-All P x table h all.1)
]

in_key_order-All :
    (P : Text × ℕ → Type 0) (table : Table) → All P table → All P (in_key_order table)
unfolding in_key_order
in_key_order-All P [] all = tt
in_key_order-All P (x ∷ table) all =
    insert_by_name-All P x (in_key_order table) all.0 (in_key_order-All P table all.1)

-- where a name stands in the range makes no difference to the set
set_of_words-insert_by_name :
    (set table : Table) (x : Text × ℕ)
    → All (λ y. x.1 ≢ y.1) table
    → set_of_words set (insert_by_name x table) ≡ set_of_words (insert_by_address x set) table
unfolding set_of_words insert_by_name
set_of_words-insert_by_name set [] x apart = refl
set_of_words-insert_by_name set (y ∷ table) x apart = elim (Bool-cases (text_less x.0 y.0)) [
  | inl e ↦ rw e refl
  | inr e ↦ rw e (
      set_of_words-insert_by_name (insert_by_address y set) table x apart.1
      ∙ ap (λ s. set_of_words s table) (insert_by_address-swap x y set apart.0))
]

numbered-above : (from : ℕ) (table : Table) → IsNumbered from table → All (λ y. from ≤ y.1) table
numbered-above from table h = above from from table (omega arith) h
  where
    above :
        (low from : ℕ) (table : Table)
        → low ≤ from
        → IsNumbered from table
        → All (λ y. low ≤ y.1) table
    above low from [] le h = tt
    above low from ((n, a) ∷ table) le h =
        (omega (arith, h.0), above low (from + 1) table (omega arith) h.3)

numbered-apart :
    (from a : ℕ) (table : Table)
    → a ≡ from
    → All (λ y. from + 1 ≤ y.1) table
    → All (λ y. a ≢ y.1) table
numbered-apart from a [] e h = tt
numbered-apart from a (y ∷ table) e h =
    (λ same. absurd (omega (arith, h.0)), numbered-apart from a table e h.1)

set_of_words-in_key_order :
    (from : ℕ) (set table : Table)
    → IsNumbered from table
    → set_of_words set (in_key_order table) ≡ set_of_words set table
unfolding set_of_words in_key_order
set_of_words-in_key_order from set [] h = refl
set_of_words-in_key_order from set ((n, a) ∷ table) h =
    set_of_words-insert_by_name set (in_key_order table) (n, a)
      (in_key_order-All (λ y. a ≢ y.1) table
        (numbered-apart from a table h.0 (numbered-above (from + 1) table h.3)))
    ∙ set_of_words-in_key_order (from + 1) (insert_by_address (n, a) set) table h.3

-- the set of a numbered table has the names in the order of their numbers
pub set_of_words-ordered :
    (table : Table) → IsNumbered 1 table → set_of_words [] (in_key_order table) ≡ table
set_of_words-ordered table h =
    set_of_words-in_key_order 1 [] table h ∙ set_of_words-numbered table h

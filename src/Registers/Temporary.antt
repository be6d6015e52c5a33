-- ===== src/Registers/Temporary.antt =====
-- A temporary register of src/compiler/ast/FunctionKind.cpp is used once at a time.
use zscript.Base.{
  ℕ, zero, suc, ◌+◌, ◌≤◌, ◌<◌, ◌≡◌, ◌≢◌, refl, Bool, true, false, Option, none, some, [], ◌∷◌, ◌==◌,
  ltb, if◌then◌else◌, ◌>>=◌, length, arith, inl, inr, ◌⊎◌, Bool-cases, Option-cases,
}
use zscript.Registers.{
  RegisterTable, register_at, put_register, free_register, free_index, get_register,
}

-- the keys are one after the other from `from`
abbrev pub IsRow : ℕ → RegisterTable → Type 0
IsRow from [] = Unit
IsRow from ((k, free) ∷ table) = (k ≡ from) × IsRow (from + 1) table

IsRow-put :
    (from index : ℕ) (free : Bool) (table : RegisterTable)
    → IsRow from table
    → from ≤ index
    → index ≤ from + length table
    → IsRow from (put_register index free table)
unfolding put_register
IsRow-put from index free [] h low high = (omega arith, tt)
IsRow-put from index free ((k, old) ∷ table) h low high = elim (Bool-cases (k == index)) [
  | inl same ↦ rw same h
  | inr other ↦
      rw other (h.0, IsRow-put (from + 1) index free table h.1 (ground (arith, h.0)) (omega arith))
]

register_at-put :
    (table : RegisterTable) (index r : ℕ) (free : Bool)
    → register_at r (put_register index free table)
      ≡ (if index == r then some free else register_at r table)
unfolding register_at put_register
register_at-put [] index r free = refl
register_at-put ((k, old) ∷ table) index r free = ground (arith, register_at-put table index r free)

-- just the keys of the row are in the table
register_at-inside :
    (from r : ℕ) (table : RegisterTable)
    → IsRow from table
    → from ≤ r
    → r < from + length table
    → (free : Bool) × (register_at r table ≡ some free)
unfolding register_at
register_at-inside from r [] h low high = absurd (omega arith)
register_at-inside from r ((k, free) ∷ table) h low high = elim (Bool-cases (k == r)) [
  | inl same ↦ (free, rw same)
  | inr other ↦
      let (f, e) = register_at-inside (from + 1) r table h.1 (ground (arith, h.0)) (omega arith) in
      (f, rw other e)
]

pub register_at-outside :
    (from r : ℕ) (table : RegisterTable)
    → IsRow from table
    → from + length table ≤ r
    → register_at r table ≡ none
unfolding register_at
register_at-outside from r [] h high = refl
register_at-outside from r ((k, free) ∷ table) h high =
    let other : (k == r) ≡ false = ground (arith, h.0) in
    rw other (register_at-outside (from + 1) r table h.1 (omega arith))

pub register_at-before :
    (from r : ℕ) (table : RegisterTable) → IsRow from table → r < from → register_at r table ≡ none
unfolding register_at
register_at-before from r [] h low = refl
register_at-before from r ((k, free) ∷ table) h low =
    let other : (k == r) ≡ false = ground (arith, h.0) in
    rw other (register_at-before (from + 1) r table h.1 (omega arith))

-- the ends of the search for a free register
data Search (from n : ℕ) (table : RegisterTable) (r : Option ℕ) : Type 0 where
  found :
      (index : ℕ)
      → r ≡ some index
      → from ≤ index
      → index < from + n
      → register_at index table ≡ some true
      → Search from n table r
  full :
      r ≡ some 0
      → ((index : ℕ) → from ≤ index → index < from + n → register_at index table ≡ some false)
      → Search from n table r

free_index-Search :
    (n from : ℕ) (table : RegisterTable)
    → ((index : ℕ)
        → from ≤ index
        → index < from + n
        → (free : Bool) × (register_at index table ≡ some free))
    → Search from n table (free_index n from table)
unfolding free_index
free_index-Search zero from table there = full refl (λ index low high. absurd (omega arith))
free_index-Search (suc n) from table there = step (there from (omega arith) (omega arith)) (
    free_index-Search n (from + 1) table
      (λ index low high. there index (omega arith) (omega arith)))
  where
    later :
        register_at from table ≡ some false
        → Search (from + 1) n table (free_index n (from + 1) table)
        → Search from (suc n) table (free_index n (from + 1) table)
    later e (found index r low high g) = found index r (omega arith) (omega arith) g
    later e (full r all) = full r (λ index low high. elim (Bool-cases (from == index)) [
      | inl same ↦ let s : from ≡ index = ground arith in rw (← s) e
      | inr other ↦ all index (ground arith) (omega arith)
    ])

    step :
        (free : Bool) × (register_at from table ≡ some free)
        → Search (from + 1) n table (free_index n (from + 1) table)
        → Search from (suc n) table (free_index (suc n) from table)
    step (true, e) s = rw (e, free_index) (found from refl (omega arith) (omega arith) e)
    step (false, e) s = rw (e, free_index) (later e s)

-- what `getRegister(NULL)` gives
pub record Taken (symbols : ℕ) (table : RegisterTable) (r : Option (ℕ × RegisterTable))
    : Type 0 where
  pub register : ℕ
  pub after : RegisterTable
  pub runs : r ≡ some (register, after)
  pub behind_variables : symbols < register
  pub unused : register_at register table ≢ some false
  pub fewest :
      (register_at register table ≡ some true) ⊎ ((index : ℕ) → register_at index table ≢ some true)
  pub row : IsRow (symbols + 1) after
  pub marks :
      (index : ℕ)
      → register_at index after
        ≡ (if register == index then some false else register_at index table)

-- From a table of consecutive registers behind the variables a temporary register is always given:
-- one behind the variables that is not in use, a new one only if none is free. From then on that
-- register is in use, for the others nothing changes, and the registers of the table still are
-- consecutive.
pub get_register-Taken :
    (symbols : ℕ) (table : RegisterTable)
    → IsRow (symbols + 1) table
    → Taken symbols table (get_register symbols table)
unfolding get_register
get_register-Taken symbols table h = take (
    free_index-Search (length table) (symbols + 1) table
      (λ index low high. register_at-inside (symbols + 1) index table h low high))
  where
    take :
        Search (symbols + 1) (length table) table (free_index (length table) (symbols + 1) table)
        → Taken symbols table (get_register symbols table)
    take (found index e low high free) =
        let proper : (index == 0) ≡ false = ground arith in
        record {
          register = index;
          after = put_register index false table;
          runs = rw (e, ◌>>=◌, proper);
          behind_variables = omega arith;
          unused = λ u. cc (u, free);
          fewest = inl free;
          row = IsRow-put (symbols + 1) index false table h low (omega arith);
          marks = λ s. register_at-put table index s false;
        }
    take (full e all) =
        let new = length table + symbols + 1 in
        let outside = register_at-outside (symbols + 1) new table h (omega arith) in
        record {
          register = new;
          after = put_register new false table;
          runs = rw (e, ◌>>=◌);
          behind_variables = omega arith;
          unused = λ u. cc (u, outside);
          fewest = inr (λ s u.
              none_free all s u (Bool-cases (ltb s (symbols + 1)))
                (Bool-cases (ltb s (symbols + 1 + length table))));
          row = IsRow-put (symbols + 1) new false table h (omega arith) (omega arith);
          marks = λ s. register_at-put table new s false;
        }
      where
        none_free :
            ((index : ℕ)
              → symbols + 1 ≤ index
              → index < symbols + 1 + length table
              → register_at index table ≡ some false)
            → (s : ℕ) → register_at s table ≡ some true
            → (ltb s (symbols + 1) ≡ true) ⊎ (ltb s (symbols + 1) ≡ false)
            → (ltb s (symbols + 1 + length table) ≡ true)
              ⊎ (ltb s (symbols + 1 + length table) ≡ false)
            → ⊥
        none_free all s u (inl low) b =
            cc (u, register_at-before (symbols + 1) s table h (ground arith))
        none_free all s u (inr low) (inl high) = cc (u, all s (ground arith) (ground arith))
        none_free all s u (inr low) (inr high) =
            cc (u, register_at-outside (symbols + 1) s table h (ground arith))

same_read :
    (table : RegisterTable) (index s : ℕ)
    → register_at index table ≡ none
    → register_at s table ≡ (if index == s then none else register_at s table)
same_read table index s e = elim (Bool-cases (index == s)) [
  | inr other ↦ rw other
  | inl same ↦ let at : index ≡ s = ground arith in rw same (rw (← at) e)
]

-- In a table of consecutive registers behind the variables, freeing a register makes it free if it
-- is a temporary one that was given before; if it is a variable's or was never given, nothing
-- changes. The other registers are left as they were in any case, and the registers of the table
-- still are consecutive.
pub free_register_lem :
    (symbols index : ℕ) (table : RegisterTable) (s : ℕ)
    → IsRow (symbols + 1) table
    → (register_at s (free_register symbols index table) ≡ (
        if index == s then (register_at index table >>= λ old. some true) else register_at s table))
      × IsRow (symbols + 1) (free_register symbols index table)
unfolding free_register
free_register_lem symbols index table s h = elim (Bool-cases (ltb symbols index)) [
  | inr low ↦
      let e = register_at-before (symbols + 1) index table h (ground arith) in
      rw (low, e, ◌>>=◌) (same_read table index s e, h)
  | inl high ↦ elim (Option-cases (register_at index table)) [
    | inl e ↦ rw (high, e, ◌>>=◌) (same_read table index s e, h)
    | inr (free, e) ↦ elim (Bool-cases (ltb index (symbols + 1 + length table))) [
      | inl inside ↦
          rw (high, e, ◌>>=◌)
            (
              register_at-put table index s true,
              IsRow-put (symbols + 1) index true table h (ground arith) (ground arith),
            )
      | inr outside ↦ cc (e, register_at-outside (symbols + 1) index table h (ground arith))
    ]
  ]
]

length-put_register :
    (index : ℕ) (free : Bool) (table : RegisterTable)
    → length table ≤ length (put_register index free table)
unfolding put_register
length-put_register index free [] = omega arith
length-put_register index free ((k, old) ∷ table) =
    ground (arith, length-put_register index free table)

abbrev given : ℕ → RegisterTable → Option (ℕ × RegisterTable)
given r table = some (r, table)

-- a table of registers does not become shorter
pub length-get_register :
    (symbols r : ℕ) (table after : RegisterTable)
    → get_register symbols table ≡ some (r, after)
    → length table ≤ length after
unfolding get_register
length-get_register symbols r table after h =
    elim (Option-cases (free_index (length table) (symbols + 1) table)) [
      | inl e ↦ cc (rw (e, ◌>>=◌) at h)
      | inr (ret, e) ↦ elim (Bool-cases (ret == 0)) [
        | inl none_left ↦
            let same : given (length table + symbols + 1)
                  (put_register (length table + symbols + 1) false table)
                ≡ given r after =
              rw (e, ◌>>=◌, none_left) at h in
            grown same (length-put_register (length table + symbols + 1) false table)
        | inr one_free ↦
            let same : given ret (put_register ret false table) ≡ given r after =
              rw (e, ◌>>=◌, one_free) at h in
            grown same (length-put_register ret false table)
      ]
    ]
  where
    grown :
        {n : ℕ} {t : RegisterTable}
        → given n t ≡ given r after
        → length table ≤ length t
        → length table ≤ length after
    grown {n} {t} e h = let same : t ≡ after = cc e in rw (← same) h

pub length-free_register :
    (symbols index : ℕ) (table : RegisterTable)
    → length table ≤ length (free_register symbols index table)
unfolding free_register
length-free_register symbols index table = ground (arith, length-put_register index true table)

-- ===== src/Compiler/Allocating.antt =====
-- The registers that src/compiler/ExprssionCompiler.cpp takes and gives back on the way.
use zscript.Base.{
  ℕ, ◌+◌, ◌<◌, ◌≤◌, ◌≡◌, ◌≢◌, ◌⊎◌, refl, ap, ◌∙◌, Bool, true, false, Option, some, ◌==◌, ltb,
  if◌then◌else◌, ◌>>=◌, length, arith, inl, inr, Bool-cases,
}
use zscript.Registers.{RegisterTable, register_at}
use zscript.Registers.Temporary.{
  IsRow, get_register-Taken, free_register_lem, register_at-before, register_at-outside,
  length-get_register, length-free_register,
}
use zscript.Compiler.{Compiling, take_register, release_register, destination}

abbrev pub symbols : Compiling → ℕ
symbols st = length st.symbol_table

abbrev pub InUse : Compiling → ℕ → Type 0
InUse st r = register_at r st.register_table ≡ some false

-- What lies between two states of the compiler: no variable is added, no register in use is given
-- away, and the temporary registers are consecutive at the end.
pub record Moves (st after : Compiling) : Type 0 where
  pub same : after.symbol_table ≡ st.symbol_table
  pub row : IsRow (symbols after + 1) after.register_table
  pub kept : (r : ℕ) → InUse st r → InUse after r
  pub grows : length st.register_table ≤ length after.register_table

pub Moves-trans : (a b c : Compiling) → Moves a b → Moves b c → Moves a c
Moves-trans a b c x y = record {
  same = y.same ∙ x.same;
  row = y.row;
  kept = λ r u. y.kept r (x.kept r u);
  grows = omega (arith, x.grows, y.grows);
}

-- a variable's register, or a temporary one in use
abbrev pub Held : Compiling → ℕ → Type 0
Held st r = (r ≤ symbols st) ⊎ InUse st r

pub Held-Moves : (st after : Compiling) (r : ℕ) → Moves st after → Held st r → Held after r
Held-Moves st after r m (inl low) = inl (rw m.same low)
Held-Moves st after r m (inr u) = inr (m.kept r u)

-- The register of a result: the one asked for, a variable's, or one that was not in use before.
pub data Place (st : Compiling) (d : ℕ) (after : Compiling) (r : ℕ) : Type 0 where
  asked : 0 < d → r ≡ d → Place st d after r
  variable : 0 < r → r ≤ symbols st → Place st d after r
  fresh : symbols st < r → ¬ InUse st r → InUse after r → Place st d after r

-- what `getRegister(NULL)` gives, or the register asked for
pub record Took (st : Compiling) (d : ℕ) (result : Option (ℕ × Compiling)) : Type 0 where
  pub register : ℕ
  pub after : Compiling
  pub runs : result ≡ some (register, after)
  pub moves : Moves st after
  pub same_code : after.instructions ≡ st.instructions
  pub apart : (s : ℕ) → s ≢ d → Held st s → s ≢ register
  pub is_asked : 0 < d → register ≡ d
  pub is_fresh : d ≡ 0 → (symbols st < register) × (¬ InUse st register) × InUse after register
  pub at : Place st d after register
  pub inside : register ≤ symbols after + length after.register_table

pub inside_row :
    (from r : ℕ) (table : RegisterTable) (free : Bool)
    → IsRow from table
    → register_at r table ≡ some free
    → r < from + length table
inside_row from r table free row e = elim (Bool-cases (ltb r (from + length table))) [
  | inl h ↦ ground arith
  | inr h ↦ cc (e, register_at-outside from r table row (ground arith))
]

-- a register that is held is one of the block
pub Held-inside :
    (st : Compiling) (r : ℕ)
    → IsRow (symbols st + 1) st.register_table
    → Held st r
    → r ≤ symbols st + length st.register_table
Held-inside st r row (inl low) = omega arith
Held-inside st r row (inr u) =
    let h = inside_row (symbols st + 1) r st.register_table false row u in omega arith

either : (b : Bool) (o : Option Bool) → o ≡ some false → (if b then some false else o) ≡ some false
either true o e = refl
either false o e = e

pub destination-Took :
    (st : Compiling) (d : ℕ)
    → IsRow (symbols st + 1) st.register_table
    → Held st d
    → Took st d (destination d st)
unfolding destination take_register
destination-Took st d row held = elim (Bool-cases (d == 0)) [
  | inr some_d ↦ record {
    register = d;
    after = st;
    runs = rw some_d;
    moves = record { same = refl; row = row; kept = λ r u. u; grows = omega arith };
    same_code = refl;
    apart = λ s other h. other;
    is_asked = λ h. refl;
    is_fresh = λ e. absurd (ground arith);
    at = asked (ground arith) refl;
    inside = Held-inside st d row held;
  }
  | inl zero_d ↦
      let t = get_register-Taken (symbols st) st.register_table row in
      let used : register_at t.register t.after ≡ some false =
        t.marks t.register ∙ (ground arith) in
      let new : Compiling = record st { register_table = t.after } in
      let fresh_one : ¬ InUse st t.register = t.unused in
      record {
        register = t.register;
        after = new;
        runs = rw (zero_d, t.runs, ◌>>=◌);
        moves = record {
          same = refl;
          row = t.row;
          kept = λ r u. t.marks r ∙ either (t.register == r) (register_at r st.register_table) u;
          grows = length-get_register (symbols st) t.register st.register_table t.after t.runs;
        };
        same_code = refl;
        apart = λ s other h. not_fresh s (t.behind_variables) fresh_one h;
        is_asked = λ h. absurd (ground arith);
        is_fresh = λ e. (t.behind_variables, fresh_one, used);
        at = fresh (t.behind_variables) fresh_one used;
        inside = Held-inside new t.register (t.row) (inr used);
      }
]
  where
    not_fresh : {r : ℕ} (s : ℕ) → symbols st < r → ¬ InUse st r → Held st s → s ≢ r
    not_fresh s low unused (inl high) e = absurd (omega arith)
    not_fresh s low unused (inr used) e = unused (rw (← e) used)

-- a register in use is none that a part without a register asked for has its result in
pub Place-apart :
    (st after : Compiling) (r s : ℕ)
    → IsRow (symbols st + 1) st.register_table
    → Place st 0 after r
    → InUse st s
    → r ≢ s
Place-apart st after r s row (asked h e) u same = absurd (omega arith)
Place-apart st after r s row (variable low high) u same =
    cc (u, register_at-before (symbols st + 1) s st.register_table row (omega (arith, same)))
Place-apart st after r s row (fresh low unused used) u same = unused (rw same u)

-- the result of a part can be given back: only its register becomes free
pub release-Moves :
    (st after last : Compiling) (r : ℕ)
    → IsRow (symbols st + 1) st.register_table
    → Place st 0 after r
    → Moves st last
    → Moves st (release_register r last)
unfolding release_register
release-Moves st after last r row p m = record {
  same = m.same;
  row = (free_register_lem (symbols last) r last.register_table 0 (m.row)).1;
  kept = λ s u.
      (free_register_lem (symbols last) r last.register_table s (m.row)).0
      ∙ (let apart : (r == s) ≡ false = ground (arith, Place-apart st after r s row p u) in
          rw apart (m.kept s u));
  grows = omega (arith, m.grows, length-free_register (symbols last) r last.register_table);
}

-- giving back another register leaves a register in use
pub release-InUse :
    (st : Compiling) (r s : ℕ)
    → IsRow (symbols st + 1) st.register_table
    → s ≢ r
    → InUse st s
    → InUse (release_register r st) s
unfolding release_register
release-InUse st r s row apart u =
    let e : (r == s) ≡ false = ground (arith, apart) in
    (free_register_lem (symbols st) r st.register_table s row).0 ∙ rw e u

-- the result of a part is held
pub Place-Held :
    (st after : Compiling) (r : ℕ) → Moves st after → Place st 0 after r → (0 < r) × Held after r
Place-Held st after r m (asked h e) = absurd (omega arith)
Place-Held st after r m (variable low high) = (low, inl (rw m.same high))
Place-Held st after r m (fresh low unused used) = (omega arith, inr used)

pub symbols-Moves : (st after : Compiling) → Moves st after → symbols after ≡ symbols st
symbols-Moves st after m = ap (λ t. length t) m.same

-- what is done with the result of a right operand
abbrev pub give_back : ℕ → ℕ → Compiling → Compiling
give_back r result st = if r == result then st else release_register r st

pub give_back-Moves :
    (st after last : Compiling) (r result : ℕ)
    → IsRow (symbols st + 1) st.register_table
    → Place st 0 after r
    → Moves st last
    → Moves st (give_back r result last)
give_back-Moves st after last r result row p m = elim (Bool-cases (r == result)) [
  | inl e ↦ rw e m
  | inr e ↦ rw e (release-Moves st after last r row p m)
]

pub give_back-InUse :
    (st : Compiling) (r s : ℕ)
    → IsRow (symbols st + 1) st.register_table
    → InUse st s
    → InUse (give_back r s st) s
give_back-InUse st r s row u = elim (Bool-cases (r == s)) [
  | inl e ↦ rw e u
  | inr e ↦ rw e (release-InUse st r s row (ground arith) u)
]

pub give_back-code : (st : Compiling) (r s : ℕ) → (give_back r s st).instructions ≡ st.instructions
unfolding release_register
give_back-code st r s = elim (Bool-cases (r == s)) [ inl e ↦ rw e | inr e ↦ rw e ]

pub length-release :
    (st : Compiling) (r : ℕ)
    → length st.register_table ≤ length (release_register r st).register_table
unfolding release_register
length-release st r = length-free_register (symbols st) r st.register_table

pub length-give_back :
    (st : Compiling) (r s : ℕ) → length st.register_table ≤ length (give_back r s st).register_table
length-give_back st r s = elim (Bool-cases (r == s)) [
  | inl e ↦ rw e (omega arith)
  | inr e ↦ rw e (length-release st r)
]

pub symbols-give_back : (st : Compiling) (r s : ℕ) → symbols (give_back r s st) ≡ symbols st
unfolding release_register
symbols-give_back st r s = elim (Bool-cases (r == s)) [ inl e ↦ rw e | inr e ↦ rw e ]

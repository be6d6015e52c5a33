-- ===== src/Registers/Tests.antt =====
-- Temporary registers behind two variables (src/compiler/ast/FunctionKind.cpp).
use zscript.Base.{◌≡◌, refl, true, false, some, [], ◌∷◌, ◌==◌, if◌then◌else◌, ◌>>=◌}
use zscript.Registers.{
  RegisterTable, register_at, put_register, free_register, free_index, get_register,
}
use zscript.Registers.Temporary.{IsRow, Taken, get_register-Taken, free_register_lem}

-- 3 and 5 are in use
abbrev two_used : RegisterTable
two_used = (3, false) ∷ (4, true) ∷ (5, false) ∷ []

two_used-IsRow : IsRow 3 two_used
two_used-IsRow = (refl, (refl, (refl, tt)))

reused : get_register 2 two_used ≡ some (4, (3, false) ∷ (4, false) ∷ (5, false) ∷ [])
unfolding get_register free_index register_at put_register
reused = refl

get_register-Taken_example : Taken 2 two_used (get_register 2 two_used)
get_register-Taken_example = get_register-Taken 2 two_used two_used-IsRow

free_register_lem_example :
    (register_at 5 (free_register 2 5 two_used)
      ≡ (if 5 == 5 then (register_at 5 two_used >>= λ old. some true) else register_at 5 two_used))
    × IsRow 3 (free_register 2 5 two_used)
free_register_lem_example = free_register_lem 2 5 two_used 5 two_used-IsRow

-- ===== src/Program/Optimizer/Stable.antt =====
-- The optimizer ends, reaches a program that it leaves alone, and keeps the labels
-- (src/program/BytecodeOptimizer.cpp).
use zscript.Base.{
  ℕ, zero, suc, ◌≡◌, ◌≢◌, refl, ap, ◌∙◌, true, false, none, some, List, [], ◌∷◌, ◌==◌,
  if◌then◌else◌, arith, inl, inr, ◌⊎◌, ◌≤◌, ◌<◌, length, All,
}
use zscript.Program.Instruction.{Instruction, label}
use zscript.Program.Optimizer.{
  Action, keep, merge, remove, action, optimize_pass, optimize_on, optimize,
}
use zscript.Program.Optimizer.Actions.{
  IsSound, IsMerged, action-IsMerged, action-some, action-label, action-remove,
}

-- the last instruction is a label, as `compileFunction` and `compileClass` leave it
abbrev pub EndsInLabel : List Instruction → Type 0
EndsInLabel [] = ⊥
EndsInLabel (c ∷ []) = c.opcode ≡ label
EndsInLabel (c ∷ n ∷ rest) = EndsInLabel (n ∷ rest)

pub record IsProgram (p : List Instruction) : Type 0 where
  pub ends : EndsInLabel p
  pub sound : All IsSound p

-- the operands of the labels, in order
unfoldable pub labels : List Instruction → List ℕ
labels [] = []
labels (c ∷ rest) = if c.opcode == label then c.r0 ∷ labels rest else labels rest

-- a pass that turns `p` into `ret`
pub record Passed (p ret : List Instruction) : Type 0 where
  pub program : IsProgram ret
  pub same_labels : labels ret ≡ labels p
  pub shorter : (length ret < length p) ⊎ (ret ≡ p)

EndsInLabel-cons : (i : Instruction) (p : List Instruction) → EndsInLabel p → EndsInLabel (i ∷ p)
EndsInLabel-cons i [] h = absurd h
EndsInLabel-cons i (c ∷ p) h = h

-- One clause for what the round did with the head.
module _ (c n : Instruction) (rest : List Instruction) (sc : IsSound c) (sn : IsSound n) where
  Passed-keep : (ret : List Instruction) → Passed (n ∷ rest) ret → Passed (c ∷ n ∷ rest) (c ∷ ret)
  unfolding labels
  Passed-keep ret q = record {
    program = record {
      ends = EndsInLabel-cons c ret q.program.ends;
      sound = (sc, q.program.sound);
    };
    same_labels = rw q.same_labels;
    shorter = elim q.shorter [ inl h ↦ inl (omega arith) | inr e ↦ inr (rw e) ];
  }

  Passed-merge :
      (i : Instruction) (ret : List Instruction)
      → IsMerged c n i
      → Passed rest ret
      → Passed (c ∷ n ∷ rest) (i ∷ ret)
  unfolding labels
  Passed-merge i ret m q =
      let a : (c.opcode == label) ≡ false = ground (arith, m.first) in
      let b : (n.opcode == label) ≡ false = ground (arith, m.second) in
      let d : (i.opcode == label) ≡ false = ground (arith, m.no_label) in
      record {
        program = record {
          ends = EndsInLabel-cons i ret q.program.ends;
          sound = (m.sound, q.program.sound);
        };
        same_labels = rw (a, b, d) q.same_labels;
        shorter = inl (elim q.shorter [ inl h ↦ omega arith | inr e ↦ omega (arith, ap length e) ]);
      }

  Passed-remove :
      (ret : List Instruction)
      → c.opcode ≢ label
      → Passed (n ∷ rest) ret
      → Passed (c ∷ n ∷ rest) ret
  unfolding labels
  Passed-remove ret m q =
      let a : (c.opcode == label) ≡ false = ground (arith, m) in
      record {
        program = q.program;
        same_labels = rw a q.same_labels;
        shorter = inl (elim q.shorter [ inl h ↦ omega arith | inr e ↦ omega (arith, ap length e) ]);
      }

abbrev Passes : List Instruction → Type 0
Passes p = (ret : List Instruction) × (optimize_pass p ≡ some ret) × Passed p ret

pass_step :
    (c n : Instruction) (rest : List Instruction)
    → IsProgram (c ∷ n ∷ rest)
    → Passes (n ∷ rest)
    → (EndsInLabel rest → Passes rest)
    → Passes (c ∷ n ∷ rest)
unfolding optimize_pass
pass_step c n rest p (ret, run, q) later =
    let (sc, (sn, sr)) = p.sound in go sc sn (action-some c n)
  where
    after_label : (r : List Instruction) → EndsInLabel (n ∷ r) → n.opcode ≢ label → EndsInLabel r
    after_label [] e m = absurd (m e)
    after_label (x ∷ r) e m = e

    go : IsSound c → IsSound n → (a : Action) × (action c (some n) ≡ some a) → Passes (c ∷ n ∷ rest)
    go sc sn (keep, e) = (c ∷ ret, rw (e, optimize_pass, run), Passed-keep c n rest sc sn ret q)
    go sc sn (merge i, e) =
        let m = action-IsMerged c n i sc sn e in
        let (ret', run', q') = later (after_label rest p.ends m.second) in
        (i ∷ ret', rw (e, optimize_pass, run'), Passed-merge c n rest sc sn i ret' m q')
    go sc sn (remove, e) =
        (ret, rw (e, optimize_pass, run), Passed-remove c n rest sc sn ret (action-remove c n e) q)

-- A pass over a program that ends in a label never reads behind it; it keeps the labels, and either
-- shortens the program or changes nothing.
pub pass-Passed :
    (p : List Instruction)
    → IsProgram p
    → (ret : List Instruction) × (optimize_pass p ≡ some ret) × Passed p ret
unfolding optimize_pass
pass-Passed [] p = absurd p.ends
pass-Passed (c ∷ []) p = (
  c ∷ [],
  rw (action-label c none p.ends, optimize_pass),
  record { program = p; same_labels = refl; shorter = inr refl },
)
pass-Passed (c ∷ n ∷ rest) p =
    pass_step c n rest p (pass-Passed (n ∷ rest) (record { ends = p.ends; sound = p.sound.1 }))
      λ e. pass-Passed rest (record { ends = e; sound = p.sound.1.1 })

-- what the optimizer gives
pub record Optimized (p ret : List Instruction) : Type 0 where
  pub program : IsProgram ret
  pub same_labels : labels ret ≡ labels p
  pub shorter : length ret ≤ length p
  pub stable : optimize_pass ret ≡ some ret

optimize_on-Optimized :
    (fuel : ℕ) (p : List Instruction)
    → IsProgram p
    → length p < fuel
    → (ret : List Instruction) × (optimize_on fuel p ≡ some ret) × Optimized p ret
unfolding optimize_on
optimize_on-Optimized zero p program enough = absurd (omega arith)
optimize_on-Optimized (suc fuel) p program enough =
    let (ret, run, q) = pass-Passed p program in
    elim q.shorter [
      | inr e ↦
          let same : (length ret == length p) ≡ true = ground (arith, ap length e) in
          (
            ret,
            rw (run, optimize_on, same),
            record {
              program = q.program;
              same_labels = q.same_labels;
              shorter = omega (arith, ap length e);
              stable = rw e (rw e at run);
            },
          )
      | inl h ↦
          let other : (length ret == length p) ≡ false = ground arith in
          let (r, run', o) = optimize_on-Optimized fuel ret q.program (omega arith) in
          (
            r,
            rw (run, optimize_on, other) run',
            record {
              program = o.program;
              same_labels = o.same_labels ∙ q.same_labels;
              shorter = omega (arith, o.shorter);
              stable = o.stable;
            },
          )
    ]

-- Of a program that ends in a label, and whose compares do not write to register 0, the optimizer
-- always gives a program: it ends in a label too, has the same labels in the same order, is no longer,
-- and another pass leaves it as it is.
pub optimize_lem :
    (p : List Instruction)
    → IsProgram p
    → (ret : List Instruction) × (optimize p ≡ some ret) × Optimized p ret
unfolding optimize
optimize_lem p program = optimize_on-Optimized (suc (length p)) p program (omega arith)

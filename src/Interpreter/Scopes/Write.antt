-- ===== src/Interpreter/Scopes/Write.antt =====
-- A write to a variable of a scope, and a read of one (src/interpreter/interpreter_dd.c).
use zscript.Base.{
  ℕ, ◌<◌, ◌≡◌, refl, ◌∙◌, true, Option, some, List, ltb, ◌>>=◌, length, get_elem?, set, arith, inl,
  inr, ==_refl, Option-cases, get_elem?-set, length-set,
}
use zscript.Interpreter.State.{Reg, Ptr, Context, Object, context_at, put_context}
use zscript.Interpreter.Store.{context_at-put_context}
use zscript.Interpreter.Scopes.{read_local, write_local}
use zscript.Interpreter.Scopes.Resolve.{block_at, SameScopes, put_context-SameScopes}

module _ (bytes : List ℕ) where
  -- What a variable holds after a write to it, in a store with the same scopes.
  pub record Written (objects : List Object) (p : Ptr) (index : ℕ) (v : Reg)
      (r : Option (List Object)) : Type 0 where
    pub after : List Object
    pub block : List Reg
    pub runs : r ≡ some after
    pub same : SameScopes bytes objects after
    pub there : block_at after p ≡ some block
    pub holds : get_elem? block index ≡ some v

  pub write_local-Written :
      (objects : List Object) (p : Ptr) (index : ℕ) (v : Reg) (locals : List Reg)
      → block_at objects p ≡ some locals
      → index < length locals
      → Written objects p index v (write_local objects p index v)
  unfolding write_local block_at
  write_local-Written objects p index v locals b h = elim (Option-cases (context_at objects p)) [
    | inl gone ↦ cc (rw gone at b)
    | inr (c, here) ↦
        let own : c.locals ≡ some locals = rw here at b in
        let inside : ltb index (length locals) ≡ true = ground arith in
        let new : Context = record c { locals = some (set locals index v) } in
        record {
          after = put_context objects p new;
          block = set locals index v;
          runs = rw (here, ◌>>=◌, own, inside);
          same =
              put_context-SameScopes bytes objects p c new here refl
                (λ l e. (set locals index v, refl, length-set locals index v ∙ cc (e, own)));
          there = rw (context_at-put_context objects p p c new here, ==_refl);
          holds = get_elem?-set locals index index v h ∙ rw ==_refl;
        }
  ]

pub read_local-block :
    (objects : List Object) (p : Ptr) (index : ℕ) (locals : List Reg)
    → block_at objects p ≡ some locals
    → read_local objects p index ≡ get_elem? locals index
unfolding read_local block_at
read_local-block objects p index locals b = elim (Option-cases (context_at objects p)) [
  | inl gone ↦ cc (rw gone at b)
  | inr (c, here) ↦ let own : c.locals ≡ some locals = rw here at b in rw (here, ◌>>=◌, own)
]

-- ===== src/Interpreter/Fields/Imports.antt =====
-- What an import changes for the classes that are loaded by name (OP_IMPORT of
-- src/interpreter/interpreter_dd.c, resolve_imported_class_name of src/interpreter/object.c).
use zscript.Base.{
  ℕ, ◌+◌, ◌≡◌, refl, ◌∙◌, false, Option, some, List, if◌then◌else◌, ◌>>=◌, inl, inr, Bool-cases,
}
use zscript.Base.Strings.{Text, str_eq, str_eq_refl}
use zscript.Map.{Map, map_get, map_insert}
use zscript.Map.Lookup.{IsOpen, map_get-map_insert}
use zscript.Program.Instruction.{Instruction}
use zscript.Interpreter.Fields.Types.{
  TypeInfo, World, resolve_imported_class_name, get_or_load_type_info, get_imports_table,
}
use zscript.Interpreter.Fields.Creating.{put_import, op_import}

module _ (load : Text → Option (List ℕ)) (run_static : World → List ℕ → Text → Option World) where
  -- the imports of a class that is known
  get_imports_table-known :
      (w : World) (info : TypeInfo)
      → map_get w.fields.known_types w.vm.class_name ≡ some info
      → get_imports_table load run_static w ≡ some (w, info.imports_table)
  unfolding get_imports_table get_or_load_type_info
  get_imports_table-known w info known = rw (known, ◌>>=◌)

  -- the state after an import
  pub record Imported (w : World) (name path : Text) (imports : Map Text) (result : Option World)
      : Type 0 where
    pub after : World
    pub new_imports : Map Text
    pub runs : result ≡ some after
    pub finds : get_imports_table load run_static after ≡ some (after, new_imports)
    pub resolves :
        (class_name : Text)
        → resolve_imported_class_name class_name (some new_imports) ≡ (
            if str_eq name class_name
            then path
            else resolve_imported_class_name class_name (some imports))
    pub others :
        (class_name : Text)
        → str_eq w.vm.class_name class_name ≡ false
        → map_get after.fields.known_types class_name ≡ map_get w.fields.known_types class_name
    pub next : after.vm.ip ≡ w.vm.ip + 32

  -- An import in a running class that is known, where the table of known classes and its table of
  -- imports are valid maps that are not immutable. From then on the name imported is resolved to the
  -- path, every other name as before, and the other classes are left as they were.
  pub op_import-Imported :
      (constant : ℕ → Text) (i : Instruction) (w : World) (info : TypeInfo)
      → map_get w.fields.known_types w.vm.class_name ≡ some info
      → IsOpen w.fields.known_types
      → IsOpen info.imports_table
      → Imported w
          (constant i.r1)
          (constant i.r0)
          info.imports_table
          (op_import load run_static constant i w)
  unfolding op_import put_import resolve_imported_class_name
  op_import-Imported constant i w info known types imports =
      let name = constant i.r1 in
      let path = constant i.r0 in
      let new : TypeInfo = record info {
        imports_table = map_insert info.imports_table name path;
      } in
      let known_types = map_insert w.fields.known_types w.vm.class_name new in
      let after : World = record w {
        vm = record (w.vm) { ip = w.vm.ip + 32 };
        fields = record (w.fields) { known_types = known_types };
      } in
      record {
        after = after;
        new_imports = new.imports_table;
        runs = rw (get_imports_table-known w info known, ◌>>=◌, known);
        finds = get_imports_table-known after new (
            map_get-map_insert w.fields.known_types w.vm.class_name w.vm.class_name new types
            ∙ rw str_eq_refl);
        resolves = λ class_name. elim (Bool-cases (str_eq name class_name)) [
          | inl same ↦ rw (
            resolve_imported_class_name,
            map_get-map_insert info.imports_table name class_name path imports,
            same,
          )
          | inr other ↦ rw (
            resolve_imported_class_name,
            map_get-map_insert info.imports_table name class_name path imports,
            other,
          )
        ];
        others = λ class_name other.
            map_get-map_insert w.fields.known_types w.vm.class_name class_name new types ∙ rw other;
        next = refl;
      }

-- ===== src/Symbols/Reading.antt =====
-- What `build_symbol_table` of src/interpreter/object.c makes of the bytes that src/program/Assembler.cpp
-- writes.
use zscript.Base.{
  ℕ, zero, suc, ◌+◌, ◌^◌, ◌<◌, ◌≡◌, ◌≢◌, refl, ap, ◌∙◌, true, false, Option, none, some, List, [],
  ◌∷◌, ◌++◌, ◌==◌, if◌then◌else◌, ◌>>=◌, length, replicate, get_elem?, arith, All, Option-cases,
  inl, inr, Bool-cases, append_assoc,
}
use zscript.Base.Strings.{Text, str_eq, str_eq_iff, str_eq_refl}
use zscript.Map.{
  as_int, Map, map_new, map_insert_flags, map_get_flags, map_flag_enumerable, map_flag_private,
  bag_of, get_hash,
}
use zscript.Map.Lookup.{IsValid, map_new-IsValid, insert_flags-IsValid, get_flags-insert_flags}
use zscript.Symbols.{
  Table, find, is_private, in_key_order, set_of_words, word_bytes, symbol_bytes, symbols_bytes,
  assemble_frame, build_symbols, build_symbol_table,
}
use zscript.Symbols.Words.{word64, read_string-append}
use zscript.Symbols.Numbered.{IsNumbered}
use zscript.Symbols.Order.{set_of_words-ordered}

-- the flags of a name
abbrev flags_of : List Text → Text → ℕ
flags_of privates name =
    if is_private name privates then map_flag_enumerable + map_flag_private else map_flag_enumerable

-- what the interpreter is to know of a name: its number and flags, if the compiler has it
unfoldable known : List Text → Table → Text → Option (ℕ × ℕ)
known privates table name = elim (find name table) [
  | none ↦ none
  | some address ↦ some (address, flags_of privates name)
]

unfoldable or_else : Option (ℕ × ℕ) → Option (ℕ × ℕ) → Option (ℕ × ℕ)
or_else none o = o
or_else (some x) o = some x

is_immutable-insert_flags :
    (m : Map ℕ) (k : Text) (v f : ℕ) → (map_insert_flags m k v f).is_immutable ≡ m.is_immutable
unfolding map_insert_flags
is_immutable-insert_flags m k v f = ground arith

-- a map that has what `m` has, and the names of the table
record Reads (privates : List Text) (table : Table) (m : Map ℕ) (r : Option (Map ℕ)) : Type 0 where
  to : Map ℕ
  runs : r ≡ some to
  finds : (k : Text) → map_get_flags to k ≡ or_else (known privates table k) (map_get_flags m k)

known-cons :
    (privates : List Text) (n k : Text) (a i : ℕ) (table : Table) (o : Option (ℕ × ℕ))
    → a ≡ i
    → find n table ≡ none
    → or_else
        (known privates table k)
        (if str_eq n k then some (i, as_int (flags_of privates n)) else o)
      ≡ or_else (known privates ((n, a) ∷ table) k) o
unfolding or_else known find
known-cons privates n k a i table o e gone = elim (Bool-cases (str_eq n k)) [
  | inr other ↦ rw (other, known) refl
  | inl same ↦
      let fits : as_int (flags_of privates n) ≡ flags_of privates n = ground arith in
      rw (← (str_eq_iff n k).0 same) (rw (gone, str_eq_refl n, fits, e, known) refl)
]

or_else-none : (o p : Option (ℕ × ℕ)) → p ≡ none → or_else o p ≡ o
unfolding or_else
or_else-none none p h = h
or_else-none (some x) p h = refl

bag_of-replicate : (n i : ℕ) → bag_of {V = ℕ} (replicate n none) i ≡ none
unfolding bag_of
bag_of-replicate zero i = refl
bag_of-replicate (suc n) zero = refl
bag_of-replicate (suc n) (suc i) = bag_of-replicate n i

pub nothing_new : (k : Text) → map_get_flags {V = ℕ} map_new k ≡ none
unfolding map_get_flags map_new
nothing_new k = rw (bag_of-replicate 10 (get_hash k), ◌>>=◌)

build_symbols-Reads :
    (privates : List Text) (table : Table) (i : ℕ) (rest : List ℕ) (m : Map ℕ)
    → IsNumbered (i + 1) table
    → IsValid m
    → m.is_immutable ≡ false
    → Reads privates table m
        (build_symbols (length table) i (symbols_bytes privates table ++ rest) m)
unfolding build_symbols symbols_bytes symbol_bytes or_else known find
build_symbols-Reads privates [] i rest m h valid free = record {
  to = m;
  runs = refl;
  finds = λ k. refl;
}
build_symbols-Reads privates ((n, a) ∷ table) i rest m h valid free =
    let b = if is_private n privates then 1 else 0 in
    let later = symbols_bytes privates table ++ rest in
    let flag = flags_of privates n in
    let next = map_insert_flags m n (i + 1) flag in
    let bytes : ((n ++ 0 ∷ b ∷ []) ++ symbols_bytes privates table) ++ rest ≡ n ++ 0 ∷ b ∷ later =
      append_assoc (n ++ 0 ∷ b ∷ []) (symbols_bytes privates table) rest
      ∙ append_assoc n (0 ∷ b ∷ []) later in
    let read = read_string-append n (b ∷ later) h.2 in
    let chosen : (if b == 0 then map_flag_enumerable else map_flag_enumerable + map_flag_private)
        ≡ flag =
      ground arith in
    let done =
      build_symbols-Reads privates table (i + 1) rest next h.3
        (insert_flags-IsValid m n (i + 1) flag valid)
        (is_immutable-insert_flags m n (i + 1) flag ∙ free) in
    record {
      to = done.to;
      runs = rw (bytes, read, build_symbols, chosen) (done.runs);
      finds = λ k.
          done.finds k
          ∙ rw (get_flags-insert_flags m n k (i + 1) flag valid free)
              (known-cons privates n k a (i + 1) table (map_get_flags m k) h.0 h.1);
    }

-- What the interpreter is to know of a name: nothing of a name that is not in the table, and of any
-- other its number with the flag 1 for an enumerable name, and the flag 2 as well for a private one.
pub data Known (privates : List Text) (table : Table) (k : Text) : Option (ℕ × ℕ) → Type 0 where
  unknown : All (λ x. x.0 ≢ k) table → Known privates table k none
  private' :
      (i j address : ℕ)
      → get_elem? table i ≡ some (k, address)
      → get_elem? privates j ≡ some k
      → Known privates table k (some (address, 3))
  public' :
      (i address : ℕ)
      → get_elem? table i ≡ some (k, address)
      → All (λ p. p ≢ k) privates
      → Known privates table k (some (address, 1))

find-absent : (k : Text) (table : Table) → find k table ≡ none → All (λ x. x.0 ≢ k) table
unfolding find
find-absent k [] h = tt
find-absent k ((n, a) ∷ table) h = elim (Bool-cases (str_eq n k)) [
  | inl e ↦ absurd (ground arith)
  | inr e ↦ (
    λ same. let e' : str_eq n k ≡ true = (str_eq_iff n k).1 same in absurd (ground arith),
    find-absent k table (rw e at h),
  )
]

find-place :
    (k : Text) (table : Table) (a : ℕ)
    → find k table ≡ some a
    → (i : ℕ) × (get_elem? table i ≡ some (k, a))
unfolding find
find-place k [] a h = cc
find-place k ((n, b) ∷ table) a h = elim (Bool-cases (str_eq n k)) [
  | inl e ↦
      let name : n ≡ k = (str_eq_iff n k).0 e in
      let value : b ≡ a = let g = rw e at h in ground arith in (0, rw (name, value) refl)
  | inr e ↦ let (i, g) = find-place k table a (rw e at h) in (suc i, g)
]

is_private-place :
    (k : Text) (privates : List Text)
    → is_private k privates ≡ true
    → (j : ℕ) × (get_elem? privates j ≡ some k)
unfolding is_private
is_private-place k [] h = cc
is_private-place k (p ∷ privates) h = elim (Bool-cases (str_eq p k)) [
  | inl e ↦ (0, ap (λ n. some n) ((str_eq_iff p k).0 e))
  | inr e ↦ let (j, g) = is_private-place k privates (rw e at h) in (suc j, g)
]

is_private-absent :
    (k : Text) (privates : List Text) → is_private k privates ≡ false → All (λ p. p ≢ k) privates
unfolding is_private
is_private-absent k [] h = tt
is_private-absent k (p ∷ privates) h = elim (Bool-cases (str_eq p k)) [
  | inl e ↦ absurd (ground arith)
  | inr e ↦ (
    λ same. let e' : str_eq p k ≡ true = (str_eq_iff p k).1 same in absurd (ground arith),
    is_private-absent k privates (rw e at h),
  )
]

known-Known :
    (privates : List Text) (table : Table) (k : Text)
    → Known privates table k (known privates table k)
unfolding known
known-Known privates table k = elim (Option-cases (find k table)) [
  | inl e ↦ rw (e, known) (unknown (find-absent k table e))
  | inr (a, e) ↦
      let (i, at) = find-place k table a e in
      elim (Bool-cases (is_private k privates)) [
        | inl secret ↦
            let (j, there) = is_private-place k privates secret in
            rw (e, known, secret) (private' i j a at there)
        | inr open_name ↦
            rw (e, known, open_name) (public' i a at (is_private-absent k privates open_name))
      ]
]

-- A symbol table of fewer than 2 ^ 64 different names that are numbered from 1 on comes through the
-- assembled bytes, whatever follows them: the interpreter finds each name of the function with its
-- number, as enumerable, and as private just if it is among the private names, and no other name.
pub build_symbol_table-assemble_frame :
    (privates : List Text) (table : Table) (rest : List ℕ)
    → IsNumbered 1 table
    → length table < 2 ^ 64
    → (m : Map ℕ) × (build_symbol_table (assemble_frame table privates ++ rest) ≡ some m)
      × ((k : Text) → Known privates table k (map_get_flags m k))
unfolding build_symbol_table assemble_frame
build_symbol_table-assemble_frame privates table rest h small =
    let bytes = symbols_bytes privates table in
    let order : set_of_words [] (in_key_order table) ≡ table = set_of_words-ordered table h in
    let word = word64 (length table) (bytes ++ rest) small in
    let read =
      build_symbols-Reads privates table 0 rest map_new h map_new-IsValid
        (unfold map_new in refl) in
    (
      read.to,
      rw (order, append_assoc (word_bytes 8 (length table)) bytes rest, word, ◌>>=◌) (read.runs),
      λ k.
          let same : map_get_flags read.to k ≡ known privates table k =
            read.finds k
            ∙ or_else-none (known privates table k) (map_get_flags map_new k) (nothing_new k) in
          rw same (known-Known privates table k),
    )

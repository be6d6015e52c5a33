-- ===== src/Interpreter/Collector/Keys.antt =====
-- The enumerable keys of a map (src/common/data_structures/map.c), said without the loops of `map_key_list`.
use zscript.Base.{
  ℕ, zero, suc, ◌%◌, ◌≡◌, refl, Option, none, some, List, [], ◌∷◌, ◌++◌, ◌==◌, get_elem?, arith,
  inl, inr, Bool-cases, ◌↔◌,
}
use zscript.Base.Strings.{Text}
use zscript.Map.{
  as_int, enumerable, Map, Bag, bag_of, enumerable_keys, keys_of, key_list_of, map_key_list,
}
use zscript.Interpreter.State.{Reg}
use zscript.Interpreter.Collector.Visit.{In}
use zscript.Interpreter.Collector.Points.{In-append, In-none}

-- a key whose flags say that it is enumerable
pub data IsKey (bags : List (Option (Bag Reg))) (name : Text) : Type 0 where
  key :
      (i : ℕ) (bag : Bag Reg) (j flags : ℕ)
      → bag_of bags i ≡ some bag
      → get_elem? bag.keys j ≡ some name
      → get_elem? bag.flags j ≡ some flags
      → flags % 2 ≡ 1
      → IsKey bags name

abbrev Listed : List Text → List ℕ → Text → Type 0
Listed ks fs name =
    (j : ℕ) × (flags : ℕ) × (get_elem? ks j ≡ some name)
    × (get_elem? fs j ≡ some flags)
    × (flags % 2 ≡ 1)

enumerable_keys-Listed :
    (ks : List Text) (fs : List ℕ) (name : Text)
    → In name (enumerable_keys ks fs) ↔ Listed ks fs name
unfolding enumerable_keys
enumerable_keys-Listed [] fs name =
    (λ h. absurd (In-none name h), λ (j, f, e, g, o). absurd (no_key j e))
  where
    no_key : (j : ℕ) → ¬ (get_elem? [] j ≡ some name)
    no_key j e = cc
enumerable_keys-Listed (k ∷ ks) [] name =
    (λ h. absurd (In-none name h), λ (j, f, e, g, o). absurd (no_flag j f g))
  where
    no_flag : (j f : ℕ) → ¬ (get_elem? [] j ≡ some f)
    no_flag j f e = cc
enumerable_keys-Listed (k ∷ ks) (f ∷ fs) name =
    let rest = enumerable_keys-Listed ks fs name in
    elim (Bool-cases (enumerable (as_int f) == 1)) [
      | inl odd ↦ let bit : f % 2 ≡ 1 = ground arith in rw odd (to bit rest, from rest)
      | inr even ↦
          let bit : ¬ (f % 2 ≡ 1) = λ e. absurd (ground arith) in
          rw even ((λ h. later (rest.0 h)), λ h. rest.1 (drop_first bit h))
    ]
  where
    later : Listed ks fs name → Listed (k ∷ ks) (f ∷ fs) name
    later (j, g, e, r, o) = (suc j, g, e, r, o)

    drop_first : ¬ (f % 2 ≡ 1) → Listed (k ∷ ks) (f ∷ fs) name → Listed ks fs name
    drop_first bit (zero, g, e, e', o) = let same : f ≡ g = ground arith in absurd (bit (rw same o))
    drop_first bit (suc j, g, e, r, o) = (j, g, e, r, o)

    to :
        f % 2 ≡ 1
        → In name (enumerable_keys ks fs) ↔ Listed ks fs name
        → In name (k ∷ enumerable_keys ks fs)
        → Listed (k ∷ ks) (f ∷ fs) name
    to bit rest (zero, e) = (zero, f, e, refl, bit)
    to bit rest (suc n, e) = later (rest.0 (n, e))

    from :
        In name (enumerable_keys ks fs) ↔ Listed ks fs name
        → Listed (k ∷ ks) (f ∷ fs) name
        → In name (k ∷ enumerable_keys ks fs)
    from rest (zero, g, e, r, o) = (zero, e)
    from rest (suc j, g, e, r, o) = let (n, h) = rest.1 (j, g, e, r, o) in (suc n, h)

key_list_of-IsKey :
    (bags : List (Option (Bag Reg))) (name : Text) → In name (key_list_of bags) ↔ IsKey bags name
unfolding key_list_of keys_of bag_of
key_list_of-IsKey [] name = (λ h. absurd (In-none name h), from)
  where
    from : IsKey [] name → In name []
    from (key i bag j flags at r e o) = cc
key_list_of-IsKey (none ∷ bags) name =
    let rest = key_list_of-IsKey bags name in (λ h. to (rest.0 h), λ h. rest.1 (from h))
  where
    to : IsKey bags name → IsKey (none ∷ bags) name
    to (key i bag j flags at r e o) = key (suc i) bag j flags at r e o

    from : IsKey (none ∷ bags) name → IsKey bags name
    from (key zero bag j flags at r e o) = cc
    from (key (suc i) bag j flags at r e o) = key i bag j flags at r e o
key_list_of-IsKey (some b ∷ bags) name =
    let rest = key_list_of-IsKey bags name in (to rest, from rest)
  where
    here : List Text
    here = enumerable_keys b.keys b.flags

    later : IsKey bags name → IsKey (some b ∷ bags) name
    later (key i bag j flags at r e o) = key (suc i) bag j flags at r e o

    to :
        In name (key_list_of bags) ↔ IsKey bags name
        → In name (here ++ key_list_of bags)
        → IsKey (some b ∷ bags) name
    to rest h = elim ((In-append name here (key_list_of bags)).0 h) [
      | inl m ↦
          let (j, f, e, g, o) = (enumerable_keys-Listed b.keys b.flags name).0 m in
          key 0 b j f refl e g o
      | inr m ↦ later (rest.0 m)
    ]

    from :
        In name (key_list_of bags) ↔ IsKey bags name
        → IsKey (some b ∷ bags) name
        → In name (here ++ key_list_of bags)
    from rest (key zero bag j flags at e g o) =
        let same : b ≡ bag = ground arith in
        (In-append name here (key_list_of bags)).1
          (inl ((enumerable_keys-Listed b.keys b.flags name).1 (j, flags, rw same e, rw same g, o)))
    from rest (key (suc i) bag j flags at e g o) =
        (In-append name here (key_list_of bags)).1 (inr (rest.1 (key i bag j flags at e g o)))

pub keys-IsKey : (m : Map Reg) (name : Text) → In name (map_key_list m) ↔ IsKey m.bags name
unfolding map_key_list
keys-IsKey m name = key_list_of-IsKey m.bags name

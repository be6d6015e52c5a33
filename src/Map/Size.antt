-- ===== src/Map/Size.antt =====
-- The count in `size` against the keys that `map_key_list` gives (src/common/data_structures/map.c).
use zscript.Base.{
  ℕ, zero, suc, ◌+◌, ◌%◌, ◌<◌, ◌≡◌, refl, ap, true, false, Option, none, some, List, [], ◌∷◌, ◌++◌,
  ◌==◌, if◌then◌else◌, ◌>>=◌, get_elem?, set, arith, length, length-append, get_elem?-lt,
  Option-cases, inl, inr, is_some, ◌↔◌,
}
use zscript.Base.Strings.{Text}
use zscript.Map.{
  as_int, Bag, Map, get_hash, index_of, bag_of, open_bag, enumerable, enumerable_keys, keys_of,
  key_list_of, map_insert_flags, map_insert, bag_get, map_get_flags, map_key_list,
  map_flag_enumerable,
}
use zscript.Map.Index.{index_of-get}
use zscript.Map.Lookup.{
  IsParallel, IsValid, bag_insert, insert_flags-bags, get_hash-lt, open_bag-IsParallel,
  bag_get-open_bag,
}

-- what is kept of a flag has the bit for an enumerable key
parity : (f : ℕ) → as_int f % 2 ≡ f % 2
parity f = ground arith

-- what one flag adds to the keys listed
listed : (f : ℕ) → (if enumerable (as_int f) == 1 then 1 else 0) ≡ f % 2
listed f = ground arith

length-enumerable_keys-append :
    (ks : List Text) (fs : List ℕ) (k : Text) (f : ℕ)
    → length fs ≡ length ks
    → length (enumerable_keys (ks ++ k ∷ []) (fs ++ f ∷ []))
      ≡ length (enumerable_keys ks fs) + f % 2
unfolding enumerable_keys
length-enumerable_keys-append [] [] k f e = ground (arith, listed f)
length-enumerable_keys-append [] (g ∷ fs) k f e = absurd (omega arith)
length-enumerable_keys-append (j ∷ ks) [] k f e = absurd (omega arith)
length-enumerable_keys-append (j ∷ ks) (g ∷ fs) k f e =
    ground (arith, length-enumerable_keys-append ks fs k f)

length-enumerable_keys-set :
    (ks : List Text) (fs : List ℕ) (i f g : ℕ)
    → length fs ≡ length ks
    → get_elem? fs i ≡ some g
    → length (enumerable_keys ks (set fs i f)) + g % 2 ≡ length (enumerable_keys ks fs) + f % 2
unfolding enumerable_keys
length-enumerable_keys-set ks [] i f g e h = cc
length-enumerable_keys-set [] (x ∷ fs) i f g e h = absurd (omega arith)
length-enumerable_keys-set (j ∷ ks) (x ∷ fs) zero f g e h = ground (arith, listed f, listed g)
length-enumerable_keys-set (j ∷ ks) (x ∷ fs) (suc i) f g e h =
    ground (arith, length-enumerable_keys-set ks fs i f g)

length-key_list_of-set {ℓ} :
    {V : Type ℓ} (bs : List (Option (Bag V))) (i : ℕ) (b : Bag V)
    → i < length bs
    → length (key_list_of (set bs i (some b))) + length (keys_of (bag_of bs i))
      ≡ length (key_list_of bs) + length (keys_of (some b))
unfolding key_list_of bag_of
length-key_list_of-set [] i b h = absurd (omega arith)
length-key_list_of-set (x ∷ bs) zero b h = omega (
  arith,
  length-append (keys_of (some b)) (key_list_of bs),
  length-append (keys_of x) (key_list_of bs),
)
length-key_list_of-set (x ∷ bs) (suc i) b h = omega (
  arith,
  length-append (keys_of x) (key_list_of (set bs i (some b))),
  length-append (keys_of x) (key_list_of bs),
  length-key_list_of-set bs i b,
)

module _ {ℓ} {V : Type ℓ} where
  -- whether the flags under a key say that it is enumerable; 0 for a key that is not there
  unfoldable pub old_enumerable : Option (V × ℕ) → ℕ
  old_enumerable none = 0
  old_enumerable (some (v, f)) = f % 2

  length-enumerable_keys-bag_insert :
      (bag : Bag V) (k : Text) (v : V) (f : ℕ)
      → IsParallel bag
      → length (enumerable_keys (bag_insert bag k v f).keys (bag_insert bag k v f).flags)
          + old_enumerable (bag_get bag k)
        ≡ length (enumerable_keys bag.keys bag.flags) + f % 2
  unfolding bag_insert bag_get old_enumerable
  length-enumerable_keys-bag_insert bag k v f p = elim (Option-cases (index_of k bag.keys)) [
    | inl e ↦
        rw (e, bag_insert, ◌>>=◌)
          (omega (arith, length-enumerable_keys-append bag.keys bag.flags k f p.flags))
    | inr (i, e) ↦
        let (small, found) = index_of-get k bag.keys i e in
        let (g, flag) = get_elem?-lt bag.flags i (omega (arith, p.flags)) in
        let (u, value) = get_elem?-lt bag.values i (omega (arith, p.values)) in
        rw (e, bag_insert, ◌>>=◌, value, flag)
          (omega
            (arith, parity g, length-enumerable_keys-set bag.keys bag.flags i f g p.flags flag))
  ]

  keys_of-open_bag : (o : Option (Bag V)) → keys_of (some (open_bag o)) ≡ keys_of o
  unfolding keys_of open_bag enumerable_keys
  keys_of-open_bag none = refl
  keys_of-open_bag (some bag) = refl

  -- In a valid map that can be changed an insertion leaves as many enumerable keys as there were,
  -- less one if the key was there and enumerable, and one more if the new flags say so.
  pub length-key_list-insert_flags :
      (m : Map V) (k : Text) (v : V) (f : ℕ)
      → IsValid m
      → m.is_immutable ≡ false
      → length (map_key_list (map_insert_flags m k v f)) + old_enumerable (map_get_flags m k)
        ≡ length (map_key_list m) + f % 2
  unfolding map_key_list map_get_flags keys_of
  length-key_list-insert_flags m k v f valid free =
      let hash = get_hash k in
      let o = bag_of m.bags hash in
      let bag = bag_insert (open_bag o) k v f in
      let small : hash < length m.bags = rw valid.ten (get_hash-lt k) in
      let here =
        length-enumerable_keys-bag_insert (open_bag o) k v f (open_bag-IsParallel m hash valid) in
      rw (insert_flags-bags m k v f free, ← bag_get-open_bag o k)
        (omega (
          arith,
          length-key_list_of-set m.bags hash bag small,
          here,
          ap length (keys_of-open_bag o),
        ))

  -- `size` counts the keys that `map_key_list` gives.
  abbrev pub IsCounted : Map V → Type 0
  IsCounted m = m.size ≡ length (map_key_list m)

  is_some-bag_get :
      (bag : Bag V) (k : Text)
      → IsParallel bag
      → is_some (bag_get bag k) ≡ is_some (index_of k bag.keys)
  unfolding bag_get
  is_some-bag_get bag k p = elim (Option-cases (index_of k bag.keys)) [
    | inl e ↦ rw (e, ◌>>=◌)
    | inr (i, e) ↦
        let (small, found) = index_of-get k bag.keys i e in
        let (g, flag) = get_elem?-lt bag.flags i (omega (arith, p.flags)) in
        let (u, value) = get_elem?-lt bag.values i (omega (arith, p.values)) in
        rw (e, ◌>>=◌, value, flag)
  ]

  size-insert_flags :
      (m : Map V) (k : Text) (v : V) (f : ℕ)
      → IsValid m
      → m.is_immutable ≡ false
      → (map_insert_flags m k v f).size
        ≡ m.size + (if is_some (map_get_flags m k) then 0 else f % 2)
  unfolding map_insert_flags map_get_flags
  size-insert_flags m k v f valid free =
      let o = bag_of m.bags (get_hash k) in
      let there = is_some-bag_get (open_bag o) k (open_bag-IsParallel m (get_hash k) valid) in
      rw (free, ← bag_get-open_bag o k) (ground (arith, there))

  -- In a valid map that can be changed and whose `size` counts its enumerable keys, `size` stays
  -- their count exactly if the insertion adds a key, or gives a key the enumerable bit that it had.
  pub insert_flags-IsCounted :
      (m : Map V) (k : Text) (v : V) (f : ℕ)
      → IsValid m
      → m.is_immutable ≡ false
      → IsCounted m
      → IsCounted (map_insert_flags m k v f)
        ↔ (is_some (map_get_flags m k) ≡ true → old_enumerable (map_get_flags m k) ≡ f % 2)
  unfolding old_enumerable
  insert_flags-IsCounted m k v f valid free counted =
      let keys = length-key_list-insert_flags m k v f valid free in
      let size = size-insert_flags m k v f valid free in
      elim (Option-cases (map_get_flags m k)) [
        | inl e ↦ (λ c h. absurd (ground arith), λ h. ground arith)
        | inr (r, e) ↦ (λ c h. ground arith, λ h. ground (arith, h (rw e)))
      ]

  -- In a valid map that can be changed and whose `size` counts its enumerable keys, setting a key
  -- with no flags by `map_insert`, as a script does with `size` and `keys` of an object, makes it a
  -- key of the list without counting it.
  pub map_insert-hidden :
      (m : Map V) (k : Text) (old v : V)
      → IsValid m
      → m.is_immutable ≡ false
      → IsCounted m
      → map_get_flags m k ≡ some (old, 0)
      → length (map_key_list (map_insert m k v)) ≡ (map_insert m k v).size + 1
  unfolding map_insert old_enumerable
  map_insert-hidden m k old v valid free counted hidden =
      let keys = length-key_list-insert_flags m k v map_flag_enumerable valid free in
      let size = size-insert_flags m k v map_flag_enumerable valid free in ground arith

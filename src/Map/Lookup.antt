-- ===== src/Map/Lookup.antt =====
-- What `map_get_flags` and `map_get` see after `map_insert_flags` (src/common/data_structures/map.c).
use zscript.Base.{
  ◌+◌, ◌%◌, ◌^◌, ◌-◌, ltb, ℕ, zero, suc, ◌<◌, ◌≡◌, refl, sym, ap, ◌∙◌, true, false, Option, none,
  some, List, [], ◌∷◌, ◌++◌, ◌==◌, if◌then◌else◌, ◌>>=◌, set, arith, length, length-append,
  length-set, get_elem?-set, Option-cases, inl, inr, Bool-cases, ==_refl, replicate,
}
use zscript.Base.Strings.{Text, str_eq, str_eq_iff}
use zscript.Map.{
  as_int, Bag, Map, map_bag_size, get_hash, index_of, bag_of, open_bag, map_insert_flags, bag_get,
  map_get_flags, map_new, map_get, map_insert, map_flag_enumerable,
}
use zscript.Map.Index.{
  index_of-get, index_of-append, index_of-injective, get_elem?-append_left, get_elem?-append_at,
}

pub get_hash-lt : (k : Text) → get_hash k < map_bag_size
unfolding get_hash
get_hash-lt k = omega arith

-- The three lists of a bag have one length.
pub record IsParallel {ℓ} {V : Type ℓ} (bag : Bag V) : Type 0 where
  pub values : length bag.values ≡ length bag.keys
  pub flags : length bag.flags ≡ length bag.keys

-- what `map_insert_flags` makes of the bag under the key's hash
unfoldable pub bag_insert {ℓ} : {V : Type ℓ} → Bag V → Text → V → ℕ → Bag V
bag_insert bag key value flag = elim (index_of key bag.keys) [
  | some i ↦ record bag { values = set bag.values i value; flags = set bag.flags i flag }
  | none ↦ record {
    keys = bag.keys ++ key ∷ [];
    values = bag.values ++ value ∷ [];
    flags = bag.flags ++ flag ∷ [];
  }
]

module _ {ℓ} {V : Type ℓ} where
  pub bag_insert-IsParallel :
      (bag : Bag V) (k : Text) (v : V) (f : ℕ) → IsParallel bag → IsParallel (bag_insert bag k v f)
  unfolding bag_insert
  bag_insert-IsParallel bag k v f p = elim (Option-cases (index_of k bag.keys)) [
    | inl e ↦
        rw (e, bag_insert)
          (record {
            values = omega (
              arith,
              length-append bag.values (v ∷ []),
              length-append bag.keys (k ∷ []),
              p.values,
            );
            flags =
                omega (
                  arith,
                  length-append bag.flags (f ∷ []),
                  length-append bag.keys (k ∷ []),
                  p.flags,
                );
          })
    | inr (i, e) ↦
        rw (e, bag_insert)
          (record {
            values = length-set bag.values i v ∙ p.values;
            flags = length-set bag.flags i f ∙ p.flags;
          })
  ]

  -- A read of a bag after an insertion.
  pub bag_get-bag_insert :
      (bag : Bag V) (k j : Text) (v : V) (f : ℕ)
      → IsParallel bag
      → bag_get (bag_insert bag k v f) j
        ≡ (if str_eq k j then some (v, as_int f) else bag_get bag j)
  unfolding bag_insert bag_get
  bag_get-bag_insert bag k j v f p = elim (Option-cases (index_of k bag.keys)) [
    | inl e ↦
        rw (e, bag_insert, index_of-append k j bag.keys e)
          (elim (Bool-cases (str_eq k j)) [
            | inl same ↦ rw (
              same,
              ◌>>=◌,
              get_elem?-append_at bag.values v _ (sym p.values),
              get_elem?-append_at bag.flags f _ (sym p.flags),
            )
            | inr other ↦ rw other (elim (Option-cases (index_of j bag.keys)) [
              | inl g ↦ rw (g, ◌>>=◌)
              | inr (n, g) ↦
                  let (small, found) = index_of-get j bag.keys n g in
                  rw (
                    g,
                    ◌>>=◌,
                    get_elem?-append_left bag.values (v ∷ []) n (omega (arith, p.values)),
                    get_elem?-append_left bag.flags (f ∷ []) n (omega (arith, p.flags)),
                  )
            ])
          ])
    | inr (i, e) ↦
        let (small, found) = index_of-get k bag.keys i e in
        rw (e, bag_insert)
          (elim (Bool-cases (str_eq k j)) [
            | inl same ↦
                let ij : index_of j bag.keys ≡ some i = rw (← (str_eq_iff k j).0 same) e in
                rw (
                  same,
                  ij,
                  ◌>>=◌,
                  get_elem?-set bag.values i i v (omega (arith, p.values)),
                  get_elem?-set bag.flags i i f (omega (arith, p.flags)),
                  ==_refl i,
                )
            | inr other ↦ rw other (elim (Option-cases (index_of j bag.keys)) [
              | inl g ↦ rw (g, ◌>>=◌)
              | inr (n, g) ↦
                  let apart : (i == n) ≡ false =
                    ground (arith, index_of-injective k j bag.keys i n e g, str_eq_iff k j) in
                  rw (
                    g,
                    ◌>>=◌,
                    get_elem?-set bag.values i n v (omega (arith, p.values)),
                    get_elem?-set bag.flags i n f (omega (arith, p.flags)),
                    apart,
                  )
            ])
          ])
  ]

  pub bag_of-set :
      (bs : List (Option (Bag V))) (i j : ℕ) (b : Bag V)
      → i < length bs
      → bag_of (set bs i (some b)) j ≡ (if i == j then some b else bag_of bs j)
  unfolding bag_of
  bag_of-set [] i j b h = absurd (omega arith)
  bag_of-set (x ∷ bs) zero zero b h = refl
  bag_of-set (x ∷ bs) zero (suc j) b h = ground arith
  bag_of-set (x ∷ bs) (suc i) zero b h = ground arith
  bag_of-set (x ∷ bs) (suc i) (suc j) b h = ground (arith, bag_of-set bs i j b)

  -- An insertion into a map that is not immutable, by its parts.
  pub insert_flags-bags :
      (m : Map V) (k : Text) (v : V) (f : ℕ)
      → m.is_immutable ≡ false
      → (map_insert_flags m k v f).bags
        ≡ set m.bags (get_hash k) (some (bag_insert (open_bag (bag_of m.bags (get_hash k))) k v f))
  unfolding map_insert_flags bag_insert
  insert_flags-bags m k v f h = ground arith

  -- An immutable map is left as it was.
  pub insert_flags-immutable :
      (m : Map V) (k : Text) (v : V) (f : ℕ) → m.is_immutable ≡ true → map_insert_flags m k v f ≡ m
  unfolding map_insert_flags
  insert_flags-immutable m k v f h = rw h

  pub bag_get-open_bag :
      (o : Option (Bag V)) (j : Text) → bag_get (open_bag o) j ≡ (o >>= λ bag. bag_get bag j)
  unfolding open_bag bag_get index_of
  bag_get-open_bag none j = refl
  bag_get-open_bag (some bag) j = refl

-- Ten bags, each with parallel lists.
pub record IsValid {ℓ} {V : Type ℓ} (m : Map V) : Type ℓ where
  pub ten : length m.bags ≡ map_bag_size
  pub parallel : (i : ℕ) (bag : Bag V) → bag_of m.bags i ≡ some bag → IsParallel bag

module _ {ℓ} {V : Type ℓ} where
  pub map_new-IsValid : IsValid {V = V} map_new
  unfolding map_new bag_of
  map_new-IsValid = record { ten = refl; parallel = λ i bag h. absurd (empty i 10 bag h) }
    where
      empty : (i n : ℕ) (bag : Bag V) → ¬ (bag_of (replicate n none) i ≡ some bag)
      empty i zero bag h = cc
      empty zero (suc n) bag h = cc
      empty (suc i) (suc n) bag h = empty i n bag h

  pub open_bag-IsParallel :
      (m : Map V) (i : ℕ) → IsValid m → IsParallel (open_bag (bag_of m.bags i))
  unfolding open_bag
  open_bag-IsParallel m i valid = elim (Option-cases (bag_of m.bags i)) [
    | inl e ↦ rw e (record { values = refl; flags = refl })
    | inr (bag, e) ↦ rw e (valid.parallel i bag e)
  ]

  -- An insertion into a valid map, which has ten bags with parallel lists, leaves a valid map,
  -- whatever the key and the flags.
  pub insert_flags-IsValid :
      (m : Map V) (k : Text) (v : V) (f : ℕ) → IsValid m → IsValid (map_insert_flags m k v f)
  insert_flags-IsValid m k v f valid = elim (Bool-cases m.is_immutable) [
    | inl fixed ↦ rw (insert_flags-immutable m k v f fixed) valid
    | inr free ↦
        let e = insert_flags-bags m k v f free in
        let hash = get_hash k in
        let bag = bag_insert (open_bag (bag_of m.bags hash)) k v f in
        let here = bag_insert-IsParallel _ k v f (open_bag-IsParallel m hash valid) in
        record {
          ten = ap length e ∙ length-set m.bags hash (some bag) ∙ valid.ten;
          parallel = λ i b h.
              let small : hash < length m.bags = rw valid.ten (get_hash-lt k) in
              let seen : (if hash == i then some bag else bag_of m.bags i) ≡ some b =
                rw (e, bag_of-set m.bags hash i bag small) at h in
              ground (arith, here, valid.parallel i b);
        }
  ]

  -- What a read finds after an insertion into a valid map that is not immutable: under the key
  -- inserted the new value and the flags as 32 bits, extended by their sign to 64; under any other key
  -- what was there before.
  pub get_flags-insert_flags :
      (m : Map V) (k j : Text) (v : V) (f : ℕ)
      → IsValid m
      → m.is_immutable ≡ false
      → map_get_flags (map_insert_flags m k v f) j ≡ (
          if str_eq k j
          then some
              (v, if ltb (f % 2 ^ 32) (2 ^ 31) then f % 2 ^ 32 else f % 2 ^ 32 + 2 ^ 64 - 2 ^ 32)
          else map_get_flags m j)
  unfolding map_get_flags
  get_flags-insert_flags m k j v f valid free =
      let hash = get_hash k in
      let bag = open_bag (bag_of m.bags hash) in
      let small : hash < length m.bags = rw valid.ten (get_hash-lt k) in
      rw
        (
          insert_flags-bags m k v f free,
          bag_of-set m.bags hash (get_hash j) (bag_insert bag k v f) small,
        )
        (elim (Bool-cases (hash == get_hash j)) [
          | inl same ↦
              let at : get_hash j ≡ hash = ground arith in
              rw (
                same,
                bag_get-bag_insert bag k j v f (open_bag-IsParallel m hash valid),
                bag_get-open_bag,
                at,
              )
          | inr other ↦
              let apart : str_eq k j ≡ false = ground (arith, str_eq_iff k j) in rw (other, apart)
        ])

-- a map to which an insertion adds
pub record IsOpen {ℓ} {V : Type ℓ} (m : Map V) : Type ℓ where
  pub valid : IsValid m
  pub mutable : m.is_immutable ≡ false

-- a read after an insertion
pub map_get-map_insert {ℓ} :
    {V : Type ℓ} (m : Map V) (k j : Text) (v : V)
    → IsOpen m
    → map_get (map_insert m k v) j ≡ (if str_eq k j then some v else map_get m j)
unfolding map_get map_insert
map_get-map_insert m k j v o = elim (Bool-cases (str_eq k j)) [
  | inl same ↦ rw (get_flags-insert_flags m k j v map_flag_enumerable o.valid o.mutable, same)
  | inr other ↦ rw (get_flags-insert_flags m k j v map_flag_enumerable o.valid o.mutable, other)
]

-- ===== src/Map.antt =====
-- src/common/data_structures/map.c: a hash map from C strings, with ten bags. A bag is the three
-- parallel lists that stand under one hash; an array list is taken as the items that it holds.
pub mod Index
pub mod Lookup
pub mod Size
mod Tests
use zscript.Base.{
  ℕ, zero, suc, ◌+◌, ◌-◌, ◌*◌, ◌%◌, ◌^◌, ◌≡◌, Bool, true, false, Option, none, some, List, [], ◌∷◌,
  ◌++◌, ltb, leb, ◌==◌, if◌then◌else◌, ◌>>=◌, get_elem?, set, replicate,
}
use zscript.Base.Strings.{Text, str_eq}

abbrev pub map_bag_size : ℕ
map_bag_size = 10

abbrev pub map_flag_enumerable : ℕ
map_flag_enumerable = 1

abbrev pub map_flag_private : ℕ
map_flag_private = 2

-- `flag & MAP_FLAG_ENUMERABLE`
abbrev pub enumerable : ℕ → ℕ
enumerable flag = flag % 2

-- a flag as it is stored, an `int`, and read back to an `int_t`
abbrev pub as_int : ℕ → ℕ
as_int flag =
    if ltb (flag % 2 ^ 32) (2 ^ 31) then flag % 2 ^ 32 else flag % 2 ^ 32 + 2 ^ 64 - 2 ^ 32

pub record Bag {ℓ} (V : Type ℓ) : Type ℓ where
  pub keys : List Text
  pub values : List V
  pub flags : List ℕ

-- The lists of a bag are allocated together; `none` is `NULL` in all three arrays.
pub record Map {ℓ} (V : Type ℓ) : Type ℓ where
  pub size : ℕ
  pub is_immutable : Bool
  pub bags : List (Option (Bag V))

-- `char` is signed, and is converted to `uint_t`
unfoldable pub char_value : ℕ → ℕ
char_value c = if leb c 127 then c else c + 2 ^ 64 - 256

unfoldable pub hash_from : ℕ → Text → ℕ
hash_from hash [] = hash
hash_from hash (c ∷ value) = hash_from ((hash * 10 + char_value c + 2 ^ 64 - 48) % 2 ^ 64) value

unfoldable pub get_hash : Text → ℕ
unfolding hash_from char_value
get_hash value = hash_from 0 value % map_bag_size

-- the loop over `kbag` that compares with `key`
unfoldable pub index_of : Text → List Text → Option ℕ
index_of key [] = none
index_of key (k ∷ ks) =
    if str_eq k key then some 0 else elim (index_of key ks) [ none ↦ none | some i ↦ some (suc i) ]

-- the inner loop of `map_key_list`, over the keys and flags of a bag
unfoldable pub enumerable_keys : List Text → List ℕ → List Text
enumerable_keys (k ∷ ks) (f ∷ fs) =
    if enumerable (as_int f) == 1 then k ∷ enumerable_keys ks fs else enumerable_keys ks fs
enumerable_keys _ _ = []

module _ {ℓ} {V : Type ℓ} where
  unfoldable pub map_new : Map V
  map_new = record { size = 0; is_immutable = false; bags = replicate map_bag_size none }

  unfoldable pub bag_of : List (Option (Bag V)) → ℕ → Option (Bag V)
  bag_of [] i = none
  bag_of (b ∷ bs) zero = b
  bag_of (b ∷ bs) (suc i) = bag_of bs i

  -- the bag under a hash, allocated if it was not there
  unfoldable pub open_bag : Option (Bag V) → Bag V
  open_bag none = record { keys = []; values = []; flags = [] }
  open_bag (some bag) = bag

  unfoldable pub map_insert_flags : Map V → Text → V → ℕ → Map V
  map_insert_flags self key value flag =
      if self.is_immutable
      then self
      else (let hash = get_hash key in
          let bag = open_bag (bag_of self.bags hash) in
          elim (index_of key bag.keys) [
            | some i ↦ record self {
              bags = set self.bags hash (
                  some
                    (record bag { values = set bag.values i value; flags = set bag.flags i flag }));
            }
            | none ↦ record self {
              size = self.size + enumerable flag;
              bags = set self.bags hash (
                  some (record {
                    keys = bag.keys ++ key ∷ [];
                    values = bag.values ++ value ∷ [];
                    flags = bag.flags ++ flag ∷ [];
                  }));
            }
          ])

  unfoldable pub map_insert : Map V → Text → V → Map V
  map_insert self key value = map_insert_flags self key value map_flag_enumerable

  unfoldable pub map_insert_non_enumerable : Map V → Text → V → Map V
  map_insert_non_enumerable self key value = map_insert_flags self key value 0

  -- the value and its flags, read back as an `int`; `none` is `NULL`
  unfoldable pub bag_get : Bag V → Text → Option (V × ℕ)
  bag_get bag key = do
    i ← index_of key bag.keys
    value ← get_elem? bag.values i
    flag ← get_elem? bag.flags i
    some (value, as_int flag)

  unfoldable pub map_get_flags : Map V → Text → Option (V × ℕ)
  map_get_flags self key = bag_of self.bags (get_hash key) >>= λ bag. bag_get bag key

  unfoldable pub map_get : Map V → Text → Option V
  map_get self key = map_get_flags self key >>= λ r. some r.0

  unfoldable pub keys_of : Option (Bag V) → List Text
  keys_of none = []
  keys_of (some bag) = enumerable_keys bag.keys bag.flags

  unfoldable pub key_list_of : List (Option (Bag V)) → List Text
  unfolding keys_of enumerable_keys
  key_list_of [] = []
  key_list_of (b ∷ bs) = keys_of b ++ key_list_of bs

  unfoldable pub map_key_list : Map V → List Text
  unfolding key_list_of
  map_key_list self = key_list_of self.bags

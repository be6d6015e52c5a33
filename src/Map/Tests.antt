-- ===== src/Map/Tests.antt =====
-- The map on concrete keys (src/common/data_structures/map.c).
use zscript.Base.{
  ℕ, ◌+◌, ◌%◌, ◌≡◌, refl, true, false, some, [], ◌∷◌, length, if◌then◌else◌, is_some, ◌↔◌,
}
use zscript.Base.Strings.{Text, str_eq}
use zscript.Map.{
  Map, map_new, map_insert_flags, map_insert, map_get_flags, map_key_list, get_hash, bag_of,
  open_bag, index_of, bag_get, hash_from, char_value, key_list_of, keys_of, enumerable_keys,
}
use zscript.Map.Lookup.{IsValid, map_new-IsValid, insert_flags-IsValid, get_flags-insert_flags}
use zscript.Map.Size.{
  IsCounted, old_enumerable, length-key_list-insert_flags, insert_flags-IsCounted,
  map_insert-hidden,
}

-- "size"
abbrev size_key : Text
size_key = 115 ∷ 105 ∷ 122 ∷ 101 ∷ []

-- "a"
abbrev a_key : Text
a_key = 97 ∷ []

-- a map with one hidden key
abbrev hidden_size : Map ℕ
hidden_size = map_insert_flags map_new size_key 5 0

hidden_size-IsValid : IsValid hidden_size
hidden_size-IsValid = insert_flags-IsValid map_new size_key 5 0 map_new-IsValid

hidden_size_mutable : hidden_size.is_immutable ≡ false
unfolding map_new map_insert_flags get_hash hash_from char_value bag_of open_bag index_of
hidden_size_mutable = refl

hidden_size-IsCounted : IsCounted hidden_size
unfolding map_new map_insert_flags get_hash hash_from char_value bag_of open_bag index_of
    map_key_list key_list_of keys_of enumerable_keys
hidden_size-IsCounted = refl

hidden_size_flags : map_get_flags hidden_size size_key ≡ some (5, 0)
unfolding map_new map_insert_flags map_get_flags bag_get get_hash hash_from char_value bag_of
    open_bag index_of str_eq
hidden_size_flags = refl

get_flags-insert_flags_example :
    map_get_flags (map_insert_flags hidden_size a_key 7 1) size_key
    ≡ (if str_eq a_key size_key then some (7, 1) else map_get_flags hidden_size size_key)
get_flags-insert_flags_example =
    get_flags-insert_flags hidden_size a_key size_key 7 1 hidden_size-IsValid hidden_size_mutable

length-key_list-insert_flags_example :
    length (map_key_list (map_insert_flags hidden_size size_key 7 1))
      + old_enumerable (map_get_flags hidden_size size_key)
    ≡ length (map_key_list hidden_size) + 1 % 2
length-key_list-insert_flags_example =
    length-key_list-insert_flags hidden_size size_key 7 1 hidden_size-IsValid hidden_size_mutable

insert_flags-IsCounted_example : IsCounted (map_insert_flags hidden_size a_key 7 1) ↔ (
    is_some (map_get_flags hidden_size a_key) ≡ true
    → old_enumerable (map_get_flags hidden_size a_key) ≡ 1 % 2)
insert_flags-IsCounted_example =
    insert_flags-IsCounted hidden_size a_key 7 1 hidden_size-IsValid hidden_size_mutable
      hidden_size-IsCounted

map_insert-hidden_example :
    length (map_key_list (map_insert hidden_size size_key 6))
    ≡ (map_insert hidden_size size_key 6).size + 1
map_insert-hidden_example =
    map_insert-hidden hidden_size size_key 5 6 hidden_size-IsValid hidden_size_mutable
      hidden_size-IsCounted hidden_size_flags

-- ===== src/Map/Index.antt =====
-- Where a key stands in a bag, and reads of parallel lists after a write (src/common/data_structures/map.c).
use zscript.Base.{
  ℕ, zero, suc, ◌<◌, ◌≡◌, refl, none, some, List, [], ◌∷◌, ◌++◌, if◌then◌else◌, get_elem?, arith,
  length, get_elem?-append_length, Option-cases, inl, inr, Bool-cases,
}
use zscript.Base.Strings.{Text, str_eq, str_eq_iff, str_eq_refl}
use zscript.Map.{index_of}

-- The index found is one of the list, and holds the key.
pub index_of-get :
    (k : Text) (ks : List Text) (i : ℕ)
    → index_of k ks ≡ some i
    → (i < length ks) × (get_elem? ks i ≡ some k)
unfolding index_of
index_of-get k [] i h = cc
index_of-get k (x ∷ ks) i h = elim (Bool-cases (str_eq x k)) [
  | inl here ↦ ground (arith, str_eq_iff x k)
  | inr there ↦ elim (Option-cases (index_of k ks)) [
    | inl e ↦ cc (rw (there, e) at h)
    | inr (n, e) ↦ ground (arith, index_of-get k ks n e)
  ]
]

pub index_of-append :
    (k j : Text) (ks : List Text)
    → index_of k ks ≡ none
    → index_of j (ks ++ k ∷ []) ≡ (if str_eq k j then some (length ks) else index_of j ks)
unfolding index_of
index_of-append k j [] h = ground arith
index_of-append k j (x ∷ ks) h =
    ground
      (arith, index_of-append k j ks, str_eq_iff x k, str_eq_iff x j, str_eq_iff k j, str_eq_refl k)

-- An index can be that of one key only.
pub index_of-injective :
    (k j : Text) (ks : List Text) (i n : ℕ)
    → index_of k ks ≡ some i
    → index_of j ks ≡ some n
    → i ≡ n
    → k ≡ j
index_of-injective k j ks i n h g e = ground (arith, index_of-get k ks i h, index_of-get j ks n g)

pub get_elem?-append_left {ℓ} :
    {A : Type ℓ} (xs ys : List A) (i : ℕ) → i < length xs → get_elem? (xs ++ ys) i ≡ get_elem? xs i
get_elem?-append_left [] ys i h = absurd (omega arith)
get_elem?-append_left (x ∷ xs) ys zero h = refl
get_elem?-append_left (x ∷ xs) ys (suc i) h = get_elem?-append_left xs ys i (omega arith)

pub get_elem?-append_at {ℓ} :
    {A : Type ℓ} (xs : List A) (x : A) (i : ℕ) → i ≡ length xs → get_elem? (xs ++ x ∷ []) i ≡ some x
get_elem?-append_at xs x i e = rw e (get_elem?-append_length xs x [])

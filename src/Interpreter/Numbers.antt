-- ===== src/Interpreter/Numbers.antt =====
-- What src/interpreter/interpreter_dd.c uses of the type `double`, on the 64 bits of a register. The
-- operations are the processor's and the C library's, so they are a parameter.
use zscript.Base.{
  ℕ, ◌≡◌, Bool, false, not, if◌then◌else◌, ◌==◌, ltb, leb, ◌≢◌, ◌-◌, ◌+◌, ◌*◌, ◌/◌, ◌%◌, arith, [],
  ◌∷◌,
}
use zscript.Base.Strings.{Text}

pub record Float64 : Type 0 where
  pub less : ℕ → ℕ → Bool
  pub less_or_equal : ℕ → ℕ → Bool
  pub equal : ℕ → ℕ → Bool
  pub plus : ℕ → ℕ → ℕ
  pub minus : ℕ → ℕ → ℕ
  pub times : ℕ → ℕ → ℕ
  pub over : ℕ → ℕ → ℕ
  pub fmod : ℕ → ℕ → ℕ
  -- the bits of 1.0; those of 0.0 are all zero
  pub one : ℕ
  -- `isnan`
  pub is_nan : ℕ → Bool
  -- `num_to_str`, which is `snprintf` of the value as an integer or a fraction
  pub num_to_str : ℕ → Text

-- IEEE 754: the order of two values neither of which is a NaN is total, and 1.0 has some bit set.
pub record IsIeee (f : Float64) : Type 0 where
  pub total :
      (a b : ℕ) → f.is_nan a ≡ false → f.is_nan b ≡ false → f.less_or_equal b a ≡ not (f.less a b)
  pub one_ne_zero : f.one ≢ 0

-- the value of a C comparison, stored as a `double`
abbrev pub of_bool : Float64 → Bool → ℕ
of_bool f b = if b then f.one else 0

-- whole numbers in place of the bit patterns, to run the model with
abbrev pub whole : Float64
whole = record {
  less = ltb;
  less_or_equal = leb;
  equal = ◌==◌;
  plus = ◌+◌;
  minus = ◌-◌;
  times = ◌*◌;
  over = ◌/◌;
  fmod = ◌%◌;
  one = 1;
  is_nan = λ a. false;
  num_to_str = λ a. a ∷ [];
}

pub whole-IsIeee : IsIeee whole
whole-IsIeee = record { total = λ a b h k. ground arith; one_ne_zero = ground arith }

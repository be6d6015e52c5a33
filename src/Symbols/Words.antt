-- ===== src/Symbols/Words.antt =====
-- Words and strings as the assembler writes them and the interpreter reads them
-- (src/program/Assembler.cpp, src/interpreter/object.c).
use zscript.Base.{
  ℕ, zero, suc, ◌+◌, ◌*◌, ◌/◌, ◌%◌, ◌^◌, ◌<◌, ◌≡◌, ◌≢◌, refl, some, List, [], ◌∷◌, ◌++◌, ◌>>=◌,
  arith, All,
}
use zscript.Base.Strings.{Text}
use zscript.Symbols.{word_bytes, word_of, read_string}

-- the value has no more than `n` bytes
unfoldable Fits : ℕ → ℕ → Type 0
Fits zero value = value ≡ 0
Fits (suc n) value = Fits n (value / 256)

word_of-word_bytes :
    (n value : ℕ) (rest : List ℕ)
    → Fits n value
    → word_of n (word_bytes n value ++ rest) ≡ some (value, rest)
unfolding word_of word_bytes Fits
word_of-word_bytes zero value rest h = rw h
word_of-word_bytes (suc n) value rest h =
    let e : value % 256 + 256 * (value / 256) ≡ value = omega arith in
    rw (word_of-word_bytes n (value / 256) rest h, ◌>>=◌, e)

-- A word of 64 bits reads back.
pub word64 :
    (value : ℕ) (rest : List ℕ)
    → value < 2 ^ 64
    → word_of 8 (word_bytes 8 value ++ rest) ≡ some (value, rest)
unfolding Fits
word64 value rest h = word_of-word_bytes 8 value rest (omega arith)

-- a C string has no zero inside
abbrev pub IsText : Text → Type 0
IsText t = All (λ c. c ≢ 0) t

pub read_string-append :
    (t : Text) (rest : List ℕ) → IsText t → read_string (t ++ 0 ∷ rest) ≡ some (t, rest)
unfolding read_string
read_string-append [] rest h = refl
read_string-append (zero ∷ t) rest h = absurd (h.0 refl)
read_string-append (suc c ∷ t) rest h = rw (read_string-append t rest h.1, ◌>>=◌)

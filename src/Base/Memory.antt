-- ===== src/Base/Memory.antt =====
-- Blocks of bytes, and the accesses of the C library to them. An access outside a block, and a
-- `memcpy` between overlapping regions, is undefined behaviour: `none`.
use Prim.Native.Nat.{ℕ, ◌+◌, ◌≤◌}
use mathlib.Core.Path.{◌≡◌, refl, sym, ◌∙◌}
use mathlib.Core.Bool.{true, ◌||◌}
use mathlib.Core.List.{List, [], ◌++◌, append-nil}
use mathlib.Core.Option.{Option, none, some}
use native.Mathlib.Omega.{arith}
use zscript.Base.Tests.{leb, if◌then◌else◌, ◌>>=◌}
use zscript.Base.Lists.{
  length, take, drop, replicate, length-append, length-take, length-replicate, take-append-drop,
  take-append_length, drop-append_length, drop-drop,
}

-- What `malloc` gives: a block of the size asked for, its bytes unspecified.
pub record Allocator : Type 0 where
  pub malloc : ℕ → List ℕ
  pub length-malloc : (n : ℕ) → length (malloc n) ≡ n

-- an allocator that clears its blocks
abbrev pub clearing : Allocator
clearing = record { malloc = λ n. replicate n 0; length-malloc = λ n. length-replicate n 0 }

-- `n` bytes from `off`
unfoldable pub read_bytes : List ℕ → (off n : ℕ) → Option (List ℕ)
read_bytes block off n =
    if leb (off + n) (length block) then some (take n (drop off block)) else none

-- the bytes of `from` go to `off`
unfoldable pub write_bytes : List ℕ → (off : ℕ) → List ℕ → Option (List ℕ)
write_bytes block off from =
    if leb (off + length from) (length block)
    then some (take off block ++ (from ++ drop (off + length from) block))
    else none

-- `memcpy(block + to, block + off, n)` within one block
unfoldable pub copy_within : List ℕ → (to off n : ℕ) → Option (List ℕ)
copy_within block to off n =
    if leb (to + n) off || leb (off + n) to
    then read_bytes block off n >>= write_bytes block to
    else none

pub read_bytes-append :
    (xs ys zs : List ℕ) (off n : ℕ)
    → off ≡ length xs
    → n ≡ length ys
    → read_bytes (xs ++ (ys ++ zs)) off n ≡ some ys
unfolding read_bytes
read_bytes-append xs ys zs off n e f =
    let fits : leb (off + n) (length (xs ++ (ys ++ zs))) ≡ true =
      ground (arith, length-append xs (ys ++ zs), length-append ys zs) in
    rw (fits, drop-append_length off xs (ys ++ zs) e, take-append_length n ys zs f)

pub read_bytes_all : (xs : List ℕ) (n : ℕ) → n ≡ length xs → read_bytes xs 0 n ≡ some xs
read_bytes_all xs n e =
    let whole : read_bytes (xs ++ []) 0 n ≡ some xs = read_bytes-append [] xs [] 0 n refl e in
    rw append-nil at whole

pub write_bytes-append :
    (xs ys zs from : List ℕ) (off : ℕ)
    → off ≡ length xs
    → length from ≡ length ys
    → write_bytes (xs ++ (ys ++ zs)) off from ≡ some (xs ++ (from ++ zs))
unfolding write_bytes
write_bytes-append xs ys zs from off e f =
    let fits : leb (off + length from) (length (xs ++ (ys ++ zs))) ≡ true =
      ground (arith, length-append xs (ys ++ zs), length-append ys zs) in
    let skip : drop (off + length from) (xs ++ (ys ++ zs)) ≡ zs =
      sym (drop-drop (length from) off (xs ++ (ys ++ zs)))
      ∙ rw (drop-append_length off xs (ys ++ zs) e) (drop-append_length (length from) ys zs f) in
    rw (fits, skip, take-append_length off xs (ys ++ zs) e)

-- Copying no bytes changes nothing.
pub copy_within_none :
    (block : List ℕ) (to off : ℕ)
    → to ≤ off
    → off ≤ length block
    → copy_within block to off 0 ≡ some block
unfolding copy_within read_bytes write_bytes
copy_within_none block to off before inside =
    let apart : leb (to + 0) off ≡ true = ground arith in
    let read : leb (off + 0) (length block) ≡ true = ground arith in
    let write : leb (to + 0) (length block) ≡ true = ground arith in
    let at : to + 0 ≡ to = omega arith in rw (apart, read, write, at, take-append-drop to block)

-- every list splits at a place inside it
pub split_room :
    (n : ℕ) (rest : List ℕ)
    → n ≤ length rest
    → (ys : List ℕ) × (zs : List ℕ) × (rest ≡ ys ++ zs) × (length ys ≡ n)
split_room n rest h =
    (take n rest, drop n rest, sym (take-append-drop n rest), omega (arith, length-take n rest))

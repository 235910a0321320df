-- ===== src/Base/Text.antt =====
-- The order of texts is strict and total; their size in bytes.
use Prim.Native.Nat.{ℕ, Ordering, ◌+◌, compare as compare_ℕ}
use Prim.Native.Char.{code}
use Prim.Native.String.compare
use Prim.Native.String.{String, [], ◌∷◌, compare, then}
use mathlib.Core.Path.{◌≡◌, refl}
use mathlib.Core.Bool.{true, false}
use native.Mathlib.Omega.{arith}
use text.Mathlib.TextEquality.{path_by_compare}
use nheko_library.Base.Tests.{str_lt, ltb}

abbrev flip : Ordering → Ordering
flip Ordering.lt = Ordering.gt
flip Ordering.eq = Ordering.eq
flip Ordering.gt = Ordering.lt

flip-then : (o p : Ordering) → flip (then o p) ≡ then (flip o) (flip p)
flip-then Ordering.lt p = refl
flip-then Ordering.eq p = refl
flip-then Ordering.gt p = refl

flip-compare_ℕ : (m n : ℕ) → compare_ℕ n m ≡ flip (compare_ℕ m n)
flip-compare_ℕ m n = ground arith

flip-compare : (s t : String) → compare t s ≡ flip (compare s t)
flip-compare [] [] = rw compare.nil-nil
flip-compare [] (d ∷ t) = rw (compare.nil-cons, compare.cons-nil)
flip-compare (c ∷ s) [] = rw (compare.nil-cons, compare.cons-nil)
flip-compare (c ∷ s) (d ∷ t) =
    rw (compare.cons-cons d c t s, compare.cons-cons c d s t, flip-then)
      (rw (flip-compare_ℕ (code c) (code d), flip-compare s t))

pub str_lt_asymm : (s t : String) → str_lt s t ≡ true → str_lt t s ≡ false
str_lt_asymm s t h = ground (arith, flip-compare s t)

pub str_lt_total : (s t : String) → str_lt s t ≡ false → str_lt t s ≡ false → s ≡ t
str_lt_total s t h k = path_by_compare s t (ground (arith, flip-compare s t))

pub str_lt_irrefl : (s : String) → str_lt s s ≡ false
str_lt_irrefl s = ground (arith, flip-compare s s)

lt-then :
    (c d e : ℕ) (o p q : Ordering)
    → then (compare_ℕ c d) o ≡ Ordering.lt
    → then (compare_ℕ d e) p ≡ Ordering.lt
    → (o ≡ Ordering.lt → p ≡ Ordering.lt → q ≡ Ordering.lt)
    → then (compare_ℕ c e) q ≡ Ordering.lt
lt-then c d e o p q h i next = ground (arith, next)

compare_trans :
    (s t u : String)
    → compare s t ≡ Ordering.lt
    → compare t u ≡ Ordering.lt
    → compare s u ≡ Ordering.lt
compare_trans [] [] u h i = i
compare_trans [] (d ∷ t) [] h i = absurd (ground (arith, rw (compare.cons-nil) at i))
compare_trans [] (d ∷ t) (e ∷ u) h i = rw compare.nil-cons refl
compare_trans (c ∷ s) [] u h i = absurd (ground (arith, rw (compare.cons-nil) at h))
compare_trans (c ∷ s) (d ∷ t) [] h i = absurd (ground (arith, rw (compare.cons-nil) at i))
compare_trans (c ∷ s) (d ∷ t) (e ∷ u) h i = rw (compare.cons-cons c e s u) (
    lt-then (code c) (code d) (code e) (compare s t) (compare t u) (compare s u)
      (rw (compare.cons-cons c d s t) at h) (rw (compare.cons-cons d e t u) at i)
      (compare_trans s t u))

pub str_lt_trans : (s t u : String) → str_lt s t ≡ true → str_lt t u ≡ true → str_lt s u ≡ true
str_lt_trans s t u h i = ground (arith, compare_trans s t u)

-- The bytes of a code point in UTF-8.
abbrev bytes : ℕ → ℕ
bytes n = elim (ltb n 128) [
  | true ↦ 1
  | false ↦ elim (ltb n 2048) [ true ↦ 2 | false ↦ elim (ltb n 65536) [ true ↦ 3 | false ↦ 4 ] ]
]

-- `std::string::size`.
abbrev pub byte_size : String → ℕ
byte_size [] = 0
byte_size (c ∷ s) = bytes (code c) + byte_size s

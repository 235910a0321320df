-- ===== src/Utils/FileSize.antt =====
-- `humanReadableFileSize`: which unit a size is shown in. The size is a double there, which a division by
-- 1024 leaves exact; rounding of the number of bytes, from 2^53 on, does not move it past a power of 1024
-- below the loop's bound. The digits are Qt's.
use nheko_library.Base.{
  ℕ, zero, suc, ◌/◌, ◌^◌, ◌≤◌, ◌<◌, String, List, [], ◌∷◌, ◌≡◌, ◌⊎◌, inl, inr, Option, none, some,
  leb, arith, Bool-cases, if◌then◌else◌,
}
use native.Mathlib.Nat.{pow-suc}

abbrev units : List String
units = "B" ∷ "KiB" ∷ "MiB" ∷ "GiB" ∷ "TiB" ∷ []

-- `units[u]`, which is undefined past the end.
unfoldable pub get_elem? : List String → ℕ → Option String
get_elem? [] i = none
get_elem? (x ∷ xs) zero = some x
get_elem? (x ∷ xs) (suc i) = get_elem? xs i

-- The loop from some `u` on, by what is left of `u < length`: how often it runs.
unfoldable pub divisions : (left : ℕ) → (size : ℕ) → ℕ
divisions zero size = 0
divisions (suc left) size =
    let rest = divisions left (size / 1024) in if leb 1024 size then suc rest else 0

abbrev pub unit_index : ℕ → ℕ
unit_index bytes = divisions 5 bytes

unfoldable pub unit_of : ℕ → Option String
unit_of bytes = get_elem? units (unit_index bytes)

divisions-exact :
    (left size : ℕ)
    → (divisions left size ≤ left)
      × ((divisions left size ≡ 0) ⊎ (1024 ^ divisions left size ≤ size))
      × ((divisions left size ≡ left) ⊎ (size < 1024 ^ suc (divisions left size)))
unfolding divisions
divisions-exact zero size = ground arith
divisions-exact (suc left) size = elim (Bool-cases (leb 1024 size)) [
  | inl e ↦
      (let u = divisions left (size / 1024) in
        rw e (
          ground
            (arith, e, divisions-exact left (size / 1024), pow-suc 1024 u, pow-suc 1024 (suc u))))
  | inr e ↦ rw e (ground (arith, e))
]

-- The unit that is due by the size in bytes. `none`: the array is read past its end.
pub data Due : ℕ → Option String → Type 0 where
  bytes_due : {n : ℕ} → n < 1024 → Due n (some "B")
  kib_due : {n : ℕ} → 2 ^ 10 ≤ n → n < 2 ^ 20 → Due n (some "KiB")
  mib_due : {n : ℕ} → 2 ^ 20 ≤ n → n < 2 ^ 30 → Due n (some "MiB")
  gib_due : {n : ℕ} → 2 ^ 30 ≤ n → n < 2 ^ 40 → Due n (some "GiB")
  tib_due : {n : ℕ} → 2 ^ 40 ≤ n → n < 2 ^ 50 → Due n (some "TiB")
  none_due : {n : ℕ} → 2 ^ 50 ≤ n → Due n none

elem-Due :
    (u bytes : ℕ)
    → u ≤ 5
    → (u ≡ 0) ⊎ (1024 ^ u ≤ bytes)
    → (u ≡ 5) ⊎ (bytes < 1024 ^ suc u)
    → Due bytes (get_elem? units u)
unfolding get_elem?
elem-Due zero bytes b l h = bytes_due (ground (arith, h))
elem-Due (suc zero) bytes b l h = kib_due (ground (arith, l)) (ground (arith, h))
elem-Due (suc (suc zero)) bytes b l h = mib_due (ground (arith, l)) (ground (arith, h))
elem-Due (suc (suc (suc zero))) bytes b l h = gib_due (ground (arith, l)) (ground (arith, h))
elem-Due (suc (suc (suc (suc zero)))) bytes b l h = tib_due (ground (arith, l)) (ground (arith, h))
elem-Due (suc (suc (suc (suc (suc zero))))) bytes b l h = none_due (ground (arith, l))
elem-Due (suc (suc (suc (suc (suc (suc k)))))) bytes b l h = absurd (ground (arith, b))

-- A size is shown in B below 2^10 bytes, in KiB from there on and below 2^20, in MiB below 2^30, in GiB
-- below 2^40, and in TiB below 2^50. From 2^50 bytes on the array of units is read past its end.
pub unit_of-exact : (bytes : ℕ) → Due bytes (unit_of bytes)
unfolding unit_of
unit_of-exact bytes =
    let d = divisions-exact 5 bytes in elem-Due (unit_index bytes) bytes d.0 d.1 d.2

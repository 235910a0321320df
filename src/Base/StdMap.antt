-- ===== src/Base/StdMap.antt =====
-- `std::map<std::string, V>`: an association list in the order of the keys.
use Prim.Native.Nat.{Ordering}
use Prim.Native.String.{String, compare}
use mathlib.Core.Path.{◌≡◌, refl}
use mathlib.Core.Logic.{◌⊎◌, inl, inr}
use mathlib.Core.Bool.{Bool, true, false}
use mathlib.Core.List.{List, [], ◌∷◌}
use mathlib.Core.Option.{Option, none, some}
use native.Mathlib.Omega.{arith}
use text.Mathlib.Text.{◌==◌}
use text.Mathlib.TextEquality.{eq_iff}
use nheko_library.Base.Tests.{if◌then◌else◌, Bool-cases}

abbrev pub Map {ℓ} : Type ℓ → Type ℓ
Map V = List (String × V)

module _ {ℓ} {V : Type ℓ} where
  -- `find`, `at`: `none` is `end()`, or the exception.
  abbrev pub lookup : String → Map V → Option V
  lookup k [] = none
  lookup k ((j, v) ∷ m) = if j == k then some v else lookup k m

  -- `count(k) != 0`.
  abbrev pub has : String → Map V → Bool
  has k [] = false
  has k ((j, v) ∷ m) = if j == k then true else has k m

  -- `m[k] = v`: keys stay in order, and an old value is replaced.
  abbrev pub insert : String → V → Map V → Map V
  insert k v [] = (k, v) ∷ []
  insert k v ((j, w) ∷ m) =
      let rest = insert k v m in
      elim (compare k j) [
        | Ordering.lt ↦ (k, v) ∷ (j, w) ∷ m
        | Ordering.eq ↦ (k, v) ∷ m
        | Ordering.gt ↦ (j, w) ∷ rest
      ]

  pub lookup-insert :
      (k j : String) (v : V) (m : Map V)
      → lookup j (insert k v m) ≡ (if k == j then some v else lookup j m)
  lookup-insert k j v [] = refl
  lookup-insert k j v ((i, w) ∷ m) =
      ground (arith, eq_iff k j, eq_iff i k, eq_iff i j, eq_iff k i, lookup-insert k j v m)

  pub has-insert :
      (k j : String) (v : V) (m : Map V) → has j (insert k v m) ≡ (if k == j then true else has j m)
  has-insert k j v [] = refl
  has-insert k j v ((i, w) ∷ m) =
      ground (arith, eq_iff k j, eq_iff i k, eq_iff i j, eq_iff k i, has-insert k j v m)

  -- A key that `count` finds can be read.
  pub has-lookup : (k : String) (m : Map V) → has k m ≡ true → (v : V) × (lookup k m ≡ some v)
  has-lookup k [] h = ground arith
  has-lookup k ((j, v) ∷ m) h = elim (Bool-cases (j == k)) [
    | inl hit ↦ (v, rw hit)
    | inr miss ↦ rw miss (has-lookup k m (rw miss at h))
  ]

  -- `erase(k)`.
  abbrev pub erase : String → Map V → Map V
  erase k [] = []
  erase k ((j, v) ∷ m) = let rest = erase k m in if j == k then rest else (j, v) ∷ rest

  pub lookup-erase :
      (k j : String) (m : Map V) → lookup j (erase k m) ≡ (if k == j then none else lookup j m)
  lookup-erase k j [] = ground arith
  lookup-erase k j ((i, w) ∷ m) =
      ground (arith, eq_iff k j, eq_iff i k, eq_iff i j, eq_iff k i, lookup-erase k j m)

  -- What an insertion leaves readable is what was put, or what was there.
  pub insert-cases :
      (k j : String) (v w : V) (m : Map V)
      → lookup j (insert k v m) ≡ some w
      → ((k ≡ j) × (v ≡ w)) ⊎ (lookup j m ≡ some w)
  insert-cases k j v w m h = elim (Bool-cases (k == j)) [
    | inl same ↦ inl ((eq_iff k j).0 same, ground (arith, same, lookup-insert k j v m, h))
    | inr differs ↦ inr (ground (arith, differs, lookup-insert k j v m, h))
  ]

  pub lookup-has : (k : String) (v : V) (m : Map V) → lookup k m ≡ some v → has k m ≡ true
  lookup-has k v [] h = absurd (ground arith)
  lookup-has k v ((j, w) ∷ m) h = ground (arith, lookup-has k v m)

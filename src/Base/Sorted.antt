-- ===== src/Base/Sorted.antt =====
-- The keys of a `std::map` are in order, and insertion keeps them so.
use Prim.Native.Nat.{Ordering}
use Prim.Native.String.{String, compare}
use mathlib.Core.Path.{◌≡◌, refl, sym, subst}
use mathlib.Core.Bool.{true}
use mathlib.Core.List.{[], ◌∷◌}
use native.Mathlib.Omega.{arith}
use text.Mathlib.TextEquality.{eq_iff, path_by_compare}
use nheko_library.Base.Tests.{str_lt}
use nheko_library.Base.Text.{str_lt_trans, str_lt_total}
use nheko_library.Base.StdMap.{Map, has, insert, has-insert}

module _ {ℓ} {V : Type ℓ} where
  -- The key comes before all of the map.
  abbrev pub IsBefore : String → Map V → Type 0
  IsBefore k m = (j : String) → has j m ≡ true → str_lt k j ≡ true

  abbrev pub IsSorted : Map V → Type 0
  IsSorted [] = Unit {0}
  IsSorted ((k, _) ∷ m) = IsBefore k m × IsSorted m

  abbrev pub place : String → V → String → V → (m rest : Map V) → Ordering → Map V
  place k v j w m rest Ordering.lt = (k, v) ∷ (j, w) ∷ m
  place k v j w m rest Ordering.eq = (k, v) ∷ m
  place k v j w m rest Ordering.gt = (j, w) ∷ rest

  place-IsSorted :
      (k : String) (v : V) (j : String) (w : V) (m rest : Map V) (o : Ordering)
      → compare k j ≡ o
      → IsBefore j m
      → IsSorted m
      → (compare k j ≡ Ordering.gt → IsBefore j rest)
      → IsSorted rest
      → IsSorted (place k v j w m rest o)
  place-IsSorted k v j w m rest Ordering.lt at before sorted before' sorted' =
      (λ i h. ground (arith, at, h, before i, str_lt_trans k j i, eq_iff j i), (before, sorted))
  place-IsSorted k v j w m rest Ordering.eq at before sorted before' sorted' =
      (λ i h. rw (path_by_compare k j at) (before i h), sorted)
  place-IsSorted k v j w m rest Ordering.gt at before sorted before' sorted' = (before' at, sorted')

  pub insert-place :
      (k : String) (v : V) (j : String) (w : V) (m : Map V)
      → insert k v ((j, w) ∷ m) ≡ place k v j w m (insert k v m) (compare k j)
  insert-place k v j w m = ground arith

  insert-IsBefore :
      (k : String) (v : V) (j : String) (m : Map V)
      → compare k j ≡ Ordering.gt
      → IsBefore j m
      → IsBefore j (insert k v m)
  insert-IsBefore k v j m at before i h =
      ground (arith, at, h, has-insert k i v m, before i, str_lt_total j k, eq_iff k i, eq_iff j k)

  pub insert-IsSorted : (k : String) (v : V) (m : Map V) → IsSorted m → IsSorted (insert k v m)
  insert-IsSorted k v [] sorted = (λ j h. absurd (ground arith), tt)
  insert-IsSorted k v ((j, w) ∷ m) (before, sorted) =
      subst IsSorted (sym (insert-place k v j w m)) (
        place-IsSorted k v j w m (insert k v m) (compare k j) refl before sorted
          (λ at. insert-IsBefore k v j m at before) (insert-IsSorted k v m sorted))

-- ===== src/Cache/Lmdb.antt =====
-- What the cache uses of LMDB, a library: tables with integer keys in their order, tables with texts as
-- keys, and tables in which a key has several values.
use nheko_library.Base.{
  ℕ, ◌≤◌, String, List, [], ◌∷◌, ◌⊎◌, ◌≡◌, Option, none, some, ◌==◌, str_eq, if◌then◌else◌,
}

-- An entry with this key and this value stands in a list of entries.
abbrev pub Listed : {V : Type 0} → ℕ → V → List (ℕ × V) → Type 0
Listed k v [] = ⊥
Listed k v ((j, w) ∷ es) = ((j ≡ k) × (w ≡ v)) ⊎ Listed k v es

-- Tables whose keys are `uint64_t`: `MDB_FIRST` and `MDB_LAST` find the least and the greatest.
pub record Indexed (V : Type 0) : Type 1 where
  pub Table : Type 0
  pub empty : Table
  pub get : ℕ → Table → Option V
  pub put : ℕ → V → Table → Table
  pub del : ℕ → Table → Table
  pub first : Table → Option ℕ
  pub last : Table → Option ℕ
  pub entries : Table → List (ℕ × V)  -- `MDB_NEXT` from the first on
  pub get-empty : (j : ℕ) → get j empty ≡ none
  pub get-put :
      (k j : ℕ) (v : V) (t : Table) → get j (put k v t) ≡ (if k == j then some v else get j t)
  pub get-del : (k j : ℕ) (t : Table) → get j (del k t) ≡ (if k == j then none else get j t)
  pub entries-get : (k : ℕ) (v : V) (t : Table) → get k t ≡ some v → Listed k v (entries t)
  pub last-none : (j : ℕ) (t : Table) → last t ≡ none → get j t ≡ none
  pub first-none : (j : ℕ) (t : Table) → first t ≡ none → get j t ≡ none
  pub last-some : (k : ℕ) (t : Table) → last t ≡ some k → (v : V) × (get k t ≡ some v)
  pub first-some : (k : ℕ) (t : Table) → first t ≡ some k → (v : V) × (get k t ≡ some v)
  pub last-le : (k j : ℕ) (v : V) (t : Table) → last t ≡ some k → get j t ≡ some v → j ≤ k
  pub first-le : (k j : ℕ) (v : V) (t : Table) → first t ≡ some k → get j t ≡ some v → k ≤ j

pub record Named (V : Type 0) : Type 1 where
  pub Table : Type 0
  pub empty : Table
  pub get : String → Table → Option V
  pub put : String → V → Table → Table
  pub del : String → Table → Table
  pub get-empty : (j : String) → get j empty ≡ none
  pub get-put :
      (k j : String) (v : V) (t : Table)
      → get j (put k v t) ≡ (if str_eq k j then some v else get j t)
  pub get-del :
      (k j : String) (t : Table) → get j (del k t) ≡ (if str_eq k j then none else get j t)

-- Tables opened with `MDB_DUPSORT`.
pub record Several : Type 1 where
  pub Table : Type 0
  pub put : (key value : String) → Table → Table
  pub del : (key value : String) → Table → Table
  pub values : (key : String) → Table → List String  -- `MDB_FIRST_DUP`, then `MDB_NEXT_DUP`

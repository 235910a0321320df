-- ===== src/Cache/ListTables.antt =====
-- Tables as association lists, to run the cache on: what LMDB promises can be kept.
use nheko_library.Base.{
  ℕ, ◌≤◌, ◌≡◌, refl, String, List, [], ◌∷◌, Option, none, some, true, ltb, ◌==◌, str_eq,
  if◌then◌else◌, arith, eq_iff, Bool-cases, Option-cases, inl, inr, ◌&&◌,
}
use nheko_library.Cache.Lmdb.{Listed, Indexed, Named, Several}
use nheko_library.Cache.Coherence.{is_some}
use nheko_library.Cache.Room.{OrderEntry, Tables}

module _ {V : Type 0} where
  abbrev find : ℕ → List (ℕ × V) → Option V
  find j [] = none
  find j ((k, v) ∷ t) = if k == j then some v else find j t

  abbrev put : ℕ → V → List (ℕ × V) → List (ℕ × V)
  put k v [] = (k, v) ∷ []
  put k v ((j, w) ∷ t) =
      let rest = put k v t in
      if ltb k j then (k, v) ∷ (j, w) ∷ t else if k == j then (k, v) ∷ t else (j, w) ∷ rest

  abbrev del : ℕ → List (ℕ × V) → List (ℕ × V)
  del k [] = []
  del k ((j, w) ∷ t) = let rest = del k t in if k == j then rest else (j, w) ∷ rest

  abbrev least : List (ℕ × V) → Option ℕ
  least [] = none
  least ((k, v) ∷ t) = elim (least t) [ none ↦ some k | some j ↦ some (if ltb j k then j else k) ]

  abbrev greatest : List (ℕ × V) → Option ℕ
  greatest [] = none
  greatest ((k, v) ∷ t) = elim (greatest t) [
    | none ↦ some k
    | some j ↦ some (if ltb k j then j else k)
  ]

  pub find-put :
      (k j : ℕ) (v : V) (t : List (ℕ × V))
      → find j (put k v t) ≡ (if k == j then some v else find j t)
  find-put k j v [] = refl
  find-put k j v ((i, w) ∷ t) = ground (arith, find-put k j v t)

  pub find-del :
      (k j : ℕ) (t : List (ℕ × V)) → find j (del k t) ≡ (if k == j then none else find j t)
  find-del k j [] = ground arith
  find-del k j ((i, w) ∷ t) = ground (arith, find-del k j t)

  pub find-Listed : (k : ℕ) (v : V) (t : List (ℕ × V)) → find k t ≡ some v → Listed k v t
  find-Listed k v [] h = ground arith
  find-Listed k v ((j, w) ∷ t) h = elim (Bool-cases (j == k)) [
    | inl e ↦ inl ((ground arith, ground (arith, rw e at h)))
    | inr e ↦ inr (find-Listed k v t (rw e at h))
  ]

  pub least-none : (j : ℕ) (t : List (ℕ × V)) → least t ≡ none → find j t ≡ none
  least-none j [] h = refl
  least-none j ((k, v) ∷ t) h = ground arith

  pub greatest-none : (j : ℕ) (t : List (ℕ × V)) → greatest t ≡ none → find j t ≡ none
  greatest-none j [] h = refl
  greatest-none j ((k, v) ∷ t) h = ground arith

  pub least-le : (k j : ℕ) (v : V) (t : List (ℕ × V)) → least t ≡ some k → find j t ≡ some v → k ≤ j
  least-le k j v [] h f = ground arith
  least-le k j v ((i, w) ∷ t) h f = elim (Option-cases (least t)) [
    | inl e ↦ ground (arith, e, least-none j t)
    | inr (m, e) ↦ ground (arith, e, least-le m j v t e)
  ]

  pub greatest-le :
      (k j : ℕ) (v : V) (t : List (ℕ × V)) → greatest t ≡ some k → find j t ≡ some v → j ≤ k
  greatest-le k j v [] h f = ground arith
  greatest-le k j v ((i, w) ∷ t) h f = elim (Option-cases (greatest t)) [
    | inl e ↦ ground (arith, e, greatest-none j t)
    | inr (m, e) ↦ ground (arith, e, greatest-le m j v t e)
  ]

  pub least-some : (k : ℕ) (t : List (ℕ × V)) → least t ≡ some k → is_some (find k t) ≡ true
  least-some k [] h = ground arith
  least-some k ((i, w) ∷ t) h = elim (Option-cases (least t)) [
    | inl e ↦ ground (arith, e)
    | inr (m, e) ↦ ground (arith, e, least-some m t e)
  ]

  pub greatest-some : (k : ℕ) (t : List (ℕ × V)) → greatest t ≡ some k → is_some (find k t) ≡ true
  greatest-some k [] h = ground arith
  greatest-some k ((i, w) ∷ t) h = elim (Option-cases (greatest t)) [
    | inl e ↦ ground (arith, e)
    | inr (m, e) ↦ ground (arith, e, greatest-some m t e)
  ]

  pub found : (o : Option V) → is_some o ≡ true → (v : V) × (o ≡ some v)
  found none h = ground arith
  found (some v) h = (v, refl)

  abbrev by_text : String → List (String × V) → Option V
  by_text j [] = none
  by_text j ((k, v) ∷ t) = if str_eq k j then some v else by_text j t

  abbrev del_text : String → List (String × V) → List (String × V)
  del_text k [] = []
  del_text k ((j, w) ∷ t) = let rest = del_text k t in if str_eq k j then rest else (j, w) ∷ rest

  pub by_text-del :
      (k j : String) (t : List (String × V))
      → by_text j (del_text k t) ≡ (if str_eq k j then none else by_text j t)
  by_text-del k j [] = ground arith
  by_text-del k j ((i, w) ∷ t) =
      ground (arith, by_text-del k j t, eq_iff k j, eq_iff i j, eq_iff k i)

  pub by_text-put :
      (k j : String) (v : V) (t : List (String × V))
      → by_text j ((k, v) ∷ del_text k t) ≡ (if str_eq k j then some v else by_text j t)
  by_text-put k j v t = ground (arith, by_text-del k j t)

abbrev drop_pair : (key value : String) → List (String × String) → List (String × String)
drop_pair k v [] = []
drop_pair k v ((j, w) ∷ t) =
    let rest = drop_pair k v t in if str_eq j k && str_eq w v then rest else (j, w) ∷ rest

abbrev values_of : String → List (String × String) → List String
values_of k [] = []
values_of k ((j, v) ∷ t) = let rest = values_of k t in if str_eq j k then v ∷ rest else rest

abbrev indexed : (V : Type 0) → Indexed V
indexed V = record {
  Table = List (ℕ × V);
  empty = [];
  get = find;
  put = put;
  del = del;
  first = least;
  last = greatest;
  entries = λ t. t;
  get-empty = λ j. refl;
  get-put = find-put;
  get-del = find-del;
  entries-get = find-Listed;
  last-none = greatest-none;
  first-none = least-none;
  last-some = λ k t h. found (find k t) (greatest-some k t h);
  first-some = λ k t h. found (find k t) (least-some k t h);
  last-le = greatest-le;
  first-le = least-le;
}

abbrev named : (V : Type 0) → Named V
named V = record {
  Table = List (String × V);
  empty = [];
  get = by_text;
  put = λ k v t. (k, v) ∷ del_text k t;
  del = del_text;
  get-empty = λ j. refl;
  get-put = by_text-put;
  get-del = by_text-del;
}

abbrev pairs : Several
pairs = record {
  Table = List (String × String);
  put = λ k v t. (k, v) ∷ t;
  del = λ k v t. drop_pair k v t;
  values = values_of;
}

abbrev pub list_tables : Tables
list_tables = record {
  order = indexed OrderEntry;
  messages = indexed String;
  indices = named ℕ;
  events = named String;
  pending = indexed String;
  related = pairs;
}

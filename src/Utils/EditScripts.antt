-- ===== src/Utils/EditScripts.antt =====
-- `levenshtein_distance`: edits of a text one by one, and how few make it a piece of another.
use mathlib.Core.Path.{subst}
use nheko_library.Base.{
  ℕ, suc, ◌+◌, ◌≤◌, List, [], ◌∷◌, ◌++◌, ◌≡◌, refl, ap, ◌==◌, leb, arith, length, Bool-cases, inl,
  inr,
}
use nheko_library.Utils.Distance.{min, cost, edits}

-- So many edits make the one text out of the other: characters are dropped, added, kept or changed.
pub data Edits : ℕ → (xs ys : List ℕ) → Type 0 where
  nothing : Edits 0 [] []
  drop : (n x : ℕ) (xs ys : List ℕ) → Edits n xs ys → Edits (suc n) (x ∷ xs) ys
  add : (n y : ℕ) (xs ys : List ℕ) → Edits n xs ys → Edits (suc n) xs (y ∷ ys)
  keep : (n x : ℕ) (xs ys : List ℕ) → Edits n xs ys → Edits n (x ∷ xs) (x ∷ ys)
  change : (n x y : ℕ) (xs ys : List ℕ) → Edits n xs ys → Edits (suc n) (x ∷ xs) (y ∷ ys)

-- So many edits make the first text a piece of the second.
pub record Away (n : ℕ) (s1 s2 : List ℕ) : Type 0 where
  pub before : List ℕ
  pub piece : List ℕ
  pub after : List ℕ
  pub joined : s2 ≡ before ++ (piece ++ after)
  pub script : Edits n s1 piece

-- The same of a piece at the front.
pub record Fits (n : ℕ) (xs ys : List ℕ) : Type 0 where
  pub front : List ℕ
  pub rest : List ℕ
  pub is : ys ≡ front ++ rest
  pub fits : Edits n xs front

Fits-drop : (n x : ℕ) (xs ys : List ℕ) → Fits n xs ys → Fits (n + 1) (x ∷ xs) ys
Fits-drop n x xs ys f = record {
  front = f.front;
  rest = f.rest;
  is = f.is;
  fits = subst (λ m. Edits m (x ∷ xs) f.front) (omega arith) (drop n x xs f.front f.fits);
}

Fits-add : (n y : ℕ) (xs ys : List ℕ) → Fits n xs ys → Fits (n + 1) xs (y ∷ ys)
Fits-add n y xs ys f = record {
  front = y ∷ f.front;
  rest = f.rest;
  is = ap (λ l. y ∷ l) f.is;
  fits = subst (λ m. Edits m xs (y ∷ f.front)) (omega arith) (add n y xs f.front f.fits);
}

edits-cost : (n x y : ℕ) (xs ys : List ℕ) → Edits n xs ys → Edits (n + cost x y) (x ∷ xs) (y ∷ ys)
edits-cost n x y xs ys e = elim (Bool-cases (x == y)) [
  | inl same ↦ rw same (
      subst (λ z. Edits (n + 0) (x ∷ xs) (z ∷ ys)) (ground (arith, same))
        (subst (λ m. Edits m (x ∷ xs) (x ∷ ys)) (omega arith) (keep n x xs ys e)))
  | inr differ ↦
      rw differ (subst (λ m. Edits m (x ∷ xs) (y ∷ ys)) (omega arith) (change n x y xs ys e))
]

Fits-cost : (n x y : ℕ) (xs ys : List ℕ) → Fits n xs ys → Fits (n + cost x y) (x ∷ xs) (y ∷ ys)
Fits-cost n x y xs ys f = record {
  front = y ∷ f.front;
  rest = f.rest;
  is = ap (λ l. y ∷ l) f.is;
  fits = edits-cost n x y xs f.front f.fits;
}

drops : (xs : List ℕ) → Edits (length xs) xs []
drops [] = nothing
drops (x ∷ xs) = drop (length xs) x xs [] (drops xs)

pub min-either {ℓ} : (P : ℕ → Type ℓ) (a b : ℕ) → P a → P b → P (min a b)
min-either P a b p q = elim (Bool-cases (leb a b)) [ inl l ↦ rw l p | inr l ↦ rw l q ]

pub edits-Fits : (xs ys : List ℕ) → Fits (edits xs ys) xs ys
unfolding edits
edits-Fits [] ys = record { front = []; rest = ys; is = refl; fits = nothing }
edits-Fits (x ∷ xs) [] = record { front = []; rest = []; is = refl; fits = drops (x ∷ xs) }
edits-Fits (x ∷ xs) (y ∷ ys) =
    min-either (λ n. Fits n (x ∷ xs) (y ∷ ys)) _ _
      (Fits-drop _ x xs (y ∷ ys) (edits-Fits xs (y ∷ ys)))
      (min-either (λ n. Fits n (x ∷ xs) (y ∷ ys)) _ _
        (Fits-add _ y (x ∷ xs) ys (edits-Fits (x ∷ xs) ys))
        (Fits-cost _ x y xs ys (edits-Fits xs ys)))

edits-all : (xs : List ℕ) → edits xs [] ≡ length xs
unfolding edits
edits-all [] = refl
edits-all (x ∷ xs) = refl

edits-drop : (x : ℕ) (xs ys : List ℕ) → edits (x ∷ xs) ys ≤ suc (edits xs ys)
unfolding edits
edits-drop x xs [] = omega (arith, edits-all xs)
edits-drop x xs (y ∷ ys) = ground arith

edits-add : (y : ℕ) (xs ys : List ℕ) → edits xs (y ∷ ys) ≤ suc (edits xs ys)
unfolding edits
edits-add y [] ys = omega arith
edits-add y (x ∷ xs) ys = ground arith

edits-keep : (x : ℕ) (xs ys : List ℕ) → edits (x ∷ xs) (x ∷ ys) ≤ edits xs ys
unfolding edits
edits-keep x xs ys = ground arith

edits-change : (x y : ℕ) (xs ys : List ℕ) → edits (x ∷ xs) (y ∷ ys) ≤ suc (edits xs ys)
unfolding edits
edits-change x y xs ys = ground arith

edits-none : (ys : List ℕ) → edits [] ys ≤ 0
unfolding edits
edits-none ys = omega arith

pub edits-least : (q : List ℕ) {n : ℕ} {xs p : List ℕ} → Edits n xs p → edits xs (p ++ q) ≤ n
edits-least q nothing = edits-none q
edits-least q (drop n x xs p e) = omega (arith, edits-drop x xs (p ++ q), edits-least q e)
edits-least q (add n y xs p e) = omega (arith, edits-add y xs (p ++ q), edits-least q e)
edits-least q (keep n x xs p e) = omega (arith, edits-keep x xs (p ++ q), edits-least q e)
edits-least q (change n x y xs p e) = omega (arith, edits-change x y xs (p ++ q), edits-least q e)

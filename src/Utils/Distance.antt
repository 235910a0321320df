-- ===== src/Utils/Distance.antt =====
-- `levenshtein_distance`, over the bytes of the texts, and a definition by recursion on both texts that
-- it computes row by row. The rows are `int`s there, which texts of less than 2^31 bytes do not exceed.
use nheko_library.Base.{
  ℕ, suc, ◌+◌, List, [], ◌∷◌, ◌++◌, ◌≡◌, ◌≢◌, refl, ap, sym, ◌∙◌, Option, none, some, Bool, true,
  not, ◌&&◌, ◌==◌, leb, arith, if◌then◌else◌, length,
}

abbrev pub min : ℕ → ℕ → ℕ
min a b = if leb a b then a else b

abbrev pub cost : ℕ → ℕ → ℕ
cost x y = if x == y then 0 else 1

-- One turn of the outer loop: `row2` behind its last cell so far, from what is left of `row1` and `s2`.
unfoldable pub next_cells : (x last : ℕ) → (row1 s2 : List ℕ) → List ℕ
next_cells x last (p ∷ q ∷ row1) (y ∷ s2) =
    let cell = min (q + 1) (min (last + 1) (p + cost x y)) in cell ∷ next_cells x cell (q ∷ row1) s2
next_cells x last row1 s2 = []

unfoldable pub next_row : ℕ → ℕ → List ℕ → List ℕ → List ℕ
next_row i x row1 s2 = suc i ∷ next_cells x (suc i) row1 s2

-- The outer loop from some `i` on.
unfoldable pub last_row : ℕ → (s1 row1 s2 : List ℕ) → List ℕ
last_row i [] row1 s2 = row1
last_row i (x ∷ s1) row1 s2 = last_row (suc i) s1 (next_row i x row1 s2) s2

unfoldable pub zeros : List ℕ → List ℕ
zeros [] = 0 ∷ []
zeros (y ∷ s2) = 0 ∷ zeros s2

unfoldable pub min_element : ℕ → List ℕ → ℕ
min_element m [] = m
min_element m (n ∷ ns) = min_element (min m n) ns

unfoldable pub find_from : ℕ → ℕ → List ℕ → Option ℕ
find_from i x [] = none
find_from i x (y ∷ s2) = let rest = find_from (suc i) x s2 in if x == y then some i else rest

unfoldable pub min_of : List ℕ → ℕ
min_of [] = 0
min_of (n ∷ ns) = min_element n ns

-- `none` is -1.
unfoldable pub levenshtein_distance : (s1 s2 : List ℕ) → Option ℕ
levenshtein_distance s1 [] = none
levenshtein_distance (x ∷ []) s2 = find_from 0 x s2
levenshtein_distance s1 s2 = some (min_of (last_row 0 s1 (zeros s2) s2))

-- The least number of edits that make the one text, `xs`, out of some end of the other, `ys`. Both are
-- read from their ends: the last character stands first.
unfoldable pub edits : (xs ys : List ℕ) → ℕ
edits [] ys = 0
edits (x ∷ xs) [] = suc (length xs)
edits (x ∷ xs) (y ∷ ys) =
    min (edits xs (y ∷ ys) + 1) (min (edits (x ∷ xs) ys + 1) (edits xs ys + cost x y))

-- The edits for every beginning of a text, of which the characters before are given from the last on.
unfoldable pub edits_row : (xs before s2 : List ℕ) → List ℕ
edits_row xs before [] = edits xs before ∷ []
edits_row xs before (y ∷ s2) = edits xs before ∷ edits_row xs (y ∷ before) s2

unfoldable pub reversed_onto : List ℕ → List ℕ → List ℕ
reversed_onto [] ys = ys
reversed_onto (x ∷ xs) ys = reversed_onto xs (x ∷ ys)

next_cells-edits_row :
    (x last p : ℕ) (xs before s2 : List ℕ) (y : ℕ)
    → let cell = min (edits xs before + 1) (min (last + 1) (p + cost x y)) in
      next_cells x last (p ∷ edits_row xs before s2) (y ∷ s2)
      ≡ cell ∷ next_cells x cell (edits_row xs before s2) s2
unfolding next_cells edits_row
next_cells-edits_row x last p xs before [] y = refl
next_cells-edits_row x last p xs before (z ∷ s2) y = refl

edits_row-cells :
    (x : ℕ) (xs before s2 : List ℕ)
    → edits_row (x ∷ xs) before s2
      ≡ edits (x ∷ xs) before ∷ next_cells x (edits (x ∷ xs) before) (edits_row xs before s2) s2
unfolding edits_row edits next_cells
edits_row-cells x xs before [] = refl
edits_row-cells x xs before (y ∷ s2) =
    ap (λ l. edits (x ∷ xs) before ∷ l)
      (edits_row-cells x xs (y ∷ before) s2
        ∙ sym
            (next_cells-edits_row x (edits (x ∷ xs) before) (edits xs before) xs (y ∷ before) s2 y))

last_row-edits :
    (s1 xs s2 : List ℕ)
    → last_row (length xs) s1 (edits_row xs [] s2) s2 ≡ edits_row (reversed_onto s1 xs) [] s2
unfolding last_row next_row reversed_onto edits
last_row-edits [] xs s2 = refl
last_row-edits (x ∷ s1) xs s2 =
    ap (λ r. last_row (suc (length xs)) s1 r s2) (sym (edits_row-cells x xs [] s2))
    ∙ last_row-edits s1 (x ∷ xs) s2

zeros-edits_row : (before s2 : List ℕ) → zeros s2 ≡ edits_row [] before s2
unfolding zeros edits_row edits
zeros-edits_row before [] = refl
zeros-edits_row before (y ∷ s2) = ap (λ l. 0 ∷ l) (zeros-edits_row (y ∷ before) s2)

rows : (s1 s2 : List ℕ) → last_row 0 s1 (zeros s2) s2 ≡ edits_row (reversed_onto s1 []) [] s2
rows s1 s2 = ap (λ r. last_row 0 s1 r s2) (zeros-edits_row [] s2) ∙ last_row-edits s1 [] s2

pub levenshtein_distance-rows :
    (s1 s2 : List ℕ)
    → length s1 ≢ 1
    → s2 ≢ []
    → levenshtein_distance s1 s2 ≡ some (min_of (edits_row (reversed_onto s1 []) [] s2))
unfolding levenshtein_distance
levenshtein_distance-rows s1 [] n m = ground (arith, m)
levenshtein_distance-rows [] (y ∷ s2) n m = ap (λ r. some (min_of r)) (rows [] (y ∷ s2))
levenshtein_distance-rows (x ∷ []) (y ∷ s2) n m = ground (arith, n)
levenshtein_distance-rows (x ∷ x' ∷ s1) (y ∷ s2) n m =
    ap (λ r. some (min_of r)) (rows (x ∷ x' ∷ s1) (y ∷ s2))

abbrev pub absent : ℕ → List ℕ → Bool
absent x [] = true
absent x (y ∷ ys) = not (x == y) && absent x ys

find_from-first :
    (i x : ℕ) (before after : List ℕ)
    → absent x before ≡ true
    → find_from i x (before ++ x ∷ after) ≡ some (i + length before)
unfolding find_from
find_from-first i x [] after a = ground arith
find_from-first i x (y ∷ before) after a = ground (arith, a, find_from-first (suc i) x before after)

one_character :
    (x : ℕ) (before after : List ℕ)
    → levenshtein_distance (x ∷ []) (before ++ x ∷ after) ≡ find_from 0 x (before ++ x ∷ after)
unfolding levenshtein_distance
one_character x [] after = refl
one_character x (y ∷ before) after = refl

-- For a first text of one character the function gives the place where the character first stands, by
-- which a piece of the second text that needs no edit at all comes out as far away as it stands.
pub levenshtein_distance-place :
    (x : ℕ) (before after : List ℕ)
    → absent x before ≡ true
    → (levenshtein_distance (x ∷ []) (before ++ x ∷ after) ≡ some (length before))
      × (edits (x ∷ []) (x ∷ reversed_onto before []) ≡ 0)
unfolding levenshtein_distance edits
levenshtein_distance-place x before after a = (
  one_character x before after ∙ find_from-first 0 x before after a ∙ ap some (omega arith),
  ground arith,
)

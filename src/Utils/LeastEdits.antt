-- ===== src/Utils/LeastEdits.antt =====
-- `levenshtein_distance`: the least of its rows, and the least number of edits.
use mathlib.Core.Path.{subst}
use mathlib.Core.List.{append_assoc, append-nil}
use nheko_library.Base.{
  ℕ, suc, ◌+◌, ◌≤◌, List, [], ◌∷◌, ◌++◌, ◌≡◌, ◌≢◌, refl, ap, sym, ◌∙◌, arith, length, inl, inr, ◌⊎◌,
  some,
}
use nheko_library.Utils.Distance.{
  min, edits, edits_row, reversed_onto, min_of, min_element, levenshtein_distance,
  levenshtein_distance-rows,
}
use nheko_library.Utils.EditScripts.{
  Edits, nothing, drop, add, keep, change, Away, min-either, edits-Fits, edits-least,
}

-- Edits of two texts read from their ends.
reversed-Edits :
    {n : ℕ} {xs ys : List ℕ} (m : ℕ) (zs ws : List ℕ)
    → Edits n xs ys
    → Edits m zs ws
    → Edits (n + m) (reversed_onto xs zs) (reversed_onto ys ws)
unfolding reversed_onto
reversed-Edits m zs ws nothing d = subst (λ k. Edits k zs ws) (omega arith) d
reversed-Edits m zs ws (drop n x xs ys e) d =
    subst (λ k. Edits k (reversed_onto xs (x ∷ zs)) (reversed_onto ys ws)) (omega arith)
      (reversed-Edits (suc m) (x ∷ zs) ws e (drop m x zs ws d))
reversed-Edits m zs ws (add n y xs ys e) d =
    subst (λ k. Edits k (reversed_onto xs zs) (reversed_onto ys (y ∷ ws))) (omega arith)
      (reversed-Edits (suc m) zs (y ∷ ws) e (add m y zs ws d))
reversed-Edits m zs ws (keep n x xs ys e) d =
    reversed-Edits m (x ∷ zs) (x ∷ ws) e (keep m x zs ws d)
reversed-Edits m zs ws (change n x y xs ys e) d =
    subst (λ k. Edits k (reversed_onto xs (x ∷ zs)) (reversed_onto ys (y ∷ ws))) (omega arith)
      (reversed-Edits (suc m) (x ∷ zs) (y ∷ ws) e (change m x y zs ws d))

reversed-Edits_whole :
    {n : ℕ} {xs ys : List ℕ} → Edits n xs ys → Edits n (reversed_onto xs []) (reversed_onto ys [])
reversed-Edits_whole {n} {xs} {ys} e =
    subst (λ k. Edits k (reversed_onto xs []) (reversed_onto ys [])) (omega arith)
      (reversed-Edits 0 [] [] e nothing)

reversed_onto-reversed :
    (xs zs ws : List ℕ) → reversed_onto (reversed_onto xs zs) ws ≡ reversed_onto zs (xs ++ ws)
unfolding reversed_onto
reversed_onto-reversed [] zs ws = refl
reversed_onto-reversed (x ∷ xs) zs ws = reversed_onto-reversed xs (x ∷ zs) ws

reversed_onto-append :
    (xs ys zs : List ℕ) → reversed_onto (xs ++ ys) zs ≡ reversed_onto ys (reversed_onto xs zs)
unfolding reversed_onto
reversed_onto-append [] ys zs = refl
reversed_onto-append (x ∷ xs) ys zs = reversed_onto-append xs ys (x ∷ zs)

reversed_onto-nil : (xs zs : List ℕ) → reversed_onto xs zs ≡ reversed_onto xs [] ++ zs
unfolding reversed_onto
reversed_onto-nil [] zs = refl
reversed_onto-nil (x ∷ xs) zs =
    reversed_onto-nil xs (x ∷ zs)
    ∙ sym (append_assoc (reversed_onto xs []) (x ∷ []) zs)
    ∙ ap (λ l. l ++ zs) (sym (reversed_onto-nil xs (x ∷ [])))

-- A number of a row: that of the edits for some beginning of the other text.
record InRow (xs before s2 : List ℕ) (n : ℕ) : Type 0 where
  start : List ℕ
  end_of : List ℕ
  splits : s2 ≡ start ++ end_of
  counts : n ≡ edits xs (reversed_onto start before)

InRow-next :
    (xs before s2 : List ℕ) (y n : ℕ) → InRow xs (y ∷ before) s2 n → InRow xs before (y ∷ s2) n
unfolding reversed_onto
InRow-next xs before s2 y n r = record {
  start = y ∷ r.start;
  end_of = r.end_of;
  splits = ap (λ l. y ∷ l) r.splits;
  counts = r.counts;
}

InRow-here : (xs before s2 : List ℕ) → InRow xs before s2 (edits xs before)
unfolding reversed_onto
InRow-here xs before s2 = record { start = []; end_of = s2; splits = refl; counts = refl }

least-InRow :
    (m : ℕ) (xs before s2 : List ℕ)
    → (min_element m (edits_row xs before s2) ≡ m)
      ⊎ InRow xs before s2 (min_element m (edits_row xs before s2))
unfolding min_element edits_row
least-InRow m xs before [] =
    min-either (λ n. (n ≡ m) ⊎ InRow xs before [] n) m (edits xs before) (inl refl)
      (inr (InRow-here xs before []))
least-InRow m xs before (y ∷ s2) = elim (least-InRow (min m (edits xs before)) xs (y ∷ before) s2) [
  | inr r ↦ inr (InRow-next xs before s2 y _ r)
  | inl e ↦
      subst (λ n. (n ≡ m) ⊎ InRow xs before (y ∷ s2) n) (sym e)
        (min-either (λ n. (n ≡ m) ⊎ InRow xs before (y ∷ s2) n) m (edits xs before) (inl refl)
          (inr (InRow-here xs before (y ∷ s2))))
]

min_element-below : (m : ℕ) (l : List ℕ) → min_element m l ≤ m
unfolding min_element
min_element-below m [] = omega arith
min_element-below m (n ∷ l) = ground (arith, min_element-below (min m n) l)

least-below :
    (m : ℕ) (xs before start end_of : List ℕ)
    → min_element m (edits_row xs before (start ++ end_of)) ≤ edits xs (reversed_onto start before)
unfolding min_element edits_row reversed_onto
least-below m xs before [] [] = ground arith
least-below m xs before [] (y ∷ end_of) =
    ground (arith, min_element-below (min m (edits xs before)) (edits_row xs (y ∷ before) end_of))
least-below m xs before (y ∷ start) end_of =
    least-below (min m (edits xs before)) xs (y ∷ before) start end_of

min_of-row :
    (xs before s2 : List ℕ)
    → min_of (edits_row xs before s2) ≡ min_element (edits xs before) (edits_row xs before s2)
unfolding min_of min_element edits_row
min_of-row xs before [] = ground arith
min_of-row xs before (y ∷ s2) =
    ap (λ m. min_element m (edits_row xs (y ∷ before) s2)) (ground arith)

min_of-InRow : (xs s2 : List ℕ) → InRow xs [] s2 (min_of (edits_row xs [] s2))
min_of-InRow xs s2 =
    subst (InRow xs [] s2) (sym (min_of-row xs [] s2)) (elim (least-InRow (edits xs []) xs [] s2) [
      | inl e ↦ subst (InRow xs [] s2) (sym e) (InRow-here xs [] s2)
      | inr r ↦ r
    ])

-- The edits that are counted, in the order of the texts.
InRow-Away : (s1 s2 : List ℕ) (n : ℕ) → InRow (reversed_onto s1 []) [] s2 n → Away n s1 s2
unfolding reversed_onto
InRow-Away s1 s2 n r =
    let xs = reversed_onto s1 [] in
    let f = edits-Fits xs (reversed_onto r.start []) in
    let back : reversed_onto xs [] ≡ s1 = reversed_onto-reversed s1 [] [] ∙ append-nil s1 in
    let start : r.start ≡ reversed_onto f.rest [] ++ reversed_onto f.front [] =
      sym (reversed_onto-reversed r.start [] [] ∙ append-nil r.start)
      ∙ ap (λ l. reversed_onto l []) f.is
      ∙ reversed_onto-append f.front f.rest []
      ∙ reversed_onto-nil f.rest (reversed_onto f.front []) in
    record {
      before = reversed_onto f.rest [];
      piece = reversed_onto f.front [];
      after = r.end_of;
      joined =
          r.splits
          ∙ ap (λ l. l ++ r.end_of) start
          ∙ append_assoc (reversed_onto f.rest []) (reversed_onto f.front []) r.end_of;
      script =
          subst (λ k. Edits k s1 (reversed_onto f.front [])) (sym r.counts)
            (subst (λ l. Edits (edits xs (reversed_onto r.start [])) l (reversed_onto f.front []))
              back (reversed-Edits_whole f.fits));
    }

least-Away :
    (s1 s2 : List ℕ) (n : ℕ) → Away n s1 s2 → min_of (edits_row (reversed_onto s1 []) [] s2) ≤ n
least-Away s1 s2 n a =
    let xs = reversed_onto s1 [] in
    let start = a.before ++ a.piece in
    let row = least-below (edits xs []) xs [] start a.after in
    let split : s2 ≡ start ++ a.after = a.joined ∙ sym (append_assoc a.before a.piece a.after) in
    let reads : reversed_onto start [] ≡ reversed_onto a.piece [] ++ reversed_onto a.before [] =
      reversed_onto-append a.before a.piece []
      ∙ reversed_onto-nil a.piece (reversed_onto a.before []) in
    let few = edits-least (reversed_onto a.before []) (reversed-Edits_whole a.script) in
    omega (
      arith,
      min_of-row xs [] s2,
      ap (λ l. min_element (edits xs []) (edits_row xs [] l)) split,
      row,
      ap (edits xs) reads,
      few,
    )

-- For a first text that is not of one character, and a second that is not empty: the function gives a
-- number of edits that do make the first text a piece of the second, and no fewer do: any number that
-- does is as large.
pub levenshtein_distance-edits :
    (s1 s2 : List ℕ) (n : ℕ)
    → length s1 ≢ 1
    → s2 ≢ []
    → Away n s1 s2
    → (d : ℕ) × (levenshtein_distance s1 s2 ≡ some d) × Away d s1 s2 × (d ≤ n)
levenshtein_distance-edits s1 s2 n l m a = (
  min_of (edits_row (reversed_onto s1 []) [] s2),
  levenshtein_distance-rows s1 s2 l m,
  InRow-Away s1 s2 _ (min_of-InRow (reversed_onto s1 []) s2),
  least-Away s1 s2 n a,
)

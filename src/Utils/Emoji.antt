-- ===== src/Utils/Emoji.antt =====
-- `replaceEmoji`: runs of emoji are put in a font element. The text is a list of code points, and the
-- output a list of tags and code points (what QString writes for a code point is Qt's).
use nheko_library.Base.{
  ℕ, List, [], ◌∷◌, ◌≡◌, refl, inl, inr, Bool, true, false, not, ◌&&◌, ◌||◌, leb, ◌==◌, arith,
  Bool-cases, if◌then◌else◌,
}

abbrev between : ℕ → ℕ → ℕ → Bool
between lo hi code = leb lo code && leb code hi

unfoldable pub codepoint_is_emoji : ℕ → Bool
codepoint_is_emoji code =
    between 0x2600 0x27bf code
    || between 0x2b00 0x2bff code
    || between 0x1f000 0x1faff code
    || code == 0x200d
    || code == 0xfe0f

pub data Piece : Type 0 where
  open_font close_font : Piece
  char : ℕ → Piece

-- The loop from some character on; the flag is `insideFontBlock`.
unfoldable pub replace_from : Bool → List ℕ → List Piece
replace_from false [] = []
replace_from true [] = close_font ∷ []
replace_from false (code ∷ text) =
    let inside = replace_from true text in
    let outside = replace_from false text in
    if codepoint_is_emoji code then open_font ∷ char code ∷ inside else char code ∷ outside
replace_from true (code ∷ text) =
    let inside = replace_from true text in
    let outside = replace_from false text in
    if codepoint_is_emoji code
    then (if code == 0xfe0f then inside else char code ∷ inside)
    else close_font ∷ char code ∷ outside

unfoldable pub replace_emoji : List ℕ → List Piece
replace_emoji text = replace_from false text

-- Read from the left: every element is closed before another is opened and at the end, the
-- characters in it are emoji, and those out of it are not.
pub well_formed : Bool → List Piece → Bool
well_formed inside [] = not inside
well_formed inside (open_font ∷ ps) = not inside && well_formed true ps
well_formed inside (close_font ∷ ps) = inside && well_formed false ps
well_formed true (char c ∷ ps) = codepoint_is_emoji c && well_formed true ps
well_formed false (char c ∷ ps) = not (codepoint_is_emoji c) && well_formed false ps

-- The characters of the output, less the variation selectors.
abbrev pub characters : List Piece → List ℕ
characters [] = []
characters (char c ∷ ps) = let rest = characters ps in if c == 0xfe0f then rest else c ∷ rest
characters (_ ∷ ps) = characters ps

abbrev pub without_selectors : List ℕ → List ℕ
without_selectors [] = []
without_selectors (c ∷ text) =
    let rest = without_selectors text in if c == 0xfe0f then rest else c ∷ rest

replace_from-well_formed :
    (inside : Bool) (text : List ℕ) → well_formed inside (replace_from inside text) ≡ true
unfolding replace_from well_formed
replace_from-well_formed false [] = refl
replace_from-well_formed true [] = refl
replace_from-well_formed false (code ∷ text) = elim (Bool-cases (codepoint_is_emoji code)) [
  | inl e ↦ rw (e, replace_from) (rw (e, well_formed) (replace_from-well_formed true text))
  | inr e ↦ rw (e, replace_from) (rw (e, well_formed) (replace_from-well_formed false text))
]
replace_from-well_formed true (code ∷ text) = elim (Bool-cases (codepoint_is_emoji code)) [
  | inl e ↦ elim (Bool-cases (code == 0xfe0f)) [
    | inl s ↦ rw (e, s, replace_from) (replace_from-well_formed true text)
    | inr s ↦ rw (e, s, replace_from) (rw (e, well_formed) (replace_from-well_formed true text))
  ]
  | inr e ↦ rw (e, replace_from) (rw (e, well_formed) (replace_from-well_formed false text))
]

replace_from-characters :
    (inside : Bool) (text : List ℕ) → characters (replace_from inside text) ≡ without_selectors text
unfolding replace_from
replace_from-characters false [] = refl
replace_from-characters true [] = refl
replace_from-characters false (code ∷ text) =
    ground (arith, replace_from-characters true text, replace_from-characters false text)
replace_from-characters true (code ∷ text) =
    ground (arith, replace_from-characters true text, replace_from-characters false text)

-- Every font element that is opened is closed before another is opened and before the end, it holds
-- emoji only, and no emoji is outside of one; and the characters are those of the text, in its order,
-- but for variation selectors, some of which are left out.
pub replace_emoji-exact :
    (text : List ℕ)
    → (well_formed false (replace_emoji text) ≡ true)
      × (characters (replace_emoji text) ≡ without_selectors text)
unfolding replace_emoji
replace_emoji-exact text = (replace_from-well_formed false text, replace_from-characters false text)

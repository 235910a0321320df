-- ===== src/Utils/Tests.antt =====
-- Concrete texts and sizes, and the theorems at them.
use nheko_library.Base.{
  ℕ, ◌^◌, ◌≤◌, List, [], ◌∷◌, ◌≡◌, ◌≢◌, refl, some, true, false, arith, length,
}
use nheko_library.Utils.FileSize.{Due, unit_of, divisions, get_elem?, unit_of-exact}
use nheko_library.Utils.Emoji.{
  replace_emoji, replace_from, codepoint_is_emoji, open_font, close_font, char, well_formed,
  characters, replace_emoji-exact,
}
use nheko_library.Utils.EditScripts.{Away, change, nothing}
use nheko_library.Utils.LeastEdits.{levenshtein_distance-edits}
use nheko_library.Utils.Distance.{
  levenshtein_distance, last_row, next_row, next_cells, zeros, min_element, min_of,
}

unit_of_test : unit_of 1536 ≡ some "KiB"
unfolding unit_of divisions get_elem?
unit_of_test = refl

unit_of-exact_example : Due (2 ^ 50) (unit_of (2 ^ 50))
unit_of-exact_example = unit_of-exact (2 ^ 50)

replace_emoji_test :
    replace_emoji (0x61 ∷ 0x2764 ∷ 0xfe0f ∷ 0x62 ∷ [])
    ≡ char 0x61 ∷ open_font ∷ char 0x2764 ∷ close_font ∷ char 0x62 ∷ []
unfolding replace_emoji replace_from codepoint_is_emoji
replace_emoji_test = refl

replace_emoji-exact_example :
    (well_formed false (replace_emoji (0x61 ∷ 0x2764 ∷ 0xfe0f ∷ [])) ≡ true)
    × (characters (replace_emoji (0x61 ∷ 0x2764 ∷ 0xfe0f ∷ [])) ≡ 0x61 ∷ 0x2764 ∷ [])
replace_emoji-exact_example = replace_emoji-exact (0x61 ∷ 0x2764 ∷ 0xfe0f ∷ [])

-- "bd" is one edit away from a piece of "abcd".
levenshtein_distance_test : levenshtein_distance (98 ∷ 100 ∷ []) (97 ∷ 98 ∷ 99 ∷ 100 ∷ []) ≡ some 1
unfolding levenshtein_distance last_row next_row next_cells zeros min_element min_of
levenshtein_distance_test = refl

two_characters : length {A = ℕ} (98 ∷ 100 ∷ []) ≢ 1
two_characters = ground arith

some_characters : ◌≢◌ {A = List ℕ} (97 ∷ 98 ∷ []) []
some_characters = ground arith

-- "bd" is two changes away from "ab".
two_changes : Away 2 (98 ∷ 100 ∷ []) (97 ∷ 98 ∷ [])
two_changes = record {
  before = [];
  piece = 97 ∷ 98 ∷ [];
  after = [];
  joined = refl;
  script = change 1 98 97 (100 ∷ []) (98 ∷ []) (change 0 100 98 [] [] nothing);
}

levenshtein_distance-edits_example :
    (d : ℕ) × (levenshtein_distance (98 ∷ 100 ∷ []) (97 ∷ 98 ∷ []) ≡ some d)
    × Away d (98 ∷ 100 ∷ []) (97 ∷ 98 ∷ [])
    × (d ≤ 2)
levenshtein_distance-edits_example =
    levenshtein_distance-edits (98 ∷ 100 ∷ []) (97 ∷ 98 ∷ []) 2 two_characters some_characters
      two_changes

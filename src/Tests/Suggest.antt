-- ===== src/Tests/Suggest.antt =====
-- Suggestions at concrete inputs.
use oddjobs.Prelude.{String, [], ◌∷◌, ◌&&◌, ◌==◌, ◌≡◌, refl, any}
use oddjobs.Daemon.Suggest.{
  min_of, chars, cost, first_row, row_cells, last_row, last_cell, edit_distance, find_similar,
}
use oddjobs.Daemon.Suggest.Distance.{levenshtein, backwards, edit_distance-levenshtein}
use oddjobs.Daemon.Suggest.Matches.{is_suggested, AreByDistance, find_similar_lem}

kitten_sitting : edit_distance "kitten" "sitting" ≡ 3
unfolding edit_distance chars first_row row_cells last_row last_cell min_of cost
kitten_sitting = refl

edit_distance-levenshtein_example :
    edit_distance "fixer" "fixes" ≡ levenshtein (backwards "fixer") (backwards "fixes")
edit_distance-levenshtein_example = edit_distance-levenshtein "fixer" "fixes"

find_similar_lem_example :
    ((name : String)
      → any (λ y. y == name) (find_similar "fixs" ("fixer" ∷ "fix" ∷ "deploy" ∷ []))
        ≡ (any (λ y. y == name) ("fixer" ∷ "fix" ∷ "deploy" ∷ []) && is_suggested "fixs" name))
    × AreByDistance "fixs" (find_similar "fixs" ("fixer" ∷ "fix" ∷ "deploy" ∷ []))
find_similar_lem_example = find_similar_lem "fixs" ("fixer" ∷ "fix" ∷ "deploy" ∷ [])

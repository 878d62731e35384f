-- ===== src/Daemon/Suggest/Distance.antt =====
-- crates/daemon/src/listener/suggest.rs, `edit_distance`: the table against the recursive definition.
use oddjobs.Prelude.{ℕ, ◌+◌, String, List, [], ◌∷◌, ◌≡◌, refl, sym, ap, ◌∙◌, arith, length}
use oddjobs.Daemon.Suggest.{
  min_of, chars, cost, first_row, row_cells, last_row, last_cell, edit_distance,
}

-- The fewest insertions, deletions and replacements that make the one list the other.
unfoldable pub levenshtein : List ℕ → List ℕ → ℕ
levenshtein [] bs = length bs
levenshtein (a ∷ xs) [] = length (a ∷ xs)
levenshtein (a ∷ xs) (b ∷ bs) =
    min_of (min_of (levenshtein xs (b ∷ bs) + 1) (levenshtein (a ∷ xs) bs + 1))
      (levenshtein xs bs + cost a b)

-- The cells of a row from the prefix `b` on, with `bs` still to come; prefixes are read backwards.
row_of : List ℕ → List ℕ → List ℕ → List ℕ
row_of a b [] = levenshtein a b ∷ []
row_of a b (x ∷ bs) = levenshtein a b ∷ row_of a (x ∷ b) bs

tail_of : List ℕ → List ℕ → List ℕ → List ℕ
tail_of a b [] = []
tail_of a b (x ∷ bs) = row_of a (x ∷ b) bs

row_of-tail : (a b bs : List ℕ) → row_of a b bs ≡ levenshtein a b ∷ tail_of a b bs
unfolding row_of tail_of
row_of-tail a b [] = refl
row_of-tail a b (x ∷ bs) = refl

row_cells-row_of :
    (x : ℕ) (a b bs : List ℕ)
    → row_cells x (levenshtein (x ∷ a) b) (row_of a b bs) bs ≡ tail_of (x ∷ a) b bs
unfolding row_cells row_of tail_of levenshtein
row_cells-row_of x a b [] = refl
row_cells-row_of x a b (y ∷ bs) =
    let cell = levenshtein (x ∷ a) (y ∷ b) in
    let above = row_of-tail a (y ∷ b) bs in
    ap (λ r. row_cells x (levenshtein (x ∷ a) b) (levenshtein a b ∷ r) (y ∷ bs)) above
    ∙ ap (λ r. cell ∷ row_cells x cell r bs) (sym above)
    ∙ ap (λ r. cell ∷ r) (row_cells-row_of x a (y ∷ b) bs)
    ∙ sym (row_of-tail (x ∷ a) (y ∷ b) bs)

length-cons : (x : ℕ) (xs : List ℕ) → length xs + 1 ≡ length (x ∷ xs)
length-cons x xs = omega arith

abbrev pub append_reversed : List ℕ → List ℕ → List ℕ
append_reversed [] b = b
append_reversed (x ∷ bs) b = append_reversed bs (x ∷ b)

last_cell-row_of :
    (a b bs : List ℕ) → last_cell (row_of a b bs) ≡ levenshtein a (append_reversed bs b)
unfolding last_cell row_of
last_cell-row_of a b [] = refl
last_cell-row_of a b (x ∷ []) = refl
last_cell-row_of a b (x ∷ y ∷ bs) = last_cell-row_of a (x ∷ b) (y ∷ bs)

first_row-row_of : (b bs : List ℕ) → first_row (length b) bs ≡ row_of [] b bs
unfolding first_row row_of levenshtein
first_row-row_of b [] = refl
first_row-row_of b (x ∷ bs) =
    ap (λ r. length b ∷ r)
      (ap (λ n. first_row n bs) (length-cons x b) ∙ first_row-row_of (x ∷ b) bs)

last_row-row_of :
    (xs a bs : List ℕ)
    → last_row (length a) xs bs (row_of a [] bs) ≡ row_of (append_reversed xs a) [] bs
unfolding last_row levenshtein
last_row-row_of [] a bs = refl
last_row-row_of (x ∷ xs) a bs =
    let n = length-cons x a in
    ap (λ i. last_row i xs bs (i ∷ row_cells x i (row_of a [] bs) bs)) n
    ∙ ap (λ r. last_row (length (x ∷ a)) xs bs (length (x ∷ a) ∷ r)) (row_cells-row_of x a [] bs)
    ∙ ap (last_row (length (x ∷ a)) xs bs) (sym (row_of-tail (x ∷ a) [] bs))
    ∙ last_row-row_of xs (x ∷ a) bs

-- The characters from the last to the first.
unfoldable pub backwards : String → List ℕ
backwards s = append_reversed (chars s) []

-- The table gives the edit distance of the recursive definition, which compares the last characters
-- first: it chooses the best of a deletion, an insertion and a replacement.
pub edit_distance-levenshtein :
    (a b : String) → edit_distance a b ≡ levenshtein (backwards a) (backwards b)
unfolding edit_distance backwards levenshtein
edit_distance-levenshtein a b =
    ap (λ r. last_cell (last_row 0 (chars a) (chars b) r)) (first_row-row_of [] (chars b))
    ∙ ap last_cell (last_row-row_of (chars a) [] (chars b))
    ∙ last_cell-row_of (append_reversed (chars a) []) [] (chars b)

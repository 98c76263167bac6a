-- ===== src/CommMatrix/Load.antt =====
-- src/agent_agora/comm_matrix.py: `load_csv`, from the text of the file.
use agent_agora.Text.{ℤ, pos, negsuc, split, split_lines_from, strip, parse_int}
use agent_agora.CommMatrix.{CommMatrix, Pattern, ◌∷◌, some}
use agent_agora.Errors.{
  Result, ok, raise, ◌>>=◌, ◌>>◌, raise_if, comm_matrix_invalid_pattern, comm_matrix_shape_mismatch,
  comm_matrix_invalid_cell,
}
use agent_agora.Prelude.{
  String, String, Option, List, String, List, String, Bool, map, ℕ, Dict, Dict, Dict, ◌==◌, keep,
  not, insert, insert, not, not, false, nat_eq, nat_eq, length, length, [], [], true, none, none,
}

abbrev is_blank : String → Bool
is_blank s = strip s == ""

-- `[line.split(",") for line in csv_text.splitlines() if line.strip()]`
unfoldable pub rows_of : String → List (List String)
unfolding split_lines_from split strip
rows_of csv = map (split 44) (keep (λ line. not (is_blank line)) (split_lines_from false csv))

abbrev pub cell_weight : Option ℤ → Result ℕ
cell_weight none = raise comm_matrix_invalid_cell
cell_weight (some (pos n)) = ok n
cell_weight (some (negsuc n)) = raise comm_matrix_invalid_cell

-- The loop over `j`; the row has as many cells as the header.
unfoldable pub read_row : List String → List String → Dict ℕ → Result (Dict ℕ)
unfolding parse_int
read_row (from_pat ∷ header) (cell ∷ cells) row = do
  w ← cell_weight (parse_int cell)
  read_row header cells (insert from_pat w row)
read_row _ _ row = ok row

module _ (compile : String → Option Pattern) where
  abbrev compiled_or_raise : Option Pattern → Result Pattern
  compiled_or_raise none = raise comm_matrix_invalid_pattern
  compiled_or_raise (some p) = ok p

  unfoldable pub compile_all : List String → Dict Pattern → Result (Dict Pattern)
  compile_all [] compiled = ok compiled
  compile_all (pat ∷ pats) compiled = do
    p ← compiled_or_raise (compile pat)
    compile_all pats (insert pat p compiled)

-- The loop over `i`; there are as many rows as the header has patterns.
unfoldable pub read_rows :
    List String → List String → List (List String) → Dict (Dict ℕ) → Result (Dict (Dict ℕ))
unfolding read_row strip
read_rows header (to_pat ∷ pats) (cells ∷ rows) weights = do
  raise_if (not (nat_eq (length cells) (length header))) comm_matrix_shape_mismatch
  row ← read_row header (map strip cells) []
  read_rows header pats rows (insert to_pat row weights)
read_rows header _ _ weights = ok weights

module _ (compile : String → Option Pattern) where
  unfoldable pub load_rows : List (List String) → Result CommMatrix
  unfolding read_rows compile_all strip
  load_rows [] = raise comm_matrix_shape_mismatch
  load_rows (first ∷ rows) = do
    let header = map strip first
    raise_if (not (nat_eq (length rows) (length header))) comm_matrix_shape_mismatch
    compiled ← compile_all compile header []
    weights ← read_rows header header rows []
    ok (record { weights = weights; compiled = compiled; active = true })

  -- The matrix that replaces the old one; a load that raises leaves the old one.
  unfoldable pub load_csv : String → Result CommMatrix
  unfolding rows_of load_rows
  load_csv csv = load_rows (rows_of csv)

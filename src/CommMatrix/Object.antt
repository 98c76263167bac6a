-- ===== src/CommMatrix/Object.antt =====
-- src/agent_agora/comm_matrix.py: `load_matrix`, from the object that the dashboard sends. Floats,
-- which `int` would cut, are not among the JSON values here.
use agent_agora.CommMatrix.{CommMatrix, Pattern}
use agent_agora.Text.{parse_int, ℤ, pos}
use agent_agora.Json.{end, Fields, Value, Fields, obj, num, field, bool, str}
use agent_agora.Prelude.{
  [], ◌∷◌, Dict, Dict, Option, ℕ, ℕ, ℕ, ℕ, String, List, List, some, [], [], insert, insert, true,
  if◌then◌else◌, none, ◌++◌,
}
use agent_agora.CommMatrix.Load.{compile_all, cell_weight}
use agent_agora.Errors.{Result, ok, ok, raise, ◌>>=◌, comm_matrix_shape_mismatch}

-- `int(w)`: a list, an object and `None` are a `TypeError`, and some texts a `ValueError`.
unfoldable pub int_of : Value → Option ℤ
unfolding parse_int
int_of (num n) = some n
int_of (bool b) = some (pos (if b then 1 else 0))
int_of (str s) = parse_int s
int_of _ = none

-- The inner loop, over the cells of a row.
unfoldable pub read_cells : Fields → Dict ℕ → Result (Dict ℕ)
unfolding int_of
read_cells end row = ok row
read_cells (field from_pat v cells) row = do
  w ← cell_weight (int_of v)
  read_cells cells (insert from_pat w row)

unfoldable pub row_of : Value → Result Fields
row_of (obj cells) = ok cells
row_of _ = raise comm_matrix_shape_mismatch

-- The outer loop.
unfoldable pub read_object : Fields → Dict (Dict ℕ) → Result (Dict (Dict ℕ))
unfolding read_cells row_of
read_object end weights = ok weights
read_object (field to_pat v rows) weights = do
  cells ← row_of v
  row ← read_cells cells []
  read_object rows (insert to_pat row weights)

-- `pats`: the union of the patterns of the rows and of the cells.
unfoldable pub cell_patterns : Dict ℕ → List String
cell_patterns [] = []
cell_patterns ((from_pat, w) ∷ row) = from_pat ∷ cell_patterns row

unfoldable pub patterns : Dict (Dict ℕ) → List String
unfolding cell_patterns
patterns [] = []
patterns ((to_pat, row) ∷ weights) = to_pat ∷ cell_patterns row ++ patterns weights

-- The set is compiled in some order; the order changes only which of the bad patterns is reported.
unfoldable pub load_matrix : (compile : String → Option Pattern) → Value → Result CommMatrix
unfolding read_object compile_all patterns row_of
load_matrix compile v = do
  rows ← row_of v
  weights ← read_object rows []
  compiled ← compile_all compile (patterns weights) []
  ok (record { weights = weights; compiled = compiled; active = true })

-- ===== src/CommMatrix.antt =====
-- src/agent_agora/comm_matrix.py: who may dispatch to whom. A compiled pattern is its `fullmatch`;
-- `re.compile` is the parameter `compile`, with `none` for `re.error`.
pub mod Load
pub mod Access
pub mod Object
pub mod Loaded
pub mod Cycles
use agent_agora.Prelude.{
  ℕ, String, Bool, true, false, ◌&&◌, ◌||◌, Option, none, some, List, [], ◌∷◌, Dict, lookup, ltb,
  if◌then◌else◌,
}
use agent_agora.Errors.{Result, ok, raise, comm_matrix_empty}
use agent_agora.Registry.Operator.{is_operator}

abbrev pub Pattern : Type 0
Pattern = String → Bool

-- `weights` maps the receiver's pattern to the sender's patterns.
pub record CommMatrix : Type 0 where
  pub weights : Dict (Dict ℕ)
  pub compiled : Dict Pattern
  pub active : Bool

abbrev pub all_allowed : CommMatrix
all_allowed = record { weights = []; compiled = []; active = false }

abbrev fullmatch : Option Pattern → String → Bool
fullmatch none iid = false
fullmatch (some p) iid = p iid

-- `self._compiled[pat].fullmatch(iid) is not None`. A pattern that is not compiled would be a
-- `KeyError`; each matrix that is loaded has all its patterns compiled.
unfoldable pub matches : Dict Pattern → String → String → Bool
matches compiled pat iid = fullmatch (lookup pat compiled) iid

-- The inner loop of `weight_of`.
unfoldable pub best_in_row : Dict Pattern → String → Dict ℕ → ℕ → ℕ
best_in_row compiled from [] best = best
best_in_row compiled from ((from_pat, w) ∷ row) best =
    best_in_row compiled from row (if ltb best w && matches compiled from_pat from then w else best)

-- The outer loop.
unfoldable pub best_of : Dict Pattern → String → String → Dict (Dict ℕ) → ℕ → ℕ
unfolding best_in_row
best_of compiled from to [] best = best
best_of compiled from to ((to_pat, row) ∷ weights) best =
    best_of compiled from to weights
      (if matches compiled to_pat to then best_in_row compiled from row best else best)

unfoldable pub weight_of : CommMatrix → String → String → ℕ
unfolding best_of
weight_of m from to = if m.active then best_of m.compiled from to m.weights 0 else 0

unfoldable pub is_allowed : CommMatrix → String → String → Bool
is_allowed m from to =
    if is_operator from || is_operator to
    then true
    else if m.active
    then ltb 0 (weight_of m from to)
    else true

abbrev is_empty : Dict (Dict ℕ) → Bool
is_empty [] = true
is_empty (r ∷ rs) = false

unfoldable pub set_active : Bool → CommMatrix → Result CommMatrix
set_active active m =
    if active && is_empty m.weights
    then raise comm_matrix_empty
    else ok (record m { active = active })

unfoldable pub clear : CommMatrix → CommMatrix
clear m = record { weights = []; compiled = []; active = false }

unfoldable pub snapshot : CommMatrix → Dict (Dict ℕ)
snapshot m = m.weights

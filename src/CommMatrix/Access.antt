-- ===== src/CommMatrix/Access.antt =====
-- src/agent_agora/comm_matrix.py: what `weight_of` and `is_allowed` decide.
use agent_agora.CommMatrix.{
  CommMatrix, matches, Pattern, best_in_row, best_of, ◌∷◌, weight_of, is_allowed,
}
use agent_agora.Prelude.{
  String, String, Dict, Dict, ℕ, ℕ, ℕ, List, List, Bool, List, List, ◌≡◌, ◌&&◌, ◌++◌, false, true,
  [], [], [], [], if◌then◌else◌, if◌then◌else◌, if◌then◌else◌, Bool-cases, ◌≤◌, All, ◌⊎◌, refl, max,
  max, max, arith, arith, inl, ltb, inr, ap, Any, ◌∙◌, ◌||◌, ◌||◌, any, not, keep, keep,
}
use agent_agora.Registry.Operator.{is_operator}

-- A cell of the matrix, with its two patterns.
abbrev pub Cell : Type 0
Cell = String × String × ℕ

abbrev row_cells : String → Dict ℕ → List Cell
row_cells to_pat [] = []
row_cells to_pat ((from_pat, w) ∷ row) = (to_pat, from_pat, w) ∷ row_cells to_pat row

abbrev pub cells : Dict (Dict ℕ) → List Cell
cells [] = []
cells ((to_pat, row) ∷ weights) = row_cells to_pat row ++ cells weights

module _ (compiled : Dict Pattern) (from to : String) where
  -- Both patterns of the cell match the ids of the edge.
  abbrev pub covers : Cell → Bool
  covers c = matches compiled c.0 to && matches compiled c.1 from

  -- The largest weight of the cells that cover the edge, and `best` if none is larger.
  abbrev pub max_covering : List Cell → ℕ → ℕ
  max_covering [] best = best
  max_covering (c ∷ cs) best = max_covering cs (if covers c then max best c.2 else best)

  max_covering-append :
      (cs ds : List Cell) (best : ℕ)
      → max_covering (cs ++ ds) best ≡ max_covering ds (max_covering cs best)
  max_covering-append [] ds best = refl
  max_covering-append (c ∷ cs) ds best =
      max_covering-append cs ds (if covers c then max best c.2 else best)

  row_uncovered :
      (to_pat : String) (row : Dict ℕ) (best : ℕ)
      → matches compiled to_pat to ≡ false
      → max_covering (row_cells to_pat row) best ≡ best
  row_uncovered to_pat [] best h = refl
  row_uncovered to_pat ((from_pat, w) ∷ row) best h =
      ground (arith, row_uncovered to_pat row best h)

  row_covered :
      (to_pat : String) (row : Dict ℕ) (best : ℕ)
      → matches compiled to_pat to ≡ true
      → max_covering (row_cells to_pat row) best ≡ best_in_row compiled from row best
  unfolding best_in_row
  row_covered to_pat [] best h = refl
  row_covered to_pat ((from_pat, w) ∷ row) best h =
      let same : (if covers (to_pat, from_pat, w) then max best w else best)
          ≡ (if ltb best w && matches compiled from_pat from then w else best) =
        ground arith in
      ap (max_covering (row_cells to_pat row)) same
      ∙ row_covered to_pat row (if ltb best w && matches compiled from_pat from then w else best) h

  best_of-max :
      (weights : Dict (Dict ℕ)) (best : ℕ)
      → best_of compiled from to weights best ≡ max_covering (cells weights) best
  unfolding best_of
  best_of-max [] best = refl
  best_of-max ((to_pat, row) ∷ weights) best =
      rw (max_covering-append (row_cells to_pat row) (cells weights) best)
        (elim (Bool-cases (matches compiled to_pat to)) [
          | inl hit ↦
              rw (hit, row_covered to_pat row best hit)
                (best_of-max weights (best_in_row compiled from row best))
          | inr miss ↦ rw (miss, row_uncovered to_pat row best miss) (best_of-max weights best)
        ])

  best-le-max_covering : (cs : List Cell) (best : ℕ) → best ≤ max_covering cs best
  best-le-max_covering [] best = omega arith
  best-le-max_covering (c ∷ cs) best =
      ground (arith, best-le-max_covering cs (if covers c then max best c.2 else best))

  max_covering-bounds :
      (cs : List Cell) (best : ℕ) → All (λ c. covers c ≡ true → c.2 ≤ max_covering cs best) cs
  max_covering-bounds [] best = tt
  max_covering-bounds (c ∷ cs) best = (
    λ h. ground (arith, best-le-max_covering cs (if covers c then max best c.2 else best)),
    max_covering-bounds cs (if covers c then max best c.2 else best),
  )

  max_covering-attained :
      (cs : List Cell) (best : ℕ)
      → (max_covering cs best ≡ best)
        ⊎ Any (λ c. (covers c ≡ true) × (c.2 ≡ max_covering cs best)) cs
  max_covering-attained [] best = inl refl
  max_covering-attained (c ∷ cs) best =
      elim (max_covering-attained cs (if covers c then max best c.2 else best)) [
        | inl same ↦ ground arith
        | inr found ↦ inr (inr found)
      ]

All-kept :
    (p : Cell → Bool) (P : Cell → Type 0) (l : List Cell)
    → All (λ c. p c ≡ true → P c) l
    → All P (keep p l)
All-kept p P [] h = tt
All-kept p P (c ∷ cs) h = elim (Bool-cases (p c)) [
  | inl yes_it_is ↦ rw yes_it_is (h.0 yes_it_is, All-kept p P cs h.1)
  | inr it_is_not ↦ rw it_is_not (All-kept p P cs h.1)
]

-- The weight of an edge in an active matrix bounds the weight of each cell whose two patterns match
-- the ids, and it is 0 or the weight of such a cell.
pub weight_of-exact :
    (m : CommMatrix) (from to : String)
    → m.active ≡ true
    → All (λ c. c.2 ≤ weight_of m from to) (keep (covers m.compiled from to) (cells m.weights))
      × ((weight_of m from to ≡ 0)
          ⊎ Any
              (λ c. (covers m.compiled from to c ≡ true) × (c.2 ≡ weight_of m from to))
              (cells m.weights))
unfolding weight_of
weight_of-exact m from to on =
    rw (on, best_of-max m.compiled from to m.weights 0)
      (
        All-kept (covers m.compiled from to) _ (cells m.weights)
            (max_covering-bounds m.compiled from to (cells m.weights) 0),
        max_covering-attained m.compiled from to (cells m.weights) 0,
      )

positive_max :
    (compiled : Dict Pattern) (from to : String) (cs : List Cell) (best : ℕ)
    → ltb 0 (max_covering compiled from to cs best)
      ≡ (ltb 0 best || any (λ c. covers compiled from to c && ltb 0 c.2) cs)
positive_max compiled from to [] best = ground arith
positive_max compiled from to (c ∷ cs) best =
    let next = if covers compiled from to c then max best c.2 else best in
    ground (arith, positive_max compiled from to cs next)

-- An edge is allowed exactly if an end of it is an operator, or the matrix is not active, or a cell
-- of positive weight has two patterns that match the ids.
pub is_allowed-exact :
    (m : CommMatrix) (from to : String)
    → is_allowed m from to ≡ (
        is_operator from
        || is_operator to
        || not m.active
        || any (λ c. covers m.compiled from to c && ltb 0 c.2) (cells m.weights))
unfolding is_allowed weight_of
is_allowed-exact m from to = ground (
  arith,
  best_of-max m.compiled from to m.weights 0,
  positive_max m.compiled from to (cells m.weights) 0,
)

-- ===== src/CommMatrix/Loaded.antt =====
-- src/agent_agora/comm_matrix.py: what a matrix that `load_csv` accepts has.
use agent_agora.CommMatrix.{CommMatrix, Pattern, ◌∷◌}
use agent_agora.CommMatrix.Load.{
  load_csv, compile_all, read_row, read_rows, load_rows, cell_weight, rows_of,
}
use agent_agora.Prelude.{
  String, Option, List, Dict, ◌≡◌, has_key, elem, ◌||◌, ℕ, ℕ, ℕ, arith, All, All, All, true, true,
  true, Option-cases, inl, inr, insert, lookup-insert, eq_iff, subst, subst, [], map, All-insert,
  eq_refl, All-imp, not, nat_eq, length, refl, ◌++◌, elem-append,
}
use agent_agora.Errors.{ok, >>=-eq-ok, >>=-eq-ok, ◌>>=◌, raise_if, comm_matrix_shape_mismatch}
use agent_agora.Text.{strip, parse_int}
use agent_agora.CommMatrix.Object.{cell_patterns, patterns, load_matrix, row_of, read_object}
use agent_agora.Json.{Value}

module _ (compile : String → Option Pattern) where
  -- What is compiled is the new patterns beside the old.
  compile_all-keys :
      (pats : List String) (d d' : Dict Pattern) (k : String)
      → compile_all compile pats d ≡ ok d'
      → has_key k d' ≡ (elem k pats || has_key k d)
  unfolding compile_all
  compile_all-keys [] d d' k e = ground arith
  compile_all-keys (pat ∷ pats) d d' k e = elim (Option-cases (compile pat)) [
    | inl bad ↦ ground arith
    | inr (p, good) ↦
        ground (
          arith,
          compile_all-keys pats (insert pat p d) d' k,
          lookup-insert pat k p d,
          eq_iff pat k,
        )
  ]

read_row-keys :
    (header all cells : List String) (row row' : Dict ℕ)
    → All (λ p. elem p all ≡ true) header
    → All (λ e. elem e.0 all ≡ true) row
    → read_row header cells row ≡ ok row'
    → All (λ e. elem e.0 all ≡ true) row'
unfolding read_row
read_row-keys [] all cells row row' h a e = subst (All (λ x. elem x.0 all ≡ true)) (ground arith) a
read_row-keys (p ∷ header) all [] row row' h a e =
    subst (All (λ x. elem x.0 all ≡ true)) (ground arith) a
read_row-keys (p ∷ header) all (c ∷ cells) row row' h a e =
    let (w, _, rest) =
      >>=-eq-ok (cell_weight (parse_int c)) (λ w. read_row header cells (insert p w row)) e in
    read_row-keys header all cells (insert p w row) row' h.1
      (All-insert (λ x. elem x.0 all ≡ true) p w row h.0 a) rest

-- Each row's pattern, and each pattern in a row, is one of `all`.
abbrev KeysIn : List String → Dict (Dict ℕ) → Type 0
KeysIn all = All (λ r. (elem r.0 all ≡ true) × All (λ e. elem e.0 all ≡ true) r.1)

read_rows-keys :
    (header pats : List String) (rows : List (List String)) (weights weights' : Dict (Dict ℕ))
    → All (λ p. elem p header ≡ true) header
    → All (λ p. elem p header ≡ true) pats
    → KeysIn header weights
    → read_rows header pats rows weights ≡ ok weights'
    → KeysIn header weights'
unfolding read_rows
read_rows-keys header [] rows weights weights' h g a e = subst (KeysIn header) (ground arith) a
read_rows-keys header (p ∷ pats) [] weights weights' h g a e =
    subst (KeysIn header) (ground arith) a
read_rows-keys header (p ∷ pats) (cells ∷ rows) weights weights' h g a e =
    let (_, _, e1) =
      >>=-eq-ok _
        (λ _. read_row header (map strip cells) [] >>= λ row.
          read_rows header pats rows (insert p row weights))
        e in
    let (row, read, rest) =
      >>=-eq-ok (read_row header (map strip cells) [])
        (λ row. read_rows header pats rows (insert p row weights)) e1 in
    read_rows-keys header pats rows (insert p row weights) weights' h g.1
      (All-insert _ p row weights
        (g.0, read_row-keys header header (map strip cells) [] row h tt read) a)
      rest

All-elem_self : (all : List String) → All (λ p. elem p all ≡ true) all
All-elem_self [] = tt
All-elem_self (k ∷ ks) = (
  simp eq_refl,
  All-imp (λ p. elem p ks ≡ true) (λ p. elem p (k ∷ ks) ≡ true) (λ p h. ground arith) ks
      (All-elem_self ks),
)

-- The patterns of a matrix are compiled, so `weight_of` meets no `KeyError`.
abbrev pub IsCompiled : CommMatrix → Type 0
IsCompiled m =
    All (λ r. (has_key r.0 m.compiled ≡ true) × All (λ e. has_key e.0 m.compiled ≡ true) r.1)
      m.weights

KeysIn-IsCompiled :
    (all : List String) (weights : Dict (Dict ℕ)) (compiled : Dict Pattern)
    → ((k : String) → elem k all ≡ true → has_key k compiled ≡ true)
    → KeysIn all weights
    → IsCompiled (record { weights = weights; compiled = compiled; active = true })
KeysIn-IsCompiled all weights compiled known =
    All-imp _ _ (λ r h. (known r.0 h.0, All-imp _ _ (λ e. known e.0) r.1 h.1)) weights

module _ (compile : String → Option Pattern) where
  load_rows-IsCompiled :
      (rows : List (List String)) (m : CommMatrix)
      → load_rows compile rows ≡ ok m
      → IsCompiled m × (m.active ≡ true)
  unfolding load_rows
  load_rows-IsCompiled [] m e = cc
  load_rows-IsCompiled (first ∷ rows) m e =
      let header = map strip first in
      let (_, _, e1) =
        >>=-eq-ok (raise_if (not (nat_eq (length rows) (length header))) comm_matrix_shape_mismatch)
          _ e in
      let (compiled, c, e2) = >>=-eq-ok (compile_all compile header []) _ e1 in
      let (weights, w, e3) = >>=-eq-ok (read_rows header header rows []) _ e2 in
      subst (λ n. IsCompiled n × (n.active ≡ true)) (cc e3)
        (
          KeysIn-IsCompiled header weights compiled
              (λ k h. ground (arith, compile_all-keys compile header [] compiled k c))
              (read_rows-keys header header rows [] weights (All-elem_self header)
                (All-elem_self header) tt w),
          refl,
        )

  -- A text that `load_csv` accepts gives an active matrix whose patterns are all compiled.
  pub load_csv-IsCompiled :
      (csv : String) (m : CommMatrix)
      → load_csv compile csv ≡ ok m
      → IsCompiled m × (m.active ≡ true)
  unfolding load_csv
  load_csv-IsCompiled csv m e = load_rows-IsCompiled (rows_of csv) m e

cell_patterns-KeysIn :
    (row : Dict ℕ) → All (λ (e : String × ℕ). elem e.0 (cell_patterns row) ≡ true) row
unfolding cell_patterns
cell_patterns-KeysIn [] = tt
cell_patterns-KeysIn ((p, w) ∷ row) =
    (simp eq_refl, All-imp _ _ (λ e h. ground arith) row (cell_patterns-KeysIn row))

patterns-KeysIn : (weights : Dict (Dict ℕ)) → KeysIn (patterns weights) weights
unfolding patterns
patterns-KeysIn [] = tt
patterns-KeysIn ((p, row) ∷ weights) =
    let here_in : (k : String)
        → elem k (cell_patterns row) ≡ true
        → elem k (p ∷ cell_patterns row ++ patterns weights) ≡ true =
      λ k h. ground (arith, elem-append k (cell_patterns row) (patterns weights)) in
    let later : (k : String)
        → elem k (patterns weights) ≡ true
        → elem k (p ∷ cell_patterns row ++ patterns weights) ≡ true =
      λ k h. ground (arith, elem-append k (cell_patterns row) (patterns weights)) in
    (
      (simp eq_refl, All-imp _ _ (λ e. here_in e.0) row (cell_patterns-KeysIn row)),
      All-imp _ _ (λ r h. (later r.0 h.0, All-imp _ _ (λ e. later e.0) r.1 h.1)) weights
          (patterns-KeysIn weights),
    )

-- An object that `load_matrix` accepts gives an active matrix whose patterns are all compiled, though
-- its rows and its cells may have different patterns.
pub load_matrix-IsCompiled :
    (compile : String → Option Pattern) (v : Value) (m : CommMatrix)
    → load_matrix compile v ≡ ok m
    → IsCompiled m × (m.active ≡ true)
unfolding load_matrix
load_matrix-IsCompiled compile v m e =
    let (rows, _, e1) = >>=-eq-ok (row_of v) _ e in
    let (weights, w, e2) = >>=-eq-ok (read_object rows []) _ e1 in
    let (compiled, c, e3) = >>=-eq-ok (compile_all compile (patterns weights) []) _ e2 in
    subst (λ n. IsCompiled n × (n.active ≡ true)) (cc e3)
      (
        KeysIn-IsCompiled (patterns weights) weights compiled
            (λ k h. ground (arith, compile_all-keys compile (patterns weights) [] compiled k c))
            (patterns-KeysIn weights),
        refl,
      )

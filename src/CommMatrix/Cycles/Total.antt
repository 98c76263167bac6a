-- ===== src/CommMatrix/Cycles/Total.antt =====
-- src/agent_agora/comm_matrix.py: the search for cycles ends, and what it reports.
use agent_agora.CommMatrix.{CommMatrix}
use agent_agora.Prelude.{
  ◌∷◌, [], none, some, true, false, zero, suc, String, List, All, All, elem, ◌≤◌, ◌≡◌, length, ◌≡◌,
  arith, if◌then◌else◌, Option, Option, Option, ℕ, ℕ, ◌++◌, refl, Option-cases, Option-cases,
  Bool-cases, ap, inl, inr, keys, ◌∙◌, subst, ◌&&◌, not, sym, All-elem,
}
use agent_agora.CommMatrix.Cycles.{
  cycles, Search, Search, scan, opened, strongconnect, connect_all, next, self_loops, lowered,
  ◌>>=◌, ◌>>=◌, closed, adj, start,
}
use agent_agora.CommMatrix.Cycles.Growth.{
  unseen, IsLong, Grows, Grows-refl, unseen-assign, Grows-refl, unseen-Grows, closed-Ends,
  Grows-trans, lowered-Grows, is_none, All-adj,
}

module _ (next_of : String → List String) (nodes : List String)
    (inside : (v : String) → All (λ w. elem w nodes ≡ true) (next_of v)) where
  -- A visit of a node ends, with this fuel.
  abbrev IsTotal : (String → Search → Option Search) → ℕ → Type 0
  IsTotal visit n =
      (w : String) (s : Search)
      → elem w nodes ≡ true
      → s.index w ≡ none
      → unseen s.index nodes ≤ n
      → (s' : Search) × (visit w s ≡ some s') × Grows s s'

  next-total :
      (visit : String → Search → Option Search) (n : ℕ)
      → IsTotal visit n
      → (v w : String) (s : Search) → elem w nodes ≡ true
      → unseen s.index nodes ≤ n
      → (s' : Search) × (next visit v w (s.index w) s ≡ some s') × Grows s s'
  next-total visit n total v w s e le = elim (Option-cases (s.index w)) [
    | inl new ↦
        let (s1, run, g) = total w s e new le in
        (lowered v (s1.low w) s1, rw (new, run) refl, lowered-Grows v (s1.low w) s s1 g)
    | inr (i, old) ↦ elim (Bool-cases (s.on_stack w)) [
      | inl on ↦ (lowered v i s, rw (old, on) refl, lowered-Grows v i s s (Grows-refl s))
      | inr off ↦ (s, rw (old, off) refl, Grows-refl s)
    ]
  ]

  scan-total :
      (visit : String → Search → Option Search) (n : ℕ)
      → IsTotal visit n
      → (v : String) (ws : List String) (s : Search) → All (λ w. elem w nodes ≡ true) ws
      → unseen s.index nodes ≤ n
      → (s' : Search) × (scan visit v ws s ≡ some s') × Grows s s'
  unfolding scan
  scan-total visit n total v [] s h le = (s, refl, Grows-refl s)
  scan-total visit n total v (w ∷ ws) s h le =
      let (s1, run1, g1) = next-total visit n total v w s h.0 le in
      let fewer = unseen-Grows s s1 g1 nodes in
      let (s2, run2, g2) = scan-total visit n total v ws s1 h.1 (omega (arith, fewer, le)) in
      (s2, ap (λ o. o >>= scan visit v ws) run1 ∙ run2, Grows-trans s s1 s2 g1 g2)

  opened-Grows : (v : String) (s : Search) → Grows s (opened v s)
  unfolding opened
  opened-Grows v s = record { visited = λ k. ground arith; above = (v ∷ [], refl); long = λ h. h }

  strongconnect-IsTotal : (n : ℕ) → IsTotal (strongconnect next_of n) n
  unfolding strongconnect opened
  strongconnect-IsTotal zero w s e new le =
      absurd (let lt = (unseen-assign w s.counter s.index nodes new).1 e in omega (arith, lt, le))
  strongconnect-IsTotal (suc n) v s e new le =
      let lt = (unseen-assign v s.counter s.index nodes new).1 e in
      let (s1, run1, g1) =
        scan-total (strongconnect next_of n) n (strongconnect-IsTotal n) v (next_of v) (opened v s)
          (inside v) (omega (arith, lt, le)) in
      let (s2, run2, ends) = closed-Ends v g1.above.0 s.stack s1 g1.above.1 in
      let g = Grows-trans s (opened v s) s1 (opened-Grows v s) g1 in
      (
        s2,
        ap (λ o. o >>= closed v) run1 ∙ run2,
        record {
          visited = λ k.
              subst (λ f. (is_none (f k) && not (is_none (s.index k))) ≡ false) (sym ends.indexed)
                (g.visited k);
          above = ends.above;
          long = λ h. ends.long (g.long h);
        },
      )

  connect_all-total :
      (n : ℕ) (vs : List String) (s : Search)
      → All (λ w. elem w nodes ≡ true) vs
      → unseen s.index nodes ≤ n
      → (s' : Search) × (connect_all next_of n vs s ≡ some s') × Grows s s'
  unfolding connect_all
  connect_all-total n [] s h le = (s, refl, Grows-refl s)
  connect_all-total n (v ∷ vs) s h le = elim (Option-cases (s.index v)) [
    | inl new ↦
        let (s1, run1, g1) = strongconnect-IsTotal n v s h.0 new le in
        let fewer = unseen-Grows s s1 g1 nodes in
        let (s2, run2, g2) = connect_all-total n vs s1 h.1 (omega (arith, fewer, le)) in
        (s2, rw (new, run1) run2, Grows-trans s s1 s2 g1 g2)
    | inr (i, old) ↦ let (s2, run2, g2) = connect_all-total n vs s h.1 le in (s2, rw old run2, g2)
  ]

unseen-start : (ns : List String) → unseen (λ n. none) ns ≤ length ns
unseen-start [] = omega arith
unseen-start (n ∷ ns) = omega (arith, unseen-start ns)

-- The search ends and does not raise, on any matrix: an active one gives components of at least two
-- patterns, and then a list of one pattern for each of its edges from a pattern to itself.
pub cycles-total :
    (m : CommMatrix)
    → (comps : List (List String)) × All IsLong comps
      × (cycles m ≡ some (if m.active then comps ++ self_loops m.weights else []))
unfolding cycles
cycles-total m = elim (Bool-cases m.active) [
  | inr idle ↦ ([], tt, rw idle refl)
  | inl active ↦
      let nodes = keys m.weights in
      let all = All-elem nodes nodes (λ k e. e) in
      let (s, run, g) =
        connect_all-total (adj m.weights) nodes
          (λ v. All-adj (λ w. elem w nodes ≡ true) m.weights v all) (length nodes) nodes start all
          (unseen-start nodes) in
      (s.sccs, g.long tt, rw (active, run) refl)
]

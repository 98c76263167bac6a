-- ===== src/CommMatrix/Cycles/Growth.antt =====
-- src/agent_agora/comm_matrix.py: what the steps of the search for cycles do to its state.
use agent_agora.Prelude.{
  ◌∷◌, [], none, some, true, false, suc, Option, String, List, String, List, Bool, ℕ, ltb, ◌&&◌,
  arith, arith, ◌≤◌, ℕ, Dict, Dict, elem, ◌++◌, if◌then◌else◌, length, not, ◌∙◌, ◌≡◌, All, All, ◌≡◌,
  ◌≡◌, ◌+◌, ap, keys, eq_iff, refl, sym, Bool-cases, All-append, Bool-cases, append_assoc, ◌==◌,
  ◌==◌, inl, inr, subst, subst,
}
use agent_agora.CommMatrix.Cycles.{
  Search, Search, Search, Search, edges_in, adj, pop_to, assign, assign, reported, reported, popped,
  closed, lowered, found, is_root,
}

abbrev pub is_none {ℓ} : {A : Type ℓ} → Option A → Bool
is_none none = true
is_none (some a) = false

-- The nodes that were not visited.
abbrev pub unseen : (String → Option ℕ) → List String → ℕ
unseen f [] = 0
unseen f (x ∷ xs) = (if is_none (f x) then 1 else 0) + unseen f xs

abbrev pub IsLong : List String → Type 0
IsLong c = ltb 1 (length c) ≡ true

-- What the search does to its state: a node that was visited stays so, the stack grows at its top, and
-- what is reported has at least two nodes.
pub record Grows (s s' : Search) : Type 0 where
  pub visited : (k : String) → (is_none (s'.index k) && not (is_none (s.index k))) ≡ false
  pub above : (l : List String) × (s'.stack ≡ l ++ s.stack)
  pub long : All IsLong s.sccs → All IsLong s'.sccs

pub Grows-refl : (s : Search) → Grows s s
Grows-refl s = record { visited = λ k. ground arith; above = ([], refl); long = λ h. h }

pub Grows-trans : (s t u : Search) → Grows s t → Grows t u → Grows s u
Grows-trans s t u g h = record {
  visited = λ k. ground (arith, g.visited k, h.visited k);
  above = (
    h.above.0 ++ g.above.0,
    h.above.1 ∙ ap (λ l. h.above.0 ++ l) g.above.1 ∙ sym (append_assoc h.above.0 g.above.0 s.stack),
  );
  long = λ l. h.long (g.long l);
}

pub unseen-Grows :
    (s s' : Search) → Grows s s' → (ns : List String) → unseen s'.index ns ≤ unseen s.index ns
unseen-Grows s s' g [] = omega arith
unseen-Grows s s' g (n ∷ ns) = ground (arith, unseen-Grows s s' g ns, g.visited n)

-- A node that is visited now was counted before.
pub unseen-assign :
    (v : String) (i : ℕ) (f : String → Option ℕ) (ns : List String)
    → f v ≡ none
    → (unseen (assign v (some i) f) ns ≤ unseen f ns)
      × (elem v ns ≡ true → suc (unseen (assign v (some i) f) ns) ≤ unseen f ns)
unseen-assign v i f [] e = (omega arith, λ h. ground arith)
unseen-assign v i f (n ∷ ns) e = elim (Bool-cases (v == n)) [
  | inl same ↦
      let at : f n ≡ none = ap f (sym ((eq_iff v n).0 same)) ∙ e in
      let (le, lt) = unseen-assign v i f ns e in (ground arith, λ h. ground arith)
  | inr apart ↦
      let (le, lt) = unseen-assign v i f ns e in
      (ground arith, λ h. ground (arith, eq_iff v n, eq_iff n v))
]

All-edges_in :
    (P : String → Type 0) (n to : String) (row : Dict ℕ) → P to → All P (edges_in n to row)
unfolding edges_in
All-edges_in P n to [] h = tt
All-edges_in P n to ((f, w) ∷ row) h = ground (arith, All-edges_in P n to row h)

-- Each edge leads to a node.
pub All-adj :
    (P : String → Type 0) (weights : Dict (Dict ℕ)) (n : String)
    → All P (keys weights)
    → All P (adj weights n)
unfolding adj
All-adj P [] n h = tt
All-adj P ((to, row) ∷ weights) n h =
    All-append P (edges_in n to row) (adj weights n) (All-edges_in P n to row h.0)
      (All-adj P weights n h.1)

-- The stack is popped as far as a node that is on it, and what lies below stays.
pop_to-append :
    (v : String) (l k : List String) (s : Search)
    → (comp : List String) × (s' : Search) × (pop_to v (l ++ v ∷ k) s ≡ some (comp, s'))
      × ((m : List String) × (s'.stack ≡ m ++ k))
      × (s'.index ≡ s.index)
      × (s'.sccs ≡ s.sccs)
unfolding pop_to
pop_to-append v [] k s =
    let s1 = record s { stack = k; on_stack = assign v false s.on_stack } in
    (v ∷ [], s1, ground (arith, eq_iff v v), ([], refl), refl, refl)
pop_to-append v (w ∷ l) k s =
    let s1 = record s { stack = l ++ v ∷ k; on_stack = assign w false s.on_stack } in
    elim (Bool-cases (w == v)) [
      | inl same ↦
          (w ∷ [], s1, rw same refl, (l ++ v ∷ [], sym (append_assoc l (v ∷ []) k)), refl, refl)
      | inr apart ↦
          let (comp, s', run, below, indexed, kept) = pop_to-append v l k s1 in
          (w ∷ comp, s', rw (apart, run) refl, below, indexed, kept)
    ]

reported-IsLong :
    (comp : List String) (s : Search) → All IsLong s.sccs → All IsLong (reported (comp, s)).sccs
reported-IsLong comp s h = elim (Bool-cases (ltb 1 (length comp))) [
  | inl big ↦ rw big (All-append IsLong s.sccs (comp ∷ []) h (big, tt))
  | inr small ↦ rw small h
]

reported-same :
    (comp : List String) (s : Search)
    → ((reported (comp, s)).index ≡ s.index) × ((reported (comp, s)).stack ≡ s.stack)
reported-same comp s = elim (Bool-cases (ltb 1 (length comp))) [
  | inl big ↦ (rw big refl, rw big refl)
  | inr small ↦ (rw small refl, rw small refl)
]

-- What a visit leaves of the state that it found.
pub record Ends (k : List String) (s s' : Search) : Type 0 where
  pub indexed : s'.index ≡ s.index
  pub above : (m : List String) × (s'.stack ≡ m ++ k)
  pub long : All IsLong s.sccs → All IsLong s'.sccs

popped-Ends :
    (v : String) (l k : List String) (s : Search)
    → s.stack ≡ l ++ v ∷ k
    → (s' : Search) × (popped v s ≡ some s') × Ends k s s'
unfolding popped
popped-Ends v l k s e =
    let (comp, s1, run, below, indexed, kept) = pop_to-append v l k s in
    let (index1, stack1) = reported-same comp s1 in
    (
      reported (comp, s1),
      ap (λ st. found reported (pop_to v st s)) e ∙ ap (found reported) run,
      record {
        indexed = index1 ∙ indexed;
        above = (below.0, stack1 ∙ below.1);
        long = λ h. reported-IsLong comp s1 (subst (All IsLong) (sym kept) h);
      },
    )

pub closed-Ends :
    (v : String) (l k : List String) (s : Search)
    → s.stack ≡ l ++ v ∷ k
    → (s' : Search) × (closed v s ≡ some s') × Ends k s s'
unfolding closed
closed-Ends v l k s e = elim (Bool-cases (is_root (s.low v) (s.index v))) [
  | inl root ↦ let (s1, run, ends) = popped-Ends v l k s e in (s1, rw (closed, root) run, ends)
  | inr other ↦ (
    s,
    rw (closed, other) refl,
    record {
      indexed = refl;
      above = (l ++ v ∷ [], e ∙ sym (append_assoc l (v ∷ []) k));
      long = λ h. h;
    },
  )
]

pub lowered-Grows : (v : String) (n : ℕ) (s t : Search) → Grows s t → Grows s (lowered v n t)
lowered-Grows v n s t g = record {
  visited = λ k. g.visited k;
  above = g.above;
  long = λ h. g.long h;
}

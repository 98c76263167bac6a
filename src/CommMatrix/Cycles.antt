-- ===== src/CommMatrix/Cycles.antt =====
-- src/agent_agora/comm_matrix.py: `cycles`, Tarjan's search for the strongly connected components of the
-- patterns. `none` is a run that needs more fuel or raises.
pub mod Growth
pub mod Total
use agent_agora.CommMatrix.{CommMatrix}
use agent_agora.Prelude.{
  ◌∷◌, [], none, some, true, false, String, Option, String, String, Dict, Dict, String, String,
  String, String, String, Option, String, ℕ, List, String, String, String, String, String, Option,
  Bool, if◌then◌else◌, if◌then◌else◌, ◌++◌, map, ◌+◌, min, if◌then◌else◌, if◌then◌else◌, Bool,
  if◌then◌else◌, length, suc, ◌==◌, ltb, ◌==◌, nat_eq, ltb, keys, zero, ◌&&◌,
}

-- The search: the dicts are read by their keys alone.
pub record Search : Type 0 where
  pub index : String → Option ℕ
  pub low : String → ℕ
  pub on_stack : String → Bool
  pub stack : List String
  pub counter : ℕ
  pub sccs : List (List String)

abbrev pub start : Search
start = record {
  index = λ n. none;
  low = λ n. 0;
  on_stack = λ n. false;
  stack = [];
  counter = 0;
  sccs = [];
}

infixl 5 ◌>>=◌
abbrev pub ◌>>=◌ {ℓ κ} : {A : Type ℓ} → {B : Type κ} → Option A → (A → Option B) → Option B
none >>= f = none
some a >>= f = f a

abbrev pub assign {ℓ} : {A : Type ℓ} → String → A → (String → A) → String → A
assign k a f j = if k == j then a else f j

-- The row's edge from `n`, if there is one of positive weight.
unfoldable pub edges_in : (n to : String) → Dict ℕ → List String
edges_in n to [] = []
edges_in n to ((from_pat, w) ∷ row) =
    let rest = edges_in n to row in if ltb 0 w && from_pat == n then to ∷ rest else rest

-- `adj[n]`
unfoldable pub adj : Dict (Dict ℕ) → String → List String
unfolding edges_in
adj [] n = []
adj ((to_pat, row) ∷ weights) n = edges_in n to_pat row ++ adj weights n

unfoldable pub self_loops : Dict (Dict ℕ) → List (List String)
unfolding edges_in
self_loops [] = []
self_loops ((to_pat, row) ∷ weights) =
    map (λ n. n ∷ []) (edges_in to_pat to_pat row) ++ self_loops weights

unfoldable pub opened : String → Search → Search
opened v s = record s {
  index = assign v (some s.counter) s.index;
  low = assign v s.counter s.low;
  counter = s.counter + 1;
  stack = v ∷ s.stack;
  on_stack = assign v true s.on_stack;
}

abbrev pub lowered : String → ℕ → Search → Search
lowered v n s = record s { low = assign v (min (s.low v) n) s.low }

abbrev pub next :
    (visit : String → Search → Option Search) (v w : String) → Option ℕ → Search → Option Search
next visit v w none s = visit w s >>= (λ s1. some (lowered v (s1.low w) s1))
next visit v w (some i) s = some (if s.on_stack w then lowered v i s else s)

-- `for w_ in adj[v]`, with the recursive call as an argument
unfoldable pub scan :
    (visit : String → Search → Option Search) (v : String) → List String → Search → Option Search
scan visit v [] s = some s
scan visit v (w ∷ ws) s = next visit v w (s.index w) s >>= scan visit v ws

abbrev pub put_first : String → List String × Search → List String × Search
put_first w (comp, s) = (w ∷ comp, s)

abbrev pub found {ℓ κ} : {A : Type ℓ} → {B : Type κ} → (A → B) → Option A → Option B
found f none = none
found f (some a) = some (f a)

-- The loop that pops the stack as far as `v`; an empty stack raises.
unfoldable pub pop_to : String → List String → Search → Option (List String × Search)
pop_to v [] s = none
pop_to v (w ∷ stack) s =
    let s1 = record s { stack = stack; on_stack = assign w false s.on_stack } in
    let rest = pop_to v stack s1 in if w == v then some (w ∷ [], s1) else found (put_first w) rest

abbrev pub is_root : ℕ → Option ℕ → Bool
is_root l none = false
is_root l (some i) = nat_eq l i

abbrev pub reported : List String × Search → Search
reported (comp, s) = if ltb 1 (length comp) then record s { sccs = s.sccs ++ comp ∷ [] } else s

unfoldable pub popped : String → Search → Option Search
unfolding pop_to
popped v s = found reported (pop_to v s.stack s)

unfoldable pub closed : String → Search → Option Search
unfolding popped
closed v s = elim (is_root (s.low v) (s.index v)) [ true ↦ popped v s | false ↦ some s ]

unfoldable pub strongconnect : (String → List String) → (fuel : ℕ) → String → Search → Option Search
unfolding opened scan closed
strongconnect next_of zero v s = none
strongconnect next_of (suc fuel) v s =
    scan (strongconnect next_of fuel) v (next_of v) (opened v s) >>= closed v

abbrev pub connect :
    (String → List String) → (fuel : ℕ) → String → Option ℕ → Search → Option Search
unfolding strongconnect
connect next_of fuel v none s = strongconnect next_of fuel v s
connect next_of fuel v (some i) s = some s

-- `for n in nodes`
unfoldable pub connect_all :
    (String → List String) → (fuel : ℕ) → List String → Search → Option Search
unfolding strongconnect
connect_all next_of fuel [] s = some s
connect_all next_of fuel (v ∷ vs) s =
    connect next_of fuel v (s.index v) s >>= connect_all next_of fuel vs

-- No call of `strongconnect` is deeper than there are patterns.
unfoldable pub cycles : CommMatrix → Option (List (List String))
unfolding adj self_loops connect_all
cycles m = elim m.active [
  | false ↦ some []
  | true ↦
      connect_all (adj m.weights) (length (keys m.weights)) (keys m.weights) start
      >>= (λ s. some (s.sccs ++ self_loops m.weights))
]

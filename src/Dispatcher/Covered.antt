-- ===== src/Dispatcher/Covered.antt =====
-- src/agent_agora/dispatcher.py: the two counts of the answers that are awaited agree.
use agent_agora.Dispatcher.{Dispatcher, ◌∷◌}
use agent_agora.Prelude.{
  String, Dict, List, List, List, List, All, ◌≡◌, ℕ, if◌then◌else◌, ◌+◌, [], ◌==◌, elem, arith,
  arith, eq_iff, eq_iff, refl,
}
use agent_agora.Dispatcher.Views.{
  count_edge, count_targets, count_commands, count_sources, in_flight_edges, waits_on, waits_on_all,
  in_flight_count, Edge, Edge, Edge, Edge, Edge,
}
use agent_agora.Dispatcher.Depth.{Distinct, Distinct, Distinct}

-- The number of answers that the edges expect of a target.
unfoldable pub total_to : String → List Edge → ℕ
total_to t [] = 0
total_to t (e ∷ es) = if e.target == t then e.count + total_to t es else total_to t es

total_to-count_edge :
    (t source target : String) (es : List Edge)
    → total_to t (count_edge source target es)
      ≡ (if target == t then total_to t es + 1 else total_to t es)
unfolding total_to count_edge
total_to-count_edge t source target [] = ground arith
total_to-count_edge t source target (e ∷ es) = ground (
  arith,
  eq_iff e.source source,
  eq_iff e.target target,
  eq_iff e.target t,
  eq_iff target t,
  total_to-count_edge t source target es,
)

total_to-count_targets :
    (t source : String) (ts : List String) (es : List Edge)
    → Distinct ts
    → total_to t (count_targets source ts es)
      ≡ (if elem t ts then total_to t es + 1 else total_to t es)
unfolding count_targets
total_to-count_targets t source [] es distinct = refl
total_to-count_targets t source (x ∷ xs) es distinct = ground (
  arith,
  distinct,
  eq_iff x t,
  total_to-count_targets t source xs (count_edge source x es) distinct.1,
  total_to-count_edge t source x es,
)

-- No target is noted twice for a command.
abbrev pub IsNotedOnce : Dict (Dict (List String)) → Type 0
IsNotedOnce = All (λ p. All (λ c. Distinct c.1) p.1)

total_to-count_commands :
    (t source : String) (m : Dict (List String)) (es : List Edge)
    → All (λ c. Distinct c.1) m
    → total_to t (count_commands source m es) ≡ total_to t es + waits_on t m
unfolding count_commands waits_on
total_to-count_commands t source [] es once = omega arith
total_to-count_commands t source ((cmd_id, replyers) ∷ m) es once = ground (
  arith,
  total_to-count_commands t source m (count_targets source replyers es) once.1,
  total_to-count_targets t source replyers es once.0,
)

total_to-count_sources :
    (t : String) (m : Dict (Dict (List String))) (es : List Edge)
    → IsNotedOnce m
    → total_to t (count_sources m es) ≡ total_to t es + waits_on_all t m
unfolding count_sources waits_on_all
total_to-count_sources t [] es once = omega arith
total_to-count_sources t ((source, pending) ∷ m) es once = ground (
  arith,
  total_to-count_sources t m (count_commands source pending es) once.1,
  total_to-count_commands t source pending es once.0,
)

-- The edges into a target add up to the number of answers that `in_flight_count` says it owes, where no
-- target is noted twice for a command.
pub in_flight_edges-total :
    (t : String) (d : Dispatcher)
    → IsNotedOnce d.in_flight
    → total_to t (in_flight_edges d) ≡ in_flight_count t d
unfolding in_flight_edges in_flight_count total_to
in_flight_edges-total t d once = omega (arith, total_to-count_sources t d.in_flight [] once)

-- ===== src/Sweeper/Swept.antt =====
-- src/agent_agora/sweeper.py: what the sweeps keep, and whom they never touch.
use agent_agora.Dispatcher.{Dispatcher}
use agent_agora.Registry
use agent_agora.Sweeper.{
  release_all, unregister_dead_bots, dead_bot_sweep, cutoff_of, is_dead_bot, dead_bot_ids,
  unregister_dead, unregister_dead, dead_session_sweep, is_dead, is_dead, dead_ids,
}
use agent_agora.Registry.Instances.{
  InstanceRegistry, InstanceRegistry, InstanceInfo, InstanceInfo, worker_hooks, list_instances,
}
use agent_agora.Prelude.{
  List, ℕ, ℕ, String, String, lookup, ◌≡◌, ◌≡◌, ◌∷◌, Bool-cases, some, some, Option-cases, [], inl,
  inr, ◌==◌, false, All, arith, ap, eq_iff, sym, ◌∙◌, lookup-remove,
}
use agent_agora.Schemas.{SchemaRegistry, release_holder}
use agent_agora.Registry.Bots.{BotInfo, BotRegistry, bot_hooks, list_bots}
use agent_agora.Registry.Bijection.{IsBijective, unregister_session-IsBijective}
use agent_agora.Schemas.Counting.{IsCounted, release_holder-IsCounted}
use agent_agora.Registry.Routing.{IsIndexed, IsIndexed, unregister_session-IsIndexed}

release_all-IsCounted :
    (iids : List String) (s : SchemaRegistry) → IsCounted s → IsCounted (release_all iids s)
unfolding release_all
release_all-IsCounted [] s v = v
release_all-IsCounted (iid ∷ iids) s v =
    release_all-IsCounted iids (release_holder iid s).0 (release_holder-IsCounted iid s v)

unregister_dead_bots-IsIndexed :
    (cutoff : ℕ) (bs : List BotInfo) (r : BotRegistry)
    → IsBijective bot_hooks r
    → IsIndexed r
    → IsBijective bot_hooks (unregister_dead_bots cutoff bs r)
      × IsIndexed (unregister_dead_bots cutoff bs r)
unfolding unregister_dead_bots
unregister_dead_bots-IsIndexed cutoff [] r b v = (b, v)
unregister_dead_bots-IsIndexed cutoff (i ∷ is) r b v = elim (Bool-cases (is_dead_bot cutoff i)) [
  | inl dead ↦ rw dead (
      unregister_dead_bots-IsIndexed cutoff is
        (Registry.unregister_session bot_hooks i.session_id r)
        (unregister_session-IsBijective bot_hooks i.session_id r b).0
        (unregister_session-IsIndexed i.session_id r b v))
  | inr alive ↦ rw alive (unregister_dead_bots-IsIndexed cutoff is r b v)
]

-- A sweep of the dead bots leaves the routing index exact for the bots that stay, and each schema that
-- stays is permanent or is held by somebody.
pub dead_bot_sweep-IsIndexed :
    (now timeout_ms : ℕ) (d : Dispatcher)
    → IsBijective bot_hooks d.bots
    → IsIndexed d.bots
    → IsCounted d.schemas
    → IsIndexed (dead_bot_sweep now timeout_ms d).1.bots
      × IsCounted (dead_bot_sweep now timeout_ms d).1.schemas
unfolding dead_bot_sweep
dead_bot_sweep-IsIndexed now timeout_ms d b v c = (
  (unregister_dead_bots-IsIndexed (cutoff_of now timeout_ms) (list_bots d.bots) d.bots b v).1,
  release_all-IsCounted (dead_bot_ids (cutoff_of now timeout_ms) (list_bots d.bots)) d.schemas c,
)

-- The registry `r` has lost entries of `r0` at most, and still has the entry of `n`.
record Keeps (r0 : InstanceRegistry) (n : String) (i : InstanceInfo) (r : InstanceRegistry)
    : Type 0 where
  fewer :
      (s : String) (x : InstanceInfo)
      → lookup s r.by_session ≡ some x
      → lookup s r0.by_session ≡ some x
  found : lookup n r.by_instance ≡ some i

some-injective : {A : Type 0} {a b : A} → some a ≡ some b → a ≡ b
some-injective h = cc

unregister-Keeps :
    (r0 : InstanceRegistry) (n : String) (i j : InstanceInfo) (r : InstanceRegistry)
    → IsBijective worker_hooks r0
    → lookup n r0.by_instance ≡ some i
    → lookup j.session_id r0.by_session ≡ some j
    → ¬ (i ≡ j)
    → Keeps r0 n i r
    → Keeps r0 n i (Registry.unregister_session worker_hooks j.session_id r)
unfolding Registry.unregister_session Registry.detach_prior Registry.detach
unregister-Keeps r0 n i j r b there at apart v =
    elim (Option-cases (lookup j.session_id r.by_session)) [
      | inl e ↦ rw e v
      | inr (x, e) ↦
          let same : x ≡ j = let y = v.fewer j.session_id x e in cc in
          let other : (j.instance_id == n) ≡ false = elim (Bool-cases (j.instance_id == n)) [
            | inl hit ↦ absurd (
                apart (
                  let z = (b.session_sound j.session_id j at).1 in
                  let m : j.instance_id ≡ n = ground (arith, eq_iff j.instance_id n) in
                  some-injective (sym there ∙ ap (λ k. lookup k r0.by_instance) (sym m) ∙ z)))
            | inr miss ↦ miss
          ] in
          rw e (record {
            fewer =
                λ s y h. v.fewer s y (ground (arith, h, lookup-remove x.session_id s r.by_session));
            found =
                ground (arith, v.found, same, other, lookup-remove x.instance_id n r.by_instance);
          })
    ]

unregister_dead-Keeps :
    (r0 : InstanceRegistry) (cutoff : ℕ) (n : String) (i : InstanceInfo)
    → IsBijective worker_hooks r0
    → lookup n r0.by_instance ≡ some i
    → is_dead cutoff i ≡ false
    → (is : List InstanceInfo) (r : InstanceRegistry)
    → All (λ j. lookup j.session_id r0.by_session ≡ some j) is
    → Keeps r0 n i r
    → Keeps r0 n i (unregister_dead cutoff is r)
unfolding unregister_dead
unregister_dead-Keeps r0 cutoff n i b there alive [] r listed v = v
unregister_dead-Keeps r0 cutoff n i b there alive (j ∷ is) r listed v =
    elim (Bool-cases (is_dead cutoff j)) [
      | inl dead ↦ rw dead (
          unregister_dead-Keeps r0 cutoff n i b there alive is
            (Registry.unregister_session worker_hooks j.session_id r) listed.1
            (unregister-Keeps r0 n i j r b there listed.0
              (λ e. absurd (let x = ap (is_dead cutoff) e in ground arith)) v))
      | inr spared ↦ rw spared (unregister_dead-Keeps r0 cutoff n i b there alive is r listed.1 v)
    ]

unregister_dead-IsBijective :
    (cutoff : ℕ) (is : List InstanceInfo) (r : InstanceRegistry)
    → IsBijective worker_hooks r
    → IsBijective worker_hooks (unregister_dead cutoff is r)
unfolding unregister_dead
unregister_dead-IsBijective cutoff [] r b = b
unregister_dead-IsBijective cutoff (j ∷ is) r b = elim (Bool-cases (is_dead cutoff j)) [
  | inl dead ↦ rw dead (
      unregister_dead-IsBijective cutoff is
        (Registry.unregister_session worker_hooks j.session_id r)
        (unregister_session-IsBijective worker_hooks j.session_id r b).0)
  | inr spared ↦ rw spared (unregister_dead-IsBijective cutoff is r b)
]

-- A sweep of the dead sessions keeps the entry of each instance that is an operator or that was not
-- last seen before the cutoff, where the registry lists what it has; its two maps stay inverse, and
-- each schema that stays is permanent or is held by somebody.
pub dead_session_sweep-keeps :
    (now timeout_ms : ℕ) (d : Dispatcher) (n : String) (i : InstanceInfo)
    → IsBijective worker_hooks d.registry
    → IsCounted d.schemas
    → All (λ j. lookup j.session_id d.registry.by_session ≡ some j) (list_instances d.registry)
    → lookup n d.registry.by_instance ≡ some i
    → is_dead (cutoff_of now timeout_ms) i ≡ false
    → IsBijective worker_hooks (dead_session_sweep now timeout_ms d).1.registry
      × IsCounted (dead_session_sweep now timeout_ms d).1.schemas
      × (lookup n (dead_session_sweep now timeout_ms d).1.registry.by_instance ≡ some i)
unfolding dead_session_sweep
dead_session_sweep-keeps now timeout_ms d n i b c listed there alive =
    let cutoff = cutoff_of now timeout_ms in
    let snapshot = list_instances d.registry in
    (
      unregister_dead-IsBijective cutoff snapshot d.registry b,
      release_all-IsCounted (dead_ids cutoff snapshot) d.schemas c,
      (unregister_dead-Keeps d.registry cutoff n i b there alive snapshot d.registry listed
          (record { fewer = λ s x h. h; found = there })).found,
    )

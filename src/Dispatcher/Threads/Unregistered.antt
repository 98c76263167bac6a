-- ===== src/Dispatcher/Threads/Unregistered.antt =====
-- src/agent_agora/dispatcher.py, `operator_unregister`: the instance is gone.
use agent_agora.Dispatcher.{Dispatcher}
use agent_agora.Registry
use agent_agora.Dispatcher.Threads.{operator_unregister, session_of}
use agent_agora.Prelude.{
  String, ℕ, ◌≡◌, lookup, none, some, subst, Option-cases, sym, arith, arith, inl, inr, ◌∙◌, ap,
  has_key, ◌||◌, not, true,
}
use agent_agora.Registry.Bijection.{
  IsBijective, unregister_session-IsBijective, detach_prior-instance_none, detach_prior-instance,
}
use agent_agora.Registry.Instances.{worker_hooks, InstanceInfo}
use agent_agora.Registry.Bots.{bot_hooks, BotInfo}
use agent_agora.Registry.Routing.{IsIndexed, unregister_session-IsIndexed}
use agent_agora.Errors.{ok}
use agent_agora.Registry.{Hooks, resolve_instance_id, resolve_instance_id, Registry, detach_prior}

-- The session of an instance leads to the instance, and so does away with it.
unregistered-gone :
    {I X : Type 0} (h : Hooks I X) (iid sid : String) (r : Registry I X)
    → IsBijective h r
    → ((i : I) → lookup iid r.by_instance ≡ some i → sid ≡ h.session_id i)
    → lookup iid (Registry.unregister_session h sid r).by_instance ≡ none
unfolding Registry.unregister_session
unregistered-gone h iid sid r b at = elim (Option-cases (lookup iid r.by_instance)) [
  | inl e ↦ detach_prior-instance_none h iid (lookup sid r.by_session) r e
  | inr (i, e) ↦
      let same : lookup iid r.by_instance ≡ lookup sid r.by_session =
        e ∙ sym (ap (λ s. lookup s r.by_session) (at i e) ∙ (b.instance_sound iid i e).1) in
      subst (λ o. lookup iid (detach_prior h o r).by_instance ≡ none) same
        (detach_prior-instance h iid r b)
]

session_of-worker :
    (iid sid : String) (d : Dispatcher) (i : InstanceInfo)
    → session_of iid d ≡ some sid
    → lookup iid d.registry.by_instance ≡ some i
    → sid ≡ i.session_id
unfolding session_of resolve_instance_id
session_of-worker iid sid d i h e = ground arith

session_of-bot :
    (iid sid : String) (d : Dispatcher) (i : BotInfo)
    → session_of iid d ≡ some sid
    → lookup iid d.registry.by_instance ≡ none
    → lookup iid d.bots.by_instance ≡ some i
    → sid ≡ i.session_id
unfolding session_of resolve_instance_id
session_of-bot iid sid d i h e f = ground arith

-- What `operator_unregister` leaves where it returns.
operator_unregister-ok :
    (iid : String) (d d' : Dispatcher) (left : ℕ)
    → operator_unregister iid d ≡ (ok left, d')
    → (sid : String) × (session_of iid d ≡ some sid)
      × (d'.registry ≡ Registry.unregister_session worker_hooks sid d.registry)
      × (d'.bots ≡ Registry.unregister_session bot_hooks sid d.bots)
unfolding operator_unregister
operator_unregister-ok iid d d' left h = elim (Option-cases (session_of iid d)) [
  | inl e ↦ absurd (ground arith)
  | inr (sid, e) ↦ (sid, e, ground arith, ground arith)
]

-- An instance that an operator unregistered is neither a worker nor, if it was none before, a bot; the
-- maps of both registries stay inverse, and the index of the bots stays exact.
pub operator_unregister-gone :
    (iid : String) (d d' : Dispatcher) (left : ℕ)
    → IsBijective worker_hooks d.registry
    → IsBijective bot_hooks d.bots
    → IsIndexed d.bots
    → operator_unregister iid d ≡ (ok left, d')
    → (lookup iid d'.registry.by_instance ≡ none)
      × ((has_key iid d.registry.by_instance || not (has_key iid d'.bots.by_instance)) ≡ true)
      × IsBijective worker_hooks d'.registry
      × IsBijective bot_hooks d'.bots
      × IsIndexed d'.bots
operator_unregister-gone iid d d' left bw bb x h =
    let (sid, found, r, b) = operator_unregister-ok iid d d' left h in
    let gone =
      unregistered-gone worker_hooks iid sid d.registry bw
        (λ i e. session_of-worker iid sid d i found e) in
    (
      subst (λ g. lookup iid g.by_instance ≡ none) (sym r) gone,
      elim (Option-cases (lookup iid d.registry.by_instance)) [
        | inr (i, e) ↦ ground arith
        | inl no_worker ↦
            let no_bot =
              unregistered-gone bot_hooks iid sid d.bots bb
                (λ i e. session_of-bot iid sid d i found no_worker e) in
            let left_bots = ap (λ g. lookup iid g.by_instance) b in
            ground (arith, no_bot, left_bots, no_worker)
      ],
      subst (IsBijective worker_hooks) (sym r)
          (unregister_session-IsBijective worker_hooks sid d.registry bw).0,
      subst (IsBijective bot_hooks) (sym b)
          (unregister_session-IsBijective bot_hooks sid d.bots bb).0,
      subst IsIndexed (sym b) (unregister_session-IsIndexed sid d.bots bb x),
    )

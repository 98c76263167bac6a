-- ===== src/Dispatcher/Depth/Emissions.antt =====
-- src/agent_agora/dispatcher.py: `bot_emit` keeps to the bound of an inbox.
use agent_agora.Dispatcher.Depth.{IsBounded, fanout-IsBounded, same-IsBounded, send-IsBounded}
use agent_agora.Envelope.{DeliveredAs}
use agent_agora.Dispatcher.Emit.{
  emit_primary, emit_envelopes, deliver_emit, bot_emit, emit_envelope, begin_emit, Emission,
  Emission, Emission, Emission, EmitPlan, EmitPlan, EmitPlan, emit_plan,
}
use agent_agora.Dispatcher.Fanout.{submit, Work}
use agent_agora.Dispatcher.{World, Dispatcher, some, is_full}
use agent_agora.Prelude.{
  Option, ◌≡◌, String, ◌⊎◌, arith, refl, inl, subst, Bool-cases, sym, inr, none,
}
use agent_agora.Errors.{Result-cases}

emit_primary-IsBounded :
    (w : World) (q : Emission) (p : EmitPlan) (o : Option String) (k : Work)
    → IsBounded k.router
    → IsBounded (emit_primary w q p o k).router
unfolding emit_primary emit_envelope
emit_primary-IsBounded w q p none k v = v
emit_primary-IsBounded w q p (some t) k v = elim (Bool-cases (is_full t k.router)) [
  | inl full ↦ rw full v
  | inr room ↦ rw room (send-IsBounded w.now (emit_envelope w q p DeliveredAs.primary t) k room v)
]

emit_envelopes-IsBounded :
    (w : World) (q : Emission) (p : EmitPlan) (d : Dispatcher)
    → IsBounded d
    → IsBounded (emit_envelopes w q p d).router
unfolding emit_envelopes begin_emit emit_envelope
emit_envelopes-IsBounded w q p d v =
    fanout-IsBounded _ _ _ _ (λ b. refl) p.observers _
      (fanout-IsBounded _ _ _ _ (λ b. refl) p.subscribers _
        (emit_primary-IsBounded w q p p.reply_target (begin_emit w q p d)
          (same-IsBounded d _ refl refl v)))

deliver_emit-kept :
    (w : World) (q : Emission) (p : EmitPlan) (d : Dispatcher)
    → ((deliver_emit w q p d).1 ≡ d)
      ⊎ (((deliver_emit w q p d).1.queues ≡ (emit_envelopes w q p d).router.queues)
          × ((deliver_emit w q p d).1.config ≡ (emit_envelopes w q p d).router.config))
unfolding deliver_emit submit
deliver_emit-kept w q p d = ground arith

-- A bot's message never fills an inbox past its bound, whether it returns or raises.
pub bot_emit-IsBounded :
    (w : World) (q : Emission) (d : Dispatcher) → IsBounded d → IsBounded (bot_emit w q d).1
unfolding bot_emit
bot_emit-IsBounded w q d v = elim (Result-cases (emit_plan w q d)) [
  | inl (p, e) ↦ rw e (elim (deliver_emit-kept w q p d) [
    | inl f ↦ subst IsBounded (sym f) v
    | inr f ↦
        same-IsBounded (emit_envelopes w q p d).router _ f.0 f.1
          (emit_envelopes-IsBounded w q p d v)
  ])
  | inr (c, e) ↦ rw e v
]

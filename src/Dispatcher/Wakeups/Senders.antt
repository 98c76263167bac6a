-- ===== src/Dispatcher/Wakeups/Senders.antt =====
-- src/agent_agora/dispatcher.py: `dispatch`, `broadcast` and `bot_emit` wake those that they send to.
use agent_agora.Dispatcher.Dispatch.{
  note_awaited, send_primary, send_envelopes, settle, deliver, dispatch, begin, primary_envelope,
  broken_off,
}
use agent_agora.Dispatcher.{
  World, decrement_on_reply, Dispatcher, Dispatcher, Dispatcher, ◌∷◌, some, is_full,
}
use agent_agora.Dispatcher.Broadcast.{
  note_broadcast, send_to_workers, broadcast_envelopes, deliver_broadcast, announce, Announcement,
  Announcement, begin_broadcast, Announcement, BroadcastPlan, BroadcastPlan, BroadcastPlan,
  settle_broadcast, broadcast_plan, broadcast_broken_off,
}
use agent_agora.Dispatcher.Emit.{
  emit_primary, emit_envelopes, deliver_emit, bot_emit, Emission, begin_emit, Emission, EmitPlan,
  EmitPlan, EmitPlan, emit_plan,
}
use agent_agora.Dispatcher.Checks.{
  Request, Request, Request, Request, Plan, Plan, Plan, Plan, Plan, plan_of,
}
use agent_agora.Dispatcher.Fanout.{
  submit, submit, submit, fire_dispatched, Work, Work, Work, with_room,
}
use agent_agora.Prelude.{
  String, Option, ◌≡◌, String, List, ◌≡◌, Option, ◌≡◌, ◌⊎◌, ◌⊎◌, ◌⊎◌, inl, arith, arith, arith,
  subst, arith, arith, arith, sym, sym, Bool-cases, sym, inr, [], none, none,
}
use agent_agora.Dispatcher.Wakeups.{
  IsAwake, IsAwake, IsAwake, IsAwake, IsAwake, IsAwake, IsAwake, IsAwake, same-IsAwake,
  fanout-IsAwake, same-IsAwake, fanout-IsAwake, fanout-IsAwake, send_all-IsAwake, send-IsAwake,
  send-IsAwake,
}
use agent_agora.Dispatcher.Outcome.{unwritten}
use agent_agora.Errors.{Result-cases, Result-cases, Result-cases}

note_awaited-IsAwake :
    (w : World) (q : Request) (p : Plan) (t : String) (d : Dispatcher)
    → IsAwake d
    → IsAwake (note_awaited w q p t d)
unfolding note_awaited
note_awaited-IsAwake w q p t d v = same-IsAwake d _ (ground arith) (ground arith) v

send_primary-IsAwake :
    (w : World) (q : Request) (p : Plan) (o : Option String) (k : Work)
    → IsAwake k.router
    → IsAwake (send_primary w q p o k).router
unfolding send_primary
send_primary-IsAwake w q p none k v = v
send_primary-IsAwake w q p (some t) k v =
    note_awaited-IsAwake w q p t _ (send-IsAwake w.now (primary_envelope w q p k.router t) k v)

send_envelopes-IsAwake :
    (w : World) (q : Request) (p : Plan) (d : Dispatcher)
    → IsAwake d
    → IsAwake (send_envelopes w q p d).router
unfolding send_envelopes begin
send_envelopes-IsAwake w q p d v = fanout-IsAwake _ _ _ _ p.observers _ (
    fanout-IsAwake _ _ _ _ p.subscribers _ (
      send_all-IsAwake _ _ _ (
        send_primary-IsAwake w q p q.target (begin w q p d)
          (same-IsAwake d _ (λ i. d.queues) (λ i. d.waiters) v))))

unwritten-IsAwake :
    (w : World) (q : Request) (p : Plan) (d : Dispatcher) → IsAwake d → IsAwake (unwritten w q p d)
unfolding settle decrement_on_reply
unwritten-IsAwake w q p d v =
    same-IsAwake (send_envelopes w q p d).router _ (ground arith) (ground arith)
      (send_envelopes-IsAwake w q p d v)

-- What `deliver` leaves: the router as it was, or that with the envelopes in it.
deliver-router :
    (w : World) (q : Request) (p : Plan) (d : Dispatcher)
    → (((deliver w q p d).1.queues ≡ d.queues) × ((deliver w q p d).1.waiters ≡ d.waiters))
      ⊎ (((deliver w q p d).1.queues ≡ (unwritten w q p d).queues)
          × ((deliver w q p d).1.waiters ≡ (unwritten w q p d).waiters))
unfolding deliver submit fire_dispatched broken_off begin
deliver-router w q p d = ground arith

deliver-IsAwake :
    (w : World) (q : Request) (p : Plan) (d : Dispatcher) → IsAwake d → IsAwake (deliver w q p d).1
deliver-IsAwake w q p d v = elim (deliver-router w q p d) [
  | inl e ↦ same-IsAwake d _ e.0 e.1 v
  | inr e ↦ same-IsAwake (unwritten w q p d) _ e.0 e.1 (unwritten-IsAwake w q p d v)
]

pub dispatch-IsAwake :
    (w : World) (q : Request) (d : Dispatcher) → IsAwake d → IsAwake (dispatch w q d).1
unfolding dispatch
dispatch-IsAwake w q d v = elim (Result-cases (plan_of w q d)) [
  | inl (p, e) ↦ rw e (deliver-IsAwake w q p d v)
  | inr (c, e) ↦ rw e v
]

note_broadcast-IsAwake :
    (w : World) (q : Announcement) (p : BroadcastPlan) (t : String) (d : Dispatcher)
    → IsAwake d
    → IsAwake (note_broadcast w q p t d)
unfolding note_broadcast
note_broadcast-IsAwake w q p t d v = same-IsAwake d _ (ground arith) (ground arith) v

send_to_workers-IsAwake :
    (w : World) (q : Announcement) (p : BroadcastPlan) (ts : List String) (k : Work)
    → IsAwake k.router
    → IsAwake (send_to_workers w q p ts k).router
unfolding send_to_workers
send_to_workers-IsAwake w q p [] k v = v
send_to_workers-IsAwake w q p (t ∷ ts) k v =
    send_to_workers-IsAwake w q p ts _ (note_broadcast-IsAwake w q p t _ (send-IsAwake w.now _ k v))

broadcast_envelopes-IsAwake :
    (w : World) (q : Announcement) (p : BroadcastPlan) (d : Dispatcher)
    → IsAwake d
    → IsAwake (broadcast_envelopes w q p d).router
unfolding broadcast_envelopes begin_broadcast
broadcast_envelopes-IsAwake w q p d v = fanout-IsAwake _ _ _ _ p.observers _ (
    fanout-IsAwake _ _ _ _ p.subscribers _
      (send_to_workers-IsAwake w q p (with_room d p.targets) (begin_broadcast w q p d) v))

deliver_broadcast-router :
    (w : World) (q : Announcement) (p : BroadcastPlan) (d : Dispatcher)
    → (((deliver_broadcast w q p d).1.queues ≡ d.queues)
        × ((deliver_broadcast w q p d).1.waiters ≡ d.waiters))
      ⊎ (((deliver_broadcast w q p d).1.queues ≡ (broadcast_envelopes w q p d).router.queues)
          × ((deliver_broadcast w q p d).1.waiters ≡ (broadcast_envelopes w q p d).router.waiters))
unfolding deliver_broadcast submit settle_broadcast broadcast_broken_off begin_broadcast
deliver_broadcast-router w q p d = ground arith

pub announce-IsAwake :
    (w : World) (q : Announcement) (d : Dispatcher) → IsAwake d → IsAwake (announce w q d).1
unfolding announce
announce-IsAwake w q d v = elim (Result-cases (broadcast_plan w q d)) [
  | inl (p, e) ↦ rw e (elim (deliver_broadcast-router w q p d) [
    | inl f ↦ same-IsAwake d _ f.0 f.1 v
    | inr f ↦
        same-IsAwake (broadcast_envelopes w q p d).router _ f.0 f.1
          (broadcast_envelopes-IsAwake w q p d v)
  ])
  | inr (c, e) ↦ rw e v
]

emit_primary-IsAwake :
    (w : World) (q : Emission) (p : EmitPlan) (o : Option String) (k : Work)
    → IsAwake k.router
    → IsAwake (emit_primary w q p o k).router
unfolding emit_primary
emit_primary-IsAwake w q p none k v = v
emit_primary-IsAwake w q p (some t) k v = elim (Bool-cases (is_full t k.router)) [
  | inl full ↦ rw full v
  | inr room ↦ rw room (send-IsAwake w.now _ k v)
]

emit_envelopes-IsAwake :
    (w : World) (q : Emission) (p : EmitPlan) (d : Dispatcher)
    → IsAwake d
    → IsAwake (emit_envelopes w q p d).router
unfolding emit_envelopes begin_emit
emit_envelopes-IsAwake w q p d v = fanout-IsAwake _ _ _ _ p.observers _ (
    fanout-IsAwake _ _ _ _ p.subscribers _ (
      emit_primary-IsAwake w q p p.reply_target (begin_emit w q p d)
        (same-IsAwake d _ (λ i. d.queues) (λ i. d.waiters) v)))

deliver_emit-router :
    (w : World) (q : Emission) (p : EmitPlan) (d : Dispatcher)
    → ((deliver_emit w q p d).1 ≡ d)
      ⊎ (((deliver_emit w q p d).1.queues ≡ (emit_envelopes w q p d).router.queues)
          × ((deliver_emit w q p d).1.waiters ≡ (emit_envelopes w q p d).router.waiters))
unfolding deliver_emit submit
deliver_emit-router w q p d = ground arith

pub bot_emit-IsAwake :
    (w : World) (q : Emission) (d : Dispatcher) → IsAwake d → IsAwake (bot_emit w q d).1
unfolding bot_emit
bot_emit-IsAwake w q d v = elim (Result-cases (emit_plan w q d)) [
  | inl (p, e) ↦ rw e (elim (deliver_emit-router w q p d) [
    | inl f ↦ subst IsAwake (sym f) v
    | inr f ↦
        same-IsAwake (emit_envelopes w q p d).router _ f.0 f.1 (emit_envelopes-IsAwake w q p d v)
  ])
  | inr (c, e) ↦ rw e v
]

-- ===== src/Dispatcher/Depth/Broadcasts.antt =====
-- src/agent_agora/dispatcher.py: `broadcast` keeps to the bound of an inbox.
use agent_agora.Dispatcher.Depth.{
  IsBounded, Distinct, Distinct, same-IsBounded, HasRoom, fanout-IsBounded, same-HasRoom,
  keep-Distinct, send-HasRoom, with_room-HasRoom, send-IsBounded,
}
use agent_agora.Dispatcher.Broadcast.{
  note_broadcast, note_broadcast, send_to_workers, broadcast_envelopes, deliver_broadcast,
  broadcast_plan, announce, broadcast_envelope, begin_broadcast, Announcement, Announcement,
  Announcement, settle_broadcast, Announcement, Announcement, BroadcastPlan, BroadcastPlan,
  BroadcastPlan, BroadcastPlan, BroadcastPlan, other_instances, broadcast_broken_off,
}
use agent_agora.Dispatcher.{World, World, World, World, Dispatcher, Dispatcher, ◌∷◌}
use agent_agora.Dispatcher.Fanout.{submit, with_room, Work}
use agent_agora.Prelude.{
  String, String, List, ◌≡◌, ◌≡◌, ◌⊎◌, arith, arith, keep, refl, inl, [], inr, some,
}
use agent_agora.Errors.{ok, Result-cases, >>=-eq-ok, raise_if, dispatcher_closed}
use agent_agora.Registry.Instances.{list_instances}
use agent_agora.CommMatrix.{is_allowed}
use agent_agora.Dispatcher.Checks.{validate_payload, check_registered, to_list}
use agent_agora.Envelope.{validate_payload_size, validate_priority}

note_broadcast-IsBounded :
    (w : World) (q : Announcement) (p : BroadcastPlan) (t : String) (d : Dispatcher)
    → IsBounded d
    → IsBounded (note_broadcast w q p t d)
unfolding note_broadcast
note_broadcast-IsBounded w q p t d v = same-IsBounded d _ (ground arith) (ground arith) v

note_broadcast-HasRoom :
    (w : World) (q : Announcement) (p : BroadcastPlan) (t : String) (d : Dispatcher)
    (ts : List String)
    → HasRoom d ts
    → HasRoom (note_broadcast w q p t d) ts
unfolding note_broadcast
note_broadcast-HasRoom w q p t d ts =
    same-HasRoom d (note_broadcast w q p t d) ts (ground arith) (ground arith)

send_to_workers-IsBounded :
    (w : World) (q : Announcement) (p : BroadcastPlan) (ts : List String) (k : Work)
    → Distinct ts
    → HasRoom k.router ts
    → IsBounded k.router
    → IsBounded (send_to_workers w q p ts k).router
unfolding send_to_workers broadcast_envelope
send_to_workers-IsBounded w q p [] k distinct room v = v
send_to_workers-IsBounded w q p (t ∷ ts) k distinct room v =
    send_to_workers-IsBounded w q p ts _ distinct.1
      (note_broadcast-HasRoom w q p t _ ts (send-HasRoom w.now _ k ts distinct.0 room.1))
      (note_broadcast-IsBounded w q p t _ (send-IsBounded w.now _ k room.0 v))

broadcast_envelopes-IsBounded :
    (w : World) (q : Announcement) (p : BroadcastPlan) (d : Dispatcher)
    → Distinct p.targets
    → IsBounded d
    → IsBounded (broadcast_envelopes w q p d).router
unfolding broadcast_envelopes begin_broadcast broadcast_envelope with_room
broadcast_envelopes-IsBounded w q p d distinct v =
    fanout-IsBounded _ _ _ _ (λ b. refl) p.observers _
      (fanout-IsBounded _ _ _ _ (λ b. refl) p.subscribers _
        (send_to_workers-IsBounded w q p (with_room d p.targets) (begin_broadcast w q p d)
          (keep-Distinct _ _ distinct) (with_room-HasRoom d p.targets) v))

deliver_broadcast-kept :
    (w : World) (q : Announcement) (p : BroadcastPlan) (d : Dispatcher)
    → (((deliver_broadcast w q p d).1.queues ≡ d.queues)
        × ((deliver_broadcast w q p d).1.config ≡ d.config))
      ⊎ (((deliver_broadcast w q p d).1.queues ≡ (broadcast_envelopes w q p d).router.queues)
          × ((deliver_broadcast w q p d).1.config ≡ (broadcast_envelopes w q p d).router.config))
unfolding deliver_broadcast submit settle_broadcast broadcast_broken_off begin_broadcast
deliver_broadcast-kept w q p d = ground arith

broadcast_plan-targets :
    (w : World) (q : Announcement) (d : Dispatcher) (p : BroadcastPlan)
    → broadcast_plan w q d ≡ ok p
    → p.targets
      ≡ keep
          (λ t. is_allowed d.comm q.source t)
          (other_instances q.source (list_instances d.registry))
unfolding broadcast_plan
broadcast_plan-targets w q d p h =
    let (u1, e1, h1) = >>=-eq-ok (raise_if d.is_down dispatcher_closed) _ h in
    let (payload, e2, h2) =
      >>=-eq-ok (validate_payload w.filled_at (some q.source) q.payload d) _ h1 in
    let (size, e3, h3) = >>=-eq-ok (validate_payload_size (d.config.encoded_size payload.1)) _ h2 in
    let (priority, e4, h4) = >>=-eq-ok (validate_priority q.priority) _ h3 in
    let (u5, e5, h5) = >>=-eq-ok (check_registered (to_list q.reply_to) d) _ h4 in ground arith

-- A broadcast never fills an inbox past its bound, where the registry lists no instance twice.
pub announce-IsBounded :
    (w : World) (q : Announcement) (d : Dispatcher)
    → Distinct (other_instances q.source (list_instances d.registry))
    → IsBounded d
    → IsBounded (announce w q d).1
unfolding announce
announce-IsBounded w q d distinct v = elim (Result-cases (broadcast_plan w q d)) [
  | inl (p, e) ↦ rw e (elim (deliver_broadcast-kept w q p d) [
    | inl f ↦ same-IsBounded d _ f.0 f.1 v
    | inr f ↦ same-IsBounded (broadcast_envelopes w q p d).router _ f.0 f.1 (
        broadcast_envelopes-IsBounded w q p d
          (rw (broadcast_plan-targets w q d p e) (keep-Distinct _ _ distinct)) v)
  ])
  | inr (c, e) ↦ rw e v
]

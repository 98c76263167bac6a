-- ===== src/Dispatcher/Access.antt =====
-- src/agent_agora/dispatcher.py, `dispatch`: to whom a message may go.
use agent_agora.Envelope.{DeliveredAs, Envelope}
use agent_agora.Dispatcher.Made.{send_envelopes-each}
use agent_agora.Prelude.{
  ◌⊎◌, keep, ◌++◌, not, ◌==◌, All-kept, ◌&&◌, sym, All-imp, All-imp, eq_iff, All-elem, elem-sort_by,
  ◌∙◌, refl,
}
use agent_agora.Dispatcher.{Dispatcher, World, ◌∷◌}
use agent_agora.Dispatcher.Checks.{
  check_target, check_target, plan_of, Request, Request, TargetKind, TargetKind, Plan, Plan,
  check_registered, worker, to_list, cc_of, is_denied, handles, is_blank, validate_payload,
  is_unrouted,
}
use agent_agora.Prelude.{
  String, String, some, some, ◌≡◌, ◌≡◌, false, true, inl, arith, Bool-cases, inr, any, elem,
  sort_by, str_lt, List, All, [], ap, subst,
}
use agent_agora.Errors.{
  ok, ok, ok, >>=-eq-ok, raise_if-eq-ok, Result-cases, raise_if, dispatcher_closed, invalid_target,
  reply_to_in_cc, comm_denied, no_route,
}
use agent_agora.Registry.Bots.{is_bot, is_bot, BotInfo, subscribers_of}
use agent_agora.Registry.Instances.{InstanceInfo}
use agent_agora.Registry.{resolve_instance_id, resolve_instance_id}
use agent_agora.Envelope.{validate_payload_size, validate_priority}
use agent_agora.CommMatrix.{is_allowed}
use agent_agora.Dispatcher.Dispatch.{Receipt, dispatch, envelope_for, send_envelopes}
use agent_agora.Dispatcher.Outcome.{dispatch-ok}
use agent_agora.Dispatcher.Fanout.{fire_dispatched, with_room}
use agent_agora.Dispatcher.Delivery.{for_target, send_envelopes-Delivers, settle-same}
use agent_agora.Json.{Value, Value}
use agent_agora.Conversations.{resolve_conversation_id}

-- A target that is no bot is a worker, which is registered.
check_target-worker :
    (msgtype t : String) (d : Dispatcher) (kind : TargetKind)
    → check_target msgtype (some t) d ≡ ok kind
    → is_bot t d.bots ≡ false
    → (kind ≡ worker) × ((i : InstanceInfo) × (resolve_instance_id t d.registry ≡ ok i))
unfolding check_target
check_target-worker msgtype t d kind h no_bot =
    elim (Result-cases (resolve_instance_id t d.registry)) [
      | inl (i, e) ↦ (ground arith, (i, e))
      | inr (c, e) ↦ absurd (ground arith)
    ]

check_target-bot :
    (msgtype t : String) (d : Dispatcher) (kind : TargetKind)
    → check_target msgtype (some t) d ≡ ok kind
    → is_bot t d.bots ≡ true
    → (i : BotInfo) × (resolve_instance_id t d.bots ≡ ok i) × (handles msgtype i ≡ true)
unfolding check_target
check_target-bot msgtype t d kind h a_bot = elim (Result-cases (resolve_instance_id t d.bots)) [
  | inl (i, e) ↦
      (i, e, elim (Bool-cases (handles msgtype i)) [ inl y ↦ y | inr n ↦ absurd (ground arith) ])
  | inr (c, e) ↦ absurd (ground arith)
]

-- What the checks of a plan have found, all of them passed.
pub record Checked (w : World) (q : Request) (d : Dispatcher) (p : Plan) : Type 0 where
  pub up : d.is_down ≡ false
  pub routed : (msgtype : String) × (check_target msgtype q.target d ≡ ok p.kind)
  pub typed :
      (payload : Value) × (validate_payload w.filled_at (some q.source) q.payload d
        ≡ ok (routed.0, payload))
  pub answered : check_registered (to_list q.reply_to) d ≡ ok tt
  pub copied : check_registered (cc_of q) d ≡ ok tt
  pub allowed : is_denied p.kind q.source q.target d ≡ false
  pub copies : p.cc_list ≡ cc_of q
  pub heard : p.subscribers ≡ sort_by str_lt (subscribers_of routed.0 d.bots)
  pub watched : p.observers ≡ sort_by str_lt d.bots.index.observers
  pub resolved :
      p.conversation
      ≡ resolve_conversation_id w.fresh_id w.stored_conversation q.conversation_id q.in_reply_to
          d.conv

pub plan_of-Checked :
    (w : World) (q : Request) (d : Dispatcher) (p : Plan) → plan_of w q d ≡ ok p → Checked w q d p
unfolding plan_of
plan_of-Checked w q d p h =
    let (u1, e1, h1) = >>=-eq-ok (raise_if d.is_down dispatcher_closed) _ h in
    let (u2, e2, h2) = >>=-eq-ok (raise_if (is_blank q.target) invalid_target) _ h1 in
    let (payload, e3, h3) =
      >>=-eq-ok (validate_payload w.filled_at (some q.source) q.payload d) _ h2 in
    let (size, e4, h4) = >>=-eq-ok (validate_payload_size (d.config.encoded_size payload.1)) _ h3 in
    let (priority, e5, h5) = >>=-eq-ok (validate_priority q.priority) _ h4 in
    let (kind, e6, h6) = >>=-eq-ok (check_target payload.0 q.target d) _ h5 in
    let (u7, e7, h7) = >>=-eq-ok (check_registered (to_list q.reply_to) d) _ h6 in
    let (u8, e8, h8) =
      >>=-eq-ok (raise_if (any (λ r. elem r (cc_of q)) (to_list q.reply_to)) reply_to_in_cc) _ h7 in
    let (u9, e9, h9) = >>=-eq-ok (check_registered (cc_of q) d) _ h8 in
    let (u10, e10, h10) =
      >>=-eq-ok (raise_if (is_denied kind q.source q.target d) comm_denied) _ h9 in
    let (u11, e11, h11) =
      >>=-eq-ok
        (raise_if (is_unrouted q.target (sort_by str_lt (subscribers_of payload.0 d.bots)))
          no_route)
        _ h10 in
    let allowed = raise_if-eq-ok (is_denied kind q.source q.target d) comm_denied u10 e10 in
    record {
      up = raise_if-eq-ok _ _ u1 e1;
      routed = (payload.0, ground (arith));
      typed = (payload.1, e3);
      answered = ground arith;
      copied = ground arith;
      allowed = ground arith;
      copies = ground arith;
      heard = ground arith;
      watched = ground arith;
      resolved = ground arith;
    }

check_registered-All :
    (ts : List String) (d : Dispatcher)
    → check_registered ts d ≡ ok tt
    → All (λ t. (i : InstanceInfo) × (resolve_instance_id t d.registry ≡ ok i)) ts
unfolding check_registered
check_registered-All [] d h = tt
check_registered-All (t ∷ ts) d h =
    let (i, e, h1) = >>=-eq-ok (resolve_instance_id t d.registry) _ h in
    ((i, e), check_registered-All ts d h1)

-- A worker that a dispatch may go to: the matrix allows the edge, and it is registered.
pub record IsReachable (d : Dispatcher) (source t : String) : Type 0 where
  pub allowed : is_allowed d.comm source t ≡ true
  pub info : InstanceInfo
  pub registered : resolve_instance_id t d.registry ≡ ok info

plan_of-IsReachable :
    (w : World) (q : Request) (t : String) (d : Dispatcher) (p : Plan)
    → q.target ≡ some t
    → is_bot t d.bots ≡ false
    → plan_of w q d ≡ ok p
    → IsReachable d q.source t
plan_of-IsReachable w q t d p targeted no_bot h =
    let v = plan_of-Checked w q d p h in
    let (kind, (i, e)) =
      check_target-worker v.routed.0 t d p.kind
        (subst (λ o. check_target v.routed.0 o d ≡ ok p.kind) targeted v.routed.1) no_bot in
    record {
      allowed = ground (arith, v.allowed, ap (λ o. is_denied p.kind q.source o d) targeted);
      info = i;
      registered = e;
    }

abbrev pub IsRegistered : Dispatcher → String → Type 0
IsRegistered d c = (i : InstanceInfo) × (resolve_instance_id c d.registry ≡ ok i)

-- For which of three reasons an envelope of a request went out: to the target; as a copy, to a
-- registered worker that the caller named; or to a bot that is subscribed to the message type of the
-- payload or observes everything.
abbrev pub IsAddressed : Dispatcher → Request → (msgtype : String) → Envelope → Type 0
IsAddressed d q msgtype e =
    ((e.delivered_as ≡ DeliveredAs.primary) × (q.target ≡ some e.target))
    ⊎ (((e.delivered_as ≡ DeliveredAs.cc)
          × (elem e.target q.cc_list ≡ true)
          × ((e.target == q.source) ≡ false)
          × IsRegistered d e.target)
        ⊎ (((e.delivered_as ≡ DeliveredAs.subscribed)
              × (elem e.target (subscribers_of msgtype d.bots) ≡ true))
            ⊎ ((e.delivered_as ≡ DeliveredAs.cc) × (elem e.target d.bots.index.observers ≡ true))))

cc_of-All :
    (q : Request) (cs : List String)
    → All
        (λ c. (elem c cs ≡ true) × ((c == q.source) ≡ false))
        (keep (λ c. not (c == q.source) && not (elem c (to_list q.target))) cs)
cc_of-All q [] = tt
cc_of-All q (c ∷ cs) =
    let more =
      All-imp _ (λ x. (elem x (c ∷ cs) ≡ true) × ((x == q.source) ≡ false))
        (λ x h. (ground arith, h.1)) _ (cc_of-All q cs) in
    elim (Bool-cases (not (c == q.source) && not (elem c (to_list q.target)))) [
      | inl stays ↦ rw stays ((ground (arith, eq_iff c c), ground arith), more)
      | inr goes ↦ rw goes more
    ]

All-both :
    (P Q : String → Type 0) (xs : List String) → All P xs → All Q xs → All (λ x. P x × Q x) xs
All-both P Q [] h k = tt
All-both P Q (x ∷ xs) h k = ((h.0, k.0), All-both P Q xs h.1 k.1)

send_envelopes-IsAddressed :
    (w : World) (q : Request) (d : Dispatcher) (p : Plan) (v : Checked w q d p)
    → All (IsAddressed d q v.routed.0) (send_envelopes w q p d).envelopes
unfolding envelope_for with_room cc_of
send_envelopes-IsAddressed w q d p v =
    send_envelopes-each (IsAddressed d q v.routed.0) w q p d (λ t deadline e. inl (refl, e))
      (All-kept _ _ p.cc_list (
        subst (All _) (sym v.copies) (
          All-imp _ _ (λ c h. inr (inl (refl, h.0.0, h.0.1, h.1))) (cc_of q)
            (All-both _ (IsRegistered d) (cc_of q) (cc_of-All q q.cc_list)
              (check_registered-All (cc_of q) d v.copied)))))
      (All-imp _ _ (λ b h. inr (inr (inl (refl, h)))) p.subscribers
        (All-elem p.subscribers (subscribers_of v.routed.0 d.bots) (λ k h.
          sym (elem-sort_by str_lt k (subscribers_of v.routed.0 d.bots))
          ∙ sym (ap (elem k) v.heard)
          ∙ h)))
      (All-imp _ _ (λ b h. inr (inr (inr (refl, h)))) p.observers
        (All-elem p.observers d.bots.index.observers (λ k h.
          sym (elem-sort_by str_lt k d.bots.index.observers) ∙ sym (ap (elem k) v.watched) ∙ h)))

-- The matrix guards every worker: a dispatch to a target that is no bot returns only if the target is
-- registered and the matrix allows the edge. Every envelope that goes out goes to the target, or as a
-- copy to a registered worker, other than the source, that the caller put into `cc`, or to a bot that
-- is subscribed to the message type of the payload or observes everything.
pub dispatch-IsReachable :
    (w : World) (q : Request) (t : String) (d d' : Dispatcher) (r : Receipt)
    → q.target ≡ some t
    → is_bot t d.bots ≡ false
    → dispatch w q d ≡ (ok r, d')
    → IsReachable d q.source t
      × ((msgtype : String) × (payload : Value) × (es : List Envelope) × (validate_payload
              w.filled_at
              (some q.source)
              q.payload
              d
            ≡ ok (msgtype, payload))
          × ((u : String) → d'.queues u ≡ d.queues u ++ keep (for_target u) es)
          × All (IsAddressed d q msgtype) es)
unfolding fire_dispatched
dispatch-IsReachable w q t d d' r targeted no_bot h =
    let (p, planned, room, left, receipt) = dispatch-ok w q d d' r h in
    let v = plan_of-Checked w q d p planned in
    let k = send_envelopes w q p d in
    let sent = send_envelopes-Delivers w q p d in
    let same = settle-same w q p k in
    (
      plan_of-IsReachable w q t d p targeted no_bot planned,
      (
        v.routed.0,
        v.typed.0,
        k.envelopes,
        v.typed.1,
        λ u. ground (arith, sent.inbox u),
        send_envelopes-IsAddressed w q d p v,
      ),
    )

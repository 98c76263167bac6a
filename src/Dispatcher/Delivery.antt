-- ===== src/Dispatcher/Delivery.antt =====
-- src/agent_agora/dispatcher.py: what the inboxes hold after the envelopes of an operation.
use agent_agora.Dispatcher.{Dispatcher, World, ◌∷◌, decrement_on_reply, some, dispatched, Statement}
use agent_agora.Dispatcher.Fanout.{Work, send, send_all, fanout, fanout-keeps, fire_dispatched}
use agent_agora.Prelude.{
  String, String, ℕ, ◌≡◌, List, Bool, ◌++◌, arith, Bool, ◌==◌, keep, eq_iff, keep-append, [], [],
  append_assoc, append-nil, Bool-cases, inl, inr, Option, sym, refl, none, map,
}
use agent_agora.Envelope.{Envelope, Envelope, Envelope}
use agent_agora.Dispatcher.Dispatch.{
  note_awaited, send_primary, send_envelopes, primary_envelope, awaits, begin, settle, dispatch,
  Receipt,
}
use agent_agora.Dispatcher.Checks.{Request, Request, Request, Plan, Plan, Plan}
use agent_agora.Errors.{ok}
use agent_agora.Dispatcher.Outcome.{dispatch-ok, txn_of}

abbrev pub for_target : String → Envelope → Bool
for_target t e = e.target == t

-- Each inbox holds what it held in `d`, then the envelopes for it in the order in which they went
-- out; nothing has been written yet, and no hook called.
pub record Delivers (d : Dispatcher) (k : Work) : Type 0 where
  pub inbox : (t : String) → k.router.queues t ≡ d.queues t ++ keep (for_target t) k.envelopes
  pub no_event : k.router.events ≡ d.events
  pub no_write : k.router.writes ≡ d.writes

send-Delivers :
    (d : Dispatcher) (now : ℕ) (e : Envelope) (k : Work) → Delivers d k → Delivers d (send now e k)
unfolding send
send-Delivers d now e k v = record {
  inbox = λ t. ground (
    arith,
    v.inbox t,
    v.inbox e.target,
    eq_iff e.target t,
    keep-append (for_target t) k.envelopes (e ∷ []),
    append_assoc (d.queues t) (keep (for_target t) k.envelopes) (e ∷ []),
    append-nil (keep (for_target t) k.envelopes),
  );
  no_event = v.no_event;
  no_write = v.no_write;
}

send_all-Delivers :
    (d : Dispatcher) (now : ℕ) (es : List Envelope) (k : Work)
    → Delivers d k
    → Delivers d (send_all now es k)
unfolding send_all
send_all-Delivers d now [] k v = v
send_all-Delivers d now (e ∷ es) k v =
    send_all-Delivers d now es (send now e k) (send-Delivers d now e k v)

fanout-Delivers :
    (d : Dispatcher) (now : ℕ) (make : String → Envelope) (exclude : List String) (joins : Bool)
    (bots : List String) (k : Work)
    → Delivers d k
    → Delivers d (fanout now make exclude joins bots k)
fanout-Delivers d now make exclude joins =
    fanout-keeps (Delivers d) now make exclude joins
      (λ k bot v. record { inbox = v.inbox; no_event = v.no_event; no_write = v.no_write })
      (λ k c v. record { inbox = v.inbox; no_event = v.no_event; no_write = v.no_write })
      (λ k bot room v. send-Delivers d now (make bot) k v)

note_awaited-Delivers :
    (d : Dispatcher) (w : World) (q : Request) (p : Plan) (t : String) (k : Work)
    → Delivers d k
    → Delivers d (record k { router = note_awaited w q p t k.router })
unfolding note_awaited
note_awaited-Delivers d w q p t k v = elim (Bool-cases (awaits q p t)) [
  | inl yes_it_does ↦
      rw yes_it_does (record { inbox = v.inbox; no_event = v.no_event; no_write = v.no_write })
  | inr it_does_not ↦ rw it_does_not v
]

send_primary-Delivers :
    (d : Dispatcher) (w : World) (q : Request) (p : Plan) (o : Option String) (k : Work)
    → Delivers d k
    → Delivers d (send_primary w q p o k)
unfolding send_primary
send_primary-Delivers d w q p none k v = v
send_primary-Delivers d w q p (some t) k v =
    let k1 = send w.now (primary_envelope w q p k.router t) k in
    note_awaited-Delivers d w q p t k1
      (send-Delivers d w.now (primary_envelope w q p k.router t) k v)

-- The envelopes of a dispatch, whatever its plan.
pub send_envelopes-Delivers :
    (w : World) (q : Request) (p : Plan) (d : Dispatcher) → Delivers d (send_envelopes w q p d)
unfolding send_envelopes begin
send_envelopes-Delivers w q p d = fanout-Delivers d _ _ _ _ p.observers _ (
    fanout-Delivers d _ _ _ _ p.subscribers _ (
      send_all-Delivers d _ _ _ (
        send_primary-Delivers d w q p q.target (begin w q p d) (record {
          inbox = λ t. sym (append-nil (d.queues t));
          no_event = refl;
          no_write = refl;
        }))))

pub settle-same :
    (w : World) (q : Request) (p : Plan) (k : Work)
    → ((settle w q p k).queues ≡ k.router.queues)
      × ((settle w q p k).events ≡ k.router.events)
      × ((settle w q p k).writes ≡ k.router.writes)
unfolding settle decrement_on_reply
settle-same w q p k = ground arith

-- A dispatch that returns has called the hooks with exactly the envelopes that it appended to the
-- inboxes, in this order, and has written one transaction.
pub dispatch-delivers :
    (w : World) (q : Request) (d d' : Dispatcher) (r : Receipt)
    → dispatch w q d ≡ (ok r, d')
    → (es : List Envelope) × (d'.events ≡ d.events ++ map dispatched es)
      × ((t : String) → d'.queues t ≡ d.queues t ++ keep (for_target t) es)
      × ((txn : List Statement) × (d'.writes ≡ d.writes ++ txn ∷ []))
unfolding fire_dispatched
dispatch-delivers w q d d' r h =
    let (p, planned, room, left, receipt) = dispatch-ok w q d d' r h in
    let k = send_envelopes w q p d in
    let v = send_envelopes-Delivers w q p d in
    let same = settle-same w q p k in
    (k.envelopes, ground arith, λ t. ground (arith, v.inbox t), (txn_of w q p d, ground arith))

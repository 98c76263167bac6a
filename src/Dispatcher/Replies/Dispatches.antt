-- ===== src/Dispatcher/Replies/Dispatches.antt =====
-- src/agent_agora/dispatcher.py, `dispatch`: the answers that it awaits and that it counts off.
use agent_agora.Dispatcher.{Dispatcher, World, World, ◌∷◌, some, expect, decrement_on_reply}
use agent_agora.Dispatcher.Fanout.{Work, send, send_all, fanout, fanout-keeps, fire_dispatched}
use agent_agora.Prelude.{
  ℕ, ◌≡◌, List, String, Bool, Bool, Dict, elem, [], none, arith, refl, ◌&&◌, if◌then◌else◌, false,
  lookup, ◌==◌, ◌==◌, ◌==◌, any, is_some, add, add, is_some, lookup-insert, discard, Option, Option,
  Option, subst, sym,
}
use agent_agora.Dispatcher.Dispatch.{
  send_envelopes, send_primary, begin, note_awaited, awaits, awaits, effective_deadline, settle,
  Receipt, dispatch,
}
use agent_agora.Dispatcher.Checks.{Request, Plan, Plan, Plan, Plan, to_list, plan_of}
use agent_agora.Envelope.{Envelope, instant_of, instant_of}
use agent_agora.Conversations.{record_command, conv_id_of, conv_id_of, ConversationStore}
use agent_agora.Dispatcher.Cancel.{pending_targets, pending_targets}
use agent_agora.Dispatcher.Replies.{pending_targets-expect, pending_targets-drop_in_flight}
use agent_agora.Errors.{ok, ok}
use agent_agora.Dispatcher.Outcome.{after_write, dispatch-ok}

-- The router has the answers, the deadlines and the conversations of another.
record SameBooks (d : Dispatcher) (k : Work) : Type 0 where
  pending : k.router.in_flight ≡ d.in_flight
  due : k.router.deadlines ≡ d.deadlines
  known : k.router.conv ≡ d.conv

send-SameBooks :
    (d : Dispatcher) (now : ℕ) (e : Envelope) (k : Work)
    → SameBooks d k
    → SameBooks d (send now e k)
unfolding send
send-SameBooks d now e k v = record { pending = v.pending; due = v.due; known = v.known }

send_all-SameBooks :
    (d : Dispatcher) (now : ℕ) (es : List Envelope) (k : Work)
    → SameBooks d k
    → SameBooks d (send_all now es k)
unfolding send_all
send_all-SameBooks d now [] k v = v
send_all-SameBooks d now (e ∷ es) k v =
    send_all-SameBooks d now es (send now e k) (send-SameBooks d now e k v)

fanout-SameBooks :
    (d : Dispatcher) (now : ℕ) (make : String → Envelope) (exclude : List String) (joins : Bool)
    (bots : List String) (k : Work)
    → SameBooks d k
    → SameBooks d (fanout now make exclude joins bots k)
fanout-SameBooks d now make exclude joins =
    fanout-keeps (SameBooks d) now make exclude joins
      (λ k bot v. record { pending = v.pending; due = v.due; known = v.known })
      (λ k c v. record { pending = v.pending; due = v.due; known = v.known })
      (λ k bot room v. send-SameBooks d now (make bot) k v)

-- The router after the primary envelope.
abbrev with_primary : World → Request → Plan → Dispatcher → Dispatcher
with_primary w q p d = (send_primary w q p q.target (begin w q p d)).router

send_envelopes-SameBooks :
    (w : World) (q : Request) (p : Plan) (d : Dispatcher)
    → SameBooks (with_primary w q p d) (send_envelopes w q p d)
unfolding send_envelopes
send_envelopes-SameBooks w q p d = fanout-SameBooks _ _ _ _ _ p.observers _ (
    fanout-SameBooks _ _ _ _ _ p.subscribers _
      (send_all-SameBooks _ _ _ _ (record { pending = refl; due = refl; known = refl })))

-- Whether the answer of a target is awaited.
abbrev pub is_awaited_from : Request → Plan → String → Bool
is_awaited_from q p t = elem t (to_list q.target) && awaits q p t

abbrev awaited_in_flight : World → Request → Plan → Dispatcher → Dict (Dict (List String))
awaited_in_flight w q p d = elim q.target [
  | none ↦ d.in_flight
  | some t ↦ if awaits q p t then expect q.source w.cmd_id t d.in_flight else d.in_flight
]

with_primary-pending :
    (w : World) (q : Request) (p : Plan) (d : Dispatcher)
    → ((with_primary w q p d).in_flight ≡ awaited_in_flight w q p d)
      × ((with_primary w q p d).conv ≡ record_command w.cmd_id p.conversation.0 q.source d.conv)
unfolding send_primary begin send note_awaited
with_primary-pending w q p d = ground arith

with_primary-due :
    (w : World) (q : Request) (p : Plan) (d : Dispatcher) (c : String)
    → lookup c (with_primary w q p d).deadlines ≡ (
        if any (awaits q p) (to_list q.target) && w.cmd_id == c
        then some (effective_deadline w (instant_of q.deadline_ts) d)
        else lookup c d.deadlines)
unfolding send_primary begin send note_awaited effective_deadline
with_primary-due w q p d c = ground (
  arith,
  lookup-insert w.cmd_id c (effective_deadline w (instant_of q.deadline_ts) d) d.deadlines,
)

-- Whether an `in_reply_to` answers the command: the router knows its conversation.
abbrev pub answers : Option String → String → ConversationStore → Bool
answers none c s = false
answers (some r) c s = r == c && is_some (conv_id_of r s)

-- The answers to a command of a source that are awaited after the dispatch.
abbrev pub asked : World → Request → Plan → Dispatcher → (s c : String) → List String
asked w q p d s c = elim q.target [
  | none ↦ pending_targets s c d.in_flight
  | some t ↦
      if awaits q p t && q.source == s && w.cmd_id == c
      then add t (pending_targets s c d.in_flight)
      else pending_targets s c d.in_flight
]

asked-exact :
    (w : World) (q : Request) (p : Plan) (d : Dispatcher) (s c : String)
    → pending_targets s c (awaited_in_flight w q p d) ≡ asked w q p d s c
asked-exact w q p d s c =
    elim q.target
      as (λ o.
        pending_targets s c (elim o [
          | none ↦ d.in_flight
          | some t ↦ if awaits q p t then expect q.source w.cmd_id t d.in_flight else d.in_flight
        ])
        ≡ elim o [
          | none ↦ pending_targets s c d.in_flight
          | some t ↦
              if awaits q p t && q.source == s && w.cmd_id == c
              then add t (pending_targets s c d.in_flight)
              else pending_targets s c d.in_flight
        ]) [
          | none ↦ refl
          | some t ↦ ground (arith, pending_targets-expect q.source w.cmd_id t s c d.in_flight)
        ]

decrement_on_reply-pending :
    (o : Option String) (replier : String) (d : Dispatcher) (s c : String)
    → pending_targets s c (decrement_on_reply o replier d).in_flight ≡ (
        if answers o c d.conv
        then discard replier (pending_targets s c d.in_flight)
        else pending_targets s c d.in_flight)
unfolding decrement_on_reply
decrement_on_reply-pending none replier d s c = refl
decrement_on_reply-pending (some r) replier d s c =
    ground (arith, pending_targets-drop_in_flight r replier s c d.in_flight)

decrement_on_reply-due :
    (o : Option String) (replier : String) (d : Dispatcher)
    → (decrement_on_reply o replier d).deadlines ≡ d.deadlines
unfolding decrement_on_reply
decrement_on_reply-due none replier d = refl
decrement_on_reply-due (some r) replier d = ground arith

-- What a dispatch leaves of the answers that are awaited, and of the deadlines.
pub record Booked (w : World) (q : Request) (p : Plan) (d d' : Dispatcher) : Type 0 where
  pub planned : plan_of w q d ≡ ok p
  pub pending :
      (s c : String)
      → pending_targets s c d'.in_flight ≡ (
          if answers q.in_reply_to c (record_command w.cmd_id p.conversation.0 q.source d.conv)
          then discard q.source (asked w q p d s c)
          else asked w q p d s c)
  pub due :
      (c : String)
      → lookup c d'.deadlines ≡ (
          if any (awaits q p) (to_list q.target) && w.cmd_id == c
          then some (effective_deadline w (instant_of q.deadline_ts) d)
          else lookup c d.deadlines)

after_write-Booked :
    (w : World) (q : Request) (p : Plan) (d : Dispatcher)
    → plan_of w q d ≡ ok p
    → Booked w q p d (after_write w q p d)
unfolding settle fire_dispatched
after_write-Booked w q p d planned =
    let k = send_envelopes w q p d in
    let v = send_envelopes-SameBooks w q p d in
    let b = with_primary-pending w q p d in
    record {
      planned = planned;
      pending = λ s c. ground (
        arith,
        v.pending,
        v.known,
        b.0,
        b.1,
        asked-exact w q p d s c,
        decrement_on_reply-pending q.in_reply_to q.source k.router s c,
      );
      due = λ c. ground (
        arith,
        v.due,
        with_primary-due w q p d c,
        decrement_on_reply-due q.in_reply_to q.source k.router,
      );
    }

-- The books of a dispatch that returns: exactly the target whose answer is awaited is added under the
-- command, with the effective deadline; exactly the sender is counted off the command that it answers,
-- if the router knows it; all other entries are as before.
pub dispatch-Booked :
    (w : World) (q : Request) (d d' : Dispatcher) (r : Receipt)
    → dispatch w q d ≡ (ok r, d')
    → (p : Plan) × Booked w q p d d'
dispatch-Booked w q d d' r h =
    let (p, planned, room, left, receipt) = dispatch-ok w q d d' r h in
    (p, subst (Booked w q p d) (sym left) (after_write-Booked w q p d planned))

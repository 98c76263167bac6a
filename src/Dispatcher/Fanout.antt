-- ===== src/Dispatcher/Fanout.antt =====
-- src/agent_agora/dispatcher.py: `_fanout_to_bots`, and the parts that the senders share.
use agent_agora.Dispatcher.{
  Dispatcher, enqueue, is_full, is_full, is_full, Statement, ◌∷◌, insert_participant,
  insert_message, insert_conversation, update_conversation, dispatched,
}
use agent_agora.Conversations.{
  Conversation, add_participant, new_state, Resolved, Role, Role, get, Kind, Participant,
  ConversationStore,
}
use agent_agora.Prelude.{
  ℕ, Bool, ℕ, ℕ, String, Bool, List, keep, keep, ◌+◌, Dict, ◌++◌, if◌then◌else◌, not, if◌then◌else◌,
  ◌++◌, true, [], elem, map, [], false, [], [], or_default, ◌≡◌, Bool-cases, inl, inr,
}
use agent_agora.Envelope.{
  priority_rank, Envelope, Envelope, Envelope, Envelope, Envelope, Envelope, Envelope, Envelope,
}
use agent_agora.Errors.{Result, ok, raise, write_failed}

-- What an operation has built under the lock: the router, the conversation's state, the envelopes
-- that it delivered, and those that it left out.
pub record Work : Type 0 where
  pub router : Dispatcher
  pub state : Conversation
  pub envelopes : List Envelope
  pub skipped : List String

-- An envelope is delivered, and kept in the list of the delivered ones.
unfoldable pub send : ℕ → Envelope → Work → Work
unfolding enqueue
send now e k = record k { router = enqueue now e k.router; envelopes = k.envelopes ++ e ∷ [] }

unfoldable pub send_all : ℕ → List Envelope → Work → Work
send_all now [] k = k
send_all now (e ∷ es) k = send_all now es (send now e k)

abbrev pub join_as : Bool → String → Role → Conversation → Conversation
join_as true iid role c = add_participant iid role true c
join_as false iid role c = c

-- One round of the loop: a bot in `exclude` is passed over, a full inbox is noted.
unfoldable pub fanout_one :
    ℕ → (String → Envelope) → (exclude : List String) → (joins : Bool) → String → Work → Work
fanout_one now make exclude joins bot k =
    if elem bot exclude
    then k
    else if is_full bot k.router
    then record k { skipped = k.skipped ++ bot ∷ [] }
    else (let k1 = send now (make bot) k in
        record k1 { state = join_as joins bot Role.cc k1.state })

unfoldable pub fanout :
    ℕ → (String → Envelope) → (exclude : List String) → (joins : Bool) → List String → Work → Work
fanout now make exclude joins [] k = k
fanout now make exclude joins (bot ∷ bots) k =
    fanout now make exclude joins bots (fanout_one now make exclude joins bot k)

-- What skipping a bot and sending to one keep, the whole loop keeps.
module _ (P : Work → Type 0) (now : ℕ) (make : String → Envelope) (exclude : List String)
    (joins : Bool)
    (skip : (k : Work) (bot : String) → P k → P (record k { skipped = k.skipped ++ bot ∷ [] }))
    (join : (k : Work) (c : Conversation) → P k → P (record k { state = c }))
    (sent : (k : Work) (bot : String)
      → is_full bot k.router ≡ false
      → P k
      → P (send now (make bot) k)) where
  fanout_one-keeps : (bot : String) (k : Work) → P k → P (fanout_one now make exclude joins bot k)
  unfolding fanout_one
  fanout_one-keeps bot k h = elim (Bool-cases (elem bot exclude)) [
    | inl out ↦ rw out h
    | inr in_scope ↦ elim (Bool-cases (is_full bot k.router)) [
      | inl full ↦ rw (in_scope, full) (skip k bot h)
      | inr room ↦ rw (in_scope, room) (join (send now (make bot) k) _ (sent k bot room h))
    ]
  ]

  pub fanout-keeps :
      (bots : List String) (k : Work) → P k → P (fanout now make exclude joins bots k)
  unfolding fanout
  fanout-keeps [] k h = h
  fanout-keeps (bot ∷ bots) k h =
      fanout-keeps bots (fanout_one now make exclude joins bot k) (fanout_one-keeps bot k h)

-- The inboxes with room, and those without.
unfoldable pub with_room : Dispatcher → List String → List String
unfolding is_full
with_room d = keep (λ t. not (is_full t d))

unfoldable pub without_room : Dispatcher → List String → List String
unfolding is_full
without_room d = keep (λ t. is_full t d)

unfoldable pub add_all : Role → Bool → List String → Conversation → Conversation
add_all role delivered [] c = c
add_all role delivered (t ∷ ts) c = add_all role delivered ts (add_participant t role delivered c)

-- `if is_new_conv or not self._conv.has(conv_id): put(new_state)`, then `get`. The state is put back
-- when the operation ends.
unfoldable pub state_for : ℕ → Kind → Resolved → ConversationStore → Conversation
unfolding new_state get
state_for started_at kind (conv_id, is_new, substituted) s =
    let fresh = new_state started_at kind in
    if is_new then fresh else or_default (get conv_id s) fresh

-- `state["last_message_at"] = now; state["message_count"] += 1`
unfoldable pub count_message : ℕ → Conversation → Conversation
count_message now c = record c { last_message_at = now; message_count = c.message_count + 1 }

unfoldable pub participant_rows : String → ℕ → Dict Participant → List Statement
participant_rows conv_id now [] = []
participant_rows conv_id now ((iid, p) ∷ ps) =
    insert_participant conv_id iid p now ∷ participant_rows conv_id now ps

unfoldable pub message_rows : List Envelope → List Statement
message_rows [] = []
message_rows (e ∷ es) = insert_message e (priority_rank e.priority) ∷ message_rows es

-- `persist_dispatch_txn`: one transaction.
unfoldable pub dispatch_txn : Resolved → Conversation → List Envelope → List Statement
dispatch_txn (conv_id, is_new, substituted) c es =
    (if is_new then insert_conversation conv_id c ∷ [] else [])
    ++ participant_rows conv_id c.last_message_at c.participants
    ++ message_rows es
    ++ update_conversation conv_id c ∷ []

-- The transaction is committed, or it raises, with what is in memory kept.
unfoldable pub submit : Bool → List Statement → Dispatcher → Result (Unit {0}) × Dispatcher
submit true txn d = (ok tt, record d { writes = d.writes ++ txn ∷ [] })
submit false txn d = (raise write_failed, d)

abbrev pub is_nobody : List Envelope → Bool
is_nobody [] = true
is_nobody (e ∷ es) = false

unfoldable pub fire_dispatched : List Envelope → Dispatcher → Dispatcher
fire_dispatched es d = record d { events = d.events ++ map dispatched es }

-- ===== src/Dispatcher/Broadcast.antt =====
-- src/agent_agora/dispatcher.py, `broadcast`.
use agent_agora.Dispatcher.{Dispatcher, World, ◌∷◌, expect}
use agent_agora.Dispatcher.Fanout.{
  Work, state_for, with_room, send, fanout, submit, dispatch_txn, add_all, without_room,
  count_message, is_nobody,
}
use agent_agora.Registry.Instances.{InstanceInfo, list_instances}
use agent_agora.Prelude.{
  String, String, Option, String, String, List, String, Bool, Bool, ℕ, ℕ, false, if◌then◌else◌, ℕ,
  map, if◌then◌else◌, ◌==◌, Dict, ◌++◌, none, some, [], some, keep, [], [], ◌+◌, insert, true, keys,
  not, elem, length, sort_by, str_lt, ◌*◌, ◌&&◌,
}
use agent_agora.Json.{Value}
use agent_agora.Errors.{
  Result, Result, Result, Result, Result, ◌>>◌, ok, raise, raise_if, dispatcher_closed, ◌>>=◌,
  invalid_deadline_ts,
}
use agent_agora.Envelope.{
  DeliveredAs, DeliveredAs, Priority, Envelope, validate_payload_size, validate_priority,
  DeadlineTs, instant_of, instant_of, is_malformed,
}
use agent_agora.Conversations.{
  Conversation, put, set_conv_of, broadcast, record_command, Resolved, add_participant, closed,
  Role, resolve_conversation_id,
}
use agent_agora.Dispatcher.Checks.{validate_payload, check_registered, to_list}
use agent_agora.CommMatrix.{is_allowed}
use agent_agora.Registry.Bots.{subscribers_of}

-- The arguments of `broadcast`.
pub record Announcement : Type 0 where
  pub source : String
  pub payload : Value
  pub expect_result : Bool
  pub reply_to : Option String
  pub in_reply_to : Option String
  pub conversation_id : Option String
  pub closing : Bool
  pub priority : String
  pub deadline_ts : Option DeadlineTs

pub record BroadcastPlan : Type 0 where
  pub payload : Value
  pub priority : Priority
  pub targets : List String
  pub denied : List String
  pub subscribers : List String
  pub observers : List String
  pub conversation : Resolved

-- `[info.instance_id for info in … if info.instance_id != source]`
unfoldable pub other_instances : String → List InstanceInfo → List String
other_instances source [] = []
other_instances source (i ∷ is) =
    let rest = other_instances source is in
    if i.instance_id == source then rest else i.instance_id ∷ rest

unfoldable pub broadcast_plan : World → Announcement → Dispatcher → Result BroadcastPlan
broadcast_plan w q d = do
  raise_if d.is_down dispatcher_closed
  (msgtype, payload) ← validate_payload w.filled_at (some q.source) q.payload d
  size ← validate_payload_size (d.config.encoded_size payload)
  priority ← validate_priority q.priority
  check_registered (to_list q.reply_to) d
  let others = other_instances q.source (list_instances d.registry)
  ok (record {
    payload = payload;
    priority = priority;
    targets = keep (λ t. is_allowed d.comm q.source t) others;
    denied = sort_by str_lt (keep (λ t. not (is_allowed d.comm q.source t)) others);
    subscribers = sort_by str_lt (subscribers_of msgtype d.bots);
    observers = sort_by str_lt d.bots.index.observers;
    conversation =
        resolve_conversation_id w.fresh_id w.stored_conversation q.conversation_id q.in_reply_to
          d.conv;
  })

unfoldable pub broadcast_envelope :
    World
    → Announcement
    → BroadcastPlan
    → DeliveredAs
    → (expect_result closing : Bool) → Option ℕ
    → String
    → Envelope
broadcast_envelope w q p das expect_result closing deadline t = record {
  id = w.cmd_id;
  source = q.source;
  target = t;
  payload = p.payload;
  created_at = w.now;
  expect_result = expect_result;
  reply_to = q.reply_to;
  cc_list = none;
  delivered_as = das;
  dispatch_kind = broadcast;
  in_reply_to = q.in_reply_to;
  conversation_id = p.conversation.0;
  closing = closing;
  priority = p.priority;
  deadline_ts = deadline;
  wait_age_ms = 0;
  reply_only = false;
}

unfoldable pub broadcast_deadline : World → Announcement → Dispatcher → Option ℕ
broadcast_deadline w q d = elim (instant_of q.deadline_ts) [
  | none ↦ if q.expect_result then some (w.now + 1000 * d.config.default_timeout_ms) else none
  | some t ↦ some t
]

abbrev set_deadline : String → Option ℕ → Dict ℕ → Dict ℕ
set_deadline cmd_id none ds = ds
set_deadline cmd_id (some t) ds = insert cmd_id t ds

-- What the loop over the workers does after an envelope: the command's conversation, and the answer
-- that is awaited.
unfoldable pub note_broadcast :
    World → Announcement → BroadcastPlan → String → Dispatcher → Dispatcher
note_broadcast w q p t d =
    let d1 = record d { conv = set_conv_of w.cmd_id p.conversation.0 d.conv } in
    if q.expect_result
    then record d1 {
      in_flight = expect q.source w.cmd_id t d1.in_flight;
      deadlines = set_deadline w.cmd_id (broadcast_deadline w q d) d1.deadlines;
    }
    else d1

unfoldable pub send_to_workers : World → Announcement → BroadcastPlan → List String → Work → Work
send_to_workers w q p [] k = k
send_to_workers w q p (t ∷ ts) k =
    let e =
      broadcast_envelope w q p DeliveredAs.primary q.expect_result q.closing
        (broadcast_deadline w q k.router) t in
    let k1 = send w.now e k in
    send_to_workers w q p ts (record k1 { router = note_broadcast w q p t k1.router })

unfoldable pub begin_broadcast : World → Announcement → BroadcastPlan → Dispatcher → Work
begin_broadcast w q p d =
    let c0 = state_for w.started_at broadcast p.conversation d.conv in
    let c1 = add_participant q.source Role.primary true (record c0 { kind = broadcast }) in
    let c2 = add_all Role.primary true (with_room d p.targets) c1 in
    let c3 = add_all Role.primary false (without_room d p.targets) c2 in
    record {
      router = d;
      state = count_message w.now c3;
      envelopes = [];
      skipped = without_room d p.targets;
    }

-- A bot does not join the conversation of a broadcast.
unfoldable pub broadcast_envelopes : World → Announcement → BroadcastPlan → Dispatcher → Work
broadcast_envelopes w q p d =
    let bot_envelope =
      λ (das : DeliveredAs). broadcast_envelope w q p das false false (instant_of q.deadline_ts) in
    let k1 = send_to_workers w q p (with_room d p.targets) (begin_broadcast w q p d) in
    let k2 = fanout w.now (bot_envelope DeliveredAs.subscribed) [] false p.subscribers k1 in
    fanout w.now (bot_envelope DeliveredAs.cc) p.subscribers false p.observers k2

-- A closing broadcast closes the conversation at once, in the name of all its participants.
unfoldable pub close_announced : World → Announcement → Conversation → Conversation
close_announced w q c =
    if q.closing
    then record c { status = closed; closed_at = some w.closed_at; closed_by = keys c.participants }
    else c

pub record BroadcastReceipt : Type 0 where
  pub command_id : String
  pub created_at : ℕ
  pub conversation_id : String
  pub substituted : Bool
  pub dispatched_to : List (String × DeliveredAs)
  pub inbox_depth_after : List (String × ℕ)
  pub skipped : List String
  pub denied : List String

unfoldable pub broadcast_receipt : World → BroadcastPlan → Dispatcher → Work → BroadcastReceipt
broadcast_receipt w p d k =
    let deliverable = with_room d p.targets in
    record {
      command_id = w.cmd_id;
      created_at = w.now;
      conversation_id = p.conversation.0;
      substituted = p.conversation.2;
      dispatched_to =
          map (λ t. (t, DeliveredAs.primary)) deliverable
          ++ map (λ t. (t, DeliveredAs.subscribed)) p.subscribers
          ++ map (λ t. (t, DeliveredAs.cc)) (keep (λ b. not (elem b p.subscribers)) p.observers);
      inbox_depth_after = map (λ t. (t, length (k.router.queues t))) deliverable;
      skipped = k.skipped;
      denied = p.denied;
    }

unfoldable pub settle_broadcast : World → Announcement → BroadcastPlan → Work → Dispatcher
settle_broadcast w q p k = record k.router {
  conv =
      put p.conversation.0 (close_announced w q k.state)
        (record_command w.cmd_id p.conversation.0 q.source k.router.conv);
}

-- The first envelope that is made raises where the deadline is malformed.
unfoldable pub broadcast_breaks_off : World → Announcement → BroadcastPlan → Dispatcher → Bool
broadcast_breaks_off w q p d =
    is_malformed q.deadline_ts && not (is_nobody (broadcast_envelopes w q p d).envelopes)

-- The conversation is changed by then, but the command is not recorded.
unfoldable pub broadcast_broken_off : World → Announcement → BroadcastPlan → Dispatcher → Dispatcher
broadcast_broken_off w q p d =
    let k = begin_broadcast w q p d in
    let r = k.router in record r { conv = put p.conversation.0 k.state r.conv }

abbrev finish_broadcast :
    BroadcastReceipt → Result (Unit {0}) × Dispatcher → Result BroadcastReceipt × Dispatcher
finish_broadcast receipt (ok u, d) = (ok receipt, d)
finish_broadcast receipt (raise e, d) = (raise e, d)

unfoldable pub deliver_broadcast :
    World → Announcement → BroadcastPlan → Dispatcher → Result BroadcastReceipt × Dispatcher
deliver_broadcast w q p d =
    if d.is_down
    then (raise dispatcher_closed, d)
    else if broadcast_breaks_off w q p d
    then (raise invalid_deadline_ts, broadcast_broken_off w q p d)
    else (let k = broadcast_envelopes w q p d in
        finish_broadcast (broadcast_receipt w p d k) (
          submit w.commits (dispatch_txn p.conversation (close_announced w q k.state) k.envelopes)
            (settle_broadcast w q p k)))

abbrev pub after_broadcast_plan :
    World → Announcement → Dispatcher → Result BroadcastPlan → Result BroadcastReceipt × Dispatcher
after_broadcast_plan w q d (raise e) = (raise e, d)
after_broadcast_plan w q d (ok p) = deliver_broadcast w q p d

unfoldable pub announce : World → Announcement → Dispatcher → Result BroadcastReceipt × Dispatcher
announce w q d = after_broadcast_plan w q d (broadcast_plan w q d)

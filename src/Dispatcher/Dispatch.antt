-- ===== src/Dispatcher/Dispatch.antt =====
-- src/agent_agora/dispatcher.py, `dispatch`: the part under the lock, and the whole.
use agent_agora.Dispatcher.{Dispatcher, World, expect, decrement_on_reply, ◌∷◌, is_full}
use agent_agora.Dispatcher.Checks.{Request, Plan, plan_of, TargetKind, to_list, bot}
use agent_agora.Dispatcher.Fanout.{
  Work, send, state_for, send_all, with_room, submit, fanout, dispatch_txn, add_all,
  fire_dispatched, without_room, count_message, is_nobody,
}
use agent_agora.Prelude.{
  String, String, List, String, String, Option, String, Option, Option, List, ℕ, ◌*◌, none, Bool,
  Bool, Bool, ℕ, if◌then◌else◌, keep, some, true, ◌&&◌, or_default, some, insert, not, [], false,
  ◌==◌, ◌+◌, map, false, lookup, elem, ◌++◌, add, ◌++◌, length, any,
}
use agent_agora.Conversations.{
  maybe_close, add_participant, Participant, Role, is_opened, put, direct, Conversation,
  record_command, half_closed,
}
use agent_agora.Envelope.{
  DeliveredAs, Envelope, Envelope, instant_of, instant_of, instant_of, is_malformed,
}
use agent_agora.Errors.{
  Result, Result, raise, ok, dispatcher_closed, inbox_full, invalid_deadline_ts,
}

pub data DeliveryStatus : Type 0 where
  delivered skipped_full : DeliveryStatus

pub record Delivery : Type 0 where
  pub target : String
  pub delivered_as : DeliveredAs
  pub status : DeliveryStatus

pub record Receipt : Type 0 where
  pub command_id : String
  pub created_at : ℕ
  pub conversation_id : String
  pub substituted : Bool
  pub dispatched_to : List (String × DeliveredAs)
  pub deliveries : List Delivery
  pub inbox_depth_after : List (String × ℕ)
  pub skipped : List String

abbrev pub some_nonempty : List String → Option (List String)
some_nonempty [] = none
some_nonempty (c ∷ cs) = some (c ∷ cs)

-- `_make`
unfoldable pub envelope_for :
    World
    → Request
    → Plan
    → (target : String) → DeliveredAs
    → (expect_result closing : Bool) → Option ℕ
    → Envelope
envelope_for w q p target das expect_result closing deadline = record {
  id = w.cmd_id;
  source = q.source;
  target = target;
  payload = p.payload;
  created_at = w.now;
  expect_result = expect_result;
  reply_to = q.reply_to;
  cc_list = some_nonempty p.cc_list;
  delivered_as = das;
  dispatch_kind = direct;
  in_reply_to = q.in_reply_to;
  conversation_id = p.conversation.0;
  closing = closing;
  priority = p.priority;
  deadline_ts = deadline;
  wait_age_ms = 0;
  reply_only = q.reply_only;
}

abbrev is_bot_kind : TargetKind → Bool
is_bot_kind bot = true
is_bot_kind _ = false

-- `expect_result and target != source and target_kind != "bot"`, for a target.
unfoldable pub awaits : Request → Plan → String → Bool
awaits q p t = q.expect_result && not (t == q.source) && not (is_bot_kind p.kind)

-- `now` plus the default timeout, where the caller gave no deadline. Times are microseconds.
unfoldable pub effective_deadline : World → Option ℕ → Dispatcher → ℕ
effective_deadline w given d = or_default given (w.now + 1000 * d.config.default_timeout_ms)

-- The primary envelope. Where an answer is awaited it carries the effective deadline, which the code
-- writes over the envelope that it has just put in the inbox.
unfoldable pub primary_envelope : World → Request → Plan → Dispatcher → String → Envelope
unfolding envelope_for awaits effective_deadline
primary_envelope w q p d t = envelope_for w q p t DeliveredAs.primary q.expect_result q.closing (
    if awaits q p t
    then some (effective_deadline w (instant_of q.deadline_ts) d)
    else (instant_of q.deadline_ts))

unfoldable pub note_awaited : World → Request → Plan → String → Dispatcher → Dispatcher
note_awaited w q p t d =
    if awaits q p t
    then record d {
      in_flight = expect q.source w.cmd_id t d.in_flight;
      deadlines = insert w.cmd_id (effective_deadline w (instant_of q.deadline_ts) d) d.deadlines;
    }
    else d

unfoldable pub send_primary : World → Request → Plan → Option String → Work → Work
send_primary w q p none k = k
send_primary w q p (some t) k =
    let k1 = send w.now (primary_envelope w q p k.router t) k in
    record k1 { router = note_awaited w q p t k1.router }

-- The state before the first envelope: the conversation with its participants, and the command.
unfoldable pub begin : World → Request → Plan → Dispatcher → Work
begin w q p d =
    let c0 = state_for w.started_at direct p.conversation d.conv in
    let c1 = add_participant q.source Role.primary true c0 in
    let c2 = add_all Role.primary true (to_list q.target) c1 in
    let c3 = add_all Role.cc true (with_room d p.cc_list) c2 in
    let c4 = add_all Role.cc false (without_room d p.cc_list) c3 in
    record {
      router = record d { conv = record_command w.cmd_id p.conversation.0 q.source d.conv };
      state = count_message w.now c4;
      envelopes = [];
      skipped = without_room d p.cc_list;
    }

-- All the envelopes of a dispatch: primary, cc, subscribed, observers.
unfoldable pub send_envelopes : World → Request → Plan → Dispatcher → Work
send_envelopes w q p d =
    let k1 = send_primary w q p q.target (begin w q p d) in
    let k2 =
      send_all w.now
        (map
          (λ c.
            envelope_for w q p c DeliveredAs.cc q.expect_result q.closing
              (instant_of q.deadline_ts))
          (with_room d p.cc_list))
        k1 in
    let bot_envelope = λ (das : DeliveredAs) (b : String).
      envelope_for w q p b das false false (instant_of q.deadline_ts) in
    let k3 =
      fanout w.now (bot_envelope DeliveredAs.subscribed) (to_list q.target) true p.subscribers k2 in
    fanout w.now (bot_envelope DeliveredAs.cc) (to_list q.target ++ p.subscribers) true p.observers
      k3

abbrev role_of : Option Participant → Option Role
role_of none = none
role_of (some p) = some p.role

abbrev is_primary_role : Option Role → Bool
is_primary_role (some Role.primary) = true
is_primary_role _ = false

-- The end of a closing message from a primary participant.
unfoldable pub note_closing : World → Request → Conversation → Conversation
note_closing w q c =
    if q.closing && is_primary_role (role_of (lookup q.source c.participants))
    then (let c1 = record c { closed_by = add q.source c.closed_by } in
        let c2 = if is_opened c1.status then record c1 { status = half_closed } else c1 in
        maybe_close w.closed_at c2)
    else c

abbrev pub delivery : DeliveredAs → DeliveryStatus → String → Delivery
delivery das status t = record { target = t; delivered_as = das; status = status }

unfoldable pub receipt_of : World → Request → Plan → Dispatcher → Work → Receipt
receipt_of w q p d k =
    let cc_deliver = with_room d p.cc_list in
    let bots = keep (λ b. not (elem b (to_list q.target))) p.subscribers in
    record {
      command_id = w.cmd_id;
      created_at = w.now;
      conversation_id = p.conversation.0;
      substituted = p.conversation.2;
      dispatched_to =
          map (λ t. (t, DeliveredAs.primary)) (to_list q.target)
          ++ map (λ t. (t, DeliveredAs.cc)) cc_deliver
          ++ map (λ t. (t, DeliveredAs.subscribed)) bots;
      deliveries =
          map (delivery DeliveredAs.primary delivered) (to_list q.target)
          ++ map (delivery DeliveredAs.cc delivered) cc_deliver
          ++ map (delivery DeliveredAs.subscribed delivered) bots
          ++ map (delivery DeliveredAs.cc skipped_full) k.skipped;
      inbox_depth_after = map (λ t. (t, length (k.router.queues t))) (to_list q.target);
      skipped = k.skipped;
    }

abbrev pub finish :
    Receipt → List Envelope → Result (Unit {0}) × Dispatcher → Result Receipt × Dispatcher
finish receipt es (ok u, d) = (ok receipt, fire_dispatched es d)
finish receipt es (raise e, d) = (raise e, d)

-- The router after the envelopes: replies are counted off, and the conversation is put back.
unfoldable pub settle : World → Request → Plan → Work → Dispatcher
settle w q p k =
    let d = decrement_on_reply q.in_reply_to q.source k.router in
    record d { conv = put p.conversation.0 (note_closing w q k.state) d.conv }

-- The first envelope that is made raises where the deadline is malformed. Nothing is sent before it, so
-- one is made exactly if the envelopes of the dispatch are not none.
unfoldable pub breaks_off : World → Request → Plan → Dispatcher → Bool
breaks_off w q p d =
    is_malformed q.deadline_ts && not (is_nobody (send_envelopes w q p d).envelopes)

-- What a dispatch that breaks off leaves: the conversation with its participants and its count, and the
-- command.
unfoldable pub broken_off : World → Request → Plan → Dispatcher → Dispatcher
broken_off w q p d =
    let k = begin w q p d in
    let r = k.router in record r { conv = put p.conversation.0 k.state r.conv }

unfoldable pub deliver : World → Request → Plan → Dispatcher → Result Receipt × Dispatcher
deliver w q p d =
    if d.is_down
    then (raise dispatcher_closed, d)
    else if any (λ t. is_full t d) (to_list q.target)
    then (raise inbox_full, d)
    else if breaks_off w q p d
    then (raise invalid_deadline_ts, broken_off w q p d)
    else (let k = send_envelopes w q p d in
        finish (receipt_of w q p d k) k.envelopes (
          submit w.commits (dispatch_txn p.conversation (note_closing w q k.state) k.envelopes)
            (settle w q p k)))

abbrev pub after_plan : World → Request → Dispatcher → Result Plan → Result Receipt × Dispatcher
after_plan w q d (raise e) = (raise e, d)
after_plan w q d (ok p) = deliver w q p d

-- The checks and the part under the lock, with nothing between them.
unfoldable pub dispatch : World → Request → Dispatcher → Result Receipt × Dispatcher
dispatch w q d = after_plan w q d (plan_of w q d)

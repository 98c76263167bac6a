-- ===== src/Dispatcher/Emit.antt =====
-- src/agent_agora/dispatcher.py, `bot_emit`.
use agent_agora.Dispatcher.{Dispatcher, World, some, is_full}
use agent_agora.Dispatcher.Fanout.{
  Work, state_for, fanout, count_message, submit, dispatch_txn, send,
}
use agent_agora.Prelude.{
  String, Option, String, Option, Option, Option, String, map, List, Bool, List, ℕ, if◌then◌else◌,
  true, false, true, none, [], ◌++◌, ◌++◌, ◌∷◌, ◌&&◌, not, sort_by, str_lt,
}
use agent_agora.Json.{Value}
use agent_agora.Errors.{
  Result, Result, Result, Result, Result, ok, ◌>>◌, raise, raise_if, dispatcher_closed, ◌>>=◌,
  ◌>>=◌, target_and_reply, comm_denied,
}
use agent_agora.Envelope.{DeliveredAs, Envelope, normal, validate_payload_size}
use agent_agora.Conversations.{
  direct, Resolved, record_command, or_else, source_of, add_participant, Role, put,
  resolve_conversation_id,
}
use agent_agora.Dispatcher.Checks.{to_list, validate_payload}
use agent_agora.Registry.Bots.{is_bot, subscribers_of}
use agent_agora.Registry.{resolve_instance_id}
use agent_agora.CommMatrix.{is_allowed}

-- The arguments of `bot_emit`.
pub record Emission : Type 0 where
  pub source : String
  pub payload : Value
  pub in_reply_to : Option String
  pub target : Option String

pub record EmitPlan : Type 0 where
  pub payload : Value
  pub reply_target : Option String
  pub subscribers : List String
  pub observers : List String
  pub conversation : Resolved

abbrev both_given : Option String → Option String → Bool
both_given (some t) (some r) = true
both_given _ _ = false

-- A target that is no bot must be a worker, and be allowed where the setting asks for it.
unfoldable pub check_emit_target : String → Option String → Dispatcher → Result (Unit {0})
check_emit_target source none d = ok tt
check_emit_target source (some t) d = if is_bot t d.bots then ok tt else (do
  i ← resolve_instance_id t d.registry
  raise_if (d.config.bot_emit_recheck_acl && not (is_allowed d.comm source t)) comm_denied)

-- The source of the message that is answered, from memory or else from the database.
unfoldable pub reply_target_of : World → Emission → Dispatcher → Option String
reply_target_of w q d = elim q.target [
  | some t ↦ some t
  | none ↦ elim q.in_reply_to [
    | none ↦ none
    | some r ↦ or_else (source_of r d.conv) (w.stored_source r)
  ]
]

abbrev emit_subscribers : Option String → Option String → List String → List String
emit_subscribers none none bots = bots
emit_subscribers _ _ bots = []

unfoldable pub emit_plan : World → Emission → Dispatcher → Result EmitPlan
emit_plan w q d = do
  raise_if d.is_down dispatcher_closed
  (msgtype, payload) ← validate_payload w.filled_at (some q.source) q.payload d
  size ← validate_payload_size (d.config.encoded_size payload)
  raise_if (both_given q.target q.in_reply_to) target_and_reply
  check_emit_target q.source q.target d
  ok (record {
    payload = payload;
    reply_target = reply_target_of w q d;
    subscribers =
        emit_subscribers q.target q.in_reply_to (sort_by str_lt (subscribers_of msgtype d.bots));
    observers = sort_by str_lt d.bots.index.observers;
    conversation =
        resolve_conversation_id w.fresh_id w.stored_conversation none q.in_reply_to d.conv;
  })

unfoldable pub emit_envelope : World → Emission → EmitPlan → DeliveredAs → String → Envelope
emit_envelope w q p das t = record {
  id = w.cmd_id;
  source = q.source;
  target = t;
  payload = p.payload;
  created_at = w.now;
  expect_result = false;
  reply_to = none;
  cc_list = none;
  delivered_as = das;
  dispatch_kind = direct;
  in_reply_to = q.in_reply_to;
  conversation_id = p.conversation.0;
  closing = false;
  priority = normal;
  deadline_ts = none;
  wait_age_ms = 0;
  reply_only = false;
}

-- `_enqueue` for the target of the reply: it joins as a primary participant.
unfoldable pub emit_primary : World → Emission → EmitPlan → Option String → Work → Work
emit_primary w q p none k = k
emit_primary w q p (some t) k =
    if is_full t k.router
    then record k { skipped = k.skipped ++ t ∷ [] }
    else (let k1 = send w.now (emit_envelope w q p DeliveredAs.primary t) k in
        record k1 { state = add_participant t Role.primary true k1.state })

unfoldable pub begin_emit : World → Emission → EmitPlan → Dispatcher → Work
begin_emit w q p d =
    let c0 = state_for w.started_at direct p.conversation d.conv in
    record {
      router = record d { conv = record_command w.cmd_id p.conversation.0 q.source d.conv };
      state = count_message w.now (add_participant q.source Role.cc true c0);
      envelopes = [];
      skipped = [];
    }

-- `_enqueue` for the bots is the same step as that of `_fanout_to_bots`.
unfoldable pub emit_envelopes : World → Emission → EmitPlan → Dispatcher → Work
emit_envelopes w q p d =
    let k1 = emit_primary w q p p.reply_target (begin_emit w q p d) in
    let k2 =
      fanout w.now (emit_envelope w q p DeliveredAs.subscribed) (to_list p.reply_target) true
        p.subscribers k1 in
    fanout w.now (emit_envelope w q p DeliveredAs.cc) (to_list p.reply_target ++ p.subscribers) true
      p.observers k2

pub record EmitReceipt : Type 0 where
  pub command_id : String
  pub created_at : ℕ
  pub conversation_id : String
  pub substituted : Bool
  pub dispatched_to : List (String × DeliveredAs)
  pub skipped : List String

unfoldable pub emit_receipt : World → EmitPlan → Work → EmitReceipt
emit_receipt w p k = record {
  command_id = w.cmd_id;
  created_at = w.now;
  conversation_id = p.conversation.0;
  substituted = p.conversation.2;
  dispatched_to = map (λ e. (e.target, e.delivered_as)) k.envelopes;
  skipped = k.skipped;
}

abbrev finish_emit : EmitReceipt → Result (Unit {0}) × Dispatcher → Result EmitReceipt × Dispatcher
finish_emit receipt (ok u, d) = (ok receipt, d)
finish_emit receipt (raise e, d) = (raise e, d)

unfoldable pub deliver_emit :
    World → Emission → EmitPlan → Dispatcher → Result EmitReceipt × Dispatcher
deliver_emit w q p d =
    if d.is_down
    then (raise dispatcher_closed, d)
    else (let k = emit_envelopes w q p d in
        finish_emit (emit_receipt w p k) (
          submit w.commits (dispatch_txn p.conversation k.state k.envelopes)
            (record k.router { conv = put p.conversation.0 k.state k.router.conv })))

abbrev pub after_emit_plan :
    World → Emission → Dispatcher → Result EmitPlan → Result EmitReceipt × Dispatcher
after_emit_plan w q d (raise e) = (raise e, d)
after_emit_plan w q d (ok p) = deliver_emit w q p d

unfoldable pub bot_emit : World → Emission → Dispatcher → Result EmitReceipt × Dispatcher
bot_emit w q d = after_emit_plan w q d (emit_plan w q d)

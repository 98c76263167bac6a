-- ===== src/Tests/Scenario.antt =====
-- A router with three workers, two bots, one schema and a matrix.
use agent_agora.CommMatrix
use agent_agora.Dispatcher.{
  Dispatcher, World, wake_all, wake, push, enqueue, is_full, expect, drop_in_flight,
  decrement_on_reply,
}
use agent_agora.Prelude.{
  String, String, false, ◌∷◌, ◌∷◌, ◌==◌, true, ◌∷◌, true, some, [], List, none, none, lookup,
  insert, ◌≡◌, remove, insert_by, sort_by, refl,
}
use agent_agora.Registry.Instances.{InstanceRegistry, InstanceInfo, WaitMode}
use agent_agora.Registry.Bots.{BotRegistry, BotMode, BotMode, BotInfo, is_bot, subscribers_of}
use agent_agora.Json.{
  Value, Value, obj, obj, field, field, end, str, get_field, add_field, has_field,
}
use agent_agora.Schemas.{SchemaEntry, SchemaRegistry, SchemaKind}
use agent_agora.CommMatrix.{
  Pattern, Pattern, CommMatrix, best_in_row, best_of, weight_of, is_allowed,
}
use agent_agora.Dispatcher.Checks.{
  Request, autofill, autofill_fields, validate_payload, check_target, check_registered, cc_of,
  plan_of,
}
use agent_agora.Errors.{Result, ok, raise}
use agent_agora.Dispatcher.Dispatch.{
  Receipt, dispatch, dispatch, envelope_for, awaits, effective_deadline, primary_envelope,
  note_awaited, send_primary, begin, send_envelopes, note_closing, receipt_of, settle, deliver,
  breaks_off,
}
use agent_agora.Conversations.{
  maybe_close, no_conversations, is_closed, is_opened, is_primary, new_state, add_participant,
  delivered_primaries, all_in, resolve_conversation_id, get, put, conv_id_of, source_of,
  record_command,
}
use agent_agora.Registry.Operator.{is_operator}
use agent_agora.Envelope.{priority_rank, validate_priority, validate_payload_size, is_malformed}
use agent_agora.Registry.{resolve_instance_id}
use agent_agora.Dispatcher.Fanout.{
  send, send_all, fanout_one, fanout, with_room, without_room, add_all, state_for, count_message,
  participant_rows, message_rows, dispatch_txn, submit, fire_dispatched,
}

abbrev pub worker_info : (session_id instance_id : String) → InstanceInfo
worker_info session_id instance_id = record {
  instance_id = instance_id;
  session_id = session_id;
  role = "worker";
  registered_at = 1;
  description = "";
  cwd = "/work";
  wait_mode = WaitMode.auto;
  last_seen_at = none;
  accepting = true;
}

abbrev pub bot_info : (session_id instance_id : String) → BotMode → List String → BotInfo
bot_info session_id instance_id mode schemas = record {
  instance_id = instance_id;
  session_id = session_id;
  description = "";
  bot_mode = mode;
  subscribe_schemas = schemas;
  emit_schemas = [];
  registered_at = 1;
  last_seen_at = none;
}

abbrev pub workers : InstanceRegistry
workers = record {
  by_session =
      ("s1", worker_info "s1" "alice")
      ∷ ("s2", worker_info "s2" "bob")
      ∷ ("s3", worker_info "s3" "carol")
      ∷ [];
  by_instance =
      ("alice", worker_info "s1" "alice")
      ∷ ("bob", worker_info "s2" "bob")
      ∷ ("carol", worker_info "s3" "carol")
      ∷ [];
  index = tt;
}

abbrev pub bot_list : BotRegistry
bot_list = record {
  by_session =
      ("b1", bot_info "b1" "logger" BotMode.observer [])
      ∷ ("b2", bot_info "b2" "mailer" BotMode.handler ("note" ∷ []))
      ∷ [];
  by_instance =
      ("logger", bot_info "b1" "logger" BotMode.observer [])
      ∷ ("mailer", bot_info "b2" "mailer" BotMode.handler ("note" ∷ []))
      ∷ [];
  index = record { subscribers = ("note", "mailer" ∷ []) ∷ []; observers = "logger" ∷ [] };
}

abbrev pub note_body : Value
note_body =
    obj (field "properties" (obj (field "msgtype" (obj end) (field "from" (obj end) end))) end)

abbrev pub note_entry : SchemaEntry
note_entry = record {
  name = "note";
  body = note_body;
  kind = SchemaKind.conversation;
  purpose = "";
  registered_at = 1;
  registered_by = some "alice";
}

abbrev pub catalogue : SchemaRegistry
catalogue = record {
  entries = ("note", note_entry) ∷ [];
  validators = ("note", λ v. []) ∷ [];
  refs = ("note", "alice" ∷ []) ∷ [];
  permanent = [];
}

abbrev pub is_alice : Pattern
is_alice s = s == "alice"

abbrev pub anyone : Pattern
anyone s = true

-- Alice may send to everyone, with weight 2.
abbrev pub matrix : CommMatrix
matrix = record {
  weights = (".*", ("alice", 2) ∷ []) ∷ ("alice", (".*", 0) ∷ []) ∷ [];
  compiled = (".*", anyone) ∷ ("alice", is_alice) ∷ [];
  active = true;
}

abbrev pub router : Dispatcher
router = record {
  config = record {
    max_inbox_depth = 3;
    default_timeout_ms = 60_000;
    bot_emit_recheck_acl = false;
    encoded_size = λ v. 20;
    iso = λ t. "2026";
  };
  registry = workers;
  bots = bot_list;
  schemas = catalogue;
  comm = matrix;
  conv = no_conversations;
  queues = λ t. [];
  waiters = λ t. [];
  done = [];
  woken = [];
  is_down = false;
  in_flight = [];
  last_dispatch_to = [];
  deadlines = [];
  last_inbound = [];
  writes = [];
  events = [];
}

abbrev pub world : World
world = record {
  cmd_id = "c1";
  fresh_id = "v1";
  filled_at = 5;
  now = 6;
  started_at = 7;
  closed_at = 8;
  commits = true;
  stored_conversation = λ c. none;
  stored_source = λ c. none;
}

abbrev pub note : Value
note = obj (field "msgtype" (str "note") end)

abbrev pub request : Request
request = record {
  source = "alice";
  target = some "bob";
  payload = note;
  expect_result = true;
  reply_to = none;
  cc_list = "carol" ∷ [];
  in_reply_to = none;
  conversation_id = none;
  closing = false;
  priority = "high";
  deadline_ts = none;
  reply_only = false;
}

-- What a run returned, in place of which another value stands if it raised.
abbrev pub or_else_value {ℓ} : {A : Type ℓ} → A → Result A → A
or_else_value a (ok b) = b
or_else_value a (raise e) = a

abbrev pub no_receipt : Receipt
no_receipt = record {
  command_id = "";
  created_at = 0;
  conversation_id = "";
  substituted = false;
  dispatched_to = [];
  deliveries = [];
  inbox_depth_after = [];
  skipped = [];
}

-- What a run computes through.
unfoldable pub program : Unit {0}
unfolding CommMatrix.matches lookup insert remove insert_by sort_by best_in_row best_of weight_of
    is_allowed is_operator get_field add_field has_field is_closed is_opened is_primary new_state
    add_participant delivered_primaries all_in maybe_close resolve_conversation_id get put
    conv_id_of source_of record_command priority_rank validate_priority validate_payload_size
    resolve_instance_id is_bot subscribers_of wake_all wake push enqueue is_full expect
    drop_in_flight decrement_on_reply autofill autofill_fields validate_payload check_target
    check_registered cc_of plan_of envelope_for awaits effective_deadline primary_envelope
    note_awaited send_primary begin send_envelopes note_closing receipt_of settle breaks_off
    is_malformed deliver dispatch send send_all fanout_one fanout with_room without_room add_all
    state_for count_message participant_rows message_rows dispatch_txn submit fire_dispatched
program = tt

abbrev pub outcome : Result Receipt × Dispatcher
outcome = dispatch world request router

abbrev pub receipt : Receipt
receipt = or_else_value no_receipt outcome.0

pub request-runs : dispatch world request router ≡ (ok receipt, outcome.1)
unfolding program
request-runs = refl

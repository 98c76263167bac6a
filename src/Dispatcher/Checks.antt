-- ===== src/Dispatcher/Checks.antt =====
-- src/agent_agora/dispatcher.py: the checks of a payload and of a dispatch, before the lock.
use agent_agora.Dispatcher.{Dispatcher, World, some, ◌∷◌}
use agent_agora.Schemas.{SchemaEntry, Validator}
use agent_agora.Json.{Value, str, obj, arr, Fields, get_field, add_field, has_field}
use agent_agora.Errors.{
  Result, ok, raise, payload_missing_msgtype, unknown_msgtype, ◌>>=◌, unhashable, ◌>>◌, raise_if,
  schema_violation, unhandled_schema, dispatcher_closed, invalid_target, reply_to_in_cc,
  comm_denied, no_route,
}
use agent_agora.Prelude.{
  String, Option, Option, Option, ℕ, Option, Option, List, ℕ, if◌then◌else◌, lookup, Bool, ◌&&◌,
  true, none, none, none, none, not, false, [], keep, ◌==◌, elem, any, sort_by, str_lt,
}
use agent_agora.Envelope.{Priority, validate_payload_size, validate_priority, DeadlineTs}
use agent_agora.Registry.Bots.{BotInfo, is_bot, handler, observer, subscribers_of}
use agent_agora.Registry.{resolve_instance_id}
use agent_agora.CommMatrix.{is_allowed}
use agent_agora.Conversations.{Resolved, resolve_conversation_id}

-- `if field in props and field not in payload: payload[field] = v`
unfoldable pub autofill : String → Value → Fields → Fields → Fields
autofill name v props payload =
    if has_field name props && not (has_field name payload)
    then add_field name v payload
    else payload

abbrev autofill_source : Option String → Fields → Fields → Fields
autofill_source none props payload = payload
autofill_source (some source) props payload = autofill "from" (str source) props payload

abbrev fill_from : Value → Option String → Option Value → Fields → Fields
fill_from now source none payload = payload
fill_from now source (some (obj props)) payload =
    autofill_source source props (autofill "timestamp" now props (autofill "ts" now props payload))
fill_from now source (some _) payload = payload

-- `_autofill_fields`; `entry.body.get("properties", {})` is `{}` where it is missing.
abbrev fill_entry : Value → Option String → Option SchemaEntry → Fields → Fields
fill_entry now source none payload = payload
fill_entry now source (some e) payload = elim e.body [
  | obj body ↦ fill_from now source (get_field "properties" body) payload
  | _ ↦ payload
]

unfoldable pub autofill_fields : ℕ → Option String → String → Dispatcher → Fields → Fields
unfolding autofill get_field has_field add_field
autofill_fields now source msgtype d payload =
    fill_entry (str (d.config.iso now)) source (lookup msgtype d.schemas.entries) payload

-- The key for the registry: a list or an object cannot be one, and no other value but a text is.
abbrev msgtype_key : Option Value → Result String
msgtype_key none = raise payload_missing_msgtype
msgtype_key (some (str s)) = ok s
msgtype_key (some (arr xs)) = raise unhashable
msgtype_key (some (obj fs)) = raise unhashable
msgtype_key (some _) = raise unknown_msgtype

abbrev known_validator : Option Validator → Result Validator
known_validator none = raise unknown_msgtype
known_validator (some v) = ok v

abbrev is_nil : List String → Bool
is_nil [] = true
is_nil (s ∷ ss) = false

-- The message type, and the payload with the fields that the server fills in.
unfoldable pub validate_payload : ℕ → Option String → Value → Dispatcher → Result (String × Value)
validate_payload now source (obj payload) d = do
  msgtype ← msgtype_key (get_field "msgtype" payload)
  validator ← known_validator (lookup msgtype d.schemas.validators)
  let filled = obj (autofill_fields now source msgtype d payload)
  raise_if (not (is_nil (validator filled))) schema_violation
  ok (msgtype, filled)
validate_payload now source _ d = raise payload_missing_msgtype

-- The arguments of `dispatch`.
pub record Request : Type 0 where
  pub source : String
  pub target : Option String
  pub payload : Value
  pub expect_result : Bool
  pub reply_to : Option String
  pub cc_list : List String
  pub in_reply_to : Option String
  pub conversation_id : Option String
  pub closing : Bool
  pub priority : String
  pub deadline_ts : Option DeadlineTs
  pub reply_only : Bool

pub data TargetKind : Type 0 where
  schema_routed worker bot : TargetKind

-- What the checks of `dispatch` hand to the part under the lock.
pub record Plan : Type 0 where
  pub payload : Value
  pub priority : Priority
  pub kind : TargetKind
  pub cc_list : List String
  pub subscribers : List String
  pub observers : List String
  pub conversation : Resolved

abbrev pub handles : String → BotInfo → Bool
handles msgtype i = elim i.bot_mode [ handler ↦ elem msgtype i.subscribe_schemas | observer ↦ true ]

unfoldable pub check_target : String → Option String → Dispatcher → Result TargetKind
check_target msgtype none d = ok schema_routed
check_target msgtype (some t) d =
    if is_bot t d.bots
    then (do
      i ← resolve_instance_id t d.bots
      raise_if (not (handles msgtype i)) unhandled_schema
      ok bot)
    else (do i ← resolve_instance_id t d.registry; ok worker)

unfoldable pub check_registered : List String → Dispatcher → Result (Unit {0})
check_registered [] d = ok tt
check_registered (t ∷ ts) d = do i ← resolve_instance_id t d.registry; check_registered ts d

abbrev pub to_list : Option String → List String
to_list none = []
to_list (some s) = s ∷ []

-- `[c for c in cc if c != source and c != target]`
unfoldable pub cc_of : Request → List String
cc_of q = keep (λ c. not (c == q.source) && not (elem c (to_list q.target))) q.cc_list

abbrev is_worker : TargetKind → Bool
is_worker worker = true
is_worker _ = false

-- `if target_kind == "worker" and not self._comm_matrix.is_allowed(source, target)`
abbrev pub is_denied : TargetKind → String → Option String → Dispatcher → Bool
is_denied kind source none d = false
is_denied kind source (some t) d = is_worker kind && not (is_allowed d.comm source t)

-- `target is not None and not target`
abbrev pub is_blank : Option String → Bool
is_blank none = false
is_blank (some t) = t == ""

-- `target is None and not subscriber_bots`
abbrev pub is_unrouted : Option String → List String → Bool
is_unrouted none [] = true
is_unrouted _ _ = false

unfoldable pub plan_of : World → Request → Dispatcher → Result Plan
plan_of w q d = do
  raise_if d.is_down dispatcher_closed
  raise_if (is_blank q.target) invalid_target
  (msgtype, payload) ← validate_payload w.filled_at (some q.source) q.payload d
  size ← validate_payload_size (d.config.encoded_size payload)
  priority ← validate_priority q.priority
  kind ← check_target msgtype q.target d
  check_registered (to_list q.reply_to) d
  raise_if (any (λ r. elem r (cc_of q)) (to_list q.reply_to)) reply_to_in_cc
  check_registered (cc_of q) d
  raise_if (is_denied kind q.source q.target d) comm_denied
  let subscribers = sort_by str_lt (subscribers_of msgtype d.bots)
  raise_if (is_unrouted q.target subscribers) no_route
  ok (record {
    payload = payload;
    priority = priority;
    kind = kind;
    cc_list = cc_of q;
    subscribers = subscribers;
    observers = sort_by str_lt d.bots.index.observers;
    conversation =
        resolve_conversation_id w.fresh_id w.stored_conversation q.conversation_id q.in_reply_to
          d.conv;
  })

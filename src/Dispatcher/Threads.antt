-- ===== src/Dispatcher/Threads.antt =====
-- src/agent_agora/dispatcher.py: `reply`, `close_thread`, and what an operator may do to a conversation
-- or to an instance.
pub mod Closed
pub mod Ended
pub mod Unregistered
use agent_agora.Dispatcher.{
  Dispatcher, Inbound, World, World, World, some, ◌∷◌, update_status, unregistered,
}
use agent_agora.Registry
use agent_agora.Prelude.{
  Option, Option, String, String, String, String, ℕ, ℕ, ℕ, String, String, String, String, Bool,
  Dict, Bool, List, none, if◌then◌else◌, false, lookup, false, true, add, if◌then◌else◌,
  if◌then◌else◌, ◌==◌, [], not, [], not, length, ◌&&◌, has_key, ◌++◌,
}
use agent_agora.Conversations.{
  Status, is_primary, Conversation, Conversation, Conversation, get, Conversation, get, Participant,
  put, closed, is_opened, is_closed, half_closed, maybe_close,
}
use agent_agora.Errors.{
  Error, Result, Result, Result, raise, ok, not_registered, no_inbound_to_reply, dispatcher_closed,
  write_failed, not_a_participant, unhashable,
}
use agent_agora.Json.{Value, Value, Value, Value, obj, field, str, end}
use agent_agora.Dispatcher.Dispatch.{Receipt, Receipt, dispatch}
use agent_agora.Registry.{resolve_instance_id}
use agent_agora.Dispatcher.Checks.{Request, Request}
use agent_agora.Dispatcher.Fanout.{submit}
use agent_agora.Schemas.{release_holder}
use agent_agora.Registry.Instances.{worker_hooks}
use agent_agora.Registry.Bots.{bot_hooks}

-- `a or b` for texts: an empty text counts as missing.
abbrev pub or_text : Option String → Option String → Option String
or_text none o = o
or_text (some s) o = if s == "" then o else some s

abbrev inbound_field : (Inbound → String) → Option Inbound → Option String
inbound_field f none = none
inbound_field f (some i) = some (f i)

abbrev lacks : Option Inbound → Option String → Option String → Bool
lacks (some i) in_reply_to target = false
lacks none none target = true
lacks none (some r) none = true
lacks none (some r) (some t) = false

-- The dispatch that `reply` makes of its arguments and of the last message that the caller read.
unfoldable pub reply_request :
    (caller : String) (payload : Value) (in_reply_to target conversation_id : Option String)
    → Option Inbound
    → Request
reply_request caller payload in_reply_to target conversation_id ctx = record {
  source = caller;
  target = or_text target (inbound_field (λ (i : Inbound). i.source) ctx);
  payload = payload;
  expect_result = false;
  reply_to = none;
  cc_list = [];
  in_reply_to = or_text in_reply_to (inbound_field (λ (i : Inbound). i.cmd_id) ctx);
  conversation_id =
      or_text conversation_id (inbound_field (λ (i : Inbound). i.conversation_id) ctx);
  closing = false;
  priority = "normal";
  deadline_ts = none;
  reply_only = false;
}

unfoldable pub reply :
    World
    → (caller : String) (payload : Value) (in_reply_to target conversation_id : Option String)
    → Dispatcher
    → Result Receipt × Dispatcher
reply w caller payload in_reply_to target conversation_id d =
    let ctx = lookup caller d.last_inbound in
    if lacks ctx in_reply_to target
    then (raise no_inbound_to_reply, d)
    else dispatch w (reply_request caller payload in_reply_to target conversation_id ctx) d

-- What the ways to close a conversation answer.
pub data Closing : Type 0 where
  unknown_conversation already_closed : Closing
  now_is : Status → Closing

-- `[iid for … if iid != caller and info["role"] == "primary" and info["delivered"]]`
unfoldable pub other_primaries : String → Dict Participant → List String
unfolding is_primary
other_primaries caller [] = []
other_primaries caller ((iid, p) ∷ ps) =
    let rest = other_primaries caller ps in
    if not (iid == caller) && is_primary p.role && p.delivered then iid ∷ rest else rest

unfoldable pub closing_payload : (caller ts reason : String) → Value
closing_payload caller ts reason = obj (
    field "msgtype" (str "closing") (
      field "from" (str caller)
        (field "ts" (str ts) (if reason == "" then end else field "reason" (str reason) end))))

unfoldable pub closing_request : (caller target conv_id : String) → Value → Request
closing_request caller target conv_id payload = record {
  source = caller;
  target = some target;
  payload = payload;
  expect_result = false;
  reply_to = none;
  cc_list = [];
  in_reply_to = none;
  conversation_id = some conv_id;
  closing = true;
  priority = "normal";
  deadline_ts = none;
  reply_only = false;
}

-- `except (ValueError, NotRegisteredError)`; an `AgoraError` is a `ValueError`.
unfoldable pub is_passed_over : Error → Bool
is_passed_over dispatcher_closed = false
is_passed_over write_failed = false
is_passed_over unhashable = false
is_passed_over _ = true

abbrev goes_on : Result Receipt → Bool
goes_on (ok r) = true
goes_on (raise e) = is_passed_over e

abbrev error_of : Result Receipt → Result (Unit {0})
error_of (ok r) = ok tt
error_of (raise e) = raise e

-- The loop of the closing messages; `worlds` has the readings of each dispatch.
unfoldable pub tell_others :
    (worlds : String → World) (caller conv_id reason : String)
    → List String
    → Dispatcher
    → Result (Unit {0}) × Dispatcher
tell_others worlds caller conv_id reason [] d = (ok tt, d)
tell_others worlds caller conv_id reason (o ∷ os) d =
    let w = worlds o in
    let q =
      closing_request caller o conv_id (closing_payload caller (d.config.iso w.filled_at) reason) in
    let (r, d1) = dispatch w q d in
    let rest = tell_others worlds caller conv_id reason os d1 in
    if goes_on r then rest else (error_of r, d1)

-- The part under the lock, on the state of the conversation.
unfoldable pub mark_closing : (now : ℕ) (caller : String) → Conversation → Conversation
mark_closing now caller c =
    let c1 = record c { closed_by = add caller c.closed_by } in
    let c2 = if is_opened c1.status then record c1 { status = half_closed } else c1 in
    maybe_close now c2

abbrev pub mark_found :
    (now : ℕ) (caller conv_id : String)
    → Option Conversation
    → Dispatcher
    → Result Closing × Dispatcher
mark_found now caller conv_id none d = (ok unknown_conversation, d)
mark_found now caller conv_id (some c) d =
    let c1 = mark_closing now caller c in
    (ok (now_is c1.status), record d { conv = put conv_id c1 d.conv })

abbrev pub after_telling :
    (now : ℕ) (caller conv_id : String)
    → Result (Unit {0}) × Dispatcher
    → Result Closing × Dispatcher
after_telling now caller conv_id (raise e, d) = (raise e, d)
after_telling now caller conv_id (ok u, d) = mark_found now caller conv_id (get conv_id d.conv) d

abbrev pub close_found :
    (worlds : String → World) (now : ℕ) (caller conv_id reason : String)
    → Option Conversation
    → Dispatcher
    → Result Closing × Dispatcher
close_found worlds now caller conv_id reason none d = (ok unknown_conversation, d)
close_found worlds now caller conv_id reason (some c) d =
    if not (has_key caller c.participants)
    then (raise not_a_participant, d)
    else if is_closed c.status
    then (ok already_closed, d)
    else after_telling now caller conv_id
        (tell_others worlds caller conv_id reason (other_primaries caller c.participants) d)

-- A dispatch changes the state of the conversation in place, so it is read again after the loop.
unfoldable pub close_thread :
    (worlds : String → World) (now : ℕ) (caller conv_id reason : String)
    → Dispatcher
    → Result Closing × Dispatcher
close_thread worlds now caller conv_id reason d =
    close_found worlds now caller conv_id reason (get conv_id d.conv) d

abbrev finish_closing : Result (Unit {0}) × Dispatcher → Result Closing × Dispatcher
finish_closing (ok u, d) = (ok (now_is closed), d)
finish_closing (raise e, d) = (raise e, d)

abbrev pub force_closed :
    World
    → (conv_id by_whom : String) → Option Conversation
    → Dispatcher
    → Result Closing × Dispatcher
force_closed w conv_id by_whom none d = (ok unknown_conversation, d)
force_closed w conv_id by_whom (some c) d =
    if is_closed c.status
    then (ok already_closed, d)
    else (let c1 = record c {
      status = closed;
      closed_at = some w.now;
      closed_by = add by_whom c.closed_by;
    } in
        finish_closing (
          submit w.commits (update_status conv_id c1 ∷ [])
            (record d { conv = put conv_id c1 d.conv })))

unfoldable pub operator_close_conversation :
    World → (conv_id by_whom : String) → Dispatcher → Result Closing × Dispatcher
operator_close_conversation w conv_id by_whom d =
    force_closed w conv_id by_whom (get conv_id d.conv) d

-- The session of the worker of that id, or else of the bot.
unfoldable pub session_of : String → Dispatcher → Option String
session_of iid d = elim (resolve_instance_id iid d.registry) [
  | ok i ↦ some i.session_id
  | raise e ↦ elim (resolve_instance_id iid d.bots) [ ok b ↦ some b.session_id | raise f ↦ none ]
]

-- The number of messages that stay in the inbox.
unfoldable pub operator_unregister : String → Dispatcher → Result ℕ × Dispatcher
operator_unregister iid d = elim (session_of iid d) [
  | none ↦ (raise not_registered, d)
  | some sid ↦ (
    ok (length (d.queues iid)),
    record d {
      schemas = (release_holder iid d.schemas).0;
      registry = Registry.unregister_session worker_hooks sid d.registry;
      bots = Registry.unregister_session bot_hooks sid d.bots;
      events = d.events ++ unregistered iid ∷ [];
    },
  )
]

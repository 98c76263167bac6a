-- ===== src/Dashboard/Events.antt =====
-- src/agent_agora/dashboard/events.py: the broker of the operators' event streams. A subscriber's
-- queue has a number, since Python tells two queues apart by identity.
pub mod Streams
pub mod Private
use agent_agora.Prelude.{
  ℕ, String, String, List, String, List, List, if◌then◌else◌, Option, Option, if◌then◌else◌, map,
  if◌then◌else◌, map, String, String, List, [], leb, none, Bool, nat_eq, ◌∷◌, ◌++◌, ◌==◌, length,
  false, ◌+◌, ◌&&◌, some, not,
}
use agent_agora.Registry.Operator.{is_operator, strip_operator_prefix}
use agent_agora.Json.{get_field, Value, Value, obj}
use agent_agora.Envelope.{Envelope}
use agent_agora.Registry.Instances.{InstanceInfo}
use agent_agora.Dispatcher.{Event, dispatched, unregistered, registered}

-- What is published, by its `type`.
pub data SseEvent : Type 0 where
  message_dispatched :
      (from to : String) → Option Value → (conversation_id : String) → (timestamp : ℕ) → SseEvent
  operator_inbox_message :
      (target_operator : Option String) (sender : String)
      → Option Value
      → (timestamp : ℕ) → SseEvent
  instance_registered : (instance_id role : String) → SseEvent
  instance_unregistered : (instance_id : String) → SseEvent
  deadline_expired : (command_id source target : String) → SseEvent
  comm_matrix_changed : (active : Bool) → SseEvent

pub record Subscriber : Type 0 where
  pub operator_user : String
  pub queue_id : ℕ
  pub queue : List SseEvent

pub record EventBroker : Type 0 where
  pub subscribers : List Subscriber
  pub max_queue : ℕ
  pub next_queue : ℕ

unfoldable pub subscribe : String → EventBroker → EventBroker × Subscriber
subscribe operator_user b =
    let sub : Subscriber = record {
      operator_user = operator_user;
      queue_id = b.next_queue;
      queue = [];
    } in
    (record b { subscribers = b.subscribers ++ sub ∷ []; next_queue = b.next_queue + 1 }, sub)

-- `list.remove` of a dataclass: the first one with the same user and the same queue.
abbrev pub remove_sub : Subscriber → List Subscriber → List Subscriber
remove_sub s [] = []
remove_sub s (t ∷ ts) =
    let rest = remove_sub s ts in
    if (t.operator_user == s.operator_user) && nat_eq t.queue_id s.queue_id then ts else t ∷ rest

unfoldable pub unsubscribe : Subscriber → EventBroker → EventBroker
unsubscribe s b = record b { subscribers = remove_sub s b.subscribers }

-- `get_nowait`, with nothing done on an empty queue
abbrev pub drop_oldest : List SseEvent → List SseEvent
drop_oldest [] = []
drop_oldest (e ∷ es) = es

unfoldable pub push_event : (max_queue : ℕ) → SseEvent → Subscriber → Subscriber
push_event m e s =
    let q = if leb m (length s.queue) then drop_oldest s.queue else s.queue in
    record s { queue = q ++ e ∷ [] }

unfoldable pub target_of : SseEvent → Option String
target_of (operator_inbox_message target sender schema timestamp) = target
target_of _ = none

-- `target is not None and sub.operator_user != target`
unfoldable pub is_skipped : Option String → String → Bool
is_skipped none user = false
is_skipped (some target) user = not (user == target)

abbrev pub publish_to : (max_queue : ℕ) → SseEvent → Subscriber → Subscriber
publish_to m e s = if is_skipped (target_of e) s.operator_user then s else push_event m e s

unfoldable pub publish : SseEvent → EventBroker → EventBroker
unfolding push_event target_of is_skipped
publish e b = record b { subscribers = map (publish_to b.max_queue e) b.subscribers }

-- `await self.queue.get()`, once the queue holds an event.
abbrev pub get_from : ℕ → Subscriber → Subscriber
get_from n s = if nat_eq s.queue_id n then record s { queue = drop_oldest s.queue } else s

unfoldable pub take_event : (queue_id : ℕ) → EventBroker → EventBroker
take_event n b = record b { subscribers = map (get_from n) b.subscribers }

-- `payload.get("msgtype") if isinstance(payload, dict) else None`
unfoldable pub msgtype_of : Value → Option Value
unfolding get_field
msgtype_of (obj fields) = get_field "msgtype" fields
msgtype_of _ = none

unfoldable pub on_dispatch : Envelope → EventBroker → EventBroker
unfolding msgtype_of strip_operator_prefix
on_dispatch e b =
    let schema = msgtype_of e.payload in
    let b1 =
      publish (message_dispatched e.source e.target schema e.conversation_id e.created_at) b in
    if is_operator e.target
    then publish
        (operator_inbox_message (strip_operator_prefix e.target) e.source schema e.created_at) b1
    else b1

unfoldable pub on_register : InstanceInfo → EventBroker → EventBroker
on_register i b = publish (instance_registered i.instance_id i.role) b

unfoldable pub on_unregister : String → EventBroker → EventBroker
on_unregister iid b = publish (instance_unregistered iid) b

unfoldable pub on_deadline : (command_id source target : String) → EventBroker → EventBroker
on_deadline cmd_id source target b = publish (deadline_expired cmd_id source target) b

-- The callback that `attach_to_dispatcher` registers for each kind of event.
abbrev pub on_event : Event → EventBroker → EventBroker
on_event (dispatched e) b = on_dispatch e b
on_event (registered i) b = on_register i b
on_event (unregistered iid) b = on_unregister iid b
on_event (Event.deadline_expired cmd_id source target) b = on_deadline cmd_id source target b

-- The hooks, called with the events of the router one after the other.
unfoldable pub attached : List Event → EventBroker → EventBroker
unfolding on_dispatch on_register on_unregister on_deadline
attached [] b = b
attached (e ∷ es) b = attached es (on_event e b)

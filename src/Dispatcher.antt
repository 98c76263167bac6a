-- ===== src/Dispatcher.antt =====
-- src/agent_agora/dispatcher.py, `Dispatcher`: the state of the router, the inboxes and the wake-ups.
pub mod Checks
pub mod Fanout
pub mod Dispatch
pub mod Delivery
pub mod Outcome
pub mod Broadcast
pub mod Emit
pub mod Flush
pub mod Wait
pub mod Deadlines
pub mod Cancel
pub mod Wakeups
pub mod Steps
pub mod Views
pub mod Threads
pub mod Covered
pub mod Access
pub mod Depth
pub mod Drained
pub mod Replies
pub mod Made
use agent_agora.Registry.Instances.{InstanceRegistry, InstanceInfo}
use agent_agora.Registry.Bots.{BotRegistry}
use agent_agora.Schemas.{SchemaRegistry}
use agent_agora.CommMatrix.{CommMatrix}
use agent_agora.Conversations.{ConversationStore, conv_id_of, Conversation, Participant}
use agent_agora.Envelope.{Envelope}
use agent_agora.Prelude.{
  ℕ, String, String, String, String, String, String, ℕ, List, String, ◌++◌, ℕ, String, String,
  String, String, String, String, Bool, Bool, Bool, if◌then◌else◌, Bool, [], ◌∷◌, insert, Bool,
  Dict, Dict, Option, Dict, Option, Option, ◌==◌, false, leb, or_default, remove, lookup, some,
  nat_eq, length, add, elem, none, none, ◌||◌, discard,
}
use agent_agora.Json.{Value}

-- The constructor's settings, the number of bytes of a payload's JSON text (`json.dumps`), and a time
-- as ISO text.
pub record Config : Type 0 where
  pub max_inbox_depth : ℕ
  pub default_timeout_ms : ℕ
  pub bot_emit_recheck_acl : Bool
  pub encoded_size : Value → ℕ
  pub iso : ℕ → String

-- `_last_inbound`: the context of a reply.
pub record Inbound : Type 0 where
  pub cmd_id : String
  pub source : String
  pub conversation_id : String

-- What the hooks are called with.
pub data Event : Type 0 where
  dispatched : Envelope → Event
  registered : InstanceInfo → Event
  unregistered : String → Event
  deadline_expired : (cmd_id source target : String) → Event

-- A statement of a transaction that is handed to the write queue.
pub data Statement : Type 0 where
  insert_conversation : String → Conversation → Statement
  insert_participant : String → String → Participant → ℕ → Statement
  insert_message : Envelope → ℕ → Statement
  update_conversation : String → Conversation → Statement
  update_status : String → Conversation → Statement
  mark_drained : (cmd_id target : String) → ℕ → Statement
  mark_dropped : (cmd_id target : String) → ℕ → Statement

-- `queues` and `waiters` are `defaultdict`s, which nothing iterates over but `close`. A waiter is the
-- number of its future; `done` lists the futures that are done, and `woken` those with a result.
pub record Dispatcher : Type 0 where
  pub config : Config
  pub registry : InstanceRegistry
  pub bots : BotRegistry
  pub schemas : SchemaRegistry
  pub comm : CommMatrix
  pub conv : ConversationStore
  pub queues : String → List Envelope
  pub waiters : String → List ℕ
  pub done : List ℕ
  pub woken : List ℕ
  pub is_down : Bool
  pub in_flight : Dict (Dict (List String))
  pub last_dispatch_to : Dict ℕ
  pub deadlines : Dict ℕ
  pub last_inbound : Dict Inbound
  pub writes : List (List Statement)
  pub events : List Event

-- What an operation reads of the world: the new ids, the clock at each place that reads it, whether
-- the write queue commits, and the database's answers.
pub record World : Type 0 where
  pub cmd_id : String
  pub fresh_id : String
  pub filled_at : ℕ
  pub now : ℕ
  pub started_at : ℕ
  pub closed_at : ℕ
  pub commits : Bool
  pub stored_conversation : String → Option String
  pub stored_source : String → Option String

-- `f[k] = v` of a `defaultdict`
abbrev pub update {ℓ} : {V : Type ℓ} → String → V → (String → V) → String → V
update k v f j = if k == j then v else f j

abbrev pub nat_elem : ℕ → List ℕ → Bool
nat_elem n [] = false
nat_elem n (m ∷ ms) = nat_eq m n || nat_elem n ms

-- `for f in waiters: if not f.done(): f.set_result(None)`, on the futures that are done and those
-- that have a result.
unfoldable pub wake_all : List ℕ → List ℕ × List ℕ → List ℕ × List ℕ
wake_all [] s = s
wake_all (f ∷ fs) (done, woken) =
    wake_all fs (if nat_elem f done then (done, woken) else (f ∷ done, f ∷ woken))

unfoldable pub wake : String → Dispatcher → Dispatcher
unfolding wake_all
wake target d =
    let s = wake_all (d.waiters target) (d.done, d.woken) in
    record d { waiters = update target [] d.waiters; done = s.0; woken = s.1 }

-- `self._queues[env.target].append(env)`
unfoldable pub push : Envelope → Dispatcher → Dispatcher
push e d = record d { queues = update e.target (d.queues e.target ++ e ∷ []) d.queues }

-- An envelope is put in the inbox, the time is noted, and those that wait for the inbox are woken.
unfoldable pub enqueue : ℕ → Envelope → Dispatcher → Dispatcher
unfolding push wake
enqueue now e d =
    let d1 = push e d in
    wake e.target (record d1 { last_dispatch_to = insert e.target now d1.last_dispatch_to })

-- `len(self._queues[t]) >= self._max_inbox_depth`
unfoldable pub is_full : String → Dispatcher → Bool
is_full t d = leb d.config.max_inbox_depth (length (d.queues t))

-- `self._in_flight.setdefault(source, {}).setdefault(cmd_id, set()).add(target)`
unfoldable pub expect :
    (source cmd_id target : String) → Dict (Dict (List String)) → Dict (Dict (List String))
expect source cmd_id target m =
    let pending = or_default (lookup source m) [] in
    insert source (insert cmd_id (add target (or_default (lookup cmd_id pending) [])) pending) m

-- `if not s: pending_map.pop(cmd_id, None)`
abbrev pub keep_pending : String → List String → Dict (List String) → Dict (List String)
keep_pending cmd_id [] pending = remove cmd_id pending
keep_pending cmd_id (t ∷ ts) pending = insert cmd_id (t ∷ ts) pending

abbrev pub drop_replier :
    (cmd_id replier : String) → Option (List String) → Dict (List String) → Dict (List String)
drop_replier cmd_id replier none pending = pending
drop_replier cmd_id replier (some s) pending =
    if elem replier s then keep_pending cmd_id (discard replier s) pending else pending

-- The loop over `self._in_flight.values()`.
unfoldable pub drop_in_flight :
    (cmd_id replier : String) → Dict (Dict (List String)) → Dict (Dict (List String))
drop_in_flight cmd_id replier [] = []
drop_in_flight cmd_id replier ((source, pending) ∷ m) =
    (source, drop_replier cmd_id replier (lookup cmd_id pending) pending)
    ∷ drop_in_flight cmd_id replier m

abbrev drop_known : String → String → Option String → Dispatcher → Dispatcher
drop_known cmd_id replier none d = d
drop_known cmd_id replier (some conv_id) d = record d {
  in_flight = drop_in_flight cmd_id replier d.in_flight;
}

-- `_decrement_inflight_on_reply`
unfoldable pub decrement_on_reply : Option String → String → Dispatcher → Dispatcher
unfolding drop_in_flight conv_id_of
decrement_on_reply none replier d = d
decrement_on_reply (some cmd_id) replier d = drop_known cmd_id replier (conv_id_of cmd_id d.conv) d

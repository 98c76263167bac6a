-- ===== src/Dispatcher/Steps.antt =====
-- src/agent_agora/dispatcher.py: the parts that run under the lock, in any order. Each is one step;
-- `wait_notify` is several, with the steps of others between them.
pub mod Shut
use agent_agora.Dispatcher.{Dispatcher, Dispatcher, World}
use agent_agora.Dispatcher.Wait.{
  close, cancel_future, begin_wait, forget_waiter, end_wait, system_notify,
}
use agent_agora.Dispatcher.Wakeups.{IsAwake, same-IsAwake}
use agent_agora.Dispatcher.Wakeups.Senders.{dispatch-IsAwake, announce-IsAwake, bot_emit-IsAwake}
use agent_agora.Dispatcher.Checks.{Request}
use agent_agora.Dispatcher.Dispatch.{dispatch}
use agent_agora.Dispatcher.Broadcast.{Announcement, announce}
use agent_agora.Dispatcher.Wakeups.Readers.{
  flush-IsAwake, begin_wait-IsAwake, forget_waiter-IsAwake, end_wait-IsAwake, system_notify-IsAwake,
  close-IsAwake,
}
use agent_agora.Dispatcher.Emit.{Emission, bot_emit}
use agent_agora.Prelude.{arith, String, ℕ, List, ◌≡◌, [], refl}
use agent_agora.Dispatcher.Flush.{Filter, flush}
use agent_agora.Dispatcher.Wakeups.Takers.{expire_overdue_deadlines-IsAwake, cancel-IsAwake}
use agent_agora.Json.{Value}
use agent_agora.Dispatcher.Deadlines.{expire_overdue_deadlines}
use agent_agora.Dispatcher.Cancel.{cancel}
use agent_agora.Registry.Instances.{InstanceRegistry}
use agent_agora.Registry.Bots.{BotRegistry}
use agent_agora.Schemas.{SchemaRegistry}
use agent_agora.CommMatrix.{CommMatrix}
use agent_agora.Conversations.{ConversationStore}

pub data Step : Dispatcher → Dispatcher → Type 0 where
  dispatching : {d : Dispatcher} (w : World) (q : Request) → Step d (dispatch w q d).1
  announcing : {d : Dispatcher} (w : World) (q : Announcement) → Step d (announce w q d).1
  emitting : {d : Dispatcher} (w : World) (q : Emission) → Step d (bot_emit w q d).1
  flushing : {d : Dispatcher} (w : World) (iid : String) (f : Filter) → Step d (flush w iid f d).1
  beginning_wait : {d : Dispatcher} (iid : String) (future : ℕ) → Step d (begin_wait iid future d).1
  cancelling_future : {d : Dispatcher} (future : ℕ) → Step d (cancel_future future d)
  forgetting_waiter :
      {d : Dispatcher} (iid : String) (future : ℕ) → Step d (forget_waiter iid future d)
  ending_wait : {d : Dispatcher} (now : ℕ) (iid : String) → Step d (end_wait now iid d).1
  notifying :
      {d : Dispatcher} (w : World) (target : String) (payload : Value)
      → Step d (system_notify w target payload d).1
  expiring :
      {d : Dispatcher} (fresh : ℕ → String) (now : ℕ)
      → Step d (expire_overdue_deadlines fresh now d).1
  cancelling :
      {d : Dispatcher} (w : World) (caller cmd_id : String) → Step d (cancel w caller cmd_id d).1
  closing : {d : Dispatcher} (ids : List String) → Step d (close ids d)
  -- The registries, the schemas, the matrix and the conversations are changed by others too.
  administering :
      {d : Dispatcher} (r : InstanceRegistry) (b : BotRegistry) (s : SchemaRegistry)
      (m : CommMatrix) (c : ConversationStore)
      → Step d (record d { registry = r; bots = b; schemas = s; comm = m; conv = c })

pub data Reach (d : Dispatcher) : Dispatcher → Type 0 where
  here : Reach d d
  next : {e f : Dispatcher} → Reach d e → Step e f → Reach d f

Step-IsAwake : {d e : Dispatcher} → Step d e → IsAwake d → IsAwake e
unfolding cancel_future
Step-IsAwake (dispatching {d} w q) v = dispatch-IsAwake w q d v
Step-IsAwake (announcing {d} w q) v = announce-IsAwake w q d v
Step-IsAwake (emitting {d} w q) v = bot_emit-IsAwake w q d v
Step-IsAwake (flushing {d} w iid f) v = flush-IsAwake w iid f d v
Step-IsAwake (beginning_wait {d} iid future) v = begin_wait-IsAwake iid future d v
Step-IsAwake (cancelling_future {d} future) v = same-IsAwake d _ (ground arith) (ground arith) v
Step-IsAwake (forgetting_waiter {d} iid future) v = forget_waiter-IsAwake iid future d v
Step-IsAwake (ending_wait {d} now iid) v = end_wait-IsAwake now iid d v
Step-IsAwake (notifying {d} w target payload) v = system_notify-IsAwake w target payload d v
Step-IsAwake (expiring {d} fresh now) v = expire_overdue_deadlines-IsAwake fresh now d v
Step-IsAwake (cancelling {d} w caller cmd_id) v = cancel-IsAwake w caller cmd_id d v
Step-IsAwake (closing {d} ids) v = close-IsAwake ids d v
Step-IsAwake (administering {d} r b s m c) v = same-IsAwake d _ refl refl v

-- No wake-up is lost: from a router with nobody waiting, in whatever order the operations run, no
-- future waits for an inbox that holds a message.
pub Reach-IsAwake : {d e : Dispatcher} → ((t : String) → d.waiters t ≡ []) → Reach d e → IsAwake e
unfolding IsAwake
Reach-IsAwake idle here = λ t busy. idle t
Reach-IsAwake idle (next r s) = Step-IsAwake s (Reach-IsAwake idle r)

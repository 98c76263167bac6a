-- ===== src/Server.antt =====
-- src/agent_agora/server.py: the tools that a session calls. A tool finds out who calls, and then runs
-- an operation of the router.
pub mod Authentic
pub mod Register
pub mod BotRegistration
pub mod Kept
pub mod Registered
use agent_agora.Prelude.{
  ℕ, String, String, String, String, String, Option, Option, String, String, Bool, true, List,
  if◌then◌else◌, false, some, none,
}
use agent_agora.Errors.{
  Error, Result, Result, ok, session_unavailable, session_unavailable, ◌>>=◌, raise,
  bot_emit_not_a_bot, dispatcher_closed, not_for_bots,
}
use agent_agora.Dispatcher.Threads.{is_passed_over, Closing, reply, close_thread}
use agent_agora.Dispatcher.{
  World, World, World, World, World, World, Dispatcher, Dispatcher, Dispatcher, Dispatcher,
  Dispatcher, Dispatcher, Dispatcher, Dispatcher, Dispatcher, Dispatcher, Dispatcher,
}
use agent_agora.Dispatcher.Checks.{Request}
use agent_agora.Dispatcher.Broadcast.{Announcement, BroadcastReceipt, announce}
use agent_agora.Json.{Value}
use agent_agora.Dispatcher.Emit.{Emission, EmitReceipt, bot_emit}
use agent_agora.Dispatcher.Flush.{Filter, flush}
use agent_agora.Registry.{resolve_session, resolve_session, resolve_session}
use agent_agora.Dispatcher.Dispatch.{Receipt, Receipt, dispatch}
use agent_agora.Dispatcher.Cancel.{Cancelled, cancel}
use agent_agora.Registry.Bots.{BotInfo}
use agent_agora.Envelope.{Envelope}

-- What a tool answers: its result, an error as JSON, or an exception that it does not catch.
pub data Reply {ℓ} (A : Type ℓ) : Type ℓ where
  replied : A → Reply A
  refused : Error → Reply A
  uncaught : Error → Reply A

-- `except (NotRegisteredError, ValueError)` and `except DispatcherClosed`
unfoldable pub is_caught : Error → Bool
unfolding is_passed_over
is_caught dispatcher_closed = true
is_caught e = is_passed_over e

abbrev pub answer {ℓ} : {A : Type ℓ} → Result A → Reply A
answer (ok a) = replied a
answer (raise e) = if is_caught e then refused e else uncaught e

unfoldable pub session_is_bot : String → Dispatcher → Bool
session_is_bot sid d = elim (resolve_session sid d.bots) [ ok i ↦ true | raise e ↦ false ]

-- `_resolve_caller`: the worker of the session, or its bot, or the session itself.
unfoldable pub resolve_caller : String → Dispatcher → String
resolve_caller sid d = elim (resolve_session sid d.registry) [
  | ok i ↦ i.instance_id
  | raise e ↦ elim (resolve_session sid d.bots) [ ok b ↦ b.instance_id | raise f ↦ sid ]
]

unfoldable pub worker_of : String → Dispatcher → Result String
worker_of sid d = do i ← resolve_session sid d.registry; ok i.instance_id

-- The worker of the session, or else its bot.
unfoldable pub member_of : String → Dispatcher → Result String
member_of sid d = elim (resolve_session sid d.registry) [
  | ok i ↦ ok i.instance_id
  | raise e ↦ (do b ← resolve_session sid d.bots; ok b.instance_id)
]

abbrev pub replying {ℓ} : {A : Type ℓ} → Result A × Dispatcher → Reply A × Dispatcher
replying (r, d) = (answer r, d)

-- The operation that runs for the caller, where there is one.
abbrev pub for_caller {ℓ} :
    {A : Type ℓ}
    → (String → Dispatcher → Result A × Dispatcher)
    → Result String
    → Dispatcher
    → Reply A × Dispatcher
for_caller run (raise e) d = (refused e, d)
for_caller run (ok caller) d = replying (run caller d)

-- A tool for workers only; `session` is the MCP session of the request, if it has one.
abbrev pub as_worker {ℓ} :
    {A : Type ℓ}
    → Option String
    → (String → Dispatcher → Result A × Dispatcher)
    → Dispatcher
    → Reply A × Dispatcher
as_worker none run d = (refused session_unavailable, d)
as_worker (some sid) run d = for_caller run (worker_of sid d) d

abbrev pub not_as_bot {ℓ} :
    {A : Type ℓ}
    → Option String
    → (String → Dispatcher → Result A × Dispatcher)
    → Dispatcher
    → Reply A × Dispatcher
not_as_bot none run d = (refused session_unavailable, d)
not_as_bot (some sid) run d =
    if session_is_bot sid d then (refused not_for_bots, d) else as_worker (some sid) run d

-- `agora.dispatch`: the source is who calls, whatever `q` says.
unfoldable pub agora_dispatch :
    World → Option String → Request → Dispatcher → Reply Receipt × Dispatcher
agora_dispatch w session q =
    not_as_bot session (λ caller. dispatch w (record q { source = caller; reply_only = false }))

unfoldable pub agora_broadcast :
    World → Option String → Announcement → Dispatcher → Reply BroadcastReceipt × Dispatcher
agora_broadcast w session q =
    not_as_bot session (λ caller. announce w (record q { source = caller }))

unfoldable pub agora_reply :
    World
    → (session : Option String) (payload : Value)
      (in_reply_to target conversation_id : Option String)
    → Dispatcher
    → Reply Receipt × Dispatcher
agora_reply w session payload in_reply_to target conversation_id =
    as_worker session (λ caller. reply w caller payload in_reply_to target conversation_id)

unfoldable pub agora_cancel :
    World
    → (session : Option String) (command_id : String) → Dispatcher
    → Reply Cancelled × Dispatcher
agora_cancel w session command_id = as_worker session (λ caller. cancel w caller command_id)

unfoldable pub agora_close_thread :
    (worlds : String → World) (now : ℕ) (session : Option String) (conv_id reason : String)
    → Dispatcher
    → Reply Closing × Dispatcher
agora_close_thread worlds now session conv_id reason =
    as_worker session (λ caller. close_thread worlds now caller conv_id reason)

-- `except NotRegisteredError: return … AgoraError("bot_emit_not_a_bot")`
abbrev pub as_bot {ℓ} :
    {A : Type ℓ}
    → (String → Dispatcher → Result A × Dispatcher)
    → Result BotInfo
    → Dispatcher
    → Reply A × Dispatcher
as_bot run (raise e) d = (refused bot_emit_not_a_bot, d)
as_bot run (ok b) d = replying (run b.instance_id d)

unfoldable pub agora_bot_emit :
    World → Option String → Emission → Dispatcher → Reply EmitReceipt × Dispatcher
agora_bot_emit w none q d = (refused session_unavailable, d)
agora_bot_emit w (some sid) q d =
    as_bot (λ caller. bot_emit w (record q { source = caller })) (resolve_session sid d.bots) d

-- A flush raises nothing but what the tool catches.
unfoldable pub agora_flush :
    World → Option String → Filter → Dispatcher → Reply (List Envelope) × Dispatcher
agora_flush w none f d = (refused session_unavailable, d)
agora_flush w (some sid) f d = for_caller (λ caller. flush w caller f) (member_of sid d) d

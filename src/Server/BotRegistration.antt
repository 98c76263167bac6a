-- ===== src/Server/BotRegistration.antt =====
-- src/agent_agora/server.py: `agora.register_bot` and `agora.register_schema`.
use Prim.Native.String.{◌++◌ as append}
use agent_agora.Errors.{◌>>◌}
use agent_agora.Schemas.{conversation}
use agent_agora.Prelude.{
  ◌∷◌, ℕ, Option, String, String, Option, Option, Bool, Dict, List, String, String, String, true,
  false, true, true, lookup, if◌then◌else◌, if◌then◌else◌, none, some, ◌==◌, not, not, has_key,
  ◌==◌, or_default, [], [], [], [], ◌&&◌,
}
use agent_agora.Registry.Bots
use agent_agora.Schemas
use agent_agora.Server.Register.{Server, save_bot_subscriptions, save_schema}
use agent_agora.Server.{Reply, replied, refused, uncaught, resolve_caller}
use agent_agora.Errors.{
  dispatcher_closed, key_error, Error, Result, ok, raise, raise, session_unavailable, raise_if,
  schema_kind_not_bot_task, cannot_subscribe_conversation, description_required, schema_immutable,
  unknown_msgtype, subscribe_required,
}
use agent_agora.Schemas.{
  bot_task, SchemaKind, JsonSchema, JsonSchema, acquire_ref, release_holder, JsonSchema, JsonSchema,
  SchemaEntry, SchemaEntry, SchemaRegistry,
}
use agent_agora.Registry.Bots.{BotMode, BotInfo, BotInfo, BotInfo, handler, observer}
use agent_agora.Dispatcher.Wait.{system_notify}
use agent_agora.Dispatcher.{
  World, Dispatcher, Dispatcher, Dispatcher, Dispatcher, Dispatcher, Dispatcher,
}
use agent_agora.Json.{Value, Value, Value, Value, obj, field, str, value_eq, end, null}

-- A schema in the call: what its definition has under `kind`, `body` and `purpose`.
pub record InlineSchema : Type 0 where
  pub kind : Option String
  pub body : Option Value
  pub purpose : Option String

-- The arguments of `agora.register_bot`.
pub record BotRequest : Type 0 where
  pub instance_id : String
  pub description : String
  pub bot_mode : BotMode
  pub subscribe : List String
  pub emit : List String
  pub inline : Dict InlineSchema

abbrev pub is_handler : BotMode → Bool
is_handler handler = true
is_handler observer = false

unfoldable pub schema_conflict_payload : (name reason attempted_by ts : String) → Value
schema_conflict_payload name reason attempted_by ts = obj (
    field "msgtype" (str "schema_conflict") (
      field "schema_name" (str name) (
        field "reason" (str reason)
          (field "attempted_by" (str attempted_by) (field "ts" (str ts) end)))))

-- `defn.get("kind") != "bot-task"`
abbrev pub is_bot_task : Option String → Bool
is_bot_task none = false
is_bot_task (some k) = k == "bot-task"

abbrev pub conflicts : Option SchemaEntry → Option Value → Bool
conflicts none body = false
conflicts (some e) body = not (value_eq e.body (or_default body null))

abbrev pub after_notice : Error → Result (Unit {0}) × Dispatcher → Result (Unit {0}) × Dispatcher
after_notice code (ok u, d) = (raise code, d)
after_notice code (raise e, d) = (raise e, d)

-- `except AgoraError`, of what these tools raise
unfoldable pub is_agora_error : Error → Bool
is_agora_error dispatcher_closed = false
is_agora_error key_error = false
is_agora_error _ = true

-- (1) Each schema of the call is for a bot, and conflicts with none; a conflict is told to the caller.
unfoldable pub check_inline :
    World → (iid : String) → Dict InlineSchema → Dispatcher → Result (Unit {0}) × Dispatcher
unfolding schema_conflict_payload system_notify
check_inline w iid [] d = (ok tt, d)
check_inline w iid ((name, defn) ∷ rest) d =
    let later = check_inline w iid rest d in
    if not (is_bot_task defn.kind)
    then (raise schema_kind_not_bot_task, d)
    else if conflicts (lookup name d.schemas.entries) defn.body
    then after_notice schema_immutable (
        system_notify w iid
          (schema_conflict_payload name
            (append (append "schema '" name) "' already registered with a different body") iid
            (d.config.iso w.now))
          d)
    else later

abbrev is_task_kind : SchemaKind → Bool
is_task_kind bot_task = true
is_task_kind conversation = false

abbrev check_one : Bool → Option SchemaEntry → Result (Unit {0})
check_one is_inline (some e) = raise_if (not (is_task_kind e.kind)) cannot_subscribe_conversation
check_one is_inline none = raise_if (not is_inline) unknown_msgtype

-- (2) Each subscribed schema is there or comes with the call.
unfoldable pub check_subscribed : Dict InlineSchema → List String → Dispatcher → Result (Unit {0})
check_subscribed inline [] d = ok tt
check_subscribed inline (s ∷ ss) d =
    check_one (has_key s inline) (lookup s d.schemas.entries) >> check_subscribed inline ss d

abbrev no_text : List String → Bool
no_text [] = true
no_text (s ∷ ss) = false

abbrev pub then_subscribed :
    BotRequest → Result (Unit {0}) × Dispatcher → Result (Unit {0}) × Dispatcher
then_subscribed q (raise e, d) = (raise e, d)
then_subscribed q (ok u, d) =
    (if is_handler q.bot_mode then check_subscribed q.inline q.subscribe d else ok tt, d)

-- The checks before anything is changed.
unfoldable pub validate_bot : World → BotRequest → Dispatcher → Result (Unit {0}) × Dispatcher
unfolding check_inline check_subscribed
validate_bot w q d =
    if q.description == ""
    then (raise description_required, d)
    else if is_handler q.bot_mode && no_text q.subscribe
    then (raise subscribe_required, d)
    else then_subscribed q (check_inline w q.instance_id q.inline d)

-- `(3) inline schemas`, one after the other; what was done before an error stays done.
abbrev pub keep_registered :
    (now : ℕ) (iid name : String) (body : Value) (purpose : String)
    → Server
    → Result (SchemaRegistry × SchemaEntry)
    → Result (Unit {0}) × Server
keep_registered now iid name body purpose s (raise e) = (raise e, s)
keep_registered now iid name body purpose s (ok (r, e)) = (
  ok tt,
  record s {
    router = record s.router { schemas = r };
    stored_schemas = save_schema now name body bot_task purpose (some iid) s.stored_schemas;
  },
)

abbrev pub register_inline_one :
    JsonSchema
    → (now : ℕ) (iid name : String) → InlineSchema
    → Server
    → Option Value
    → Result (Unit {0}) × Server
register_inline_one js now iid name defn s none = (raise key_error, s)
register_inline_one js now iid name defn s (some body) =
    let purpose = or_default defn.purpose "" in
    keep_registered now iid name body purpose s (
      Schemas.register js
        (record {
          name = name;
          body = body;
          kind = bot_task;
          purpose = purpose;
          registered_at = now;
          registered_by = some iid;
        })
        s.router.schemas)

unfoldable pub register_inline :
    JsonSchema → (now : ℕ) (iid : String) → Dict InlineSchema → Server → Result (Unit {0}) × Server
register_inline js now iid [] s = (ok tt, s)
register_inline js now iid ((name, defn) ∷ rest) s =
    let (r, s1) = register_inline_one js now iid name defn s defn.body in
    let later = register_inline js now iid rest s1 in
    elim r [ ok u ↦ later | raise e ↦ (raise e, s1) ]

unfoldable pub acquire_all : List String → String → SchemaRegistry → SchemaRegistry
unfolding acquire_ref
acquire_all [] iid r = r
acquire_all (s ∷ ss) iid r = acquire_all ss iid (acquire_ref s iid r)

-- `prior = …resolve_instance_id(instance_id); release_holder(prior.instance_id)`
unfoldable pub release_prior : String → Server → Server
unfolding release_holder
release_prior iid s = elim (lookup iid s.router.bots.by_instance) [
  | none ↦ s
  | some prior ↦ record s {
    router = record s.router { schemas = (release_holder prior.instance_id s.router.schemas).0 };
  }
]

abbrev pub release_new : String → Server → Server
release_new iid s = record s {
  router = record s.router { schemas = (release_holder iid s.router.schemas).0 };
}

-- The registration itself, and the references of the subscribed schemas.
unfoldable pub store_bot : (now : ℕ) (sid : String) → BotRequest → Server → BotInfo × Server
unfolding Bots.register save_bot_subscriptions acquire_all
store_bot now sid q s =
    let subscribe = if is_handler q.bot_mode then q.subscribe else [] in
    let emit = if is_handler q.bot_mode then q.emit else [] in
    let (r, i) =
      Bots.register now sid q.instance_id q.description q.bot_mode subscribe emit s.router.bots in
    (
      i,
      record s {
        router = record s.router {
          bots = r;
          schemas = acquire_all i.subscribe_schemas q.instance_id s.router.schemas;
        };
        stored_uses =
            save_bot_subscriptions q.instance_id i.subscribe_schemas i.emit_schemas s.stored_uses;
      },
    )

-- `except AgoraError`: what was registered for the bot is released. A `KeyError` is not caught.
abbrev pub after_inline :
    (now : ℕ) (sid : String) → BotRequest → Result (Unit {0}) × Server → Reply BotInfo × Server
after_inline now sid q (ok u, s) = let (i, s1) = store_bot now sid q s in (replied i, s1)
after_inline now sid q (raise e, s) =
    if is_agora_error e then (refused e, release_new q.instance_id s) else (uncaught e, s)

abbrev pub after_validation :
    JsonSchema
    → (now : ℕ) (sid : String) → BotRequest
    → Server
    → Result (Unit {0}) × Dispatcher
    → Reply BotInfo × Server
after_validation js now sid q s (raise e, d) =
    (if is_agora_error e then refused e else uncaught e, record s { router = d })
after_validation js now sid q s (ok u, d) = after_inline now sid q (
    register_inline js now q.instance_id q.inline
      (release_prior q.instance_id (record s { router = d })))

unfoldable pub agora_register_bot :
    JsonSchema → World → (session : Option String) → BotRequest → Server → Reply BotInfo × Server
unfolding validate_bot register_inline release_prior store_bot
agora_register_bot js w none q s = (refused session_unavailable, s)
agora_register_bot js w (some sid) q s =
    after_validation js w.now sid q s (validate_bot w q s.router)

abbrev pub after_conflict :
    {A : Type 0} → Error → Server → Result (Unit {0}) × Dispatcher → Reply A × Server
after_conflict code s (ok u, d) = (refused code, record s { router = d })
after_conflict code s (raise e, d) = (uncaught e, record s { router = d })

abbrev pub after_schema :
    World
    → (holder message : String) → SchemaEntry
    → Server
    → Result (SchemaRegistry × SchemaEntry)
    → Reply (Unit {0}) × Server
unfolding system_notify
after_schema w holder message e s (ok (r, kept)) = (
  replied tt,
  record s {
    router = record s.router { schemas = r };
    stored_schemas =
        save_schema w.now e.name e.body e.kind e.purpose e.registered_by s.stored_schemas;
  },
)
after_schema w holder message e s (raise schema_immutable) = after_conflict schema_immutable s (
    system_notify w holder
      (schema_conflict_payload e.name message holder (s.router.config.iso w.now)) s.router)
after_schema w holder message e s (raise code) = (refused code, s)

-- `message` is the text of the error.
unfoldable pub agora_register_schema :
    JsonSchema
    → World
    → (session : Option String) (name : String) (body : Value) → SchemaKind
    → (purpose message : String) → Server
    → Reply (Unit {0}) × Server
unfolding after_schema resolve_caller
agora_register_schema js w none name body kind purpose message s = (refused session_unavailable, s)
agora_register_schema js w (some sid) name body kind purpose message s =
    let holder = resolve_caller sid s.router in
    let e : SchemaEntry = record {
      name = name;
      body = body;
      kind = kind;
      purpose = purpose;
      registered_at = w.now;
      registered_by = some holder;
    } in
    after_schema w holder message e s (Schemas.register js e s.router.schemas)

-- ===== src/Server/Register.antt =====
-- src/agent_agora/server.py and http/auto_register.py: how workers, bots and schemas come and go.
use agent_agora.Registry
use agent_agora.Registry.Instances
use agent_agora.Registry.Instances.{WaitMode, InstanceInfo, InstanceInfo, worker_hooks}
use agent_agora.Dispatcher.{registered, unregistered, Dispatcher, Event}
use agent_agora.Prelude.{
  ℕ, String, String, Bool, Bool, String, String, Option, Bool, String, Option, String, Option,
  Option, String, String, Option, Dict, true, ◌==◌, List, List, ◌++◌, true, not, false, some,
  if◌then◌else◌, ◌&&◌, keep, ◌∷◌, if◌then◌else◌, lookup, none, none, none, none, none, none,
  has_key, any, [], insert, ◌||◌,
}
use agent_agora.Server.{Reply, replied, refused}
use agent_agora.Json.{Value}
use agent_agora.Schemas.{release_holder, SchemaKind, SchemaKind}
use agent_agora.Errors.{session_unavailable, raise, ok}
use agent_agora.Registry.{resolve_session}
use agent_agora.Registry.Bots.{BotInfo, bot_hooks}

-- The tables `schemas` and `bot_subscriptions` (storage/persistence.py).
pub record StoredSchema : Type 0 where
  pub body : Value
  pub kind : SchemaKind
  pub purpose : String
  pub registered_at : ℕ
  pub registered_by : Option String

pub data Use : Type 0 where
  subscribes emits : Use

pub record StoredUse : Type 0 where
  pub instance_id : String
  pub schema_name : String
  pub use_kind : Use

pub record Server : Type 0 where
  pub router : Dispatcher
  pub stored_schemas : Dict StoredSchema
  pub stored_uses : List StoredUse

-- `INSERT OR IGNORE INTO schemas`
unfoldable pub save_schema :
    (now : ℕ) (name : String) (body : Value)
    → SchemaKind
    → (purpose : String) → Option String
    → Dict StoredSchema
    → Dict StoredSchema
save_schema now name body kind purpose registered_by t =
    if has_key name t
    then t
    else insert name
        (record {
          body = body;
          kind = kind;
          purpose = purpose;
          registered_at = now;
          registered_by = registered_by;
        })
        t

abbrev is_subscribes : Use → Bool
is_subscribes subscribes = true
is_subscribes emits = false

abbrev same_use : StoredUse → StoredUse → Bool
same_use a b =
    (a.instance_id == b.instance_id)
    && (a.schema_name == b.schema_name)
    && (if is_subscribes a.use_kind
        then is_subscribes b.use_kind
        else not (is_subscribes b.use_kind))

-- `INSERT OR IGNORE INTO bot_subscriptions`, for each name
abbrev add_uses : String → Use → List String → List StoredUse → List StoredUse
add_uses iid k [] t = t
add_uses iid k (s ∷ ss) t =
    let u : StoredUse = record { instance_id = iid; schema_name = s; use_kind = k } in
    add_uses iid k ss (if any (same_use u) t then t else t ++ u ∷ [])

unfoldable pub save_bot_subscriptions :
    String → (subscribe emit : List String) → List StoredUse → List StoredUse
save_bot_subscriptions iid subscribe emit t =
    add_uses iid emits emit
      (add_uses iid subscribes subscribe (keep (λ u. not (u.instance_id == iid)) t))

-- `notify_registered` and `notify_unregistered`
abbrev pub notify : Event → Dispatcher → Dispatcher
notify e d = record d { events = d.events ++ e ∷ [] }

unfoldable pub agora_register :
    (now : ℕ) (session : Option String) (instance_id role description cwd : String)
    → Option WaitMode
    → Server
    → Reply InstanceInfo × Server
unfolding Instances.register
agora_register now none instance_id role description cwd wait_mode s =
    (refused session_unavailable, s)
agora_register now (some sid) instance_id role description cwd wait_mode s =
    let (r, i) =
      Instances.register now sid instance_id role description cwd wait_mode s.router.registry in
    (replied i, record s { router = notify (registered i) (record s.router { registry = r }) })

-- The middleware `AutoRegisterMiddleware`, with the headers that it extracts.
abbrev pub same_mode : WaitMode → WaitMode → Bool
same_mode WaitMode.auto WaitMode.auto = true
same_mode WaitMode.manual WaitMode.manual = true
same_mode WaitMode.unknown WaitMode.unknown = true
same_mode _ _ = false

abbrev pub is_text : String → Bool
is_text t = not (t == "")

abbrev pub mode_differs : Option WaitMode → WaitMode → Bool
mode_differs none m = false
mode_differs (some n) m = not (same_mode m n)

abbrev pub register_now :
    (now : ℕ) (session_id instance_id role description cwd : String)
    → Option WaitMode
    → Dispatcher
    → Dispatcher
unfolding Instances.register
register_now now sid iid role description cwd wait_mode d =
    let (r, i) = Instances.register now sid iid role description cwd wait_mode d.registry in
    notify (registered i) (record d { registry = r })

unfoldable pub auto_register :
    (now : ℕ) (session_id instance_id : Option String) (role description cwd : String)
    → Option WaitMode
    → Dispatcher
    → Dispatcher
unfolding register_now
auto_register now (some sid) (some iid) role description cwd wait_mode d =
    if is_text sid && is_text iid
    then elim (resolve_session sid d.registry) [
      | raise e ↦ register_now now sid iid role description cwd wait_mode d
      | ok i ↦
          let effective_cwd = if is_text cwd then cwd else i.cwd in
          if not (i.instance_id == iid)
            || not (i.role == role)
            || not (i.description == description)
            || not (i.cwd == effective_cwd)
            || mode_differs wait_mode i.wait_mode
          then register_now now sid iid role description effective_cwd wait_mode d
          else d
    ]
    else d
auto_register now _ _ role description cwd wait_mode d = d

abbrev pub release_member : Option String → Dispatcher → Dispatcher
release_member none d = d
release_member (some iid) d = record d { schemas = (release_holder iid d.schemas).0 }

abbrev pub notify_member : Option String → Dispatcher → Dispatcher
notify_member none d = d
notify_member (some iid) d = notify (unregistered iid) d

abbrev pub instance_of {ℓ} : {I : Type ℓ} → (I → String) → Option I → Option String
instance_of f none = none
instance_of f (some i) = some (f i)

unfoldable pub unregister_caller : String → Dispatcher → Dispatcher
unfolding Registry.unregister_session
unregister_caller sid d =
    let w = instance_of (λ (i : InstanceInfo). i.instance_id) (lookup sid d.registry.by_session) in
    let b = instance_of (λ (i : BotInfo). i.instance_id) (lookup sid d.bots.by_session) in
    let d1 = release_member b (release_member w d) in
    notify_member b (
      notify_member w (record d1 {
        registry = Registry.unregister_session worker_hooks sid d1.registry;
        bots = Registry.unregister_session bot_hooks sid d1.bots;
      }))

unfoldable pub agora_unregister : Option String → Server → Reply (Unit {0}) × Server
unfolding unregister_caller
agora_unregister none s = (refused session_unavailable, s)
agora_unregister (some sid) s = (replied tt, record s { router = unregister_caller sid s.router })

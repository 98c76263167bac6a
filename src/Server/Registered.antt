-- ===== src/Server/Registered.antt =====
-- src/agent_agora/server.py: what a registration gives, and what is left after a session is gone.
use agent_agora.Prelude.{
  ℕ, ◌∷◌, String, List, Bool, elem, Option, not, ◌==◌, ◌||◌, has_key, ◌≡◌, ◌≡◌, true, true,
  or_default, Bool-cases, lookup, some, inl, [], arith, lookup-insert, inr, add, elem-add, eq_iff,
  none, if◌then◌else◌, ap, ap, refl, subst,
}
use agent_agora.Registry
use agent_agora.Registry.Bots
use agent_agora.Server.{replied}
use agent_agora.Server.BotRegistration.{
  agora_register_bot, acquire_all, BotRequest, after_validation, validate_bot, store_bot,
  after_inline, is_agora_error, is_handler,
}
use agent_agora.Schemas.{acquire_ref, JsonSchema, SchemaRegistry, add_ref, refs_of}
use agent_agora.Dispatcher.{World, Dispatcher}
use agent_agora.Server.Register.{
  Server, release_member, notify_member, instance_of, unregister_caller,
}
use agent_agora.Server.Kept.{
  IsSound, after_inline-IsSound, register_inline-IsSound, release_prior-IsSound, SameBooks-IsSound,
  validate_bot-same, SameBooks, release-IsSound,
}
use agent_agora.Errors.{Result, raise, ok}
use agent_agora.Registry.Bots.{BotInfo, BotInfo, BotInfo, BotInfo, bot_hooks, bot_hooks}
use agent_agora.Registry.{unregister_session}
use agent_agora.Registry.Instances.{InstanceInfo, worker_hooks}
use agent_agora.Registry.Bijection.{register_info-found, unregister_session-IsBijective}
use agent_agora.Registry.Routing.{unregister_session-IsIndexed}

-- Whatever the call registers, refuses or breaks off in the middle of: the schemas stay counted, the
-- sessions and the instances stay one to one, and the index of the bots stays exact.
pub agora_register_bot-IsSound :
    (js : JsonSchema) (w : World) (session : Option String) (q : BotRequest) (s : Server)
    → IsSound s.router
    → IsSound (agora_register_bot js w session q s).1.router
unfolding agora_register_bot
agora_register_bot-IsSound js w none q s v = v
agora_register_bot-IsSound js w (some sid) q s v =
    after (validate_bot w q s.router)
      (SameBooks-IsSound s.router _ (validate_bot-same w q s.router) v)
  where
    after :
        (x : Result (Unit {0}) × Dispatcher)
        → IsSound x.1
        → IsSound (after_validation js w.now sid q s x).1.router
    after (raise e, d) u = u
    after (ok t, d) u = after_inline-IsSound w.now sid q _ (
        register_inline-IsSound js w.now q.instance_id q.inline _
          (release_prior-IsSound q.instance_id (record s { router = d }) u))

-- A subscribed schema that is there is permanent or held by the bot.
abbrev pub is_held : (iid name : String) → SchemaRegistry → Bool
is_held iid name r =
    not (has_key name r.entries) || elem name r.permanent || elem iid (refs_of name r)

is_held-acquire_ref :
    (iid name other : String) (r : SchemaRegistry)
    → ((name == other) || is_held iid other r) ≡ true
    → is_held iid other (acquire_ref name iid r) ≡ true
unfolding acquire_ref add_ref refs_of
is_held-acquire_ref iid name other r h =
    let l = or_default (lookup name r.refs) [] in
    ground (
      arith,
      lookup-insert name other (add iid l) r.refs,
      elem-add iid iid l,
      eq_iff name other,
      eq_iff iid iid,
    )

acquire_all-is_held :
    (ss : List String) (iid other : String) (r : SchemaRegistry)
    → (elem other ss || is_held iid other r) ≡ true
    → is_held iid other (acquire_all ss iid r) ≡ true
unfolding acquire_all
acquire_all-is_held [] iid other r h = h
acquire_all-is_held (s ∷ ss) iid other r h = elim (Bool-cases (elem other ss)) [
  | inl later ↦ acquire_all-is_held ss iid other (acquire_ref s iid r) (ground arith)
  | inr now ↦
      acquire_all-is_held ss iid other (acquire_ref s iid r)
        (let e = is_held-acquire_ref iid s other r (ground arith) in ground arith)
]

-- What a bot has after its registration.
pub record IsStored (sid : String) (i : BotInfo) (d : Dispatcher) : Type 0 where
  pub by_instance : lookup i.instance_id d.bots.by_instance ≡ some i
  pub by_session : lookup sid d.bots.by_session ≡ some i
  pub held :
      (name : String)
      → (not (elem name i.subscribe_schemas) || is_held i.instance_id name d.schemas) ≡ true

store_bot-IsStored :
    (now : ℕ) (sid : String) (q : BotRequest) (s : Server)
    → IsStored sid (store_bot now sid q s).0 (store_bot now sid q s).1.router
unfolding store_bot Bots.register
store_bot-IsStored now sid q s =
    let ss = if is_handler q.bot_mode then q.subscribe else [] in
    let found = register_info-found bot_hooks (store_bot now sid q s).0 s.router.bots in
    record {
      by_instance = found.0;
      by_session = found.1;
      held = λ name.
          let e = acquire_all-is_held ss q.instance_id name s.router.schemas in ground arith;
    }

after_inline-replied :
    (now : ℕ) (sid : String) (q : BotRequest) (x : Result (Unit {0}) × Server) (i : BotInfo)
    (s' : Server)
    → after_inline now sid q x ≡ (replied i, s')
    → IsStored sid i s'.router
after_inline-replied now sid q (ok u, s) i s' h =
    let same : (store_bot now sid q s).0 ≡ i = ground (arith, ap (λ y. y.0) h) in
    let there : (store_bot now sid q s).1 ≡ s' = ap (λ y. y.1) h in
    subst (λ j. IsStored sid j s'.router) same
      (subst (λ t. IsStored sid (store_bot now sid q s).0 t.router) there
        (store_bot-IsStored now sid q s))
after_inline-replied now sid q (raise e, s) i s' h = elim (Bool-cases (is_agora_error e)) [
  | inl caught ↦ absurd (let y = ap (λ x. x.0) (rw caught at h) in cc)
  | inr escapes ↦ absurd (let y = ap (λ x. x.0) (rw escapes at h) in cc)
]

after_validation-replied :
    (js : JsonSchema) (now : ℕ) (sid : String) (q : BotRequest) (s : Server)
    (x : Result (Unit {0}) × Dispatcher) (i : BotInfo) (s' : Server)
    → after_validation js now sid q s x ≡ (replied i, s')
    → IsStored sid i s'.router
after_validation-replied js now sid q s (ok u, d) i s' h = after_inline-replied now sid q _ i s' h
after_validation-replied js now sid q s (raise e, d) i s' h = elim (Bool-cases (is_agora_error e)) [
  | inl caught ↦ absurd (let y = ap (λ x. x.0) (rw caught at h) in cc)
  | inr escapes ↦ absurd (let y = ap (λ x. x.0) (rw escapes at h) in cc)
]

-- A bot that the tool answers for is found under its instance and under the session of the call, and
-- each schema that it subscribes to is permanent or held by it, if the schema is there.
pub agora_register_bot-IsStored :
    (js : JsonSchema) (w : World) (sid : String) (q : BotRequest) (s s' : Server) (i : BotInfo)
    → agora_register_bot js w (some sid) q s ≡ (replied i, s')
    → IsStored sid i s'.router
unfolding agora_register_bot
agora_register_bot-IsStored js w sid q s s' i h =
    after_validation-replied js w.now sid q s (validate_bot w q s.router) i s' h

release_member-IsSound :
    (o : Option String) (d : Dispatcher) → IsSound d → IsSound (release_member o d)
release_member-IsSound none d v = v
release_member-IsSound (some iid) d v = release-IsSound iid d v

notify_member-same : (o : Option String) (d : Dispatcher) → SameBooks d (notify_member o d)
notify_member-same none d = record { schemas = refl; bots = refl; registry = refl }
notify_member-same (some iid) d = record { schemas = refl; bots = refl; registry = refl }

-- After a session is unregistered it is no worker's and no bot's, and all the books are in order: the
-- schemas that nobody holds any more are gone, and so are the bot's subscriptions.
pub unregister_caller-IsSound :
    (sid : String) (d : Dispatcher)
    → IsSound d
    → IsSound (unregister_caller sid d)
      × (lookup sid (unregister_caller sid d).registry.by_session ≡ none)
      × (lookup sid (unregister_caller sid d).bots.by_session ≡ none)
unfolding unregister_caller
unregister_caller-IsSound sid d v =
    let w = instance_of (λ (i : InstanceInfo). i.instance_id) (lookup sid d.registry.by_session) in
    let b = instance_of (λ (i : BotInfo). i.instance_id) (lookup sid d.bots.by_session) in
    let d1 = release_member b (release_member w d) in
    let v1 = release_member-IsSound b _ (release_member-IsSound w d v) in
    let d2 = record d1 {
      registry = Registry.unregister_session worker_hooks sid d1.registry;
      bots = Registry.unregister_session bot_hooks sid d1.bots;
    } in
    let workers = unregister_session-IsBijective worker_hooks sid d1.registry v1.workers in
    let bots = unregister_session-IsBijective bot_hooks sid d1.bots v1.bijective in
    let v2 : IsSound d2 = record {
      counted = v1.counted;
      bijective = bots.0;
      indexed = unregister_session-IsIndexed sid d1.bots v1.bijective v1.indexed;
      workers = workers.0;
    } in
    let d3 = notify_member w d2 in
    let s1 = notify_member-same w d2 in
    let s2 = notify_member-same b d3 in
    (
      SameBooks-IsSound d3 _ s2 (SameBooks-IsSound d2 _ s1 v2),
      rw (s2.registry, s1.registry) workers.1,
      rw (s2.bots, s1.bots) bots.1,
    )

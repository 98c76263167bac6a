-- ===== src/Server/Kept.antt =====
-- src/agent_agora/server.py: what the tools that register and unregister keep.
use agent_agora.Prelude.{
  ◌∷◌, ℕ, ◌≡◌, subst, sym, String, ◌⊎◌, Dict, arith, inl, refl, inr, Bool-cases, not, Option-cases,
  Option, List, lookup, some, or_default, [], none, if◌then◌else◌,
}
use agent_agora.Registry.Bots
use agent_agora.Schemas
use agent_agora.Dispatcher.{Dispatcher, Dispatcher, Dispatcher, wake, World, World, push}
use agent_agora.Dispatcher.Wait.{system_notify}
use agent_agora.Errors.{Error, Result, Result, ok, raise, Result-cases, schema_immutable}
use agent_agora.Server.BotRegistration.{
  check_inline, BotRequest, validate_bot, after_notice, then_subscribed, InlineSchema,
  release_prior, register_inline, acquire_all, store_bot, register_inline_one, after_inline,
  is_bot_task, keep_registered, conflicts, is_agora_error, is_handler,
}
use agent_agora.Schemas.Counting.{
  IsCounted, release_holder-IsCounted, register-IsCounted, acquire_ref-IsCounted,
}
use agent_agora.Registry.Bijection.{IsBijective, register_info-IsBijective}
use agent_agora.Registry.Bots.{bot_hooks, bot_hooks}
use agent_agora.Json.{Value}
use agent_agora.Registry.Routing.{IsIndexed, IsIndexed, register_info-IsIndexed}
use agent_agora.Registry.Instances.{worker_hooks, worker_hooks}
use agent_agora.Schemas.{
  SchemaRegistry, release_holder, JsonSchema, JsonSchema, SchemaEntry, acquire_ref,
}
use agent_agora.Server.Register.{Server}

-- The schemas are counted, and the index of the bots says what their entries say.
pub record IsSound (d : Dispatcher) : Type 0 where
  pub counted : IsCounted d.schemas
  pub bijective : IsBijective bot_hooks d.bots
  pub indexed : IsIndexed d.bots
  pub workers : IsBijective worker_hooks d.registry

-- The same registries and schemas.
pub record SameBooks (d d' : Dispatcher) : Type 0 where
  pub schemas : d'.schemas ≡ d.schemas
  pub bots : d'.bots ≡ d.bots
  pub registry : d'.registry ≡ d.registry

pub SameBooks-IsSound : (d d' : Dispatcher) → SameBooks d d' → IsSound d → IsSound d'
SameBooks-IsSound d d' e v = record {
  counted = subst IsCounted (sym e.schemas) v.counted;
  bijective = subst (IsBijective bot_hooks) (sym e.bots) v.bijective;
  indexed = subst IsIndexed (sym e.bots) v.indexed;
  workers = subst (IsBijective worker_hooks) (sym e.registry) v.workers;
}

system_notify-same :
    (w : World) (target : String) (payload : Value) (d : Dispatcher)
    → SameBooks d (system_notify w target payload d).1
unfolding system_notify wake push
system_notify-same w target payload d = record {
  schemas = ground arith;
  bots = ground arith;
  registry = ground arith;
}

after_notice-same :
    (code : Error) (x : Result (Unit {0}) × Dispatcher) → (after_notice code x).1 ≡ x.1
after_notice-same code (ok u, d) = refl
after_notice-same code (raise e, d) = refl

check_inline-same :
    (w : World) (iid : String) (l : Dict InlineSchema) (d : Dispatcher)
    → SameBooks d (check_inline w iid l d).1
unfolding check_inline
check_inline-same w iid [] d = record { schemas = refl; bots = refl; registry = refl }
check_inline-same w iid ((name, defn) ∷ rest) d = elim (Bool-cases (not (is_bot_task defn.kind))) [
  | inl other ↦ rw other (record { schemas = refl; bots = refl; registry = refl })
  | inr task ↦ elim (Bool-cases (conflicts (lookup name d.schemas.entries) defn.body)) [
    | inl clash ↦
        rw (task, clash)
          (subst (SameBooks d) (sym (after_notice-same schema_immutable _))
            (system_notify-same w iid _ d))
    | inr new ↦ rw (task, new) (check_inline-same w iid rest d)
  ]
]

then_subscribed-same :
    (q : BotRequest) (x : Result (Unit {0}) × Dispatcher) → (then_subscribed q x).1 ≡ x.1
then_subscribed-same q (ok u, d) = refl
then_subscribed-same q (raise e, d) = refl

-- The checks change no registry, whatever they find.
pub validate_bot-same :
    (w : World) (q : BotRequest) (d : Dispatcher) → SameBooks d (validate_bot w q d).1
unfolding validate_bot
validate_bot-same w q d =
    let cases : ((validate_bot w q d).1 ≡ d)
        ⊎ ((validate_bot w q d).1 ≡ (check_inline w q.instance_id q.inline d).1) =
      ground (arith, then_subscribed-same q (check_inline w q.instance_id q.inline d)) in
    elim cases [
      | inl e ↦
          subst (SameBooks d) (sym e) (record { schemas = refl; bots = refl; registry = refl })
      | inr e ↦ subst (SameBooks d) (sym e) (check_inline-same w q.instance_id q.inline d)
    ]

schemas-IsSound :
    (r : SchemaRegistry) (d : Dispatcher)
    → IsCounted r
    → IsSound d
    → IsSound (record d { schemas = r })
schemas-IsSound r d c v = record {
  counted = c;
  bijective = v.bijective;
  indexed = v.indexed;
  workers = v.workers;
}

pub release-IsSound :
    (iid : String) (d : Dispatcher)
    → IsSound d
    → IsSound (record d { schemas = (release_holder iid d.schemas).0 })
release-IsSound iid d v = schemas-IsSound _ d (release_holder-IsCounted iid d.schemas v.counted) v

pub release_prior-IsSound :
    (iid : String) (s : Server) → IsSound s.router → IsSound (release_prior iid s).router
unfolding release_prior
release_prior-IsSound iid s v = elim (Option-cases (lookup iid s.router.bots.by_instance)) [
  | inl absent ↦ rw (absent, release_prior) v
  | inr (prior, found) ↦ rw (found, release_prior) (release-IsSound prior.instance_id s.router v)
]

keep_registered-IsSound :
    (js : JsonSchema) (now : ℕ) (iid name : String) (body : Value) (purpose : String) (s : Server)
    (e : SchemaEntry)
    → IsSound s.router
    → IsSound
        (keep_registered now iid name body purpose s
          (Schemas.register js e s.router.schemas)).1.router
keep_registered-IsSound js now iid name body purpose s e v =
    elim (Result-cases (Schemas.register js e s.router.schemas)) [
      | inl ((r, kept), stored) ↦ rw stored (
          schemas-IsSound r s.router
            (register-IsCounted js e s.router.schemas r kept stored v.counted) v)
      | inr (code, broken) ↦ rw broken v
    ]

register_inline_one-IsSound :
    (js : JsonSchema) (now : ℕ) (iid name : String) (defn : InlineSchema) (s : Server)
    (body : Option Value)
    → IsSound s.router
    → IsSound (register_inline_one js now iid name defn s body).1.router
register_inline_one-IsSound js now iid name defn s none v = v
register_inline_one-IsSound js now iid name defn s (some body) v =
    keep_registered-IsSound js now iid name body (or_default defn.purpose "") s _ v

pub register_inline-IsSound :
    (js : JsonSchema) (now : ℕ) (iid : String) (l : Dict InlineSchema) (s : Server)
    → IsSound s.router
    → IsSound (register_inline js now iid l s).1.router
unfolding register_inline
register_inline-IsSound js now iid [] s v = v
register_inline-IsSound js now iid ((name, defn) ∷ rest) s v =
    let one = register_inline_one js now iid name defn s defn.body in
    let v1 = register_inline_one-IsSound js now iid name defn s defn.body v in
    elim (Result-cases one.0) [
      | inl (u, fine) ↦
          rw (fine, register_inline) (register_inline-IsSound js now iid rest one.1 v1)
      | inr (code, broken) ↦ rw (broken, register_inline) v1
    ]

acquire_all-IsCounted :
    (ss : List String) (iid : String) (r : SchemaRegistry)
    → IsCounted r
    → IsCounted (acquire_all ss iid r)
unfolding acquire_all
acquire_all-IsCounted [] iid r v = v
acquire_all-IsCounted (s ∷ ss) iid r v =
    acquire_all-IsCounted ss iid (acquire_ref s iid r) (acquire_ref-IsCounted s iid r v)

store_bot-IsSound :
    (now : ℕ) (sid : String) (q : BotRequest) (s : Server)
    → IsSound s.router
    → IsSound (store_bot now sid q s).1.router
unfolding store_bot Bots.register
store_bot-IsSound now sid q s v = record {
  counted =
      acquire_all-IsCounted (if is_handler q.bot_mode then q.subscribe else []) q.instance_id
        s.router.schemas v.counted;
  bijective = register_info-IsBijective bot_hooks _ s.router.bots v.bijective;
  indexed = register_info-IsIndexed _ s.router.bots v.bijective v.indexed;
  workers = v.workers;
}

pub after_inline-IsSound :
    (now : ℕ) (sid : String) (q : BotRequest) (x : Result (Unit {0}) × Server)
    → IsSound x.1.router
    → IsSound (after_inline now sid q x).1.router
after_inline-IsSound now sid q (ok u, s) v = store_bot-IsSound now sid q s v
after_inline-IsSound now sid q (raise e, s) v = elim (Bool-cases (is_agora_error e)) [
  | inl caught ↦ rw caught (release-IsSound q.instance_id s.router v)
  | inr escapes ↦ rw escapes v
]

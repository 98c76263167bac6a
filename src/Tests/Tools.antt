-- ===== src/Tests/Tools.antt =====
-- The tools of the server, run.
use agent_agora.Schemas
use agent_agora.Json.{null}
use agent_agora.Tests.Scenario.{program, router, world, request, no_receipt, bot_info, note_body}
use agent_agora.Registry.Bots
use agent_agora.Server.{
  Reply, replied, refused, uncaught, agora_dispatch, session_is_bot, session_is_bot, worker_of,
  is_caught,
}
use agent_agora.Server.Register.{Server, unregister_caller}
use agent_agora.Dispatcher.{Dispatcher}
use agent_agora.Dispatcher.Checks.{Request}
use agent_agora.Dispatcher.Dispatch.{Receipt, Receipt}
use agent_agora.Prelude.{
  [], some, some, true, lookup, ◌∷◌, lookup, refl, ◌≡◌, ◌≡◌, List, none, none, String, ◌++◌, keep,
  All, has_key, has_key, false, false, elem, ◌⊎◌,
}
use agent_agora.Schemas.{
  JsonSchema, release_holder, release_holder, release_holder, acquire_ref, acquire_ref,
}
use agent_agora.Server.BotRegistration.{
  BotRequest, agora_register_bot, agora_register_bot, is_agora_error, is_agora_error,
  is_agora_error,
}
use agent_agora.Registry.Bots.{BotInfo, BotInfo, BotInfo, BotMode, subscribers_of}
use agent_agora.Server.Kept.{IsSound, IsSound, IsSound}
use agent_agora.Server.Registered.{
  IsStored, agora_register_bot-IsSound, agora_register_bot-IsStored, unregister_caller-IsSound,
}
use agent_agora.Registry.{resolve_session}
use agent_agora.Tests.Registries.{
  catalogue-IsCounted, bob_once, with_mailer-IsBijective, with_mailer, with_mailer-IsIndexed,
  bob_once-IsBijective,
}
use agent_agora.Registry.Instances.{InstanceInfo}
use agent_agora.Server.Authentic.{Caller, agora_dispatch-refused, agora_dispatch-authentic}
use agent_agora.Envelope.{Envelope, is_malformed, malformed, validate_deadline_ts}
use agent_agora.Errors.{not_for_bots, schema_missing_msgtype, invalid_deadline_ts}
use agent_agora.Dispatcher.Delivery.{for_target}
use agent_agora.Dispatcher.Threads.{is_passed_over}

-- Whatever source the arguments name, the message is Alice's.
abbrev forged : Request
forged = record request { source = "bob"; target = some "bob" }

abbrev answered : Reply Receipt × Dispatcher
answered = agora_dispatch world (some "s1") forged router

abbrev receipt_or_none : Reply Receipt → Receipt
receipt_or_none (replied r) = r
receipt_or_none (refused e) = no_receipt
receipt_or_none (uncaught e) = no_receipt

agora_dispatch-authentic_example :
    (i : InstanceInfo) × Caller (some "s1") router i
    × ((es : List Envelope) × ((t : String)
          → answered.1.queues t ≡ router.queues t ++ keep (for_target t) es)
        × All (λ e. e.source ≡ i.instance_id) es)
unfolding program agora_dispatch session_is_bot worker_of resolve_session
agora_dispatch-authentic_example =
    agora_dispatch-authentic world (some "s1") forged router answered.1 (receipt_or_none answered.0)
      refl

-- A deadline that is no time is refused.
abbrev undated_call : Request
undated_call = record forged { deadline_ts = some malformed }

agora_dispatch-refused_example :
    ((agora_dispatch world (some "s1") undated_call router).1 ≡ router)
    ⊎ ((invalid_deadline_ts ≡ invalid_deadline_ts)
        × (is_malformed undated_call.deadline_ts ≡ true)
        × ((agora_dispatch world (some "s1") undated_call router).1 ≡ record router {
          conv = (agora_dispatch world (some "s1") undated_call router).1.conv;
        }))
unfolding program agora_dispatch session_is_bot worker_of resolve_session validate_deadline_ts
    is_caught is_passed_over
agora_dispatch-refused_example =
    agora_dispatch-refused world (some "s1") undated_call router
      (agora_dispatch world (some "s1") undated_call router).1 invalid_deadline_ts refl

-- A bot may not dispatch.
no_bots : agora_dispatch world (some "b1") forged router ≡ (refused not_for_bots, router)
unfolding agora_dispatch session_is_bot resolve_session lookup
no_bots = refl

abbrev small : Dispatcher
small = record router { registry = bob_once; bots = with_mailer }

abbrev server : Server
server = record { router = small; stored_schemas = []; stored_uses = [] }

abbrev json_schema : JsonSchema
json_schema = record { is_schema = λ v. true; validator = λ v t. [] }

-- A bot that brings its own schema and subscribes to it.
abbrev sorter : BotRequest
sorter = record {
  instance_id = "sorter";
  description = "sorts";
  bot_mode = BotMode.handler;
  subscribe = "parcel" ∷ [];
  emit = [];
  inline =
      ("parcel", record { kind = some "bot-task"; body = some note_body; purpose = none }) ∷ [];
}

abbrev registered_sorter : Reply BotInfo × Server
registered_sorter = agora_register_bot json_schema world (some "b3") sorter server

small-IsSound : IsSound small
small-IsSound = record {
  counted = catalogue-IsCounted;
  bijective = with_mailer-IsBijective;
  indexed = with_mailer-IsIndexed;
  workers = bob_once-IsBijective;
}

agora_register_bot-IsSound_example : IsSound registered_sorter.1.router
agora_register_bot-IsSound_example =
    agora_register_bot-IsSound json_schema world (some "b3") sorter server small-IsSound

abbrev bot_or_none : Reply BotInfo → BotInfo
bot_or_none (replied i) = i
bot_or_none (refused e) = bot_info "" "" BotMode.observer []
bot_or_none (uncaught e) = bot_info "" "" BotMode.observer []

agora_register_bot-IsStored_example :
    IsStored "b3" (bot_or_none registered_sorter.0) registered_sorter.1.router
unfolding program agora_register_bot Schemas.register
agora_register_bot-IsStored_example =
    agora_register_bot-IsStored json_schema world "b3" sorter server registered_sorter.1
      (bot_or_none registered_sorter.0) refl

-- Registered again without its schema, the bot is answered for, and its schema is gone.
abbrev again : Reply BotInfo × Server
again =
    agora_register_bot json_schema world (some "b3") (record sorter { inline = [] })
      registered_sorter.1

schema_is_lost :
    (has_key "parcel" registered_sorter.1.router.schemas.entries ≡ true)
    × (has_key "parcel" again.1.router.schemas.entries ≡ false)
    × (has_key "sorter" again.1.router.bots.by_instance ≡ true)
unfolding program agora_register_bot Schemas.register release_holder Bots.register acquire_ref
    is_agora_error
schema_is_lost = (refl, refl, refl)

-- A call that is refused for the body of a second schema takes the first one away too.
abbrev with_bad : BotRequest
with_bad = record sorter {
  inline = ("broken", record { kind = some "bot-task"; body = some null; purpose = none }) ∷ [];
}

schema_is_released :
    (agora_register_bot json_schema world (some "b3") with_bad registered_sorter.1).0
    ≡ refused schema_missing_msgtype
unfolding program agora_register_bot Schemas.register release_holder is_agora_error
schema_is_released = refl

subscription_stays :
    let s = (agora_register_bot json_schema world (some "b3") with_bad registered_sorter.1).1 in
    (has_key "parcel" s.router.schemas.entries ≡ false)
    × (elem "sorter" (subscribers_of "parcel" s.router.bots) ≡ true)
unfolding program agora_register_bot Schemas.register release_holder Bots.register acquire_ref
    is_agora_error
subscription_stays = (refl, refl)

unregister_caller-IsSound_example :
    IsSound (unregister_caller "s1" small)
    × (lookup "s1" (unregister_caller "s1" small).registry.by_session ≡ none)
    × (lookup "s1" (unregister_caller "s1" small).bots.by_session ≡ none)
unregister_caller-IsSound_example = unregister_caller-IsSound "s1" small small-IsSound

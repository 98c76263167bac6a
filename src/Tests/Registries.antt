-- ===== src/Tests/Registries.antt =====
-- The registries, the matrix, the schemas and the conversations, at small inputs.
use agent_agora.Json.{end, field, obj, num}
use agent_agora.Text.{pos}
use agent_agora.Registry
use agent_agora.Prelude.{
  lookup, lookup, lookup, String, String, Option, true, ◌∷◌, ◌≡◌, ◌≡◌, arith, [], some, [], none,
  [], eq_iff, if◌then◌else◌, refl, ◌||◌, elem, not, any, ◌&&◌, ltb,
}
use agent_agora.Registry.Instances.{
  InstanceRegistry, worker_hooks, worker_hooks, worker_hooks, worker_hooks, worker_hooks,
  worker_hooks, no_instances,
}
use agent_agora.Registry.Bijection.{
  IsBijective, IsBijective, IsBijective, IsBijective, IsBijective, register_info-IsBijective,
  register_info-IsBijective,
}
use agent_agora.Registry.Bots.{
  BotInfo, BotRegistry, bot_hooks, subscribers_of, bot_hooks, bot_hooks, bot_hooks, bot_hooks,
  no_bots, no_bots, BotMode, no_bots, no_bots, no_bots,
}
use agent_agora.Registry.Routing.{IsIndexed, IsIndexed, IsIndexed, register_info-IsIndexed}
use agent_agora.CommMatrix.{is_allowed, CommMatrix, Pattern, all_allowed}
use agent_agora.Errors.{Result, Result}
use agent_agora.CommMatrix.Load.{load_csv}
use agent_agora.Schemas.Counting.{IsCounted, IsCounted, IsCounted}
use agent_agora.Conversations.{
  Conversation, ConversationStore, new_state, resolve_conversation_id, evict, Kind, closed,
}
use agent_agora.Conversations.Lifecycle.{
  IsUsable, resolve_conversation_id-IsUsable, evict-exact, left_of,
}
use agent_agora.Tests.Scenario.{
  bot_info, matrix, catalogue, worker_info, worker_info, or_else_value, anyone,
}
use agent_agora.CommMatrix.Access.{covers, cells, is_allowed-exact}
use agent_agora.CommMatrix.Loaded.{IsCompiled, load_csv-IsCompiled}
use agent_agora.Registry.Operator.{is_operator}
use agent_agora.CommMatrix.Object.{load_matrix, load_matrix}

no_instances-IsBijective : IsBijective worker_hooks no_instances
unfolding lookup
no_instances-IsBijective = record { session_sound = λ s i h. cc; instance_sound = λ n i h. cc }

no_bots-IsBijective : IsBijective bot_hooks no_bots
unfolding lookup
no_bots-IsBijective = record { session_sound = λ s i h. cc; instance_sound = λ n i h. cc }

no_bots-IsIndexed : IsIndexed no_bots
unfolding lookup subscribers_of
no_bots-IsIndexed = record { handlers_exact = λ s n. refl; observers_exact = λ n. refl }

-- Bob comes back in a new session.
abbrev pub bob_once : InstanceRegistry
bob_once = Registry.register_info worker_hooks (worker_info "s1" "bob") no_instances

pub bob_once-IsBijective : IsBijective worker_hooks bob_once
bob_once-IsBijective =
    register_info-IsBijective worker_hooks (worker_info "s1" "bob") no_instances
      no_instances-IsBijective

register_info-IsBijective_example :
    IsBijective worker_hooks (Registry.register_info worker_hooks (worker_info "s2" "bob") bob_once)
register_info-IsBijective_example =
    register_info-IsBijective worker_hooks (worker_info "s2" "bob") bob_once bob_once-IsBijective

abbrev pub mailer : BotInfo
mailer = bot_info "b2" "mailer" BotMode.handler ("note" ∷ [])

abbrev pub with_mailer : BotRegistry
with_mailer = Registry.register_info bot_hooks mailer no_bots

pub with_mailer-IsBijective : IsBijective bot_hooks with_mailer
with_mailer-IsBijective = register_info-IsBijective bot_hooks mailer no_bots no_bots-IsBijective

register_info-IsIndexed_example : IsIndexed (Registry.register_info bot_hooks mailer no_bots)
register_info-IsIndexed_example =
    register_info-IsIndexed mailer no_bots no_bots-IsBijective no_bots-IsIndexed

pub with_mailer-IsIndexed : IsIndexed with_mailer
with_mailer-IsIndexed = register_info-IsIndexed mailer no_bots no_bots-IsBijective no_bots-IsIndexed

is_allowed-exact_example : is_allowed matrix "bob" "alice" ≡ (
    is_operator "bob"
    || is_operator "alice"
    || not matrix.active
    || any (λ c. covers matrix.compiled "bob" "alice" c && ltb 0 c.2) (cells matrix.weights))
is_allowed-exact_example = is_allowed-exact matrix "bob" "alice"

abbrev any_pattern : String → Option Pattern
any_pattern s = some anyone

abbrev loaded : Result CommMatrix
loaded = load_csv any_pattern "a,b\n0,1\n2,0"

load_csv-IsCompiled_example :
    IsCompiled (or_else_value all_allowed loaded)
    × ((or_else_value all_allowed loaded).active ≡ true)
unfolding load_csv
load_csv-IsCompiled_example =
    load_csv-IsCompiled any_pattern "a,b\n0,1\n2,0" (or_else_value all_allowed loaded) refl

pub catalogue-IsCounted : IsCounted catalogue
unfolding IsCounted lookup
catalogue-IsCounted = λ n. (
  ground (arith, eq_iff "note" n),
  ground (arith, eq_iff "note" n),
  ground (arith, eq_iff "note" n),
  λ h. ground (arith, eq_iff "note" n),
)

abbrev ended : Conversation
ended = record (new_state 1 Kind.direct) { status = closed }

abbrev store_of : ConversationStore
store_of = record {
  conversations = ("v0", ended) ∷ [];
  conversation_of = ("c0", "v0") ∷ [];
  message_source = ("c0", "bob") ∷ [];
}

resolve_conversation_id-IsUsable_example :
    IsUsable "v1" store_of (resolve_conversation_id "v1" (λ c. none) (some "v0") none store_of)
resolve_conversation_id-IsUsable_example =
    resolve_conversation_id-IsUsable "v1" (λ c. none) (some "v0") none store_of

-- The only conversation is evicted, and its command is forgotten.
evict-exact_example :
    (lookup "v0" (evict ("v0" ∷ []) store_of).conversations
      ≡ (if elem "v0" ("v0" ∷ []) then none else lookup "v0" store_of.conversations))
    × (lookup "c0" (evict ("v0" ∷ []) store_of).conversation_of
        ≡ left_of
            ("v0" ∷ [])
            (lookup "c0" store_of.conversation_of)
            (lookup "c0" store_of.conversation_of))
    × (lookup "c0" (evict ("v0" ∷ []) store_of).message_source
        ≡ left_of
            ("v0" ∷ [])
            (lookup "c0" store_of.conversation_of)
            (lookup "c0" store_of.message_source))
unfolding lookup
evict-exact_example = evict-exact ("v0" ∷ []) store_of "v0" "c0" (refl, tt)

abbrev edited : Result CommMatrix
edited = load_matrix any_pattern (obj (field "bot-.*" (obj (field "alice" (num (pos 3)) end)) end))

-- ===== src/Sweeper.antt =====
-- src/agent_agora/sweeper.py: the sweeps of the background loop. The rows that the collection of old
-- messages finds are parameters.
pub mod Swept
pub mod Expired
use agent_agora.Dispatcher.{Dispatcher, unregistered}
use agent_agora.Registry
use agent_agora.Prelude.{
  ℕ, ℕ, ℕ, ℕ, ℕ, ℕ, ℕ, ℕ, ℕ, ℕ, List, ℕ, ℕ, ℕ, ℕ, ℕ, List, ◌-◌, Bool, Dict, Dict, Option, String,
  String, String, String, ◌*◌, true, ◌&&◌, if◌then◌else◌, false, not, ltb, ◌∷◌, ◌++◌, or_default,
  [], [], [], [], some, map, none,
}
use agent_agora.Conversations.{
  is_nil, Status, Conversation, Conversation, ConversationStore, closed, evict, half_closed,
}
use agent_agora.Registry.Instances.{
  InstanceInfo, InstanceInfo, InstanceInfo, InstanceRegistry, list_instances, worker_hooks,
}
use agent_agora.Registry.Bots.{BotInfo, BotInfo, BotInfo, BotRegistry, list_bots, bot_hooks}
use agent_agora.Schemas.{SchemaRegistry, release_holder}
use agent_agora.Registry.Operator.{is_operator}
use agent_agora.Storage.{ConversationRow, Database}

-- `now - datetime.timedelta(milliseconds=…)`; a time is after the epoch, so no cutoff is below 0 but one
-- that nothing is older than.
abbrev pub cutoff_of : (now timeout_ms : ℕ) → ℕ
cutoff_of now timeout_ms = now - 1000 * timeout_ms

unfoldable pub is_half_closed : Status → Bool
is_half_closed half_closed = true
is_half_closed _ = false

-- One round of the loop of `close_ttl_sweep`.
unfoldable pub expires : ℕ → Conversation → Bool
expires cutoff c = is_half_closed c.status && ltb c.last_message_at cutoff

unfoldable pub close_expired : (now cutoff : ℕ) → Conversation → Conversation
close_expired now cutoff c =
    if expires cutoff c then record c { status = closed; closed_at = some now } else c

unfoldable pub close_each : (now cutoff : ℕ) → Dict Conversation → Dict Conversation
close_each now cutoff [] = []
close_each now cutoff ((k, c) ∷ cs) = (k, close_expired now cutoff c) ∷ close_each now cutoff cs

unfoldable pub expired_ids : ℕ → Dict Conversation → List String
expired_ids cutoff [] = []
expired_ids cutoff ((k, c) ∷ cs) =
    let rest = expired_ids cutoff cs in if expires cutoff c then k ∷ rest else rest

-- `UPDATE conversations SET … WHERE status='half_closed' AND last_message_at < ?`
unfoldable pub close_rows : (now cutoff : ℕ) → Dict ConversationRow → Dict ConversationRow
close_rows now cutoff [] = []
close_rows now cutoff ((k, c) ∷ cs) =
    let closed_row =
      if is_half_closed c.status && ltb c.last_message_at cutoff
      then record c { status = closed; closed_at = some now }
      else c in
    (k, closed_row) ∷ close_rows now cutoff cs

-- The rows are updated only where a conversation in memory was closed.
unfoldable pub close_ttl_sweep :
    (now close_timeout_ms : ℕ)
    → ConversationStore
    → Database
    → List String × ConversationStore × Database
close_ttl_sweep now close_timeout_ms s db =
    let cutoff = cutoff_of now close_timeout_ms in
    let closed_ids = expired_ids cutoff s.conversations in
    (
      closed_ids,
      record s { conversations = close_each now cutoff s.conversations },
      if is_nil closed_ids
          then db
          else record db { conversations = close_rows now cutoff db.conversations },
    )

abbrev seen_before : ℕ → Option ℕ → Bool
seen_before cutoff none = false
seen_before cutoff (some t) = ltb t cutoff

-- A worker that is no operator and was last seen before the cutoff.
unfoldable pub is_dead : ℕ → InstanceInfo → Bool
is_dead cutoff i = not (is_operator i.instance_id) && seen_before cutoff i.last_seen_at

unfoldable pub dead_ids : ℕ → List InstanceInfo → List String
dead_ids cutoff [] = []
dead_ids cutoff (i ∷ is) =
    let rest = dead_ids cutoff is in if is_dead cutoff i then i.instance_id ∷ rest else rest

-- The loop over the snapshot of the instances.
unfoldable pub unregister_dead : ℕ → List InstanceInfo → InstanceRegistry → InstanceRegistry
unregister_dead cutoff [] r = r
unregister_dead cutoff (i ∷ is) r =
    unregister_dead cutoff is
      (if is_dead cutoff i then Registry.unregister_session worker_hooks i.session_id r else r)

unfoldable pub release_all : List String → SchemaRegistry → SchemaRegistry
release_all [] s = s
release_all (iid ∷ iids) s = release_all iids (release_holder iid s).0

unfoldable pub dead_session_sweep :
    (now dead_session_timeout_ms : ℕ) → Dispatcher → List String × Dispatcher
dead_session_sweep now dead_session_timeout_ms d =
    let cutoff = cutoff_of now dead_session_timeout_ms in
    let snapshot = list_instances d.registry in
    let removed = dead_ids cutoff snapshot in
    (
      removed,
      record d {
        registry = unregister_dead cutoff snapshot d.registry;
        schemas = release_all removed d.schemas;
        events = d.events ++ map unregistered removed;
      },
    )

-- `bot.last_seen_at or bot.registered_at`
unfoldable pub is_dead_bot : ℕ → BotInfo → Bool
is_dead_bot cutoff b = ltb (or_default b.last_seen_at b.registered_at) cutoff

unfoldable pub dead_bot_ids : ℕ → List BotInfo → List String
dead_bot_ids cutoff [] = []
dead_bot_ids cutoff (b ∷ bs) =
    let rest = dead_bot_ids cutoff bs in if is_dead_bot cutoff b then b.instance_id ∷ rest else rest

unfoldable pub unregister_dead_bots : ℕ → List BotInfo → BotRegistry → BotRegistry
unregister_dead_bots cutoff [] r = r
unregister_dead_bots cutoff (b ∷ bs) r =
    unregister_dead_bots cutoff bs
      (if is_dead_bot cutoff b then Registry.unregister_session bot_hooks b.session_id r else r)

unfoldable pub dead_bot_sweep :
    (now dead_session_timeout_ms : ℕ) → Dispatcher → List String × Dispatcher
dead_bot_sweep now dead_session_timeout_ms d =
    let cutoff = cutoff_of now dead_session_timeout_ms in
    let snapshot = list_bots d.bots in
    let removed = dead_bot_ids cutoff snapshot in
    (
      removed,
      record d {
        bots = unregister_dead_bots cutoff snapshot d.bots;
        schemas = release_all removed d.schemas;
      },
    )

-- `victims` are the closed conversations that are old enough, and `deleted` the rows of their messages.
unfoldable pub message_gc_sweep :
    (victims : List String) (deleted : ℕ) → ConversationStore → ℕ × ConversationStore
message_gc_sweep [] deleted s = (0, s)
message_gc_sweep (v ∷ vs) deleted s = (deleted, evict (v ∷ vs) s)

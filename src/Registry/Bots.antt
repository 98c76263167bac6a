-- ===== src/Registry/Bots.antt =====
-- src/agent_agora/registry/bot.py: the bots, and the index from a schema's name to its handlers.
use agent_agora.Prelude.{
  ℕ, String, Bool, Option, none, some, List, [], ◌∷◌, Dict, lookup, insert, remove, or_default,
  has_key, add, discard,
}
use agent_agora.Registry.{Hooks, Registry, register_info, replace_and_store, list_all}

pub data BotMode : Type 0 where
  handler observer : BotMode

pub record BotInfo : Type 0 where
  pub instance_id : String
  pub session_id : String
  pub description : String
  pub bot_mode : BotMode
  pub subscribe_schemas : List String
  pub emit_schemas : List String
  pub registered_at : ℕ
  pub last_seen_at : Option ℕ

-- `_subscribers` and `_observers`; a set is a list in the order of insertion.
pub record BotIndex : Type 0 where
  pub subscribers : Dict (List String)
  pub observers : List String

-- `for s in schemas: self._subscribers.setdefault(s, set()).add(bot)`
unfoldable pub subscribe : String → List String → Dict (List String) → Dict (List String)
subscribe bot [] d = d
subscribe bot (s ∷ ss) d = subscribe bot ss (insert s (add bot (or_default (lookup s d) [])) d)

-- `if not subs: self._subscribers.pop(s, None)`
abbrev pub keep_left : String → List String → Dict (List String) → Dict (List String)
keep_left s [] d = remove s d
keep_left s (x ∷ xs) d = insert s (x ∷ xs) d

-- One round of the loop of `_on_detach_locked`.
abbrev pub unsubscribe_one :
    String → String → Option (List String) → Dict (List String) → Dict (List String)
unsubscribe_one bot s none d = d
unsubscribe_one bot s (some subs) d = keep_left s (discard bot subs) d

unfoldable pub unsubscribe : String → List String → Dict (List String) → Dict (List String)
unsubscribe bot [] d = d
unsubscribe bot (s ∷ ss) d = unsubscribe bot ss (unsubscribe_one bot s (lookup s d) d)

unfoldable pub on_store : BotInfo → BotIndex → BotIndex
unfolding subscribe
on_store i x = elim i.bot_mode [
  | observer ↦ record x { observers = add i.instance_id x.observers }
  | handler ↦ record x { subscribers = subscribe i.instance_id i.subscribe_schemas x.subscribers }
]

unfoldable pub on_detach : BotInfo → BotIndex → BotIndex
unfolding unsubscribe
on_detach i x = record {
  subscribers = unsubscribe i.instance_id i.subscribe_schemas x.subscribers;
  observers = discard i.instance_id x.observers;
}

abbrev pub bot_hooks : Hooks BotInfo BotIndex
bot_hooks = record {
  session_id = λ i. i.session_id;
  instance_id = λ i. i.instance_id;
  on_store = on_store;
  on_detach = on_detach;
}

abbrev pub BotRegistry : Type 0
BotRegistry = Registry BotInfo BotIndex

abbrev pub no_bots : BotRegistry
no_bots = record {
  by_session = [];
  by_instance = [];
  index = record { subscribers = []; observers = [] };
}

unfoldable pub register :
    (now : ℕ) (session_id instance_id description : String)
    → BotMode
    → (subscribe_schemas emit_schemas : List String) → BotRegistry
    → BotRegistry × BotInfo
unfolding register_info on_store on_detach
register now session_id instance_id description bot_mode subscribe_schemas emit_schemas r =
    let i : BotInfo = record {
      instance_id = instance_id;
      session_id = session_id;
      description = description;
      bot_mode = bot_mode;
      subscribe_schemas = subscribe_schemas;
      emit_schemas = emit_schemas;
      registered_at = now;
      last_seen_at = none;
    } in
    (register_info bot_hooks i r, i)

unfoldable pub touch_last_seen : ℕ → String → BotRegistry → BotRegistry
unfolding replace_and_store
touch_last_seen now iid r =
    (replace_and_store bot_hooks (λ i. record i { last_seen_at = some now }) iid r).0

unfoldable pub is_bot : String → BotRegistry → Bool
unfolding lookup
is_bot iid r = has_key iid r.by_instance

unfoldable pub subscribers_of : String → BotRegistry → List String
unfolding lookup
subscribers_of s r = or_default (lookup s r.index.subscribers) []

unfoldable pub list_bots : BotRegistry → List BotInfo
unfolding list_all
list_bots r = list_all r

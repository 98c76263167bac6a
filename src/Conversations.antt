-- ===== src/Conversations.antt =====
-- src/agent_agora/conversation_store.py: the conversations and the two caches from a command to its
-- conversation and to its source. Times are the microseconds that the ISO texts stand for.
pub mod Lifecycle
pub mod Listing
use agent_agora.Prelude.{
  ℕ, String, Bool, Dict, Dict, [], Bool, Bool, Bool, [], Bool, Dict, List, List, if◌then◌else◌,
  Bool, Option, Option, Option, Option, Option, insert, Option, Option, insert, insert, List, List,
  List, true, true, true, none, has_key, true, true, not, true, true, lookup, lookup, lookup, ◌∷◌,
  some, false, false, false, ◌&&◌, elem, false, ◌&&◌, false, false, false, elem, remove,
}

pub data Status : Type 0 where
  opened half_closed closed : Status

pub data Kind : Type 0 where
  direct broadcast : Kind

pub data Role : Type 0 where
  primary cc : Role

pub record Participant : Type 0 where
  pub role : Role
  pub delivered : Bool

pub record Conversation : Type 0 where
  pub status : Status
  pub kind : Kind
  pub participants : Dict Participant
  pub closed_by : List String
  pub started_at : ℕ
  pub last_message_at : ℕ
  pub message_count : ℕ
  pub closed_at : Option ℕ

pub record ConversationStore : Type 0 where
  pub conversations : Dict Conversation
  pub conversation_of : Dict String
  pub message_source : Dict String

abbrev pub no_conversations : ConversationStore
no_conversations = record { conversations = []; conversation_of = []; message_source = [] }

unfoldable pub is_closed : Status → Bool
is_closed closed = true
is_closed _ = false

unfoldable pub is_opened : Status → Bool
is_opened opened = true
is_opened _ = false

unfoldable pub is_primary : Role → Bool
is_primary primary = true
is_primary cc = false

unfoldable pub new_state : ℕ → Kind → Conversation
new_state now kind = record {
  status = opened;
  kind = kind;
  participants = [];
  closed_by = [];
  started_at = now;
  last_message_at = now;
  message_count = 0;
  closed_at = none;
}

-- A participant keeps the role with which it came in.
unfoldable pub add_participant : String → Role → Bool → Conversation → Conversation
add_participant iid role delivered c = if has_key iid c.participants then c else record c {
  participants = insert iid (record { role = role; delivered = delivered }) c.participants;
}

-- `{iid for … if info["role"] == "primary" and info["delivered"]}`
unfoldable pub delivered_primaries : Dict Participant → List String
unfolding is_primary
delivered_primaries [] = []
delivered_primaries ((iid, p) ∷ ps) =
    let rest = delivered_primaries ps in
    if is_primary p.role && p.delivered then iid ∷ rest else rest

-- `a <= b` of two sets
unfoldable pub all_in : List String → List String → Bool
all_in [] ks = true
all_in (j ∷ js) ks = elem j ks && all_in js ks

abbrev pub is_nil : List String → Bool
is_nil [] = true
is_nil (k ∷ ks) = false

unfoldable pub maybe_close : ℕ → Conversation → Conversation
unfolding delivered_primaries all_in is_closed
maybe_close now c =
    let primaries = delivered_primaries c.participants in
    if is_closed c.status
    then c
    else if not (is_nil primaries) && all_in primaries c.closed_by
    then record c { status = closed; closed_at = some now }
    else c

-- The id, whether it is new, and whether it replaces a closed one.
abbrev pub Resolved : Type 0
Resolved = String × Bool × Bool

abbrev pub resolve_given : String → String → Option Conversation → Resolved
resolve_given fresh conv_id none = (conv_id, true, false)
resolve_given fresh conv_id (some c) =
    if is_closed c.status then (fresh, true, true) else (conv_id, false, false)

abbrev pub resolve_inherited : String → String → Option Conversation → Resolved
resolve_inherited fresh conv_id none = (conv_id, true, false)
resolve_inherited fresh conv_id (some c) =
    if is_closed c.status then (fresh, true, false) else (conv_id, false, false)

abbrev pub or_else {ℓ} : {A : Type ℓ} → Option A → Option A → Option A
or_else (some a) o = some a
or_else none o = o

-- `fresh` is the new id, and `stored` the database's `lookup_conversation_for`.
unfoldable pub resolve_conversation_id :
    (fresh : String) (stored : String → Option String)
    → Option String
    → Option String
    → ConversationStore
    → Resolved
unfolding is_closed
resolve_conversation_id fresh stored (some conv_id) in_reply_to s =
    resolve_given fresh conv_id (lookup conv_id s.conversations)
resolve_conversation_id fresh stored none none s = (fresh, true, false)
resolve_conversation_id fresh stored none (some cmd) s =
    elim (or_else (lookup cmd s.conversation_of) (stored cmd)) [
      | none ↦ (fresh, true, false)
      | some conv_id ↦ resolve_inherited fresh conv_id (lookup conv_id s.conversations)
    ]

unfoldable pub get : String → ConversationStore → Option Conversation
get conv_id s = lookup conv_id s.conversations

unfoldable pub put : String → Conversation → ConversationStore → ConversationStore
put conv_id c s = record s { conversations = insert conv_id c s.conversations }

unfoldable pub conv_id_of : String → ConversationStore → Option String
conv_id_of cmd s = lookup cmd s.conversation_of

unfoldable pub source_of : String → ConversationStore → Option String
source_of cmd s = lookup cmd s.message_source

unfoldable pub record_command : String → String → String → ConversationStore → ConversationStore
record_command cmd conv_id source s = record s {
  conversation_of = insert cmd conv_id s.conversation_of;
  message_source = insert cmd source s.message_source;
}

unfoldable pub set_conv_of : String → String → ConversationStore → ConversationStore
set_conv_of cmd conv_id s = record s { conversation_of = insert cmd conv_id s.conversation_of }

-- The commands whose conversation is one of `victims`.
unfoldable pub stale_commands : List String → Dict String → List String
stale_commands victims [] = []
stale_commands victims ((cmd, conv_id) ∷ d) =
    let rest = stale_commands victims d in if elem conv_id victims then cmd ∷ rest else rest

unfoldable pub remove_all {ℓ} : {V : Type ℓ} → List String → Dict V → Dict V
remove_all [] d = d
remove_all (k ∷ ks) d = remove_all ks (remove k d)

unfoldable pub evict : List String → ConversationStore → ConversationStore
unfolding stale_commands remove_all
evict conv_ids s =
    let stale = stale_commands conv_ids s.conversation_of in
    record {
      conversations = remove_all conv_ids s.conversations;
      conversation_of = remove_all stale s.conversation_of;
      message_source = remove_all stale s.message_source;
    }

-- ===== src/Conversations/Listing.antt =====
-- src/agent_agora/conversation_store.py: what is read of the conversations.
pub mod Newest
use agent_agora.Text.{ℤ, pos, negsuc}
use agent_agora.Prelude.{
  ◌∷◌, [], some, none, true, false, zero, suc, String, Dict, String, lookup, String, Option, Option,
  Option, String, ℕ, String, Option, min, Bool, Bool, Bool, max, Bool, List, map, has_key, ◌==◌,
  ◌&&◌, ltb, map, take, sort_by, keep,
}
use agent_agora.Conversations.{
  opened, half_closed, closed, Status, Kind, Participant, Conversation, ConversationStore, Kind,
  Conversation, Conversation, Conversation, Conversation, Conversation, ConversationStore, Role,
  Role,
}

pub record StatusView : Type 0 where
  pub conversation_id : String
  pub kind : Kind
  pub status : Status
  pub participants : Dict Role
  pub started_at : ℕ
  pub last_message_at : ℕ
  pub closed_at : Option ℕ
  pub closed_by : List String
  pub message_count : ℕ

abbrev pub roles_of : Dict Participant → Dict Role
roles_of = map (λ e. (e.0, e.1.role))

abbrev pub view_of : String → Option Conversation → Option StatusView
view_of conv_id none = none
view_of conv_id (some c) = some (record {
  conversation_id = conv_id;
  kind = c.kind;
  status = c.status;
  participants = roles_of c.participants;
  started_at = c.started_at;
  last_message_at = c.last_message_at;
  closed_at = c.closed_at;
  closed_by = c.closed_by;
  message_count = c.message_count;
})

-- `status`; `none` is the answer `unknown_conversation`.
unfoldable pub conversation_status : String → ConversationStore → Option StatusView
unfolding lookup
conversation_status conv_id s = view_of conv_id (lookup conv_id s.conversations)

pub record Listed : Type 0 where
  pub conversation_id : String
  pub kind : Kind
  pub status : Status
  pub started_at : ℕ
  pub last_message_at : ℕ
  pub message_count : ℕ

-- The text that a status has.
unfoldable pub status_text : Status → String
status_text opened = "open"
status_text half_closed = "half_closed"
status_text closed = "closed"

abbrev pub takes_part : Option String → Conversation → Bool
takes_part none c = true
takes_part (some iid) c = has_key iid c.participants

abbrev pub has_status : Option String → Conversation → Bool
has_status none c = true
has_status (some text) c = status_text c.status == text

abbrev pub is_listed : (participant status : Option String) → String × Conversation → Bool
is_listed participant status e = takes_part participant e.1 && has_status status e.1

abbrev pub listed_of : String × Conversation → Listed
listed_of e = record {
  conversation_id = e.0;
  kind = e.1.kind;
  status = e.1.status;
  started_at = e.1.started_at;
  last_message_at = e.1.last_message_at;
  message_count = e.1.message_count;
}

-- `min(max(1, limit), 1000)`
abbrev pub limit_of : ℤ → ℕ
limit_of (pos n) = min (max 1 n) 1000
limit_of (negsuc n) = 1

-- The newest first; the sort is stable, also in reverse.
abbrev pub is_newer : (a b : String × Conversation) → Bool
is_newer a b = ltb b.1.last_message_at a.1.last_message_at

unfoldable pub list_conversations :
    (participant status : Option String) (limit : ℤ) → ConversationStore → List Listed
unfolding status_text
list_conversations participant status limit s =
    map listed_of (
      take (limit_of limit)
        (sort_by is_newer (keep (is_listed participant status) s.conversations)))

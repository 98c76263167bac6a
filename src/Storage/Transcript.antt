-- ===== src/Storage/Transcript.antt =====
-- src/agent_agora/storage/persistence.py: what is read of the messages, and their acknowledgement.
pub mod Acknowledged
pub mod Shown
use agent_agora.Envelope.{DeliveredAs}
use agent_agora.Prelude.{
  ◌∷◌, [], some, none, true, false, String, Option, Option, Option, List, List, Option, String,
  List, String, Bool, Bool, Bool, Bool, ℕ, ℕ, ℕ, ℕ, Dict, Dict, ℕ, ◌==◌, ◌&&◌, if◌then◌else◌, ltb,
  if◌then◌else◌, ◌||◌, map, elem, length, sort_by, has_key, sort_by, not, keep, keep, values,
  insert,
}
use agent_agora.Storage.{Row, Row, Row, Database, Database, Database, Database}
use agent_agora.Json.{Value}
use agent_agora.Storage.Restart.{row_lt, row_lt, row_lt, is_primary_row}

-- What is shown of a row; `sender` has two names in the answer.
pub record Message : Type 0 where
  pub message_id : String
  pub sender : String
  pub target : String
  pub payload : Value
  pub conversation_id : String
  pub created_at : ℕ
  pub delivered_as : DeliveredAs
  pub in_reply_to : Option String
  pub acked_at : Option ℕ
  pub reply_only : Bool

unfoldable pub message_of : Row → Message
message_of r = record {
  message_id = r.command_id;
  sender = r.source;
  target = r.target;
  payload = r.payload;
  conversation_id = r.conversation_id;
  created_at = r.created_at;
  delivered_as = r.delivered_as;
  in_reply_to = r.in_reply_to;
  acked_at = r.acked_at;
  reply_only = r.reply_only;
}

abbrev pub is_asked : Option String → String → Bool
is_asked none value = true
is_asked (some wanted) value = value == wanted

abbrev pub is_unacked : Row → Bool
is_unacked r = elim r.acked_at [ none ↦ true | some t ↦ false ]

-- The `WHERE` of the query
abbrev pub is_wanted :
    (recipient conversation_id : Option String) (include_acked : Bool) → Row → Bool
is_wanted recipient conversation_id include_acked r =
    is_asked recipient r.target
    && is_asked conversation_id r.conversation_id
    && (include_acked || is_unacked r)

unfoldable pub fetch_messages_for :
    (recipient conversation_id : Option String) (include_acked : Bool) → Database → List Message
unfolding message_of
fetch_messages_for recipient conversation_id include_acked db =
    map message_of
      (sort_by row_lt (keep (is_wanted recipient conversation_id include_acked) db.messages))

abbrev pub set_acked : List String → ℕ → Row → Row
set_acked ids now r = if elem r.command_id ids then record r { acked_at = some now } else r

-- With the update that the write queue runs, and the number of ids that were given.
unfoldable pub mark_messages_acked : (message_ids : List String) (now : ℕ) → Database → ℕ × Database
mark_messages_acked [] now db = (0, db)
mark_messages_acked (i ∷ is) now db =
    (length (i ∷ is), record db { messages = map (set_acked (i ∷ is) now) db.messages })

abbrev is_since : Option ℕ → Row → Bool
is_since none r = true
is_since (some t) r = ltb t r.created_at

-- The rows of a conversation after a time, in the order of time.
unfoldable pub rows_since : (conversation_id : String) (since_ts : Option ℕ) → Database → List Row
rows_since conversation_id since_ts db =
    sort_by row_lt
      (keep (λ r. r.conversation_id == conversation_id && is_since since_ts r) db.messages)

-- `if cmd in seen and r[6] != "primary": continue`
unfoldable pub see : Row → Dict Row → Dict Row
see r seen =
    if has_key r.command_id seen && not (is_primary_row r) then seen else insert r.command_id r seen

unfoldable pub see_all : List Row → Dict Row → Dict Row
unfolding see
see_all [] seen = seen
see_all (r ∷ rs) seen = see_all rs (see r seen)

unfoldable pub fetch_transcript :
    (conversation_id : String) (since_ts : Option ℕ) → Database → List Row
unfolding rows_since see_all
fetch_transcript conversation_id since_ts db =
    sort_by row_lt (values (see_all (rows_since conversation_id since_ts db) []))

-- ===== src/Storage.antt =====
-- src/agent_agora/storage/persistence.py, dispatch_persistence.py: the tables of the database, the
-- statements of a transaction, and the write queue. A column that holds JSON text is its value.
pub mod Restart
pub mod Recovered
pub mod Durable
pub mod Survives
pub mod Flushed
pub mod Pending
pub mod Restarted
pub mod Transcript
use agent_agora.Prelude.{
  ℕ, String, String, List, Option, String, String, Bool, String, String, String, Option, List,
  Option, List, List, Dict, none, ◌==◌, ◌==◌, Dict, if◌then◌else◌, some, some, false, ◌∷◌, ◌&&◌,
  ◌&&◌, insert, has_key, any, any, ◌+◌, true, [], ◌++◌, ◌++◌, lookup,
}
use agent_agora.Dispatcher.{
  insert_conversation, insert_participant, insert_message, update_conversation, update_status,
  mark_drained, mark_dropped, Statement,
}
use agent_agora.Conversations.{Status, Kind, Role, Conversation, Participant}
use agent_agora.Envelope.{Envelope, DeliveredAs, Priority}
use agent_agora.Json.{Value}

pub data DropReason : Type 0 where
  server_restart manual : DropReason

-- A row of `messages`; its primary key is the command with the target.
pub record Row : Type 0 where
  pub command_id : String
  pub target : String
  pub conversation_id : String
  pub source : String
  pub in_reply_to : Option String
  pub created_at : ℕ
  pub expect_result : Bool
  pub reply_to : Option String
  pub cc_list : Option (List String)
  pub delivered_as : DeliveredAs
  pub dispatch_kind : Kind
  pub closing : Bool
  pub priority : Priority
  pub priority_rank : ℕ
  pub deadline_ts : Option ℕ
  pub payload : Value
  pub drained_at : Option ℕ
  pub drop_reason : Option DropReason
  pub reply_only : Bool
  pub acked_at : Option ℕ

-- A row of `conversations`, whose primary key is the id.
pub record ConversationRow : Type 0 where
  pub status : Status
  pub started_at : ℕ
  pub last_message_at : ℕ
  pub closed_at : Option ℕ
  pub closed_by : List String
  pub message_count : ℕ
  pub kind : Kind

-- A row of `conversation_participants`; its primary key is the first two.
pub record ParticipantRow : Type 0 where
  pub conversation_id : String
  pub instance_id : String
  pub role : Role
  pub joined_at : ℕ
  pub delivered : Bool

pub record Database : Type 0 where
  pub messages : List Row
  pub conversations : Dict ConversationRow
  pub participants : List ParticipantRow

-- `json.dumps(e.cc) if e.cc else None`
abbrev nonempty : Option (List String) → Option (List String)
nonempty (some (c ∷ cs)) = some (c ∷ cs)
nonempty _ = none

-- The row that the insert of `persist_dispatch_txn` makes.
unfoldable pub row_of : ℕ → Envelope → Row
row_of rank e = record {
  command_id = e.id;
  target = e.target;
  conversation_id = e.conversation_id;
  source = e.source;
  in_reply_to = e.in_reply_to;
  created_at = e.created_at;
  expect_result = e.expect_result;
  reply_to = e.reply_to;
  cc_list = nonempty e.cc_list;
  delivered_as = e.delivered_as;
  dispatch_kind = e.dispatch_kind;
  closing = e.closing;
  priority = e.priority;
  priority_rank = rank;
  deadline_ts = e.deadline_ts;
  payload = e.payload;
  drained_at = none;
  drop_reason = none;
  reply_only = e.reply_only;
  acked_at = none;
}

abbrev pub has_id : (cmd_id target : String) → Row → Bool
has_id cmd_id target r = (r.command_id == cmd_id) && (r.target == target)

abbrev is_in : (conv_id iid : String) → ParticipantRow → Bool
is_in conv_id iid p = (p.conversation_id == conv_id) && (p.instance_id == iid)

abbrev pub set_rows : (Row → Bool) → (Row → Row) → List Row → List Row
set_rows p f [] = []
set_rows p f (r ∷ rs) = (if p r then f r else r) ∷ set_rows p f rs

-- An `UPDATE … WHERE conversation_id=?` of one column after the other.
abbrev set_conversation :
    String
    → (ConversationRow → ConversationRow)
    → Option ConversationRow
    → Dict ConversationRow
    → Dict ConversationRow
set_conversation conv_id f none t = t
set_conversation conv_id f (some c) t = insert conv_id (f c) t

-- `INSERT OR IGNORE INTO conversations`, with the defaults of the other columns
abbrev insert_conversation_row : String → Conversation → Database → Database
insert_conversation_row conv_id c db = if has_key conv_id db.conversations then db else record db {
  conversations =
      insert conv_id
        (record {
          status = c.status;
          started_at = c.started_at;
          last_message_at = c.last_message_at;
          closed_at = none;
          closed_by = [];
          message_count = 0;
          kind = c.kind;
        })
        db.conversations;
}

-- `INSERT OR IGNORE INTO conversation_participants`: a foreign key that fails is not ignored.
abbrev insert_participant_row : String → String → Participant → ℕ → Database → Option Database
insert_participant_row conv_id iid p now db =
    if any (is_in conv_id iid) db.participants
    then some db
    else if has_key conv_id db.conversations
    then some (record db {
      participants =
          db.participants
          ++ record {
            conversation_id = conv_id;
            instance_id = iid;
            role = p.role;
            joined_at = now;
            delivered = p.delivered;
          }
            ∷ [];
    })
    else none

-- `INSERT INTO messages`, with both keys checked
abbrev pub insert_message_row : Row → Database → Option Database
insert_message_row r db =
    if any (has_id r.command_id r.target) db.messages
    then none
    else if has_key r.conversation_id db.conversations
    then some (record db { messages = db.messages ++ r ∷ [] })
    else none

-- A statement, or the exception of a constraint that it breaks.
unfoldable pub execute : Statement → Database → Option Database
unfolding row_of
execute (insert_conversation conv_id c) db = some (insert_conversation_row conv_id c db)
execute (insert_participant conv_id iid p now) db = insert_participant_row conv_id iid p now db
execute (insert_message e rank) db = insert_message_row (row_of rank e) db
execute (update_conversation conv_id c) db = some (record db {
  conversations =
      set_conversation conv_id
        (λ o. record o {
          last_message_at = c.last_message_at;
          message_count = o.message_count + 1;
          status = c.status;
          closed_at = c.closed_at;
          closed_by = c.closed_by;
          kind = c.kind;
        })
        (lookup conv_id db.conversations) db.conversations;
})
execute (update_status conv_id c) db = some (record db {
  conversations =
      set_conversation conv_id
        (λ o. record o { status = c.status; closed_at = c.closed_at; closed_by = c.closed_by })
        (lookup conv_id db.conversations) db.conversations;
})
execute (mark_drained cmd_id target now) db = some (record db {
  messages = set_rows (has_id cmd_id target) (λ r. record r { drained_at = some now }) db.messages;
})
execute (mark_dropped cmd_id target now) db = some (record db {
  messages =
      set_rows (has_id cmd_id target)
        (λ r. record r { drained_at = some now; drop_reason = some manual }) db.messages;
})

-- The statements between BEGIN and COMMIT.
unfoldable pub execute_all : List Statement → Database → Option Database
unfolding execute
execute_all [] db = some db
execute_all (s ∷ ss) db = elim (execute s db) [ none ↦ none | some db1 ↦ execute_all ss db1 ]

abbrev pub committed : Option Database → Database → Bool × Database
committed none db = (false, db)
committed (some db1) db = (true, db1)

-- One request of `AsyncWriteQueue._run`: whether the future gets a result, and the database, which
-- an exception rolls back.
unfoldable pub run_request : List Statement → Database → Bool × Database
unfolding execute_all
run_request ss db = committed (execute_all ss db) db

-- The requests in the order in which they were put in the queue.
unfoldable pub run_queue : List (List Statement) → Database → Database
unfolding run_request
run_queue [] db = db
run_queue (ss ∷ requests) db = run_queue requests (run_request ss db).1

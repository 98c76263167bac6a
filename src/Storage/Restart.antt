-- ===== src/Storage/Restart.antt =====
-- src/agent_agora/storage/persistence.py, dispatch_persistence.py and dispatcher.py: the restart. What
-- is not drained goes back to the inboxes, or is dropped.
use agent_agora.Envelope.{DeliveredAs}
use agent_agora.Prelude.{
  ℕ, Option, String, String, String, List, Dict, Dict, Bool, Bool, Bool, sort_by, Bool, Bool, keep,
  none, some, none, none, ◌∷◌, true, false, lookup, ◌&&◌, ◌&&◌, [], if◌then◌else◌, if◌then◌else◌,
  insert, insert, false, [], [], not, str_lt, ◌==◌, or_default,
}
use agent_agora.Storage.{
  server_restart, Row, Database, Row, Database, Row, Database, Database, Row, Row, Row, Database,
  Database, Database, Database, ConversationRow, ConversationRow, set_rows,
}
use agent_agora.Dispatcher.{expect, push, Dispatcher, Dispatcher, Dispatcher}
use agent_agora.Envelope.{Envelope}
use agent_agora.Conversations.{set_conv_of, is_closed}
use agent_agora.Dispatcher.Flush.{lt_then}

abbrev pub is_undrained : Row → Bool
is_undrained r = elim r.drained_at [ none ↦ true | some t ↦ false ]

abbrev pub is_open_row : Option ConversationRow → Bool
is_open_row none = false
is_open_row (some c) = not (is_closed c.status)

-- The join with `conversations`, `c.status != 'closed'`.
unfoldable pub is_live : Database → String → Bool
is_live db conv_id = is_open_row (lookup conv_id db.conversations)

-- `ORDER BY m.created_at ASC, m.command_id ASC`; rows that are equal in both keep their order.
unfoldable pub row_lt : Row → Row → Bool
row_lt a b = lt_then a.created_at b.created_at (str_lt a.command_id b.command_id)

unfoldable pub restore_inflight : Database → List Row
unfolding is_live row_lt
restore_inflight db =
    sort_by row_lt (keep (λ r. is_undrained r && is_live db r.conversation_id) db.messages)

abbrev pub is_primary_row : Row → Bool
is_primary_row r = elim r.delivered_as [
  | DeliveredAs.primary ↦ true
  | DeliveredAs.cc ↦ false
  | DeliveredAs.subscribed ↦ false
]

-- A row of the query of `restore_in_flight_pending`.
unfoldable pub is_awaited_row : Database → Row → Bool
unfolding is_live
is_awaited_row db r =
    is_undrained r && r.expect_result && is_primary_row r && is_live db r.conversation_id

unfoldable pub expect_rows : List Row → Dict (Dict (List String)) → Dict (Dict (List String))
unfolding expect
expect_rows [] m = m
expect_rows (r ∷ rs) m = expect_rows rs (expect r.source r.command_id r.target m)

unfoldable pub restore_in_flight_pending : Database → Dict (Dict (List String))
unfolding is_awaited_row expect_rows
restore_in_flight_pending db = expect_rows (keep (is_awaited_row db) db.messages) []

-- `LIMIT 1` of the rows of a command
abbrev first_row : String → List Row → Option Row
first_row cmd_id [] = none
first_row cmd_id (r ∷ rs) = if r.command_id == cmd_id then some r else first_row cmd_id rs

unfoldable pub lookup_conversation_for : String → Database → Option String
lookup_conversation_for cmd_id db = elim (first_row cmd_id db.messages) [
  | none ↦ none
  | some r ↦ some r.conversation_id
]

unfoldable pub lookup_source_for : String → Database → Option String
lookup_source_for cmd_id db = elim (first_row cmd_id db.messages) [
  | none ↦ none
  | some r ↦ some r.source
]

-- The envelope that a row stands for; a row with no `cc` has none.
unfoldable pub envelope_of_row : Row → Envelope
envelope_of_row r = record {
  id = r.command_id;
  source = r.source;
  target = r.target;
  payload = r.payload;
  created_at = r.created_at;
  expect_result = r.expect_result;
  reply_to = r.reply_to;
  cc_list = r.cc_list;
  delivered_as = r.delivered_as;
  dispatch_kind = r.dispatch_kind;
  in_reply_to = r.in_reply_to;
  conversation_id = r.conversation_id;
  closing = r.closing;
  priority = r.priority;
  deadline_ts = r.deadline_ts;
  wait_age_ms = 0;
  reply_only = r.reply_only;
}

-- `if expect_result and deadline_ts and delivered_as == "primary"`
abbrev note_deadline : Row → Option ℕ → Dict ℕ → Dict ℕ
note_deadline r none m = m
note_deadline r (some t) m =
    if r.expect_result && is_primary_row r then insert r.command_id t m else m

unfoldable pub restore_row : Row → Dispatcher → Dispatcher
unfolding push envelope_of_row set_conv_of
restore_row r d =
    let d1 = push (envelope_of_row r) d in
    record d1 {
      conv = set_conv_of r.command_id r.conversation_id d1.conv;
      deadlines = note_deadline r r.deadline_ts d1.deadlines;
    }

unfoldable pub restore_rows : List Row → Dispatcher → Dispatcher
unfolding restore_row
restore_rows [] d = d
restore_rows (r ∷ rs) d = restore_rows rs (restore_row r d)

-- `dict.update`
unfoldable pub update_all {ℓ} : {V : Type ℓ} → Dict V → Dict V → Dict V
update_all [] m = m
update_all ((k, v) ∷ new) m = update_all new (insert k v m)

-- `self._in_flight.setdefault(source, {}).update(m)`, for each source
unfoldable pub merge_pending :
    Dict (Dict (List String)) → Dict (Dict (List String)) → Dict (Dict (List String))
unfolding update_all
merge_pending [] m = m
merge_pending ((source, pending) ∷ rest) m =
    merge_pending rest (insert source (update_all pending (or_default (lookup source m) [])) m)

abbrev pub drop_row : ℕ → Row → Row
drop_row now r = record r { drained_at = some now; drop_reason = some server_restart }

abbrev pub is_closed_row : Option ConversationRow → Bool
is_closed_row none = false
is_closed_row (some c) = is_closed c.status

unfoldable pub mark_orphan_closed_inflight : ℕ → Database → Database
mark_orphan_closed_inflight now db = record db {
  messages =
      set_rows (λ r. is_undrained r && is_closed_row (lookup r.conversation_id db.conversations))
        (drop_row now) db.messages;
}

unfoldable pub drop_inflight : ℕ → Database → Database
drop_inflight now db = record db { messages = set_rows is_undrained (drop_row now) db.messages }

unfoldable pub restore_from_persistence : ℕ → Database → Dispatcher → Dispatcher × Database
unfolding restore_inflight restore_rows mark_orphan_closed_inflight restore_in_flight_pending
    merge_pending
restore_from_persistence now db d =
    let d1 = restore_rows (restore_inflight db) d in
    let db1 = mark_orphan_closed_inflight now db in
    (record d1 { in_flight = merge_pending (restore_in_flight_pending db1) d1.in_flight }, db1)

unfoldable pub drop_inflight_on_restart : ℕ → Database → Dispatcher → Dispatcher × Database
unfolding drop_inflight
drop_inflight_on_restart now db d = (d, drop_inflight now db)

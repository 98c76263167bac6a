-- ===== src/Tests/Queries.antt =====
-- What the matrix and the database are asked, run.
use mathlib.Core.List.{Perm}
use agent_agora.Envelope.{DeliveredAs, Priority}
use agent_agora.Text.{pos}
use agent_agora.Json.{null}
use agent_agora.Conversations.{Kind, ConversationStore, Conversation, no_conversations, new_state}
use agent_agora.CommMatrix.Cycles.{
  closed, cycles, strongconnect, opened, scan, pop_to, popped, connect_all, adj, self_loops,
  edges_in,
}
use agent_agora.Prelude.{
  ◌∷◌, [], some, none, true, false, List, String, All, ◌≡◌, if◌then◌else◌, ◌++◌, refl, ℕ, IsSorted,
  keep, keep, not, map, insert_by, elem, sort_by, lookup, insert,
}
use agent_agora.CommMatrix.{CommMatrix}
use agent_agora.CommMatrix.Cycles.Growth.{IsLong}
use agent_agora.CommMatrix.Cycles.Total.{cycles-total}
use agent_agora.Storage.{Database, Row}
use agent_agora.Storage.Transcript.{
  fetch_transcript, fetch_messages_for, rows_since, mark_messages_acked, see_all, see,
}
use agent_agora.Storage.Restart.{row_lt}
use agent_agora.Conversations.Listing.Newest.{IsNewest, list_conversations-IsNewest, shown_as}
use agent_agora.Conversations.Listing.{list_conversations}
use agent_agora.Storage.Transcript.Shown.{of_command, rows_of, shown, fetch_transcript-shown}
use agent_agora.Storage.Transcript.Acknowledged.{mark_messages_acked-unread}

-- Two patterns that reach each other, and one that reaches itself.
abbrev looping : CommMatrix
looping = record {
  weights =
      ("a", ("b", 1) ∷ []) ∷ ("b", ("a", 2) ∷ ("b", 0) ∷ []) ∷ ("c", ("c", 1) ∷ ("a", 1) ∷ []) ∷ [];
  compiled = [];
  active = true;
}

looping-cycles : cycles looping ≡ some (("b" ∷ "a" ∷ []) ∷ ("c" ∷ []) ∷ [])
unfolding cycles strongconnect opened scan pop_to popped closed connect_all adj self_loops edges_in
looping-cycles = refl

cycles-total_example :
    (comps : List (List String)) × All IsLong comps
    × (cycles looping ≡ some (if looping.active then comps ++ self_loops looping.weights else []))
cycles-total_example = cycles-total looping

abbrev row : (id target : String) (created_at : ℕ) (delivered_as : DeliveredAs) → Row
row id target created_at delivered_as = record {
  command_id = id;
  target = target;
  conversation_id = "v1";
  source = "alice";
  in_reply_to = none;
  created_at = created_at;
  expect_result = false;
  reply_to = none;
  cc_list = none;
  delivered_as = delivered_as;
  dispatch_kind = Kind.direct;
  closing = false;
  priority = Priority.normal;
  priority_rank = 1;
  deadline_ts = none;
  payload = null;
  drained_at = none;
  drop_reason = none;
  reply_only = false;
  acked_at = none;
}

-- A message to Bob with a copy to Carol, and a later one to Bob.
abbrev told : Database
told = record {
  messages =
      row "m1" "carol" 3 DeliveredAs.cc
      ∷ row "m2" "bob" 5 DeliveredAs.primary
      ∷ row "m1" "bob" 3 DeliveredAs.primary
      ∷ [];
  conversations = [];
  participants = [];
}

transcript_of_told :
    fetch_transcript "v1" none told
    ≡ row "m1" "bob" 3 DeliveredAs.primary ∷ row "m2" "bob" 5 DeliveredAs.primary ∷ []
unfolding fetch_transcript rows_since see_all see row_lt insert_by sort_by lookup insert
transcript_of_told = refl

fetch_transcript-shown_example :
    IsSorted row_lt (fetch_transcript "v1" none told)
    × ((c : String)
        → Perm
            (keep (of_command c) (fetch_transcript "v1" none told))
            (rows_of (shown (keep (of_command c) (rows_since "v1" none told)))))
fetch_transcript-shown_example = fetch_transcript-shown "v1" none told

mark_messages_acked-unread_example :
    Perm (fetch_messages_for (some "bob") none false (mark_messages_acked ("m1" ∷ []) 9 told).1) (
      keep
        (λ m. not (elem m.message_id ("m1" ∷ [])))
        (fetch_messages_for (some "bob") none false told))
mark_messages_acked-unread_example = mark_messages_acked-unread (some "bob") none ("m1" ∷ []) 9 told

abbrev two_threads : ConversationStore
two_threads = record no_conversations {
  conversations =
      ("v1", record (new_state 1 Kind.direct) { last_message_at = 3 })
      ∷ ("v2", record (new_state 2 Kind.direct) { last_message_at = 5 })
      ∷ [];
}

list_conversations-IsNewest_example :
    (front : List (String × Conversation)) × IsNewest none (some "open") (pos 0) two_threads front
    × (list_conversations none (some "open") (pos 0) two_threads ≡ map shown_as front)
list_conversations-IsNewest_example =
    list_conversations-IsNewest none (some "open") (pos 0) two_threads

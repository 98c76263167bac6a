-- ===== src/Dispatcher/Threads/Closed.antt =====
-- src/agent_agora/dispatcher.py: a conversation that was closed is never extended.
use agent_agora.Dispatcher.{Dispatcher, World}
use agent_agora.Errors.{Result}
use agent_agora.Conversations.{
  resolve_conversation_id, put, ConversationStore, Conversation, is_closed, get, get, closed,
}
use agent_agora.Dispatcher.Threads.{
  Closing, ok, mark_found, now_is, mark_closing, already_closed, after_telling, close_thread,
  operator_close_conversation, close_found, force_closed, raise,
}
use agent_agora.Prelude.{
  String, ℕ, Bool, Option, Option, true, lookup, ◌≡◌, ◌≡◌, some, some, false, arith, lookup-insert,
  eq_iff, none, Bool-cases, Bool-cases, refl, has_key, inl, inr, add,
}
use agent_agora.Dispatcher.Fanout.{submit}

-- The answers that say that the conversation is closed.
unfoldable pub says_closed : Result Closing → Bool
says_closed (ok already_closed) = true
says_closed (ok (now_is s)) = is_closed s
says_closed _ = false

resolve-closed :
    (fresh conv_id : String) (stored : String → Option String) (r : Option String)
    (s : ConversationStore) (c : Conversation)
    → lookup conv_id s.conversations ≡ some c
    → is_closed c.status ≡ true
    → resolve_conversation_id fresh stored (some conv_id) r s ≡ (fresh, true, true)
unfolding resolve_conversation_id
resolve-closed fresh conv_id stored r s c there over = ground arith

mark_found-closed :
    (now : ℕ) (caller conv_id : String) (o : Option Conversation) (d : Dispatcher)
    → says_closed (mark_found now caller conv_id o d).0 ≡ true
    → (c : Conversation) × (lookup conv_id (mark_found now caller conv_id o d).1.conv.conversations
        ≡ some c)
      × (is_closed c.status ≡ true)
unfolding says_closed put
mark_found-closed now caller conv_id none d h = cc
mark_found-closed now caller conv_id (some c) d h =
    let c1 = mark_closing now caller c in
    (
      c1,
      ground (arith, lookup-insert conv_id conv_id c1 d.conv.conversations, eq_iff conv_id conv_id),
      h,
    )

-- A new message under the id starts another conversation.
abbrev pub IsOver : String → ConversationStore → Type 0
IsOver conv_id s =
    (fresh : String) (stored : String → Option String) (r : Option String)
    → resolve_conversation_id fresh stored (some conv_id) r s ≡ (fresh, true, true)

mark_found-IsOver :
    (now : ℕ) (caller conv_id : String) (o : Option Conversation) (d : Dispatcher)
    → says_closed (mark_found now caller conv_id o d).0 ≡ true
    → IsOver conv_id (mark_found now caller conv_id o d).1.conv
mark_found-IsOver now caller conv_id o d h = λ fresh stored r.
    let (c, there, over) = mark_found-closed now caller conv_id o d h in
    resolve-closed fresh conv_id stored r _ c there over

after_telling-IsOver :
    (now : ℕ) (caller conv_id : String) (s : Result (Unit {0}) × Dispatcher)
    → says_closed (after_telling now caller conv_id s).0 ≡ true
    → IsOver conv_id (after_telling now caller conv_id s).1.conv
unfolding says_closed
after_telling-IsOver now caller conv_id (raise e, d) h = cc
after_telling-IsOver now caller conv_id (ok u, d) h =
    mark_found-IsOver now caller conv_id (get conv_id d.conv) d h

close_found-IsOver :
    (worlds : String → World) (now : ℕ) (caller conv_id reason : String) (o : Option Conversation)
    (d : Dispatcher)
    → lookup conv_id d.conv.conversations ≡ o
    → says_closed (close_found worlds now caller conv_id reason o d).0 ≡ true
    → IsOver conv_id (close_found worlds now caller conv_id reason o d).1.conv
unfolding says_closed
close_found-IsOver worlds now caller conv_id reason none d e h = cc
close_found-IsOver worlds now caller conv_id reason (some c) d e h =
    elim (Bool-cases (has_key caller c.participants)) [
      | inr stranger ↦ absurd (ground arith)
      | inl member ↦ elim (Bool-cases (is_closed c.status)) [
        | inl over ↦
            rw (member, over)
              (λ fresh stored r. resolve-closed fresh conv_id stored r d.conv c e over)
        | inr going ↦
            rw (member, going) (after_telling-IsOver now caller conv_id _ (rw (member, going) at h))
      ]
    ]

-- If `close_thread` answers that the conversation is closed, now or before, then in the state that it
-- leaves the id is resolved to a fresh one, and the caller is told.
pub close_thread-IsOver :
    (worlds : String → World) (now : ℕ) (caller conv_id reason : String) (d : Dispatcher)
    → says_closed (close_thread worlds now caller conv_id reason d).0 ≡ true
    → IsOver conv_id (close_thread worlds now caller conv_id reason d).1.conv
unfolding close_thread get
close_thread-IsOver worlds now caller conv_id reason d h =
    close_found-IsOver worlds now caller conv_id reason (lookup conv_id d.conv.conversations) d refl
      h

force_closed-IsOver :
    (w : World) (conv_id by_whom : String) (o : Option Conversation) (d : Dispatcher)
    → lookup conv_id d.conv.conversations ≡ o
    → says_closed (force_closed w conv_id by_whom o d).0 ≡ true
    → IsOver conv_id (force_closed w conv_id by_whom o d).1.conv
unfolding says_closed submit put is_closed
force_closed-IsOver w conv_id by_whom none d e h = cc
force_closed-IsOver w conv_id by_whom (some c) d e h = elim (Bool-cases (is_closed c.status)) [
  | inl over ↦ rw over (λ fresh stored r. resolve-closed fresh conv_id stored r d.conv c e over)
  | inr going ↦
      let c1 = record c {
        status = closed;
        closed_at = some w.now;
        closed_by = add by_whom c.closed_by;
      } in
      let found = lookup-insert conv_id conv_id c1 d.conv.conversations in
      rw going (elim (Bool-cases w.commits) [
        | inl saved ↦ rw saved (λ fresh stored r.
            resolve-closed fresh conv_id stored r _ c1
              (ground (arith, found, eq_iff conv_id conv_id)) refl)
        | inr lost ↦ rw lost (λ fresh stored r.
            resolve-closed fresh conv_id stored r _ c1
              (ground (arith, found, eq_iff conv_id conv_id)) refl)
      ])
]

-- If an operator's close answers that the conversation is closed, now or before, then in the state that
-- it leaves the id is resolved to a fresh one, and the caller is told.
pub operator_close_conversation-IsOver :
    (w : World) (conv_id by_whom : String) (d : Dispatcher)
    → says_closed (operator_close_conversation w conv_id by_whom d).0 ≡ true
    → IsOver conv_id (operator_close_conversation w conv_id by_whom d).1.conv
unfolding operator_close_conversation get
operator_close_conversation-IsOver w conv_id by_whom d h =
    force_closed-IsOver w conv_id by_whom (lookup conv_id d.conv.conversations) d refl h

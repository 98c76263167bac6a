-- ===== src/Storage/Durable.antt =====
-- A dispatch, its transaction, and a restart: src/agent_agora/dispatcher.py, dispatch_persistence.py.
use agent_agora.Prelude.{
  ℕ, List, Bool, false, ◌≡◌, ◌++◌, All, String, ◌≡◌, String, true, true, true, Dict, map, ◌∷◌, some,
  arith, some, arith, if◌then◌else◌, some, [], append-nil, append-nil, All-append, refl,
  Option-cases, inl, inr, append_assoc, List-cases,
}
use agent_agora.Storage.{Database, row_of, execute, execute_all, Row, Row}
use agent_agora.Dispatcher.{
  insert_conversation, insert_participant, insert_message, update_conversation, update_status,
  mark_drained, mark_dropped, Statement,
}
use agent_agora.Dispatcher.Fanout.{participant_rows, message_rows, dispatch_txn}
use agent_agora.Envelope.{Envelope, priority_rank}
use agent_agora.Conversations.{Resolved, Conversation, Conversation, Participant}
use agent_agora.Storage.Restart.{envelope_of_row}

-- The rows that a transaction inserts, and that it changes none.
abbrev rows_of : List Statement → List Row
rows_of [] = []
rows_of (insert_message e rank ∷ ss) = row_of rank e ∷ rows_of ss
rows_of (_ ∷ ss) = rows_of ss

abbrev only_inserts : Statement → Bool
only_inserts (mark_drained cmd_id target now) = false
only_inserts (mark_dropped cmd_id target now) = false
only_inserts _ = true

-- What one statement does to the messages.
execute-messages :
    (s : Statement) (db db' : Database)
    → only_inserts s ≡ true
    → execute s db ≡ some db'
    → db'.messages ≡ db.messages ++ rows_of (s ∷ [])
unfolding execute
execute-messages (insert_conversation conv_id c) db db' o h = ground (arith, append-nil db.messages)
execute-messages (insert_participant conv_id iid p now) db db' o h =
    ground (arith, append-nil db.messages)
execute-messages (insert_message e rank) db db' o h = ground arith
execute-messages (update_conversation conv_id c) db db' o h = ground (arith, append-nil db.messages)
execute-messages (update_status conv_id c) db db' o h = ground (arith, append-nil db.messages)
execute-messages (mark_drained cmd_id target now) db db' o h = cc
execute-messages (mark_dropped cmd_id target now) db db' o h = cc

rows_of-append : (ss rest : List Statement) → rows_of (ss ++ rest) ≡ rows_of ss ++ rows_of rest
rows_of-append [] rest = refl
rows_of-append (s ∷ ss) rest = ground (arith, rows_of-append ss rest)

-- A transaction that commits appends the rows that it inserts.
pub execute_all-messages :
    (ss : List Statement) (db db' : Database)
    → All (λ s. only_inserts s ≡ true) ss
    → execute_all ss db ≡ some db'
    → db'.messages ≡ db.messages ++ rows_of ss
unfolding execute_all
execute_all-messages [] db db' a h = ground (arith, append-nil db.messages)
execute_all-messages (s ∷ ss) db db' a h = elim (Option-cases (execute s db)) [
  | inl broken ↦ absurd (ground arith)
  | inr (db1, e) ↦ ground (
    arith,
    execute-messages s db db1 a.0 e,
    execute_all-messages ss db1 db' a.1 (rw (e, execute_all) at h),
    append_assoc db.messages (rows_of (s ∷ [])) (rows_of ss),
    rows_of-append (s ∷ []) ss,
  )
]

participant_rows-rows :
    (conv_id : String) (now : ℕ) (ps : Dict Participant)
    → (rows_of (participant_rows conv_id now ps) ≡ [])
      × All (λ s. only_inserts s ≡ true) (participant_rows conv_id now ps)
unfolding participant_rows
participant_rows-rows conv_id now [] = (refl, tt)
participant_rows-rows conv_id now ((iid, p) ∷ ps) =
    let (r, a) = participant_rows-rows conv_id now ps in (r, (refl, a))

abbrev pub row_for : Envelope → Row
row_for e = row_of (priority_rank e.priority) e

message_rows-rows :
    (es : List Envelope)
    → (rows_of (message_rows es) ≡ map row_for es)
      × All (λ s. only_inserts s ≡ true) (message_rows es)
unfolding message_rows
message_rows-rows [] = (refl, tt)
message_rows-rows (e ∷ es) = let (r, a) = message_rows-rows es in (ground arith, (refl, a))

new_rows-rows :
    (is_new : Bool) (conv_id : String) (c : Conversation)
    → let ss = if is_new then insert_conversation conv_id c ∷ [] else [] in
      (rows_of ss ≡ []) × All (λ s. only_inserts s ≡ true) ss
new_rows-rows true conv_id c = (refl, (refl, tt))
new_rows-rows false conv_id c = (refl, tt)

-- The messages after the transaction of a dispatch.
pub dispatch_txn-messages :
    (v : Resolved) (c : Conversation) (es : List Envelope) (db db' : Database)
    → execute_all (dispatch_txn v c es) db ≡ some db'
    → db'.messages ≡ db.messages ++ map row_for es
unfolding dispatch_txn
dispatch_txn-messages (conv_id, is_new, substituted) c es db db' h =
    let (r0, a0) = new_rows-rows is_new conv_id c in
    let (r1, a1) = participant_rows-rows conv_id c.last_message_at c.participants in
    let (r2, a2) = message_rows-rows es in
    let P : Statement → Type 0 = λ s. only_inserts s ≡ true in
    let s0 = if is_new then insert_conversation conv_id c ∷ [] else [] in
    let s1 = participant_rows conv_id c.last_message_at c.participants in
    let s2 = message_rows es in
    let s3 = update_conversation conv_id c ∷ [] in
    let all =
      All-append P (s0 ++ s1 ++ s2) s3 (All-append P (s0 ++ s1) s2 (All-append P s0 s1 a0 a1) a2)
        (refl, tt) in
    let e = execute_all-messages (s0 ++ s1 ++ s2 ++ s3) db db' all h in
    ground (
      arith,
      e,
      rows_of-append (s0 ++ s1 ++ s2) s3,
      rows_of-append (s0 ++ s1) s2,
      rows_of-append s0 s1,
      append-nil (map row_for es),
    )

-- An envelope that its row says all of.
abbrev pub IsPlain : Envelope → Type 0
IsPlain e = (e.wait_age_ms ≡ 0) × ¬ (e.cc_list ≡ some [])

pub restored_row : (rank : ℕ) (e : Envelope) → IsPlain e → envelope_of_row (row_of rank e) ≡ e
unfolding envelope_of_row row_of
restored_row rank e h = elim (Option-cases e.cc_list) [
  | inl absent ↦ ground arith
  | inr (l, given) ↦ elim (List-cases l) [
    | inl empty ↦ absurd (h.1 (ground arith))
    | inr (c, cs, some_cc) ↦ ground arith
  ]
]

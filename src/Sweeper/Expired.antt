-- ===== src/Sweeper/Expired.antt =====
-- src/agent_agora/sweeper.py: which conversations, and which of their rows, a sweep closes.
use agent_agora.Conversations.{Status, opened, half_closed, closed, is_nil}
use agent_agora.Conversations.Lifecycle.{IsDict}
use agent_agora.Storage.{Database, ConversationRow}
use agent_agora.Prelude.{
  none, ◌+◌, ◌*◌, Bool, Option, Option, Option, has_key, has_key, if◌then◌else◌, ltb, ◌&&◌, subst,
  refl,
}
use agent_agora.Sweeper.{
  cutoff_of, close_each, close_ttl_sweep, expired_ids, close_expired, expires, expires,
  is_half_closed, close_rows,
}
use agent_agora.Prelude.{
  ℕ, ℕ, String, String, lookup, ◌≡◌, ◌≡◌, ◌∷◌, Bool-cases, some, some, [], inl, inr, ◌==◌, false,
  arith, eq_iff, Dict, elem, elem,
}
use agent_agora.Conversations.{ConversationStore, Conversation, Conversation}

-- Whether a conversation has been half closed for longer than the timeout.
abbrev pub is_due : (now timeout_ms : ℕ) → Status → (last_message_at : ℕ) → Bool
is_due now timeout_ms half_closed last_message_at = ltb (last_message_at + 1000 * timeout_ms) now
is_due now timeout_ms opened last_message_at = false
is_due now timeout_ms closed last_message_at = false

-- What becomes of a conversation, and of its row.
abbrev pub ended : (now timeout_ms : ℕ) → Option Conversation → Option Conversation
ended now timeout_ms none = none
ended now timeout_ms (some c) =
    if is_due now timeout_ms c.status c.last_message_at
    then some (record c { status = closed; closed_at = some now })
    else some c

abbrev pub ended_row : (now timeout_ms : ℕ) → Option ConversationRow → Option ConversationRow
ended_row now timeout_ms none = none
ended_row now timeout_ms (some c) =
    if is_due now timeout_ms c.status c.last_message_at
    then some (record c { status = closed; closed_at = some now })
    else some c

abbrev pub is_ended : (now timeout_ms : ℕ) → Option Conversation → Bool
is_ended now timeout_ms none = false
is_ended now timeout_ms (some c) = is_due now timeout_ms c.status c.last_message_at

due-test :
    (now timeout_ms : ℕ) (s : Status) (t : ℕ)
    → (is_half_closed s && ltb t (cutoff_of now timeout_ms)) ≡ is_due now timeout_ms s t
unfolding is_half_closed
due-test now timeout_ms opened t = refl
due-test now timeout_ms closed t = refl
due-test now timeout_ms half_closed t = ground arith

lookup-close_each :
    (now timeout_ms : ℕ) (k : String) (cs : Dict Conversation)
    → lookup k (close_each now (cutoff_of now timeout_ms) cs) ≡ ended now timeout_ms (lookup k cs)
unfolding lookup close_each close_expired expires
lookup-close_each now timeout_ms k [] = refl
lookup-close_each now timeout_ms k ((j, c) ∷ cs) = elim (Bool-cases (j == k)) [
  | inl same ↦
      rw (same, due-test now timeout_ms c.status c.last_message_at)
        (elim (Bool-cases (is_due now timeout_ms c.status c.last_message_at)) [
          | inl due ↦ rw due refl
          | inr early ↦ rw early refl
        ])
  | inr other ↦ rw other (lookup-close_each now timeout_ms k cs)
]

lookup-close_rows :
    (now timeout_ms : ℕ) (k : String) (cs : Dict ConversationRow)
    → lookup k (close_rows now (cutoff_of now timeout_ms) cs)
      ≡ ended_row now timeout_ms (lookup k cs)
unfolding lookup close_rows
lookup-close_rows now timeout_ms k [] = refl
lookup-close_rows now timeout_ms k ((j, c) ∷ cs) = elim (Bool-cases (j == k)) [
  | inl same ↦
      rw (same, due-test now timeout_ms c.status c.last_message_at)
        (elim (Bool-cases (is_due now timeout_ms c.status c.last_message_at)) [
          | inl due ↦ rw due refl
          | inr early ↦ rw early refl
        ])
  | inr other ↦ rw other (lookup-close_rows now timeout_ms k cs)
]

expired_ids-keys :
    (cutoff : ℕ) (k : String) (cs : Dict Conversation)
    → has_key k cs ≡ false
    → elem k (expired_ids cutoff cs) ≡ false
unfolding lookup expired_ids
expired_ids-keys cutoff k [] h = refl
expired_ids-keys cutoff k ((j, c) ∷ cs) h = ground (arith, expired_ids-keys cutoff k cs)

elem-expired_ids :
    (now timeout_ms : ℕ) (k : String) (cs : Dict Conversation)
    → IsDict cs
    → elem k (expired_ids (cutoff_of now timeout_ms) cs) ≡ is_ended now timeout_ms (lookup k cs)
unfolding lookup expired_ids expires
elem-expired_ids now timeout_ms k [] h = refl
elem-expired_ids now timeout_ms k ((j, c) ∷ cs) h = elim (Bool-cases (j == k)) [
  | inl same ↦
      let later : has_key k cs ≡ false =
        subst (λ i. has_key i cs ≡ false) ((eq_iff j k).0 same) h.0 in
      ground (
        arith,
        due-test now timeout_ms c.status c.last_message_at,
        expired_ids-keys (cutoff_of now timeout_ms) k cs later,
      )
  | inr other ↦ ground (arith, elem-expired_ids now timeout_ms k cs h.1)
]

-- In a store where no id has two entries, a sweep closes exactly the conversations that were half closed
-- and without a message for longer than the timeout, with the present as their end, and answers with
-- exactly their ids. Where it closed one, it has closed exactly the rows of the database that were
-- half closed and as old; else no row has changed.
pub close_ttl_sweep-exact :
    (now timeout_ms : ℕ) (s : ConversationStore) (db : Database) (k : String)
    → IsDict s.conversations
    → (lookup k (close_ttl_sweep now timeout_ms s db).1.conversations
        ≡ ended now timeout_ms (lookup k s.conversations))
      × (elem k (close_ttl_sweep now timeout_ms s db).0
          ≡ is_ended now timeout_ms (lookup k s.conversations))
      × (lookup k (close_ttl_sweep now timeout_ms s db).2.conversations ≡ (
          if is_nil (close_ttl_sweep now timeout_ms s db).0
          then lookup k db.conversations
          else ended_row now timeout_ms (lookup k db.conversations)))
unfolding close_ttl_sweep
close_ttl_sweep-exact now timeout_ms s db k distinct = (
  lookup-close_each now timeout_ms k s.conversations,
  elem-expired_ids now timeout_ms k s.conversations distinct,
  elim (Bool-cases (is_nil (expired_ids (cutoff_of now timeout_ms) s.conversations))) [
    | inl nothing ↦ rw nothing refl
    | inr something ↦ rw something (lookup-close_rows now timeout_ms k db.conversations)
  ],
)

-- ===== src/Conversations/Lifecycle.antt =====
-- src/agent_agora/conversation_store.py: how a conversation ends, and what an eviction leaves.
use agent_agora.Conversations.{
  Conversation, resolve_conversation_id, remove_all, stale_commands, evict, ConversationStore,
  ConversationStore, ConversationStore, Resolved, is_closed, some, resolve_given, resolve_inherited,
  ◌∷◌,
}
use agent_agora.Prelude.{
  String, String, String, Option, List, lookup, List, ◌≡◌, ◌≡◌, Dict, Dict, ◌≡◌, false, false,
  if◌then◌else◌, elem, if◌then◌else◌, none, Bool-cases, Bool-cases, none, true, none, Bool, arith,
  inl, remove, ◌==◌, inr, lookup-remove, [], refl, has_key, has_key, has_key, ◌∙◌, eq_iff, subst,
  ap,
}

-- What an id is resolved to: an open conversation, or a new one.
pub data IsUsable (fresh : String) (s : ConversationStore) : Resolved → Type 0 where
  opened_one :
      (conv_id : String) (c : Conversation)
      → lookup conv_id s.conversations ≡ some c
      → is_closed c.status ≡ false
      → IsUsable fresh s (conv_id, false, false)
  new_one :
      (conv_id : String)
      → lookup conv_id s.conversations ≡ none
      → IsUsable fresh s (conv_id, true, false)
  fresh_one : (substituted : Bool) → IsUsable fresh s (fresh, true, substituted)

resolve_given-IsUsable :
    (fresh conv_id : String) (s : ConversationStore) (o : Option Conversation)
    → lookup conv_id s.conversations ≡ o
    → IsUsable fresh s (resolve_given fresh conv_id o)
resolve_given-IsUsable fresh conv_id s none h = new_one conv_id h
resolve_given-IsUsable fresh conv_id s (some c) h = elim (Bool-cases (is_closed c.status)) [
  | inl over ↦ rw over (fresh_one true)
  | inr going ↦ rw going (opened_one conv_id c h going)
]

resolve_inherited-IsUsable :
    (fresh conv_id : String) (s : ConversationStore) (o : Option Conversation)
    → lookup conv_id s.conversations ≡ o
    → IsUsable fresh s (resolve_inherited fresh conv_id o)
resolve_inherited-IsUsable fresh conv_id s none h = new_one conv_id h
resolve_inherited-IsUsable fresh conv_id s (some c) h = elim (Bool-cases (is_closed c.status)) [
  | inl over ↦ rw over (fresh_one false)
  | inr going ↦ rw going (opened_one conv_id c h going)
]

inherited-IsUsable :
    (fresh : String) (s : ConversationStore) (o : Option String)
    → IsUsable fresh s (elim o [
      | none ↦ (fresh, true, false)
      | some conv_id ↦ resolve_inherited fresh conv_id (lookup conv_id s.conversations)
    ])
inherited-IsUsable fresh s none = fresh_one false
inherited-IsUsable fresh s (some conv_id) = resolve_inherited-IsUsable fresh conv_id s _ refl

-- An id is never resolved to a closed conversation: it is one that is open, one that is not there, or
-- the fresh id.
pub resolve_conversation_id-IsUsable :
    (fresh : String) (stored : String → Option String) (given in_reply_to : Option String)
    (s : ConversationStore)
    → IsUsable fresh s (resolve_conversation_id fresh stored given in_reply_to s)
unfolding resolve_conversation_id
resolve_conversation_id-IsUsable fresh stored (some conv_id) in_reply_to s =
    resolve_given-IsUsable fresh conv_id s _ refl
resolve_conversation_id-IsUsable fresh stored none none s = fresh_one false
resolve_conversation_id-IsUsable fresh stored none (some cmd) s = inherited-IsUsable fresh s _

lookup-remove_all :
    {V : Type 0} (ks : List String) (j : String) (d : Dict V)
    → lookup j (remove_all ks d) ≡ (if elem j ks then none else lookup j d)
unfolding remove_all
lookup-remove_all [] j d = refl
lookup-remove_all (k ∷ ks) j d =
    ground (arith, lookup-remove_all ks j (remove k d), lookup-remove k j d)

-- What is left of a command: nothing, if it refers to a conversation of the list.
abbrev pub left_of : (victims : List String) → Option String → Option String → Option String
left_of victims none o = o
left_of victims (some conv_id) o = if elem conv_id victims then none else o

abbrev pub IsDict {ℓ} : {V : Type ℓ} → Dict V → Type 0
IsDict [] = Unit
IsDict ((k, v) ∷ d) = (has_key k d ≡ false) × IsDict d

stale_commands-keys :
    (victims : List String) (cmd : String) (d : Dict String)
    → has_key cmd d ≡ false
    → elem cmd (stale_commands victims d) ≡ false
unfolding stale_commands lookup
stale_commands-keys victims cmd [] h = refl
stale_commands-keys victims cmd ((k, v) ∷ d) h =
    ground (arith, stale_commands-keys victims cmd d, eq_iff k cmd)

abbrev is_gone : List String → Option String → Bool
is_gone victims none = false
is_gone victims (some conv_id) = elem conv_id victims

elem-stale_commands :
    (victims : List String) (cmd : String) (d : Dict String)
    → IsDict d
    → elem cmd (stale_commands victims d) ≡ is_gone victims (lookup cmd d)
unfolding stale_commands lookup
elem-stale_commands victims cmd [] h = refl
elem-stale_commands victims cmd ((k, v) ∷ d) h = elim (Bool-cases (k == cmd)) [
  | inl same ↦
      let none_later : has_key cmd d ≡ false =
        subst (λ j. has_key j d ≡ false) ((eq_iff k cmd).0 same) h.0 in
      ground (arith, stale_commands-keys victims cmd d none_later)
  | inr other ↦ ground (arith, elem-stale_commands victims cmd d h.1)
]

left_of-gone :
    (victims : List String) (o r : Option String)
    → (if is_gone victims o then none else r) ≡ left_of victims o r
left_of-gone victims none r = refl
left_of-gone victims (some c) r = refl

-- In a store where no command has two entries, an eviction removes exactly the conversations of the
-- list, and forgets exactly the commands that refer to one of them, with their sources.
pub evict-exact :
    (victims : List String) (s : ConversationStore) (k cmd : String)
    → IsDict s.conversation_of
    → (lookup k (evict victims s).conversations
        ≡ (if elem k victims then none else lookup k s.conversations))
      × (lookup cmd (evict victims s).conversation_of
          ≡ left_of victims (lookup cmd s.conversation_of) (lookup cmd s.conversation_of))
      × (lookup cmd (evict victims s).message_source
          ≡ left_of victims (lookup cmd s.conversation_of) (lookup cmd s.message_source))
unfolding evict
evict-exact victims s k cmd distinct =
    let stale = stale_commands victims s.conversation_of in
    let known = lookup cmd s.conversation_of in
    let hit = elem-stale_commands victims cmd s.conversation_of distinct in
    (
      lookup-remove_all victims k s.conversations,
      lookup-remove_all stale cmd s.conversation_of
          ∙ ap (λ b. if b then none else known) hit
          ∙ left_of-gone victims known known,
      lookup-remove_all stale cmd s.message_source
          ∙ ap (λ b. if b then none else lookup cmd s.message_source) hit
          ∙ left_of-gone victims known (lookup cmd s.message_source),
    )

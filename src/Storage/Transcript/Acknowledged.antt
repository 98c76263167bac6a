-- ===== src/Storage/Transcript/Acknowledged.antt =====
-- src/agent_agora/storage/persistence.py: what an acknowledgement takes out of the unread messages.
use mathlib.Core.List.{Perm}
use mathlib.Core.List.Perm
use agent_agora.Prelude.{
  ◌∷◌, [], false, List, Option, String, ◌≡◌, String, ℕ, keep, ℕ, not, map, elem, arith, refl,
  Bool-cases, inl, inr, subst, sort_by-perm, sort_by, sym, Perm-keep,
}
use agent_agora.Storage.Transcript.{
  message_of, mark_messages_acked, Message, fetch_messages_for, is_wanted, set_acked,
}
use agent_agora.Storage.{Row, Database}
use agent_agora.Storage.Restart.{row_lt}

acked-unread :
    (recipient conversation_id : Option String) (ids : List String) (now : ℕ) (rs : List Row)
    → map message_of (keep (is_wanted recipient conversation_id false) (map (set_acked ids now) rs))
      ≡ keep
          (λ m. not (elem m.message_id ids))
          (map message_of (keep (is_wanted recipient conversation_id false) rs))
unfolding message_of
acked-unread recipient conversation_id ids now [] = refl
acked-unread recipient conversation_id ids now (r ∷ rs) =
    elim (Bool-cases (elem r.command_id ids)) [
      | inl given ↦ ground (arith, acked-unread recipient conversation_id ids now rs)
      | inr other ↦ ground (arith, acked-unread recipient conversation_id ids now rs)
    ]

not_given : (ms : List Message) → ms ≡ keep (λ m. not (elem m.message_id [])) ms
not_given [] = refl
not_given (m ∷ ms) = ground (arith, not_given ms)

-- After an acknowledgement the unread messages are, in some order, those that were unread before and
-- are not among the ids.
pub mark_messages_acked-unread :
    (recipient conversation_id : Option String) (ids : List String) (now : ℕ) (db : Database)
    → Perm (fetch_messages_for recipient conversation_id false (mark_messages_acked ids now db).1) (
        keep
          (λ m. not (elem m.message_id ids))
          (fetch_messages_for recipient conversation_id false db))
unfolding mark_messages_acked fetch_messages_for
mark_messages_acked-unread recipient conversation_id [] now db =
    subst (λ l. Perm (fetch_messages_for recipient conversation_id false db) l)
      (not_given (fetch_messages_for recipient conversation_id false db))
      (Perm.refl (fetch_messages_for recipient conversation_id false db))
mark_messages_acked-unread recipient conversation_id (i ∷ is) now db =
    let wanted = is_wanted recipient conversation_id false in
    let changed = keep wanted (map (set_acked (i ∷ is) now) db.messages) in
    let before = keep wanted db.messages in
    let p : List Message → List Message = keep (λ m. not (elem m.message_id (i ∷ is))) in
    Perm.trans (Perm.map message_of (sort_by-perm row_lt changed)) (
      subst (λ l. Perm l (p (map message_of (sort_by row_lt before))))
        (sym (acked-unread recipient conversation_id (i ∷ is) now db.messages))
        (Perm-keep (λ m. not (elem m.message_id (i ∷ is)))
          (Perm.symm (Perm.map message_of (sort_by-perm row_lt before)))))

-- ===== src/Dispatcher/Threads/Ended.antt =====
-- src/agent_agora/dispatcher.py: a message under the id of a conversation that `close_thread` has closed.
use agent_agora.Dispatcher.{Dispatcher, World, decrement_on_reply, enqueue, push, wake, ◌∷◌}
use agent_agora.Dispatcher.Dispatch.{
  dispatch, begin, settle, send_envelopes, note_awaited, send_primary, receipt_of, Receipt,
  primary_envelope, awaits, note_closing,
}
use agent_agora.Dispatcher.Access.{plan_of-Checked}
use agent_agora.Prelude.{
  none, some, true, false, ℕ, ℕ, String, String, List, Option, Bool, ◌≡◌, ◌≡◌, ◌==◌, lookup,
  Bool-cases, ap, ap, ◌∙◌, arith, [], refl, lookup-insert, inl, inr, subst, sym,
}
use agent_agora.Dispatcher.Fanout.{
  send, send_all, fire_dispatched, Work, Work, fanout, fanout-keeps,
}
use agent_agora.Conversations.{
  ConversationStore, record_command, resolve_conversation_id, put, resolve_given,
}
use agent_agora.Dispatcher.Checks.{Request, Request, Request, Plan, Plan, Plan}
use agent_agora.Envelope.{Envelope}
use agent_agora.Dispatcher.Threads.Closed.{says_closed, close_thread-IsOver}
use agent_agora.Dispatcher.Outcome.{after_write, dispatch-ok}
use agent_agora.Dispatcher.Threads.{close_thread}
use agent_agora.Errors.{ok}

-- No envelope touches the conversations.
send-conv :
    (c : ConversationStore) (now : ℕ) (e : Envelope) (k : Work)
    → k.router.conv ≡ c
    → (send now e k).router.conv ≡ c
unfolding send enqueue push wake
send-conv c now e k h = h

send_all-conv :
    (c : ConversationStore) (now : ℕ) (es : List Envelope) (k : Work)
    → k.router.conv ≡ c
    → (send_all now es k).router.conv ≡ c
unfolding send_all
send_all-conv c now [] k h = h
send_all-conv c now (e ∷ es) k h = send_all-conv c now es (send now e k) (send-conv c now e k h)

fanout-conv :
    (c : ConversationStore) (now : ℕ) (make : String → Envelope) (exclude : List String)
    (joins : Bool) (bots : List String) (k : Work)
    → k.router.conv ≡ c
    → (fanout now make exclude joins bots k).router.conv ≡ c
fanout-conv c now make exclude joins =
    fanout-keeps (λ k. k.router.conv ≡ c) now make exclude joins (λ k bot h. h) (λ k s h. h)
      (λ k bot room h. send-conv c now (make bot) k h)

note_awaited-conv :
    (w : World) (q : Request) (p : Plan) (t : String) (d : Dispatcher)
    → (note_awaited w q p t d).conv ≡ d.conv
unfolding note_awaited
note_awaited-conv w q p t d = elim (Bool-cases (awaits q p t)) [
  | inl waits ↦ rw waits refl
  | inr no_wait ↦ rw no_wait refl
]

send_primary-conv :
    (c : ConversationStore) (w : World) (q : Request) (p : Plan) (o : Option String) (k : Work)
    → k.router.conv ≡ c
    → (send_primary w q p o k).router.conv ≡ c
unfolding send_primary
send_primary-conv c w q p none k h = h
send_primary-conv c w q p (some t) k h =
    let e = primary_envelope w q p k.router t in
    note_awaited-conv w q p t (send w.now e k).router ∙ send-conv c w.now e k h

send_envelopes-conv :
    (w : World) (q : Request) (p : Plan) (d : Dispatcher)
    → (send_envelopes w q p d).router.conv.conversations ≡ d.conv.conversations
unfolding send_envelopes begin record_command
send_envelopes-conv w q p d =
    let c = (begin w q p d).router.conv in
    ap (λ s. s.conversations)
      (fanout-conv c _ _ _ _ p.observers _ (
        fanout-conv c _ _ _ _ p.subscribers _
          (send_all-conv c _ _ _ (send_primary-conv c w q p q.target (begin w q p d) refl))))

-- The conversations after a dispatch that returned: only its own entry is another.
after_write-conversations :
    (w : World) (q : Request) (p : Plan) (d : Dispatcher) (conv_id : String)
    → (p.conversation.0 == conv_id) ≡ false
    → lookup conv_id (after_write w q p d).conv.conversations ≡ lookup conv_id d.conv.conversations
unfolding settle decrement_on_reply fire_dispatched put
after_write-conversations w q p d conv_id apart =
    let k = send_envelopes w q p d in
    ground (
      arith,
      send_envelopes-conv w q p d,
      lookup-insert p.conversation.0 conv_id (note_closing w q k.state) k.router.conv.conversations,
      lookup-insert p.conversation.0 conv_id (note_closing w q k.state) d.conv.conversations,
    )

resolve-same :
    (fresh conv_id : String) (stored : String → Option String) (r : Option String)
    (s s2 : ConversationStore)
    → lookup conv_id s2.conversations ≡ lookup conv_id s.conversations
    → resolve_conversation_id fresh stored (some conv_id) r s2
      ≡ resolve_conversation_id fresh stored (some conv_id) r s
unfolding resolve_conversation_id
resolve-same fresh conv_id stored r s s2 h = ap (resolve_given fresh conv_id) h

-- If `close_thread` answers that the conversation is closed, now or before, then in any later state that
-- still holds the conversation as it left it, a dispatch under its id that returns is of another
-- conversation, under the fresh id, which is not the closed one's; it has told its caller so, and has
-- left the closed one as it was.
pub dispatch-close_thread :
    (worlds : String → World) (now : ℕ) (caller conv_id reason : String) (d d2 d' : Dispatcher)
    (w : World) (q : Request) (r : Receipt)
    → says_closed (close_thread worlds now caller conv_id reason d).0 ≡ true
    → lookup conv_id d2.conv.conversations
      ≡ lookup conv_id (close_thread worlds now caller conv_id reason d).1.conv.conversations
    → q.conversation_id ≡ some conv_id
    → (w.fresh_id == conv_id) ≡ false
    → dispatch w q d2 ≡ (ok r, d')
    → (r.conversation_id ≡ w.fresh_id)
      × (r.substituted ≡ true)
      × (lookup conv_id d'.conv.conversations ≡ lookup conv_id d2.conv.conversations)
unfolding receipt_of
dispatch-close_thread worlds now caller conv_id reason d d2 d' w q r says still given new h =
    let d1 = (close_thread worlds now caller conv_id reason d).1 in
    let over = close_thread-IsOver worlds now caller conv_id reason d says in
    let (p, planned, room, left, receipt) = dispatch-ok w q d2 d' r h in
    let v = plan_of-Checked w q d2 p planned in
    let resolved : p.conversation ≡ (w.fresh_id, true, true) =
      v.resolved
      ∙ ap (λ o. resolve_conversation_id w.fresh_id w.stored_conversation o q.in_reply_to d2.conv)
          given
      ∙ resolve-same w.fresh_id conv_id w.stored_conversation q.in_reply_to d1.conv d2.conv still
      ∙ over w.fresh_id w.stored_conversation q.in_reply_to in
    (
      ap (λ x. x.conversation_id) receipt ∙ ap (λ x. x.0) resolved,
      ap (λ x. x.substituted) receipt ∙ ap (λ x. x.2) resolved,
      ap (λ x. lookup conv_id x.conv.conversations) left
          ∙ after_write-conversations w q p d2 conv_id
              (subst (λ x. (x == conv_id) ≡ false) (sym (ap (λ x. x.0) resolved)) new),
    )

-- ===== src/Dispatcher/Outcome.antt =====
-- src/agent_agora/dispatcher.py, `dispatch`: how it ends, and the router that it leaves.
use agent_agora.Dispatcher.{Dispatcher, World, Statement, is_full, is_full}
use agent_agora.Dispatcher.Checks.{Request, Plan, plan_of, to_list, to_list}
use agent_agora.Prelude.{
  List, ◌++◌, ◌≡◌, ◌≡◌, ◌≡◌, ◌≡◌, ◌∷◌, [], false, ◌⊎◌, ◌⊎◌, any, any, arith, inl, inr, true, ◌∙◌,
  true, sym, ap,
}
use agent_agora.Dispatcher.Dispatch.{
  settle, deliver, deliver, dispatch, dispatch, send_envelopes, send_envelopes, Receipt,
  note_closing, receipt_of, receipt_of, breaks_off, breaks_off, broken_off, begin,
}
use agent_agora.Dispatcher.Fanout.{fire_dispatched, submit, submit, dispatch_txn}
use agent_agora.Errors.{
  Error, ok, raise, ok, raise, write_failed, write_failed, Result-cases, Result-cases,
  invalid_deadline_ts,
}
use agent_agora.Envelope.{is_malformed, is_malformed}

-- The transaction of a dispatch.
abbrev pub txn_of : World → Request → Plan → Dispatcher → List Statement
txn_of w q p d =
    let k = send_envelopes w q p d in
    dispatch_txn p.conversation (note_closing w q k.state) k.envelopes

-- The router that a dispatch leaves if its write fails, and if it returns.
abbrev pub unwritten : World → Request → Plan → Dispatcher → Dispatcher
unwritten w q p d = settle w q p (send_envelopes w q p d)

abbrev pub after_write : World → Request → Plan → Dispatcher → Dispatcher
after_write w q p d =
    let s = unwritten w q p d in
    fire_dispatched (send_envelopes w q p d).envelopes
      (record s { writes = s.writes ++ txn_of w q p d ∷ [] })

deliver-ok :
    (w : World) (q : Request) (p : Plan) (d d' : Dispatcher) (r : Receipt)
    → deliver w q p d ≡ (ok r, d')
    → (d.is_down ≡ false)
      × (any (λ t. is_full t d) (to_list q.target) ≡ false)
      × (d' ≡ after_write w q p d)
      × (r ≡ receipt_of w q p d (send_envelopes w q p d))
unfolding deliver submit breaks_off
deliver-ok w q p d d' r h = ground arith

deliver-raise :
    (w : World) (q : Request) (p : Plan) (d d' : Dispatcher) (e : Error)
    → deliver w q p d ≡ (raise e, d')
    → (d' ≡ d)
      ⊎ (((e ≡ write_failed) × (d' ≡ unwritten w q p d))
          ⊎ ((e ≡ invalid_deadline_ts)
              × (is_malformed q.deadline_ts ≡ true)
              × (d' ≡ broken_off w q p d)))
unfolding deliver submit breaks_off
deliver-raise w q p d d' e h = ground arith

-- A dispatch that returns has passed its checks, and found room in the inbox of its target.
pub dispatch-ok :
    (w : World) (q : Request) (d d' : Dispatcher) (r : Receipt)
    → dispatch w q d ≡ (ok r, d')
    → (p : Plan) × (plan_of w q d ≡ ok p)
      × (any (λ t. is_full t d) (to_list q.target) ≡ false)
      × (d' ≡ after_write w q p d)
      × (r ≡ receipt_of w q p d (send_envelopes w q p d))
unfolding dispatch
dispatch-ok w q d d' r h = elim (Result-cases (plan_of w q d)) [
  | inl (p, e) ↦ let x = deliver-ok w q p d d' r (rw e at h) in (p, e, x.1, x.2, x.3)
  | inr (c, e) ↦ absurd (let y = rw e at h in cc)
]

conv_alone :
    (w : World) (q : Request) (p : Plan) (d d' : Dispatcher)
    → d' ≡ broken_off w q p d
    → d' ≡ record d { conv = d'.conv }
unfolding broken_off begin
conv_alone w q p d d' h = h ∙ sym (ap (λ x. record d { conv = x.conv }) h)

-- What a dispatch that raised has left: the router as it was; or, if its write failed, the messages in
-- the inboxes; or, if its deadline is malformed, the changed conversations and nothing else.
abbrev pub IsLeft : World → Request → (d d' : Dispatcher) → Error → Type 0
IsLeft w q d d' e =
    (d' ≡ d)
    ⊎ (((e ≡ write_failed) × ((p : Plan) × (plan_of w q d ≡ ok p) × (d' ≡ unwritten w q p d)))
        ⊎ ((e ≡ invalid_deadline_ts)
            × (is_malformed q.deadline_ts ≡ true)
            × ((p : Plan) × (plan_of w q d ≡ ok p)
                × (d' ≡ broken_off w q p d)
                × (d' ≡ record d { conv = d'.conv }))))

pub dispatch-raise :
    (w : World) (q : Request) (d d' : Dispatcher) (e : Error)
    → dispatch w q d ≡ (raise e, d')
    → IsLeft w q d d' e
unfolding dispatch
dispatch-raise w q d d' e h = elim (Result-cases (plan_of w q d)) [
  | inl (p, f) ↦ elim (deliver-raise w q p d d' e (rw f at h)) [
    | inl same ↦ inl same
    | inr (inl failed) ↦ inr (inl (failed.0, (p, f, failed.1)))
    | inr (inr (code, bad, left)) ↦ inr (inr (code, bad, (p, f, left, conv_alone w q p d d' left)))
  ]
  | inr (c, f) ↦ inl (let y = rw f at h in cc)
]

-- ===== src/Dispatcher/Depth/Dispatches.antt =====
-- src/agent_agora/dispatcher.py: `dispatch` keeps to the bound of an inbox.
use agent_agora.Dispatcher.Depth.{
  IsBounded, same-IsBounded, HasRoom, Distinct, Distinct, same-HasRoom, with_room-HasRoom,
  send-IsBounded, fanout-IsBounded, send-HasRoom, elem-keep, send_all-IsBounded, keep-Distinct,
}
use agent_agora.Dispatcher.Dispatch.{
  note_awaited, note_awaited, send_primary, send_envelopes, deliver, dispatch, primary_envelope,
  begin, envelope_for, envelope_for, settle, broken_off,
}
use agent_agora.Prelude.{
  String, Bool, List, ◌≡◌, Option, false, All, arith, elem, elem, any, ◌⊎◌, keep, Option-cases, inl,
  eq_iff, inr, [], not, none, refl, ◌==◌, ◌&&◌,
}
use agent_agora.Dispatcher.Checks.{
  cc_of, Request, Request, Request, Request, Plan, Plan, Plan, to_list, to_list, to_list, to_list,
  plan_of,
}
use agent_agora.Dispatcher.{
  World, World, World, Dispatcher, is_full, Dispatcher, decrement_on_reply, ◌∷◌, some,
}
use agent_agora.Dispatcher.Fanout.{with_room, submit, fire_dispatched, Work}
use agent_agora.Errors.{Result-cases}
use agent_agora.Dispatcher.Access.{plan_of-Checked}

note_awaited-IsBounded :
    (w : World) (q : Request) (p : Plan) (t : String) (d : Dispatcher)
    → IsBounded d
    → IsBounded (note_awaited w q p t d)
unfolding note_awaited
note_awaited-IsBounded w q p t d v = same-IsBounded d _ (ground arith) (ground arith) v

note_awaited-HasRoom :
    (w : World) (q : Request) (p : Plan) (t : String) (d : Dispatcher) (ts : List String)
    → HasRoom d ts
    → HasRoom (note_awaited w q p t d) ts
unfolding note_awaited
note_awaited-HasRoom w q p t d ts =
    same-HasRoom d (note_awaited w q p t d) ts (ground arith) (ground arith)

-- The inboxes of the copies have room after the primary envelope, which goes elsewhere.
send_primary-IsBounded :
    (w : World) (q : Request) (p : Plan) (o : Option String) (k : Work) (ts : List String)
    → any (λ t. is_full t k.router) (to_list o) ≡ false
    → All (λ t. elem t ts ≡ false) (to_list o)
    → HasRoom k.router ts
    → IsBounded k.router
    → IsBounded (send_primary w q p o k).router × HasRoom (send_primary w q p o k).router ts
unfolding send_primary primary_envelope envelope_for
send_primary-IsBounded w q p none k ts free out room v = (v, room)
send_primary-IsBounded w q p (some t) k ts free out room v =
    let e = primary_envelope w q p k.router t in
    (
      note_awaited-IsBounded w q p t _ (send-IsBounded w.now e k (ground arith) v),
      note_awaited-HasRoom w q p t _ ts (send-HasRoom w.now e k ts out.0 room),
    )

elem-keep-not :
    (p : String → Bool) (t : String) (ts : List String) → p t ≡ false → elem t (keep p ts) ≡ false
elem-keep-not p t [] h = refl
elem-keep-not p t (s ∷ ts) h = ground (arith, elem-keep-not p t ts h, eq_iff s t)

-- No copy goes to the target.
copies-apart :
    (q : Request) (d : Dispatcher)
    → All (λ t. elem t (with_room d (cc_of q)) ≡ false) (to_list q.target)
unfolding cc_of with_room
copies-apart q d = elim (Option-cases q.target) [
  | inl e ↦ rw e tt
  | inr (t, e) ↦ rw e (
    elem-keep (λ s. not (is_full s d)) t _
        (elem-keep-not (λ c. not (c == q.source) && not (elem c (t ∷ []))) t q.cc_list
          (ground (arith, eq_iff t t))),
    tt,
  )
]

send_envelopes-IsBounded :
    (w : World) (q : Request) (p : Plan) (d : Dispatcher)
    → p.cc_list ≡ cc_of q
    → Distinct q.cc_list
    → any (λ t. is_full t d) (to_list q.target) ≡ false
    → IsBounded d
    → IsBounded (send_envelopes w q p d).router
unfolding send_envelopes begin envelope_for cc_of with_room is_full
send_envelopes-IsBounded w q p d copies distinct free v =
    let k0 = begin w q p d in
    let ccs = with_room d p.cc_list in
    let k1 =
      send_primary-IsBounded w q p q.target k0 ccs free (rw copies (copies-apart q d))
        (same-HasRoom d k0.router ccs refl refl (with_room-HasRoom d p.cc_list))
        (same-IsBounded d k0.router refl refl v) in
    fanout-IsBounded _ _ _ _ (λ b. refl) p.observers _
      (fanout-IsBounded _ _ _ _ (λ b. refl) p.subscribers _
        (send_all-IsBounded _ _ (λ b. refl) ccs _
          (rw copies (keep-Distinct _ _ (keep-Distinct _ _ distinct))) k1.1 k1.0))

deliver-kept :
    (w : World) (q : Request) (p : Plan) (d : Dispatcher)
    → (((deliver w q p d).1.queues ≡ d.queues) × ((deliver w q p d).1.config ≡ d.config))
      ⊎ ((any (λ t. is_full t d) (to_list q.target) ≡ false)
          × ((deliver w q p d).1.queues ≡ (send_envelopes w q p d).router.queues)
          × ((deliver w q p d).1.config ≡ (send_envelopes w q p d).router.config))
unfolding deliver submit fire_dispatched settle decrement_on_reply broken_off begin
deliver-kept w q p d = ground arith

-- A dispatch whose copies go to distinct ids never fills an inbox past its bound, whether it returns
-- or raises.
pub dispatch-IsBounded :
    (w : World) (q : Request) (d : Dispatcher)
    → Distinct q.cc_list
    → IsBounded d
    → IsBounded (dispatch w q d).1
unfolding dispatch
dispatch-IsBounded w q d distinct v = elim (Result-cases (plan_of w q d)) [
  | inl (p, e) ↦ rw e (elim (deliver-kept w q p d) [
    | inl f ↦ same-IsBounded d _ f.0 f.1 v
    | inr (free, queues, config) ↦
        same-IsBounded (send_envelopes w q p d).router _ queues config
          (send_envelopes-IsBounded w q p d (plan_of-Checked w q d p e).copies distinct free v)
  ])
  | inr (c, e) ↦ rw e v
]

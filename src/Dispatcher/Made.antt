-- ===== src/Dispatcher/Made.antt =====
-- src/agent_agora/dispatcher.py: what holds of each envelope that a dispatch makes, and so of all that
-- it delivers.
use agent_agora.Prelude.{
  ℕ, String, All, All-append, List, List, ◌∷◌, Bool, Bool-cases, elem, inl, inr, ◌≡◌, refl, false,
  [], Option, [], map, if◌then◌else◌, none,
}
use agent_agora.Dispatcher.Checks.{Request, Plan}
use agent_agora.Envelope.{Envelope, DeliveredAs, instant_of}
use agent_agora.Dispatcher.Fanout.{
  Work, send, send_all, fanout, fanout-keeps, with_room, fanout_one, fanout_one,
}
use agent_agora.Dispatcher.{World, Dispatcher, some, is_full}
use agent_agora.Dispatcher.Dispatch.{
  envelope_for, primary_envelope, send_primary, send_envelopes, begin, awaits, effective_deadline,
}

module _ (P : Envelope → Type 0) where
  AllSent : Work → Type 0
  AllSent k = All P k.envelopes

  send-AllSent : (now : ℕ) (e : Envelope) (k : Work) → P e → AllSent k → AllSent (send now e k)
  unfolding AllSent send
  send-AllSent now e k h a = All-append P k.envelopes (e ∷ []) a (h, tt)

  send_all-AllSent :
      (now : ℕ) (es : List Envelope) (k : Work) → All P es → AllSent k → AllSent (send_all now es k)
  unfolding send_all
  send_all-AllSent now [] k h a = a
  send_all-AllSent now (e ∷ es) k h a =
      send_all-AllSent now es (send now e k) h.1 (send-AllSent now e k h.0 a)

  fanout-AllSent :
      (now : ℕ) (make : String → Envelope) (exclude : List String) (joins : Bool)
      (bots : List String) (k : Work)
      → ((bot : String) → P (make bot))
      → AllSent k
      → AllSent (fanout now make exclude joins bots k)
  unfolding AllSent
  fanout-AllSent now make exclude joins bots k h a =
      fanout-keeps AllSent now make exclude joins (λ k bot v. v) (λ k c v. v)
        (λ k bot room v. send-AllSent now (make bot) k (h bot) v) bots k a

  -- If every envelope that the request and its plan make has the property, then so have all that go
  -- out.
  module _ (w : World) (q : Request) (p : Plan)
      (made : (t : String) (das : DeliveredAs) (expect_result closing : Bool) (deadline : Option ℕ)
        → P (envelope_for w q p t das expect_result closing deadline)) where
    copies-made :
        (das : DeliveredAs) (expect_result closing : Bool) (deadline : Option ℕ) (ts : List String)
        → All P (map (λ t. envelope_for w q p t das expect_result closing deadline) ts)
    copies-made das x c deadline [] = tt
    copies-made das x c deadline (t ∷ ts) =
        (made t das x c deadline, copies-made das x c deadline ts)

    primary_envelope-made : (d : Dispatcher) (t : String) → P (primary_envelope w q p d t)
    unfolding primary_envelope
    primary_envelope-made d t = made t DeliveredAs.primary q.expect_result q.closing (
        if awaits q p t
        then some (effective_deadline w (instant_of q.deadline_ts) d)
        else (instant_of q.deadline_ts))

    send_primary-AllSent :
        (o : Option String) (k : Work) → AllSent k → AllSent (send_primary w q p o k)
    unfolding send_primary AllSent
    send_primary-AllSent none k a = a
    send_primary-AllSent (some t) k a =
        send-AllSent w.now (primary_envelope w q p k.router t) k (primary_envelope-made k.router t)
          a

    pub send_envelopes-All : (d : Dispatcher) → All P (send_envelopes w q p d).envelopes
    unfolding send_envelopes begin AllSent
    send_envelopes-All d =
        fanout-AllSent _ _ _ _ p.observers _ (λ b. made b _ _ _ _)
          (fanout-AllSent _ _ _ _ p.subscribers _ (λ b. made b _ _ _ _)
            (send_all-AllSent _ _ _ (copies-made _ _ _ _ (with_room d p.cc_list))
              (send_primary-AllSent q.target (begin w q p d) tt)))

  fanout_one-AllSent :
      (now : ℕ) (make : String → Envelope) (exclude : List String) (joins : Bool) (bot : String)
      (k : Work)
      → P (make bot)
      → AllSent k
      → AllSent (fanout_one now make exclude joins bot k)
  unfolding AllSent fanout_one
  fanout_one-AllSent now make exclude joins bot k h a = elim (Bool-cases (elem bot exclude)) [
    | inl out ↦ rw out a
    | inr in_scope ↦ elim (Bool-cases (is_full bot k.router)) [
      | inl full ↦ rw (in_scope, full) a
      | inr room ↦ rw (in_scope, room) (send-AllSent now (make bot) k h a)
    ]
  ]

  fanout-each :
      (now : ℕ) (make : String → Envelope) (exclude : List String) (joins : Bool)
      (bots : List String) (k : Work)
      → All (λ b. P (make b)) bots
      → AllSent k
      → AllSent (fanout now make exclude joins bots k)
  unfolding fanout
  fanout-each now make exclude joins [] k h a = a
  fanout-each now make exclude joins (bot ∷ bots) k h a =
      fanout-each now make exclude joins bots (fanout_one now make exclude joins bot k) h.1
        (fanout_one-AllSent now make exclude joins bot k h.0 a)

  All-map : {A : Type 0} (f : A → Envelope) (xs : List A) → All (λ x. P (f x)) xs → All P (map f xs)
  All-map f [] h = tt
  All-map f (x ∷ xs) h = (h.0, All-map f xs h.1)

  -- The envelopes that go out have the property if each has it by the reason for which it is made.
  pub send_envelopes-each :
      (w : World) (q : Request) (p : Plan) (d : Dispatcher)
      → ((t : String) (deadline : Option ℕ)
          → q.target ≡ some t
          → P (envelope_for w q p t DeliveredAs.primary q.expect_result q.closing deadline))
      → All
          (λ c. P (
            envelope_for w q p c DeliveredAs.cc q.expect_result q.closing
              (instant_of q.deadline_ts)))
          (with_room d p.cc_list)
      → All
          (λ b.
            P (envelope_for w q p b DeliveredAs.subscribed false false (instant_of q.deadline_ts)))
          p.subscribers
      → All
          (λ b. P (envelope_for w q p b DeliveredAs.cc false false (instant_of q.deadline_ts)))
          p.observers
      → All P (send_envelopes w q p d).envelopes
  unfolding send_envelopes begin AllSent send_primary primary_envelope
  send_envelopes-each w q p d target copies subscribers observers =
      fanout-each _ _ _ _ p.observers _ observers (
        fanout-each _ _ _ _ p.subscribers _ subscribers (
          send_all-AllSent _ _ _ (All-map _ (with_room d p.cc_list) copies)
            (primary_sent q.target refl (begin w q p d) tt)))
    where
      primary_sent :
          (o : Option String)
          → q.target ≡ o
          → (k : Work) → AllSent k
          → AllSent (send_primary w q p o k)
      primary_sent none e k a = a
      primary_sent (some t) e k a =
          send-AllSent w.now (primary_envelope w q p k.router t) k (target t _ e) a

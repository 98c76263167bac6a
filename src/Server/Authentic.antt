-- ===== src/Server/Authentic.antt =====
-- src/agent_agora/server.py: who a message comes from.
use agent_agora.Prelude.{
  ℕ, Option, Option, Option, String, String, String, ◌≡◌, ◌≡◌, arith, some, arith, ◌⊎◌, true,
  lookup, true, Bool-cases, none, inl, inr, ap, sym, subst, refl, false, Option-cases, List, Bool,
  ◌++◌, keep, All,
}
use agent_agora.Server.{
  replied, refused, answer, not_as_bot, not_as_bot, is_caught, replying, replying, session_is_bot,
  for_caller, for_caller, worker_of, agora_dispatch, agora_dispatch,
}
use agent_agora.Errors.{Result, Result, Error, ok, raise, invalid_deadline_ts}
use agent_agora.Dispatcher.{Dispatcher, Dispatcher, Dispatcher, World}
use agent_agora.Registry.Instances.{InstanceInfo}
use agent_agora.Dispatcher.Dispatch.{envelope_for, Receipt, send_envelopes}
use agent_agora.Registry.{resolve_session, resolve_session}
use agent_agora.Dispatcher.Fanout.{fire_dispatched}
use agent_agora.Dispatcher.Threads.{is_passed_over}
use agent_agora.Dispatcher.Checks.{Request, Request, Request, Plan}
use agent_agora.Dispatcher.Outcome.{dispatch-raise, dispatch-ok}
use agent_agora.Envelope.{DeliveredAs, Envelope, is_malformed}
use agent_agora.Dispatcher.Delivery.{for_target, send_envelopes-Delivers, settle-same}
use agent_agora.Dispatcher.Made.{send_envelopes-All}

answer-replied : {A : Type 0} (m : Result A) (a : A) → answer m ≡ replied a → m ≡ ok a
answer-replied (ok b) a h = ground arith
answer-replied (raise e) a h = absurd (ground arith)

answer-refused :
    {A : Type 0} (m : Result A) (e : Error)
    → answer m ≡ refused e
    → (m ≡ raise e) × (is_caught e ≡ true)
answer-refused (ok b) e h = absurd (ground arith)
answer-refused (raise f) e h = elim (Bool-cases (is_caught f)) [
  | inl caught ↦ (ground arith, ground arith)
  | inr escapes ↦ absurd (ground arith)
]

-- The worker that a session stands for, where the session is no bot's.
pub record Caller (session : Option String) (d : Dispatcher) (i : InstanceInfo) : Type 0 where
  pub sid : String
  pub given : session ≡ some sid
  pub found : lookup sid d.registry.by_session ≡ some i
  pub no_bot : lookup sid d.bots.by_session ≡ none

replying-replied :
    {A : Type 0} (x : Result A × Dispatcher) (a : A) (d' : Dispatcher)
    → replying x ≡ (replied a, d')
    → x ≡ (ok a, d')
replying-replied (r, d) a d' h =
    let e = answer-replied r a (ap (λ y. y.0) h) in let f : d ≡ d' = ap (λ y. y.1) h in cc

replying-refused :
    {A : Type 0} (x : Result A × Dispatcher) (e : Error) (d' : Dispatcher)
    → replying x ≡ (refused e, d')
    → (x ≡ (raise e, d')) × (is_caught e ≡ true)
replying-refused (r, d) e d' h =
    let (same, caught) = answer-refused r e (ap (λ y. y.0) h) in
    let f : d ≡ d' = ap (λ y. y.1) h in (cc, caught)

is_bot-none :
    (sid : String) (d : Dispatcher)
    → session_is_bot sid d ≡ false
    → lookup sid d.bots.by_session ≡ none
unfolding session_is_bot resolve_session
is_bot-none sid d h = elim (Option-cases (lookup sid d.bots.by_session)) [
  | inl absent ↦ absent
  | inr (b, found) ↦ absurd (let y = rw (found, session_is_bot, resolve_session) at h in cc)
]

for_caller-replied :
    {A : Type 0} (run : String → Dispatcher → Result A × Dispatcher) (m : Result String)
    (d d' : Dispatcher) (a : A)
    → for_caller run m d ≡ (replied a, d')
    → (caller : String) × (m ≡ ok caller) × (run caller d ≡ (ok a, d'))
for_caller-replied run (raise e) d d' a h = absurd (let y = ap (λ x. x.0) h in cc)
for_caller-replied run (ok caller) d d' a h = (caller, refl, replying-replied (run caller d) a d' h)

for_caller-refused :
    {A : Type 0} (run : String → Dispatcher → Result A × Dispatcher) (m : Result String)
    (d d' : Dispatcher) (e : Error)
    → for_caller run m d ≡ (refused e, d')
    → (d' ≡ d) ⊎ ((caller : String) × (run caller d ≡ (raise e, d')) × (is_caught e ≡ true))
for_caller-refused run (raise f) d d' e h = inl (sym (ap (λ x. x.1) h))
for_caller-refused run (ok caller) d d' e h =
    let (r, caught) = replying-refused (run caller d) e d' h in inr (caller, r, caught)

worker_of-ok :
    (sid : String) (d : Dispatcher) (caller : String)
    → worker_of sid d ≡ ok caller
    → (i : InstanceInfo) × (lookup sid d.registry.by_session ≡ some i) × (i.instance_id ≡ caller)
unfolding worker_of resolve_session
worker_of-ok sid d caller h = elim (Option-cases (lookup sid d.registry.by_session)) [
  | inl absent ↦ absurd (let y = rw absent at h in cc)
  | inr (i, found) ↦ (i, found, let y = rw found at h in cc)
]

not_as_bot-replied :
    {A : Type 0} (session : Option String) (run : String → Dispatcher → Result A × Dispatcher)
    (d d' : Dispatcher) (a : A)
    → not_as_bot session run d ≡ (replied a, d')
    → (i : InstanceInfo) × Caller session d i × (run i.instance_id d ≡ (ok a, d'))
not_as_bot-replied none run d d' a h = absurd (let y = ap (λ x. x.0) h in cc)
not_as_bot-replied (some sid) run d d' a h = elim (Bool-cases (session_is_bot sid d)) [
  | inl bots ↦ absurd (let y = ap (λ x. x.0) (rw bots at h) in cc)
  | inr worker ↦
      let (caller, who, ran) = for_caller-replied run (worker_of sid d) d d' a (rw worker at h) in
      let (i, found, same) = worker_of-ok sid d caller who in
      (
        i,
        record { sid = sid; given = refl; found = found; no_bot = is_bot-none sid d worker },
        subst (λ c. run c d ≡ (ok a, d')) (sym same) ran,
      )
]

not_as_bot-refused :
    {A : Type 0} (session : Option String) (run : String → Dispatcher → Result A × Dispatcher)
    (d d' : Dispatcher) (e : Error)
    → not_as_bot session run d ≡ (refused e, d')
    → (d' ≡ d) ⊎ ((caller : String) × (run caller d ≡ (raise e, d')) × (is_caught e ≡ true))
not_as_bot-refused none run d d' e h = inl (sym (ap (λ x. x.1) h))
not_as_bot-refused (some sid) run d d' e h = elim (Bool-cases (session_is_bot sid d)) [
  | inl bots ↦ inl (sym (ap (λ x. x.1) (rw bots at h)))
  | inr worker ↦ for_caller-refused run (worker_of sid d) d d' e (rw worker at h)
]

envelope_for-source :
    (w : World) (q : Request) (p : Plan) (t : String) (das : DeliveredAs)
    (expect_result closing : Bool) (deadline : Option ℕ)
    → (envelope_for w q p t das expect_result closing deadline).source ≡ q.source
unfolding envelope_for
envelope_for-source w q p t das x c deadline = refl

-- A session that gets a receipt from `agora.dispatch` is a registered worker's and no bot's, and every
-- envelope that went out has that worker as its source, whatever source the arguments name.
pub agora_dispatch-authentic :
    (w : World) (session : Option String) (q : Request) (d d' : Dispatcher) (r : Receipt)
    → agora_dispatch w session q d ≡ (replied r, d')
    → (i : InstanceInfo) × Caller session d i
      × ((es : List Envelope) × ((t : String) → d'.queues t ≡ d.queues t ++ keep (for_target t) es)
          × All (λ e. e.source ≡ i.instance_id) es)
unfolding agora_dispatch fire_dispatched
agora_dispatch-authentic w session q d d' r h =
    let (i, who, ran) = not_as_bot-replied session _ d d' r h in
    let q1 = record q { source = i.instance_id; reply_only = false } in
    let (p, planned, room, left, receipt) = dispatch-ok w q1 d d' r ran in
    let k = send_envelopes w q1 p d in
    let v = send_envelopes-Delivers w q1 p d in
    let same = settle-same w q1 p k in
    (
      i,
      who,
      (
        k.envelopes,
        λ t. ground (arith, v.inbox t),
        send_envelopes-All (λ e. e.source ≡ i.instance_id) w q1 p (envelope_for-source w q1 p) d,
      ),
    )

-- A call of `agora.dispatch` that answers with an error has changed nothing; but where the error is that
-- of a malformed deadline, the conversations may have changed, and nothing else has.
pub agora_dispatch-refused :
    (w : World) (session : Option String) (q : Request) (d d' : Dispatcher) (e : Error)
    → agora_dispatch w session q d ≡ (refused e, d')
    → (d' ≡ d)
      ⊎ ((e ≡ invalid_deadline_ts)
          × (is_malformed q.deadline_ts ≡ true)
          × (d' ≡ record d { conv = d'.conv }))
unfolding agora_dispatch is_caught is_passed_over
agora_dispatch-refused w session q d d' e h = elim (not_as_bot-refused session _ d d' e h) [
  | inl same ↦ inl same
  | inr (caller, ran, caught) ↦ elim (dispatch-raise w _ d d' e ran) [
    | inl same ↦ inl same
    | inr (inr (code, bad, (p, planned, left, alone))) ↦ inr (code, bad, alone)
    | inr (inl (unwritten, rest)) ↦ absurd (let y = rw unwritten at caught in cc)
  ]
]

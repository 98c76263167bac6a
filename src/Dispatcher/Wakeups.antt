-- ===== src/Dispatcher/Wakeups.antt =====
-- src/agent_agora/dispatcher.py: nobody waits for an inbox that holds a message.
pub mod Senders
pub mod Readers
pub mod Takers
use agent_agora.Dispatcher.{Dispatcher, wake, enqueue, Dispatcher, push, push, ◌∷◌}
use agent_agora.Dispatcher.Fanout.{send, send_all, Work, Work, fanout, fanout-keeps}
use agent_agora.Prelude.{
  ℕ, String, List, String, ◌≡◌, [], arith, arith, Bool, arith, eq_iff, eq_iff, ap, ◌∙◌,
}
use agent_agora.Envelope.{Envelope}

unfoldable pub IsAwake : Dispatcher → Type 0
IsAwake d = (t : String) → ¬ (d.queues t ≡ []) → d.waiters t ≡ []

-- What delivers a message wakes those that wait for the inbox.
pub wake-push-IsAwake :
    (e : Envelope) (d : Dispatcher) → IsAwake d → IsAwake (wake e.target (push e d))
unfolding IsAwake wake push
wake-push-IsAwake e d v = λ t busy. ground (arith, v t, eq_iff e.target t)

pub enqueue-IsAwake :
    (now : ℕ) (e : Envelope) (d : Dispatcher) → IsAwake d → IsAwake (enqueue now e d)
unfolding IsAwake enqueue wake push
enqueue-IsAwake now e d v = λ t busy. ground (arith, v t, eq_iff e.target t)

pub send-IsAwake :
    (now : ℕ) (e : Envelope) (k : Work) → IsAwake k.router → IsAwake (send now e k).router
unfolding send
send-IsAwake now e k v = enqueue-IsAwake now e k.router v

pub send_all-IsAwake :
    (now : ℕ) (es : List Envelope) (k : Work)
    → IsAwake k.router
    → IsAwake (send_all now es k).router
unfolding send_all
send_all-IsAwake now [] k v = v
send_all-IsAwake now (e ∷ es) k v = send_all-IsAwake now es (send now e k) (send-IsAwake now e k v)

pub fanout-IsAwake :
    (now : ℕ) (make : String → Envelope) (exclude : List String) (joins : Bool) (bots : List String)
    (k : Work)
    → IsAwake k.router
    → IsAwake (fanout now make exclude joins bots k).router
fanout-IsAwake now make exclude joins =
    fanout-keeps (λ k. IsAwake k.router) now make exclude joins (λ k bot v. v) (λ k c v. v)
      (λ k bot room v. send-IsAwake now (make bot) k v)

-- An operation that leaves the inboxes and the wake-ups alone keeps it.
pub same-IsAwake :
    (d d' : Dispatcher) → d'.queues ≡ d.queues → d'.waiters ≡ d.waiters → IsAwake d → IsAwake d'
unfolding IsAwake
same-IsAwake d d' q w v = λ t busy.
    let x = v t in
    ground (arith, λ (h : d.queues t ≡ []). busy (ap (λ f. f t) q ∙ h), ap (λ f. f t) w)

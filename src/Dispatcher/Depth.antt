-- ===== src/Dispatcher/Depth.antt =====
-- src/agent_agora/dispatcher.py: an inbox holds at most `max_inbox_depth` messages of senders.
pub mod Dispatches
pub mod Broadcasts
pub mod Emissions
use agent_agora.Dispatcher.{Dispatcher, Dispatcher, is_full, is_full, ◌∷◌}
use agent_agora.Prelude.{
  List, String, String, ℕ, ℕ, length, Bool, Bool, All, ◌≤◌, elem, elem, keep, ◌≡◌, ◌≡◌, ◌≡◌, arith,
  false, false, false, eq_iff, false, false, map, [], [], length-append, ◌∙◌, refl, leb-false→lt,
  ap, All-imp,
}
use agent_agora.Dispatcher.Fanout.{
  send, send, send_all, with_room, Work, Work, Work, fanout, fanout-keeps,
}
use agent_agora.Envelope.{Envelope, Envelope, Envelope}

unfoldable pub IsBounded : Dispatcher → Type 0
IsBounded d = (t : String) → length (d.queues t) ≤ d.config.max_inbox_depth

-- No text stands twice in the list.
abbrev pub Distinct : List String → Type 0
Distinct [] = Unit
Distinct (t ∷ ts) = (elem t ts ≡ false) × Distinct ts

pub elem-keep :
    (p : String → Bool) (t : String) (ts : List String)
    → elem t ts ≡ false
    → elem t (keep p ts) ≡ false
elem-keep p t [] h = refl
elem-keep p t (s ∷ ts) h = ground (arith, elem-keep p t ts)

pub keep-Distinct : (p : String → Bool) (ts : List String) → Distinct ts → Distinct (keep p ts)
keep-Distinct p [] h = tt
keep-Distinct p (t ∷ ts) h = ground (arith, elem-keep p t ts h.0, keep-Distinct p ts h.1)

pub send-IsBounded :
    (now : ℕ) (e : Envelope) (k : Work)
    → is_full e.target k.router ≡ false
    → IsBounded k.router
    → IsBounded (send now e k).router
unfolding IsBounded send is_full
send-IsBounded now e k room v = λ t. ground (
  arith,
  v t,
  eq_iff e.target t,
  length-append (k.router.queues e.target) (e ∷ []),
  leb-false→lt k.router.config.max_inbox_depth (length (k.router.queues e.target)) room,
)

pub fanout-IsBounded :
    (now : ℕ) (make : String → Envelope) (exclude : List String) (joins : Bool)
    → ((b : String) → (make b).target ≡ b)
    → (bots : List String) (k : Work) → IsBounded k.router
    → IsBounded (fanout now make exclude joins bots k).router
fanout-IsBounded now make exclude joins to_bot =
    fanout-keeps (λ k. IsBounded k.router) now make exclude joins (λ k bot v. v) (λ k c v. v)
      (λ k bot room v. send-IsBounded now (make bot) k (rw (to_bot bot) room) v)

-- Room in one inbox is not lost by a message to another.
pub send-room :
    (now : ℕ) (e : Envelope) (k : Work) (t : String)
    → ¬ (e.target ≡ t)
    → is_full t (send now e k).router ≡ is_full t k.router
unfolding send is_full
send-room now e k t other = ground (arith, eq_iff e.target t)

-- Each of the inboxes has room.
abbrev pub HasRoom : Dispatcher → List String → Type 0
HasRoom d = All (λ t. is_full t d ≡ false)

pub send-HasRoom :
    (now : ℕ) (e : Envelope) (k : Work) (ts : List String)
    → elem e.target ts ≡ false
    → HasRoom k.router ts
    → HasRoom (send now e k).router ts
send-HasRoom now e k [] out h = tt
send-HasRoom now e k (t ∷ ts) out h = (
  send-room now e k t (λ x. ground (arith, eq_iff t e.target)) ∙ h.0,
  send-HasRoom now e k ts (ground arith) h.1,
)

pub send_all-IsBounded :
    (now : ℕ) (make : String → Envelope)
    → ((b : String) → (make b).target ≡ b)
    → (ts : List String) (k : Work) → Distinct ts
    → HasRoom k.router ts
    → IsBounded k.router
    → IsBounded (send_all now (map make ts) k).router
unfolding send_all
send_all-IsBounded now make to [] k distinct room v = v
send_all-IsBounded now make to (t ∷ ts) k distinct room v =
    send_all-IsBounded now make to ts (send now (make t) k) distinct.1
      (send-HasRoom now (make t) k ts (rw (to t) distinct.0) room.1)
      (send-IsBounded now (make t) k (rw (to t) room.0) v)

pub with_room-HasRoom : (d : Dispatcher) (ts : List String) → HasRoom d (with_room d ts)
unfolding with_room
with_room-HasRoom d [] = tt
with_room-HasRoom d (t ∷ ts) = ground (arith, with_room-HasRoom d ts)

-- What leaves the inboxes alone keeps their bound, and their room.
pub same-IsBounded :
    (d d' : Dispatcher) → d'.queues ≡ d.queues → d'.config ≡ d.config → IsBounded d → IsBounded d'
unfolding IsBounded
same-IsBounded d d' q c v = λ t. let h = v t in ground (arith, ap (λ f. f t) q)

pub same-HasRoom :
    (d d' : Dispatcher) (ts : List String)
    → d'.queues ≡ d.queues
    → d'.config ≡ d.config
    → HasRoom d ts
    → HasRoom d' ts
unfolding is_full
same-HasRoom d d' ts q c =
    All-imp (λ t. is_full t d ≡ false) (λ t. is_full t d' ≡ false)
      (λ t h. ground (arith, ap (λ f. f t) q)) ts

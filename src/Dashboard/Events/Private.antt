-- ===== src/Dashboard/Events/Private.antt =====
-- src/agent_agora/dashboard/events.py: the broker's calls in any order.
use agent_agora.Prelude.{
  ℕ, String, All, List, List, ◌≡◌, length, map, [], length-newest, ◌≤◌, All-newest, ◌==◌,
  All-append, true, ◌&&◌, All-append, All-keep, nat_eq, arith, Bool-cases, if◌then◌else◌, false,
  inl, inr, Bool, ◌++◌, keep, newest,
}
use agent_agora.Dashboard.Events.{
  EventBroker, Subscriber, SseEvent, publish_to, get_from, subscribe, unsubscribe, remove_sub,
  unsubscribe, publish, publish, ◌∷◌, take_event, take_event, drop_oldest,
}
use agent_agora.Dashboard.Events.Streams.{IsFair, room, publish_to-window, sees}

pub data BrokerStep : EventBroker → EventBroker → Type 0 where
  subscribing : {b : EventBroker} (user : String) → BrokerStep b (subscribe user b).0
  unsubscribing : {b : EventBroker} (s : Subscriber) → BrokerStep b (unsubscribe s b)
  publishing : {b : EventBroker} (e : SseEvent) → BrokerStep b (publish e b)
  taking : {b : EventBroker} (queue_id : ℕ) → BrokerStep b (take_event queue_id b)

pub data BrokerReach (b : EventBroker) : EventBroker → Type 0 where
  here : BrokerReach b b
  next : {c d : EventBroker} → BrokerReach b c → BrokerStep c d → BrokerReach b d

abbrev pub AllFair : EventBroker → Type 0
AllFair b = All (IsFair b.max_queue) b.subscribers

IsFair-publish_to :
    (m : ℕ) (e : SseEvent) (s : Subscriber) → IsFair m s → IsFair m (publish_to m e s)
IsFair-publish_to m e s h =
    let sight : SseEvent → Bool = sees s.operator_user in
    let P : SseEvent → Type 0 = λ x. sees s.operator_user x ≡ true in
    let q = s.queue ++ keep sight (e ∷ []) in
    let fair : All P (newest (room m) q) =
      All-newest P (room m) q
        (All-append P s.queue (keep sight (e ∷ [])) h.1 (All-keep sight (e ∷ []))) in
    rw (publish_to-window m e s h.0) (length-newest (room m) q, fair)

IsFair-get_from : (m n : ℕ) (s : Subscriber) → IsFair m s → IsFair m (get_from n s)
IsFair-get_from m n s h = elim (Bool-cases (nat_eq s.queue_id n)) [
  | inl mine ↦ rw mine (shorter s.queue h)
  | inr other ↦ rw other h
]
  where
    shorter :
        (q : List SseEvent)
        → (length q ≤ room m) × All (λ e. sees s.operator_user e ≡ true) q
        → (length (drop_oldest q) ≤ room m)
          × All (λ e. sees s.operator_user e ≡ true) (drop_oldest q)
    shorter [] a = a
    shorter (e ∷ es) a = (omega (arith, a.0), a.1.1)

module _ (m : ℕ) (f : Subscriber → Subscriber)
    (h : (s : Subscriber) → IsFair m s → IsFair m (f s)) where
  All-map-IsFair : (ss : List Subscriber) → All (IsFair m) ss → All (IsFair m) (map f ss)
  All-map-IsFair [] a = tt
  All-map-IsFair (s ∷ ss) a = (h s a.0, All-map-IsFair ss a.1)

All-remove_sub :
    (m : ℕ) (s : Subscriber) (ss : List Subscriber)
    → All (IsFair m) ss
    → All (IsFair m) (remove_sub s ss)
All-remove_sub m s [] a = tt
All-remove_sub m s (t ∷ ts) a =
    elim ((t.operator_user == s.operator_user) && nat_eq t.queue_id s.queue_id)
      as (λ b. All (IsFair m) (if b then ts else t ∷ remove_sub s ts)) [
        | true ↦ a.1
        | false ↦ (a.0, All-remove_sub m s ts a.1)
      ]

BrokerStep-AllFair : {b c : EventBroker} → BrokerStep b c → AllFair b → AllFair c
unfolding subscribe unsubscribe publish take_event
BrokerStep-AllFair (subscribing {b} user) h = All-append _ b.subscribers _ h ((omega arith, tt), tt)
BrokerStep-AllFair (unsubscribing {b} s) h = All-remove_sub b.max_queue s b.subscribers h
BrokerStep-AllFair (publishing {b} e) h =
    All-map-IsFair b.max_queue _ (IsFair-publish_to b.max_queue e) b.subscribers h
BrokerStep-AllFair (taking {b} n) h =
    All-map-IsFair b.max_queue _ (IsFair-get_from b.max_queue n) b.subscribers h

-- From a broker with no subscriber, whatever is called in whatever order: no queue is longer than
-- max_queue (or one), and none holds an operator's inbox message for another operator.
pub BrokerReach-AllFair : {b c : EventBroker} → b.subscribers ≡ [] → BrokerReach b c → AllFair c
BrokerReach-AllFair empty here = rw empty tt
BrokerReach-AllFair empty (next r s) = BrokerStep-AllFair s (BrokerReach-AllFair empty r)

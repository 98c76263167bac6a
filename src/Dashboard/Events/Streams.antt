-- ===== src/Dashboard/Events/Streams.antt =====
-- src/agent_agora/dashboard/events.py: what a subscriber's queue holds.
use agent_agora.Prelude.{
  ℕ, max, length, List, length, ◌≤◌, newest, ◌≤◌, ◌≤◌, String, All, ◌++◌, ◌≡◌, Bool, true, keep,
  ◌∷◌, ◌∷◌, not, [], [], arith, newest_short, inl, append-nil, inr, length-append, if◌then◌else◌,
  Bool-cases, leb, newest-append, map, map, map, map, keep-append, length-newest, ◌∙◌, refl,
  append_assoc,
}
use agent_agora.Dashboard.Events.{
  EventBroker, Subscriber, SseEvent, is_skipped, push_event, target_of, publish_to, drop_oldest,
  publish, msgtype_of, dispatched, message_dispatched, operator_inbox_message, unregistered,
  instance_unregistered, on_dispatch, attached, on_unregister, on_event, on_deadline, on_register,
  registered, instance_registered,
}
use agent_agora.Dispatcher.{Event, World, Dispatcher}
use agent_agora.Registry.Operator.{strip_operator_prefix, is_operator}
use agent_agora.Dispatcher.Checks.{Request}
use agent_agora.Dispatcher.Dispatch.{Receipt, dispatch}
use agent_agora.Errors.{ok}
use agent_agora.Envelope.{Envelope}
use agent_agora.Dispatcher.Delivery.{for_target, dispatch-delivers}

-- The events that a subscriber is to see.
abbrev pub sees : (user : String) → SseEvent → Bool
sees user e = not (is_skipped (target_of e) user)

-- A queue of no room still takes one event.
abbrev pub room : (max_queue : ℕ) → ℕ
room m = max 1 m

abbrev pub IsFair : (max_queue : ℕ) → Subscriber → Type 0
IsFair m s = (length s.queue ≤ room m) × All (λ e. sees s.operator_user e ≡ true) s.queue

-- The queue after a list of events, as a window on all that the subscriber was to see.
abbrev pub window : (max_queue : ℕ) → List SseEvent → Subscriber → Subscriber
window m es s = record s { queue = newest (room m) (s.queue ++ keep (sees s.operator_user) es) }

drop_oldest-newest :
    (m : ℕ) (e : SseEvent) (q : List SseEvent)
    → length q ≤ room m
    → (if leb m (length q) then drop_oldest q else q) ++ e ∷ [] ≡ newest (room m) (q ++ e ∷ [])
drop_oldest-newest m e [] h = ground arith
drop_oldest-newest m e (x ∷ xs) h = ground (
  arith,
  newest_short (room m) (xs ++ e ∷ []),
  newest_short (room m) (x ∷ xs ++ e ∷ []),
  length-append xs (e ∷ []),
)

pub publish_to-window :
    (m : ℕ) (e : SseEvent) (s : Subscriber)
    → length s.queue ≤ room m
    → publish_to m e s ≡ window m (e ∷ []) s
unfolding push_event
publish_to-window m e s h = elim (Bool-cases (is_skipped (target_of e) s.operator_user)) [
  | inl skipped ↦ ground (arith, newest_short (room m) s.queue h, append-nil s.queue)
  | inr seen ↦ ground (arith, drop_oldest-newest m e s.queue h)
]

-- Two windows on one after the other are one window.
window-append :
    (m : ℕ) (front back : List SseEvent) (s : Subscriber)
    → window m back (window m front s) ≡ window m (front ++ back) s
window-append m front back s = ground (
  arith,
  newest-append (room m) (s.queue ++ keep (sees s.operator_user) front)
      (keep (sees s.operator_user) back),
  keep-append (sees s.operator_user) front back,
  append_assoc s.queue (keep (sees s.operator_user) front) (keep (sees s.operator_user) back),
)

window-nil : (m : ℕ) (s : Subscriber) → length s.queue ≤ room m → window m [] s ≡ s
window-nil m s h = ground (arith, append-nil s.queue, newest_short (room m) s.queue h)

abbrev pub AllBounded : EventBroker → Type 0
AllBounded b = All (λ s. length s.queue ≤ room b.max_queue) b.subscribers

map-window :
    (m : ℕ) (es : List SseEvent) (ss : List Subscriber)
    → All (λ s. length s.queue ≤ room m) (map (window m es) ss)
map-window m es [] = tt
map-window m es (s ∷ ss) =
    (length-newest (room m) (s.queue ++ keep (sees s.operator_user) es), map-window m es ss)

-- One broker shows the events `es` after another.
pub record Shows (es : List SseEvent) (b b' : EventBroker) : Type 0 where
  pub same_room : b'.max_queue ≡ b.max_queue
  pub windows : b'.subscribers ≡ map (window b.max_queue es) b.subscribers

pub Shows-AllBounded : (es : List SseEvent) (b b' : EventBroker) → Shows es b b' → AllBounded b'
Shows-AllBounded es b b' v = rw (v.same_room, v.windows) (map-window b.max_queue es b.subscribers)

Shows-publish : (e : SseEvent) (b : EventBroker) → AllBounded b → Shows (e ∷ []) b (publish e b)
unfolding publish
Shows-publish e b h = record { same_room = refl; windows = each b.subscribers h }
  where
    each :
        (ss : List Subscriber)
        → All (λ s. length s.queue ≤ room b.max_queue) ss
        → map (publish_to b.max_queue e) ss ≡ map (window b.max_queue (e ∷ [])) ss
    each [] a = refl
    each (s ∷ ss) a = ground (arith, publish_to-window b.max_queue e s a.0, each ss a.1)

Shows-nil : (b : EventBroker) → AllBounded b → Shows [] b b
Shows-nil b h = record { same_room = refl; windows = each b.subscribers h }
  where
    each :
        (ss : List Subscriber)
        → All (λ s. length s.queue ≤ room b.max_queue) ss
        → ss ≡ map (window b.max_queue []) ss
    each [] a = refl
    each (s ∷ ss) a = ground (arith, window-nil b.max_queue s a.0, each ss a.1)

Shows-trans :
    (front back : List SseEvent) (b c d : EventBroker)
    → Shows front b c
    → Shows back c d
    → Shows (front ++ back) b d
Shows-trans front back b c d v w = record {
  same_room = w.same_room ∙ v.same_room;
  windows = rw (w.windows, v.same_room, v.windows) (each b.subscribers);
}
  where
    each :
        (ss : List Subscriber)
        → map (window b.max_queue back) (map (window b.max_queue front) ss)
          ≡ map (window b.max_queue (front ++ back)) ss
    each [] = refl
    each (s ∷ ss) = ground (arith, window-append b.max_queue front back s, each ss)

-- What the operators' streams say of an event of the router.
pub stream_of : Event → List SseEvent
unfolding msgtype_of strip_operator_prefix
stream_of (dispatched e) =
    message_dispatched e.source e.target (msgtype_of e.payload) e.conversation_id e.created_at
    ∷ (if is_operator e.target
        then operator_inbox_message (strip_operator_prefix e.target) e.source (msgtype_of e.payload)
            e.created_at
          ∷ []
        else [])
stream_of (registered i) = instance_registered i.instance_id i.role ∷ []
stream_of (unregistered iid) = instance_unregistered iid ∷ []
stream_of (Event.deadline_expired cmd_id source target) =
    SseEvent.deadline_expired cmd_id source target ∷ []

pub stream : List Event → List SseEvent
unfolding stream_of
stream [] = []
stream (e ∷ es) = stream_of e ++ stream es

Shows-on_event : (e : Event) (b : EventBroker) → AllBounded b → Shows (stream_of e) b (on_event e b)
unfolding on_dispatch on_register on_unregister on_deadline stream_of
Shows-on_event (dispatched e) b h = elim (Bool-cases (is_operator e.target)) [
  | inl to_operator ↦
      let v = Shows-publish _ b h in
      rw to_operator (Shows-trans _ _ _ _ _ v (Shows-publish _ _ (Shows-AllBounded _ _ _ v)))
  | inr to_worker ↦ rw to_worker (Shows-publish _ b h)
]
Shows-on_event (registered i) b h = Shows-publish _ b h
Shows-on_event (unregistered iid) b h = Shows-publish _ b h
Shows-on_event (Event.deadline_expired cmd_id source target) b h = Shows-publish _ b h

Shows-attached :
    (es : List Event) (b : EventBroker) → AllBounded b → Shows (stream es) b (attached es b)
unfolding attached stream
Shows-attached [] b h = Shows-nil b h
Shows-attached (e ∷ es) b h =
    let v = Shows-on_event e b h in
    Shows-trans _ _ _ _ _ v (Shows-attached es (on_event e b) (Shows-AllBounded _ _ _ v))

-- A dispatch that returns, with the broker attached: every subscriber's queue is then the newest
-- max_queue events (one at least) of what it held, followed by what the stream says of the very
-- envelopes that the inboxes got, without the inbox messages of other operators.
pub dispatch-streams :
    (w : World) (q : Request) (d d' : Dispatcher) (r : Receipt) (b : EventBroker)
    → dispatch w q d ≡ (ok r, d')
    → AllBounded b
    → (es : List Envelope) × (d'.events ≡ d.events ++ map dispatched es)
      × ((t : String) → d'.queues t ≡ d.queues t ++ keep (for_target t) es)
      × ((attached (map dispatched es) b).subscribers
          ≡ map (window b.max_queue (stream (map dispatched es))) b.subscribers)
dispatch-streams w q d d' r b h fits =
    let (es, fired, inbox, written) = dispatch-delivers w q d d' r h in
    (es, fired, inbox, (Shows-attached (map dispatched es) b fits).windows)

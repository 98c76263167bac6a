-- ===== src/Dispatcher/Flush.antt =====
-- src/agent_agora/dispatcher.py, `flush`: the messages that match leave the inbox, sorted.
use agent_agora.Registry.Bots
use agent_agora.Registry.Instances
use agent_agora.Dispatcher.{Dispatcher, Inbound, World, Statement, ◌∷◌, some, mark_drained, update}
use agent_agora.Prelude.{
  Option, Option, Option, List, Option, List, ℕ, String, String, ℕ, ℕ, Bool, Bool, String, String,
  String, String, true, true, ◌&&◌, false, if◌then◌else◌, str_lt, if◌then◌else◌, Dict,
  if◌then◌else◌, ◌-◌, not, ltb, insert, ◌/◌, map, sort_by, [], [], elem, ◌==◌, keep, none,
}
use agent_agora.Envelope.{Envelope, DeliveredAs, priority_rank}
use agent_agora.Errors.{Result, Result, Result, Result, raise, ok, dispatcher_closed, ◌>>=◌}
use agent_agora.CommMatrix.{weight_of}
use agent_agora.Registry.Bots.{is_bot, is_bot}
use agent_agora.Dispatcher.Fanout.{submit}
use agent_agora.Registry.{resolve_instance_id}

-- The arguments of `flush`.
pub record Filter : Type 0 where
  pub from_sources : Option (List String)
  pub by_conversation : Option String
  pub by_priority : Bool

abbrev allows_source : Option (List String) → String → Bool
allows_source none s = true
allows_source (some sources) s = elem s sources

abbrev allows_conversation : Option String → String → Bool
allows_conversation none c = true
allows_conversation (some conv_id) c = c == conv_id

-- `_matches`
unfoldable pub matches : Filter → Envelope → Bool
matches f e =
    allows_source f.from_sources e.source && allows_conversation f.by_conversation e.conversation_id

abbrev pub keep_or_nil :
    List Envelope → List Envelope → List Envelope → List Envelope × List Envelope
keep_or_nil [] queued rest = ([], queued)
keep_or_nil (e ∷ es) queued rest = (e ∷ es, rest)

abbrev pub is_given {ℓ} : {A : Type ℓ} → Option A → Bool
is_given none = false
is_given (some a) = true

-- `_drain_matching`: what is drained, and what stays.
unfoldable pub drain : Filter → List Envelope → List Envelope × List Envelope
drain f [] = ([], [])
drain f (e ∷ es) =
    if not (is_given f.from_sources) && not (is_given f.by_conversation)
    then (e ∷ es, [])
    else keep_or_nil (keep (matches f) (e ∷ es)) (e ∷ es) (keep (λ c. not (matches f c)) (e ∷ es))

-- Python's order of tuples: the first field that differs decides.
abbrev pub lt_then : ℕ → ℕ → Bool → Bool
lt_then a b rest = if ltb a b then true else if ltb b a then false else rest

-- `(e.created_at, e.id)`
unfoldable pub fifo_lt : Envelope → Envelope → Bool
fifo_lt a b = lt_then a.created_at b.created_at (str_lt a.id b.id)

-- `(-weight, rank, e.created_at, e.id)`; the larger weight has the smaller negation.
unfoldable pub priority_lt : (weight : Envelope → ℕ) → Envelope → Envelope → Bool
priority_lt weight a b =
    lt_then (weight b) (weight a)
      (lt_then (priority_rank a.priority) (priority_rank b.priority) (fifo_lt a b))

unfoldable pub order_of : Filter → String → Dispatcher → Envelope → Envelope → Bool
order_of f iid d =
    if f.by_priority then priority_lt (λ e. weight_of d.comm e.source iid) else fifo_lt

abbrev pub is_primary_envelope : Envelope → Bool
is_primary_envelope e = elim e.delivered_as [
  | DeliveredAs.primary ↦ true
  | DeliveredAs.cc ↦ false
  | DeliveredAs.subscribed ↦ false
]

-- `max(…, key=…)` keeps the first of the largest.
unfoldable pub latest : Envelope → List Envelope → Envelope
latest best [] = best
latest best (e ∷ es) = latest (if fifo_lt best e then e else best) es

abbrev pub note_inbound : String → List Envelope → Dict Inbound → Dict Inbound
note_inbound iid [] m = m
note_inbound iid (e ∷ es) m =
    let l = latest e es in
    insert iid (record { cmd_id = l.id; source = l.source; conversation_id = l.conversation_id }) m

-- `_touch_last_seen`
unfoldable pub touch : ℕ → String → Dispatcher → Dispatcher
touch now iid d =
    if is_bot iid d.bots
    then record d { bots = Bots.touch_last_seen now iid d.bots }
    else record d { registry = Instances.touch_last_seen now iid d.registry }

-- The age in milliseconds; the clock is not set back between the two readings.
abbrev pub with_age : ℕ → Envelope → Envelope
with_age now e = record e { wait_age_ms = (now - e.created_at) / 1000 }

-- The write is tried once, and a failure is only logged.
abbrev try_submit : Bool → List Statement → Dispatcher → Dispatcher
try_submit commits txn d = (submit commits txn d).1

unfoldable pub mark_all_drained : Bool → ℕ → String → List Envelope → Dispatcher → Dispatcher
mark_all_drained commits now iid [] d = d
mark_all_drained commits now iid (e ∷ es) d =
    try_submit commits (map (λ x. mark_drained x.id iid now) (e ∷ es)) d

abbrev check_flush : String → Dispatcher → Result (Unit {0})
check_flush iid d =
    if is_bot iid d.bots then ok tt else (do i ← resolve_instance_id iid d.registry; ok tt)

unfoldable pub drained_by :
    World → String → Filter → Dispatcher → Result (List Envelope) × Dispatcher
drained_by w iid f d =
    let (out, rest) = drain f (d.queues iid) in
    let sorted = sort_by (order_of f iid d) out in
    let d1 = record d {
      queues = update iid rest d.queues;
      last_inbound = note_inbound iid (keep is_primary_envelope sorted) d.last_inbound;
    } in
    (
      ok (map (with_age w.now) sorted),
      mark_all_drained w.commits w.now iid sorted (touch w.now iid d1),
    )

abbrev after_check :
    World → String → Filter → Dispatcher → Result (Unit {0}) → Result (List Envelope) × Dispatcher
after_check w iid f d (raise e) = (raise e, d)
after_check w iid f d (ok u) = drained_by w iid f d

unfoldable pub flush : World → String → Filter → Dispatcher → Result (List Envelope) × Dispatcher
flush w iid f d =
    if d.is_down then (raise dispatcher_closed, d) else after_check w iid f d (check_flush iid d)

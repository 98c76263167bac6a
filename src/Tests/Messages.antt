-- ===== src/Tests/Messages.antt =====
-- The router of the scenario, run.
use agent_agora.Dispatcher.{Dispatcher, dispatched, Statement, World}
use agent_agora.Prelude.{
  List, List, String, All, arith, ◌≡◌, ◌++◌, ◌∷◌, map, [], refl, keep, ℕ, false, some, none,
  if◌then◌else◌, true, none, if◌then◌else◌, elem, has_key,
}
use agent_agora.Tests.Scenario.{
  program, router, outcome, world, world, world, request, request, request, receipt, request-runs,
  note, note, or_else_value,
}
use agent_agora.Dispatcher.Wakeups.{IsAwake}
use agent_agora.Dispatcher.Checks.{Plan, Request, validate_payload}
use agent_agora.Dispatcher.Depth.{IsBounded, IsBounded}
use agent_agora.Envelope.{
  Envelope, Envelope, DeliveredAs, malformed, validate_deadline_ts, validate_deadline_ts,
}
use agent_agora.Dispatcher.Access.{IsReachable, dispatch-IsReachable, IsAddressed}
use agent_agora.Dispatcher.Dispatch.{dispatch, dispatch, broken_off}
use agent_agora.Dispatcher.Replies.Dispatches.{Booked, dispatch-Booked}
use agent_agora.Registry.Instances.{list_instances}
use agent_agora.Registry.{list_all}
use agent_agora.Dispatcher.Wait.{begin_wait, close}
use agent_agora.Dispatcher.Depth.Dispatches.{dispatch-IsBounded}
use agent_agora.Errors.{ok, Result, raise, invalid_deadline_ts}
use agent_agora.Dispatcher.Steps.{Reach-IsAwake, next, here, beginning_wait, dispatching}
use agent_agora.Dispatcher.Delivery.{for_target, dispatch-delivers}
use agent_agora.Dispatcher.Flush.{Filter, flush, drained_by}
use agent_agora.Dispatcher.Cancel.{pending_targets, pending_targets}
use agent_agora.Dispatcher.Broadcast.{Announcement, other_instances, announce}
use agent_agora.Dispatcher.Emit.{Emission, bot_emit}
use agent_agora.Dispatcher.Drained.{Flushed, flush-Flushed}
use agent_agora.Dispatcher.Deadlines.{expire_overdue_deadlines, overdue}
use agent_agora.Dispatcher.Depth.Emissions.{bot_emit-IsBounded}
use agent_agora.Dispatcher.Depth.Broadcasts.{announce-IsBounded}
use agent_agora.Dispatcher.Replies.Expired.{expire_overdue_deadlines-pending}
use agent_agora.Dispatcher.Steps.Shut.{IsShut, Reach-IsShut}
use agent_agora.Json.{Value}

-- The bot that handles the schema and the observer get the message too.
who_got_it : (es : List Envelope) → List (String × DeliveredAs)
who_got_it [] = []
who_got_it (e ∷ es) = (e.target, e.delivered_as) ∷ who_got_it es

dispatch-IsReachable_example :
    IsReachable router "alice" "bob"
    × ((msgtype : String) × (payload : Value) × (es : List Envelope) × (validate_payload
            world.filled_at
            (some "alice")
            request.payload
            router
          ≡ ok (msgtype, payload))
        × ((t : String) → outcome.1.queues t ≡ router.queues t ++ keep (for_target t) es)
        × All (IsAddressed router request msgtype) es)
unfolding program
dispatch-IsReachable_example =
    dispatch-IsReachable world request "bob" router outcome.1 receipt refl refl request-runs

dispatch-delivers_example :
    (es : List Envelope) × (outcome.1.events ≡ router.events ++ map dispatched es)
    × ((t : String) → outcome.1.queues t ≡ router.queues t ++ keep (for_target t) es)
    × ((txn : List Statement) × (outcome.1.writes ≡ router.writes ++ txn ∷ []))
dispatch-delivers_example = dispatch-delivers world request router outcome.1 receipt request-runs

-- Alice waits for an inbox, Bob sends, and Alice's waiter is woken.
Reach-IsAwake_example : IsAwake (dispatch world request (begin_wait "bob" 1 router).1).1
Reach-IsAwake_example =
    Reach-IsAwake {d = router} (λ t. refl)
      (next (next here (beginning_wait "bob" 1)) (dispatching world request))

dispatch-Booked_example : (p : Plan) × Booked world request p router outcome.1
dispatch-Booked_example = dispatch-Booked world request router outcome.1 receipt request-runs

router-IsBounded : IsBounded router
unfolding IsBounded
router-IsBounded = λ t. omega arith

dispatch-IsBounded_example : IsBounded (dispatch world request router).1
dispatch-IsBounded_example = dispatch-IsBounded world request router (refl, tt) router-IsBounded

-- The write fails: the message stays in the inbox, and nobody is told.
abbrev failing : World
failing = record world { commits = false }

-- A deadline that is no time: the dispatch is refused, but the conversation and the command are there.
abbrev undated : Request
undated = record request { deadline_ts = some malformed }

undated-runs : (dispatch world undated router).0 ≡ raise invalid_deadline_ts
unfolding program validate_deadline_ts
undated-runs = refl

undated-recorded : has_key "c1" (dispatch world undated router).1.conv.conversation_of ≡ true
unfolding program validate_deadline_ts broken_off
undated-recorded = refl

-- Bob reads, by priority, what came from Alice.
abbrev from_alice : Filter
from_alice = record {
  from_sources = some ("alice" ∷ []);
  by_conversation = none;
  by_priority = true;
}

abbrev read : Result (List Envelope) × Dispatcher
read = flush world "bob" from_alice outcome.1

flush-Flushed_example :
    Flushed world.now "bob" from_alice outcome.1 read.1 (or_else_value [] read.0)
unfolding program flush drained_by
flush-Flushed_example =
    flush-Flushed world "bob" from_alice outcome.1 read.1 (or_else_value [] read.0) refl

-- Nobody answers before the deadline.
abbrev fresh_ids : ℕ → String
fresh_ids n = "fresh"

expire_overdue_deadlines-pending_example :
    pending_targets "alice" "c1"
      (expire_overdue_deadlines fresh_ids 70_000_000 outcome.1).1.in_flight
    ≡ (if elem "c1" (overdue fresh_ids 70_000_000 outcome.1.deadlines)
        then []
        else pending_targets "alice" "c1" outcome.1.in_flight)
unfolding program
expire_overdue_deadlines-pending_example =
    expire_overdue_deadlines-pending fresh_ids 70_000_000 outcome.1 "alice" "c1" refl

abbrev announcement : Announcement
announcement = record {
  source = "alice";
  payload = note;
  expect_result = true;
  reply_to = none;
  in_reply_to = none;
  conversation_id = none;
  closing = true;
  priority = "low";
  deadline_ts = none;
}

announce-IsBounded_example : IsBounded (announce world announcement router).1
unfolding program other_instances list_instances list_all
announce-IsBounded_example =
    announce-IsBounded world announcement router (refl, (refl, tt)) router-IsBounded

abbrev emission : Emission
emission = record { source = "mailer"; payload = note; in_reply_to = none; target = some "alice" }

bot_emit-IsBounded_example : IsBounded (bot_emit world emission router).1
bot_emit-IsBounded_example = bot_emit-IsBounded world emission router router-IsBounded

-- After the close, a message is refused.
Reach-IsShut_example : IsShut router (dispatch world request (close [] router)).1
Reach-IsShut_example = Reach-IsShut {d = router} [] (next here (dispatching world request))

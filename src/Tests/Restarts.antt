-- ===== src/Tests/Restarts.antt =====
-- The database, a restart, and the operators' streams, run.
use mathlib.Core.List.{Perm}
use agent_agora.Dashboard.Events.Private.{
  next, here, subscribing, publishing, AllFair, BrokerReach-AllFair,
}
use agent_agora.Tests.Scenario.{
  program, router, outcome, world, request, receipt, request-runs, or_else_value,
}
use agent_agora.Storage.{
  Database, execute_all, execute_all, execute_all, execute, execute, row_of, row_of, run_queue,
}
use agent_agora.Dispatcher.{Statement, Dispatcher, dispatched}
use agent_agora.Prelude.{
  [], List, Option, List, List, List, none, ◌∷◌, some, false, ◌≡◌, ◌≡◌, ◌≡◌, String, any, All, ◌++◌,
  refl, keep, ◌&&◌, map, not, true, lookup, ◌==◌, elem, arith,
}
use agent_agora.Dispatcher.Flush.{Filter, flush, drained_by, drain, mark_all_drained, touch}
use agent_agora.Errors.{Result}
use agent_agora.Storage.Pending.{awaited, is_row_for, is_row_for}
use agent_agora.Storage.Restart.{
  restore_inflight, restore_from_persistence, restore_from_persistence, is_awaited_row, is_live,
  is_undrained, is_closed_row, drop_inflight_on_restart,
}
use agent_agora.Dashboard.Events.{
  EventBroker, EventBroker, SseEvent, publish, operator_inbox_message, subscribe, subscribe,
  target_of, is_skipped, push_event, attached,
}
use agent_agora.Envelope.{Envelope, Envelope}
use agent_agora.Dispatcher.Delivery.{for_target}
use agent_agora.Storage.Recovered.{live, undrained}
use agent_agora.Storage.Restarted.{restart-awaited, restart-stable}
use agent_agora.Dashboard.Events.Streams.{window, stream, dispatch-streams}
use agent_agora.Storage.Survives.{restart-dispatch}
use agent_agora.Storage.Flushed.{ids, restart-flush}

abbrev empty_database : Database
empty_database = record { messages = []; conversations = []; participants = [] }

abbrev first_txn : List (List Statement) → List Statement
first_txn [] = []
first_txn (t ∷ later) = t

abbrev or_empty : Option Database → Database
or_empty none = empty_database
or_empty (some db) = db

abbrev txn : List Statement
txn = first_txn outcome.1.writes

-- The database after the dispatch of the scenario.
abbrev stored : Database
stored = or_empty (execute_all txn empty_database)

restart-dispatch_example :
    (es : List Envelope) × ((t : String)
      → outcome.1.queues t ≡ router.queues t ++ keep (for_target t) es)
    × ((t : String)
        → Perm ((restore_from_persistence 9 stored router).0.queues t) (
            keep (for_target t) (
              live stored (undrained empty_database)
              ++ keep (λ e. is_live stored e.conversation_id) es)))
unfolding program execute_all execute row_of
restart-dispatch_example =
    restart-dispatch world request router outcome.1 receipt txn 9 empty_database stored router
      request-runs refl refl (λ t. refl)

abbrev all_messages : Filter
all_messages = record { from_sources = none; by_conversation = none; by_priority = false }

abbrev flushed : Result (List Envelope) × Dispatcher
flushed = flush world "bob" all_messages outcome.1

abbrev second_txns : List (List Statement) → List (List Statement)
second_txns [] = []
second_txns (_ ∷ later) = later

restart-flush_example :
    Perm
      ((restore_from_persistence 9
          (run_queue (second_txns flushed.1.writes) stored)
          router).0.queues
        "bob")
      (keep
        (λ e. not ("bob" == "bob" && elem e.id (ids (or_else_value [] flushed.0))))
        (keep (for_target "bob") (live stored (undrained stored))))
unfolding program flush drained_by drain mark_all_drained touch
restart-flush_example =
    restart-flush world "bob" all_messages outcome.1 flushed.1 (or_else_value [] flushed.0)
      (second_txns flushed.1.writes) 9 stored router refl refl refl (λ t. refl) "bob"

restart-awaited_example :
    awaited "alice" "c1" "bob" (restore_from_persistence 9 stored router).0.in_flight
    ≡ any (λ r. is_awaited_row stored r && is_row_for "alice" "c1" "bob" r) stored.messages
restart-awaited_example = restart-awaited 9 stored router "alice" "c1" "bob" refl

-- Bob's answer is awaited again.
bob_is_awaited :
    any (λ r. is_awaited_row stored r && is_row_for "alice" "c1" "bob" r) stored.messages ≡ true
unfolding program execute_all execute row_of is_awaited_row is_live
bob_is_awaited = refl

restart-stable_example :
    (restore_inflight (restore_from_persistence 9 stored router).1 ≡ restore_inflight stored)
    × All
        (λ r.
          (is_undrained r && is_closed_row (lookup r.conversation_id stored.conversations)) ≡ false)
        (restore_from_persistence 9 stored router).1.messages
    × (restore_inflight (drop_inflight_on_restart 9 stored router).1 ≡ [])
restart-stable_example = restart-stable 9 stored router

-- An operator follows the router, with room for two events.
abbrev broker : EventBroker
broker = record { subscribers = []; max_queue = 2; next_queue = 0 }

abbrev watched : EventBroker
watched = record {
  subscribers = record { operator_user = "kim"; queue_id = 0; queue = [] } ∷ [];
  max_queue = 2;
  next_queue = 1;
}

dispatch-streams_example :
    (es : List Envelope) × (outcome.1.events ≡ router.events ++ map dispatched es)
    × ((t : String) → outcome.1.queues t ≡ router.queues t ++ keep (for_target t) es)
    × ((attached (map dispatched es) watched).subscribers
        ≡ map (window 2 (stream (map dispatched es))) watched.subscribers)
dispatch-streams_example =
    dispatch-streams world request router outcome.1 receipt watched request-runs (omega arith, tt)

abbrev notice : SseEvent
notice = operator_inbox_message (some "lee") "alice" none 6

BrokerReach-AllFair_example : AllFair (publish notice (subscribe "kim" broker).0)
BrokerReach-AllFair_example =
    BrokerReach-AllFair {b = broker} refl (next (next here (subscribing "kim")) (publishing notice))

-- The message for another operator is not shown.
not_shown :
    (publish notice (subscribe "kim" broker).0).subscribers
    ≡ record { operator_user = "kim"; queue_id = 0; queue = [] } ∷ []
unfolding publish subscribe target_of is_skipped push_event
not_shown = refl

-- ===== src/Tests/Upkeep.antt =====
-- The sweeps, the ways to close a conversation, and the operator's actions, run.
use agent_agora.Tests.Scenario.{router, world, program, request, or_else_value, no_receipt}
use agent_agora.Registry
use agent_agora.Conversations.{Conversation, ConversationStore, half_closed, Kind, Role, is_nil}
use agent_agora.Dispatcher.{Dispatcher, Dispatcher, World}
use agent_agora.Dispatcher.Threads.{
  close_thread, operator_unregister, session_of, other_primaries, tell_others, mark_closing,
}
use agent_agora.Registry.Routing.{IsIndexed}
use agent_agora.Registry.Instances.{worker_hooks, worker_hooks}
use agent_agora.Prelude.{
  lookup, ◌∷◌, ◌∷◌, [], [], ◌≡◌, insert, ◌≡◌, none, some, true, refl, elem, has_key, not, ◌||◌,
  ◌||◌, List, String, if◌then◌else◌,
}
use agent_agora.Tests.Registries.{
  bob_once, with_mailer, with_mailer-IsBijective, with_mailer-IsIndexed, bob_once-IsBijective,
}
use agent_agora.Sweeper.{close_ttl_sweep}
use agent_agora.Registry.{list_all, resolve_instance_id}
use agent_agora.Sweeper.Expired.{close_ttl_sweep-exact, ended, is_ended, ended_row}
use agent_agora.Registry.Bijection.{IsBijective}
use agent_agora.Dispatcher.Threads.Closed.{says_closed}
use agent_agora.Registry.Bots.{bot_hooks}
use agent_agora.Dispatcher.Threads.Unregistered.{operator_unregister-gone}
use agent_agora.Storage.{ConversationRow, Database}
use agent_agora.Dispatcher.Checks.{Request}
use agent_agora.Errors.{Result}
use agent_agora.Dispatcher.Dispatch.{Receipt, dispatch, breaks_off}
use agent_agora.Envelope.{is_malformed}
use agent_agora.Dispatcher.Threads.Ended.{dispatch-close_thread}

-- Alice and the operator are in a conversation that is half closed.
abbrev thread : Conversation
thread = record {
  status = half_closed;
  kind = Kind.direct;
  participants = ("alice", record { role = Role.primary; delivered = true }) ∷ [];
  closed_by = [];
  started_at = 1;
  last_message_at = 2;
  message_count = 1;
  closed_at = none;
}

abbrev threads : ConversationStore
threads = record { conversations = ("v0", thread) ∷ []; conversation_of = []; message_source = [] }

abbrev busy : Dispatcher
busy = record router {
  conv = threads;
  in_flight = ("alice", ("c1", "bob" ∷ "carol" ∷ []) ∷ []) ∷ [];
}

-- The thread is over, and a message under its id starts another one.
abbrev over : Dispatcher
over = (close_thread (λ o. world) 9 "alice" "v0" "done" busy).1

abbrev later_world : World
later_world = record world { fresh_id = "v9" }

abbrev late : Request
late = record request { conversation_id = some "v0" }

abbrev late_outcome : Result Receipt × Dispatcher
late_outcome = dispatch later_world late over

abbrev late_receipt : Receipt
late_receipt = or_else_value no_receipt late_outcome.0

dispatch-close_thread_example :
    (late_receipt.conversation_id ≡ "v9")
    × (late_receipt.substituted ≡ true)
    × (lookup "v0" late_outcome.1.conv.conversations ≡ lookup "v0" over.conv.conversations)
unfolding program close_thread other_primaries tell_others mark_closing says_closed breaks_off
    is_malformed
dispatch-close_thread_example =
    dispatch-close_thread (λ o. world) 9 "alice" "v0" "done" busy over late_outcome.1 later_world
      late late_receipt refl refl refl refl refl

abbrev staffed : Dispatcher
staffed = record router { registry = bob_once; bots = with_mailer }

operator_unregister-gone_example :
    (lookup "bob" (operator_unregister "bob" staffed).1.registry.by_instance ≡ none)
    × ((has_key "bob" staffed.registry.by_instance
          || not (has_key "bob" (operator_unregister "bob" staffed).1.bots.by_instance))
        ≡ true)
    × IsBijective worker_hooks (operator_unregister "bob" staffed).1.registry
    × IsBijective bot_hooks (operator_unregister "bob" staffed).1.bots
    × IsIndexed (operator_unregister "bob" staffed).1.bots
unfolding operator_unregister session_of resolve_instance_id lookup Registry.register_info
    Registry.detach_prior Registry.detach Registry.store insert
operator_unregister-gone_example =
    operator_unregister-gone "bob" staffed (operator_unregister "bob" staffed).1 0
      bob_once-IsBijective with_mailer-IsBijective with_mailer-IsIndexed refl

-- The half closed thread is closed in memory, and so is its row.
abbrev thread_row : ConversationRow
thread_row = record {
  status = thread.status;
  started_at = 1;
  last_message_at = thread.last_message_at;
  closed_at = none;
  closed_by = [];
  message_count = 1;
  kind = Kind.direct;
}

abbrev thread_rows : Database
thread_rows = record { messages = []; conversations = ("v0", thread_row) ∷ []; participants = [] }

abbrev swept : List String × ConversationStore × Database
swept = close_ttl_sweep 9_000_000 1 threads thread_rows

close_ttl_sweep-exact_example :
    (lookup "v0" swept.1.conversations ≡ ended 9_000_000 1 (lookup "v0" threads.conversations))
    × (elem "v0" swept.0 ≡ is_ended 9_000_000 1 (lookup "v0" threads.conversations))
    × (lookup "v0" swept.2.conversations ≡ (
        if is_nil swept.0
        then lookup "v0" thread_rows.conversations
        else ended_row 9_000_000 1 (lookup "v0" thread_rows.conversations)))
unfolding lookup
close_ttl_sweep-exact_example =
    close_ttl_sweep-exact 9_000_000 1 threads thread_rows "v0" (refl, tt)

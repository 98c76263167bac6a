-- ===== src/Dispatcher/Wait.antt =====
-- src/agent_agora/dispatcher.py: `wait_notify` as the steps between its awaits, `system_notify`, and
-- `close`. A future is a number.
use agent_agora.Dispatcher.{Dispatcher, World, update, ◌∷◌, nat_elem, nat_elem, wake, push}
use agent_agora.Prelude.{
  String, ℕ, ℕ, String, String, List, ℕ, String, String, List, List, List, if◌then◌else◌, length,
  Option, true, Bool, nat_eq, elem, sort_by, [], [], str_lt, false, map, none, ◌++◌,
}
use agent_agora.Errors.{Result, raise, dispatcher_closed, dispatcher_closed, ok, ok}
use agent_agora.Json.{Value}
use agent_agora.Envelope.{Envelope, DeliveredAs, normal}
use agent_agora.Dispatcher.Flush.{touch}
use agent_agora.Conversations.{direct}

-- The first part under the lock: an empty inbox makes a future that waits for it.
unfoldable pub begin_wait : String → ℕ → Dispatcher → Result Bool × Dispatcher
begin_wait iid future d = if d.is_down then (raise dispatcher_closed, d) else elim (d.queues iid) [
  | [] ↦ (ok true, record d { waiters = update iid (d.waiters iid ++ future ∷ []) d.waiters })
  | e ∷ es ↦ (ok false, d)
]

-- `list.remove(fut)`: the first occurrence.
unfoldable pub remove_first : ℕ → List ℕ → List ℕ
remove_first f [] = []
remove_first f (g ∷ gs) = if nat_eq g f then gs else g ∷ remove_first f gs

-- The time is up: `asyncio.wait_for` cancels the future, so it is done.
unfoldable pub cancel_future : ℕ → Dispatcher → Dispatcher
cancel_future future d = if nat_elem future d.done then d else record d { done = future ∷ d.done }

-- The handler of the timeout, under the lock.
unfoldable pub forget_waiter : String → ℕ → Dispatcher → Dispatcher
forget_waiter iid future d = record d {
  waiters = update iid (remove_first future (d.waiters iid)) d.waiters;
}

pub record Pending : Type 0 where
  pub instance_id : String
  pub pending : ℕ
  pub sources : List String

unfoldable pub set_of : List String → List String
set_of [] = []
set_of (s ∷ ss) = let rest = set_of ss in if elem s rest then rest else s ∷ rest

-- The last part: nothing leaves the inbox.
unfoldable pub end_wait : ℕ → String → Dispatcher → Pending × Dispatcher
end_wait now iid d =
    let queue = d.queues iid in
    (
      record {
        instance_id = iid;
        pending = length queue;
        sources = sort_by str_lt (set_of (map (λ e. e.source) queue));
      },
      touch now iid d,
    )

-- `make_envelope` with its defaults, from the server itself.
unfoldable pub system_envelope :
    (cmd_id target conversation_id : String) → Option String → ℕ → Value → Envelope
system_envelope cmd_id target conversation_id in_reply_to now payload = record {
  id = cmd_id;
  source = "agora-system";
  target = target;
  payload = payload;
  created_at = now;
  expect_result = false;
  reply_to = none;
  cc_list = none;
  delivered_as = DeliveredAs.primary;
  dispatch_kind = direct;
  in_reply_to = in_reply_to;
  conversation_id = conversation_id;
  closing = false;
  priority = normal;
  deadline_ts = none;
  wait_age_ms = 0;
  reply_only = false;
}

-- Past the bound of the inbox, and with no record of it.
unfoldable pub system_notify : World → String → Value → Dispatcher → Result (Unit {0}) × Dispatcher
system_notify w target payload d = if d.is_down then (raise dispatcher_closed, d) else (
  ok tt,
  wake target (push (system_envelope w.cmd_id target w.fresh_id none w.now payload) d),
)

-- Every future that waits gets the exception `DispatcherClosed`; `ids` are the inboxes that have any.
unfoldable pub fail_all : List ℕ → List ℕ → List ℕ
fail_all [] done = done
fail_all (f ∷ fs) done = fail_all fs (if nat_elem f done then done else f ∷ done)

unfoldable pub fail_waiters : List String → Dispatcher → List ℕ
fail_waiters [] d = d.done
fail_waiters (t ∷ ts) d = fail_all (d.waiters t) (fail_waiters ts d)

unfoldable pub close : List String → Dispatcher → Dispatcher
close ids d = record d { is_down = true; waiters = λ t. []; done = fail_waiters ids d }

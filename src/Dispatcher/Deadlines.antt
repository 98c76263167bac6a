-- ===== src/Dispatcher/Deadlines.antt =====
-- src/agent_agora/dispatcher.py, `expire_overdue_deadlines`: answers that did not come in time.
use agent_agora.Dispatcher.{Dispatcher, Event, Event, ◌∷◌, some, wake, push, deadline_expired}
use agent_agora.Prelude.{
  ℕ, String, ℕ, List, ◌+◌, List, Dict, Option, Dict, Dict, if◌then◌else◌, List, Dict, List, Bool,
  remove, none, or_default, lookup, false, ltb, [], [], [], [], has_key, ◌++◌, ◌||◌,
}
use agent_agora.Json.{Value, obj, field, str, end}
use agent_agora.Conversations.{conv_id_of}
use agent_agora.Dispatcher.Wait.{system_envelope}

-- `fresh` gives the new ids in the order in which they are asked for.
pub record Clerk : Type 0 where
  pub router : Dispatcher
  pub next : ℕ
  pub expired : List Event

unfoldable pub timeout_payload : (cmd_id target ts : String) → Value
timeout_payload cmd_id target ts = obj (
    field "msgtype" (str "agora.error") (
      field "error" (str "timeout")
        (field "command_id" (str cmd_id) (field "target" (str target) (field "ts" (str ts) end)))))

module _ (fresh : ℕ → String) (now : ℕ) where
  -- `self._conv.conv_id_of(cmd_id) or str(uuid.uuid4())`
  unfoldable pub conversation_or_new : String → ℕ → Dispatcher → String × ℕ
  conversation_or_new cmd_id next d = elim (conv_id_of cmd_id d.conv) [
    | none ↦ (fresh next, next + 1)
    | some conv_id ↦ (conv_id, next)
  ]

  -- `_emit_timeout`: the sender is told, past the bound of its inbox.
  unfoldable pub emit_timeout : (source cmd_id target : String) → Clerk → Clerk
  emit_timeout source cmd_id target k =
      let (conv_id, next) = conversation_or_new cmd_id (k.next + 1) k.router in
      let e =
        system_envelope (fresh k.next) source conv_id (some cmd_id) now
          (timeout_payload cmd_id target (k.router.config.iso now)) in
      record {
        router = wake source (push e k.router);
        next = next;
        expired = k.expired ++ deadline_expired cmd_id source target ∷ [];
      }

  unfoldable pub emit_timeouts : (source cmd_id : String) → List String → Clerk → Clerk
  emit_timeouts source cmd_id [] k = k
  emit_timeouts source cmd_id (t ∷ ts) k =
      emit_timeouts source cmd_id ts (emit_timeout source cmd_id t k)

  -- The loop over `self._in_flight.items()`: the sources that wait on the command.
  unfoldable pub notify_sources : String → Dict (Dict (List String)) → Clerk → Clerk
  notify_sources cmd_id [] k = k
  notify_sources cmd_id ((source, pending) ∷ m) k =
      notify_sources cmd_id m
        (emit_timeouts source cmd_id (or_default (lookup cmd_id pending) []) k)

  abbrev pub forget_targets :
      String → Option (List String) → Dict (List String) → Dict (List String)
  forget_targets cmd_id none pending = pending
  forget_targets cmd_id (some []) pending = pending
  forget_targets cmd_id (some (t ∷ ts)) pending = remove cmd_id pending

  -- The targets are discarded one by one, and a set that is empty then is popped.
  unfoldable pub forget_command : String → Dict (Dict (List String)) → Dict (Dict (List String))
  forget_command cmd_id [] = []
  forget_command cmd_id ((source, pending) ∷ m) =
      (source, forget_targets cmd_id (lookup cmd_id pending) pending) ∷ forget_command cmd_id m

  -- `any(cmd_id in pm for pm in self._in_flight.values())`
  unfoldable pub is_awaited : String → Dict (Dict (List String)) → Bool
  is_awaited cmd_id [] = false
  is_awaited cmd_id ((source, pending) ∷ m) = has_key cmd_id pending || is_awaited cmd_id m

  unfoldable pub expire_command : String → Clerk → Clerk
  expire_command cmd_id k =
      let k1 = notify_sources cmd_id k.router.in_flight k in
      let m = forget_command cmd_id k.router.in_flight in
      record k1 {
        router = record k1.router {
          in_flight = m;
          deadlines =
              if is_awaited cmd_id m
              then k1.router.deadlines
              else remove cmd_id k1.router.deadlines;
        };
      }

  unfoldable pub expire_commands : List String → Clerk → Clerk
  expire_commands [] k = k
  expire_commands (c ∷ cs) k = expire_commands cs (expire_command c k)

  -- `[cid for cid, dl in self._deadlines.items() if dl < now_iso]`
  unfoldable pub overdue : Dict ℕ → List String
  overdue [] = []
  overdue ((cmd_id, t) ∷ ds) = let rest = overdue ds in if ltb t now then cmd_id ∷ rest else rest

  unfoldable pub expire_overdue_deadlines : Dispatcher → List Event × Dispatcher
  expire_overdue_deadlines d =
      if d.is_down
      then ([], d)
      else (let k =
            expire_commands (overdue d.deadlines) (record { router = d; next = 0; expired = [] }) in
          (k.expired, record k.router { events = k.router.events ++ k.expired }))

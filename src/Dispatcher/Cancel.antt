-- ===== src/Dispatcher/Cancel.antt =====
-- src/agent_agora/dispatcher.py, `cancel`: a sender takes back what has not been read.
use agent_agora.Dispatcher.{Dispatcher, World, ◌∷◌, some, update, mark_dropped}
use agent_agora.Prelude.{
  String, String, String, String, String, String, Bool, String, String, String, List, List, Option,
  List, Dict, Dict, ℕ, sort_by, Option, lookup, or_default, str_lt, none, ◌++◌, [], [], [], none,
  if◌then◌else◌, map, remove, ◌==◌, insert, ◌==◌,
}
use agent_agora.Errors.{Result, raise, unknown_command, ok, not_command_owner}
use agent_agora.Envelope.{Envelope, Envelope}
use agent_agora.Conversations.{or_else, source_of}
use agent_agora.Dispatcher.Fanout.{submit}

pub record Cancelled : Type 0 where
  pub command_id : String
  pub cancelled : List String
  pub already_consumed : List String

-- `next((i for i, e in enumerate(q) if e.id == command_id), None)`, then `q.pop(idx)`
unfoldable pub pop_command : String → List Envelope → Option (List Envelope)
pop_command cmd_id [] = none
pop_command cmd_id (e ∷ es) =
    if e.id == cmd_id
    then some es
    else elim (pop_command cmd_id es) [ none ↦ none | some rest ↦ some (e ∷ rest) ]

abbrev pub note_popped :
    String → Option (List Envelope) → Dispatcher × Cancelled → Dispatcher × Cancelled
note_popped t none (d, c) = (d, record c { already_consumed = c.already_consumed ++ t ∷ [] })
note_popped t (some rest) (d, c) =
    (record d { queues = update t rest d.queues }, record c { cancelled = c.cancelled ++ t ∷ [] })

-- The loop over the targets.
unfoldable pub take_back : String → List String → Dispatcher × Cancelled → Dispatcher × Cancelled
take_back cmd_id [] s = s
take_back cmd_id (t ∷ ts) s =
    take_back cmd_id ts (note_popped t (pop_command cmd_id (s.0.queues t)) s)

-- `pmap.pop(command_id, None)`, on the map of the caller if there is one
unfoldable pub forget_sent :
    (caller cmd_id : String) → Dict (Dict (List String)) → Dict (Dict (List String))
forget_sent caller cmd_id m = elim (lookup caller m) [
  | none ↦ m
  | some pending ↦ insert caller (remove cmd_id pending) m
]

unfoldable pub pending_targets : (caller cmd_id : String) → Dict (Dict (List String)) → List String
pending_targets caller cmd_id m = or_default (lookup cmd_id (or_default (lookup caller m) [])) []

unfoldable pub mark_all_dropped : Bool → ℕ → String → List String → Dispatcher → Dispatcher
mark_all_dropped commits now cmd_id [] d = d
mark_all_dropped commits now cmd_id (t ∷ ts) d =
    (submit commits (map (λ x. mark_dropped cmd_id x now) (t ∷ ts)) d).1

unfoldable pub cancel_locked :
    World → (caller cmd_id : String) → Dispatcher → Cancelled × Dispatcher
cancel_locked w caller cmd_id d =
    let targets = sort_by str_lt (pending_targets caller cmd_id d.in_flight) in
    let (d1, c) =
      take_back cmd_id targets
        (d, record { command_id = cmd_id; cancelled = []; already_consumed = [] }) in
    let d2 = record d1 {
      in_flight = forget_sent caller cmd_id d1.in_flight;
      deadlines = remove cmd_id d1.deadlines;
    } in
    (c, mark_all_dropped w.commits w.now cmd_id c.cancelled d2)

abbrev cancel_owned :
    World → (caller cmd_id : String) → Dispatcher → Option String → Result Cancelled × Dispatcher
cancel_owned w caller cmd_id d none = (raise unknown_command, d)
cancel_owned w caller cmd_id d (some source) =
    if source == caller
    then (let (c, d') = cancel_locked w caller cmd_id d in (ok c, d'))
    else (raise not_command_owner, d)

unfoldable pub cancel :
    World → (caller cmd_id : String) → Dispatcher → Result Cancelled × Dispatcher
cancel w caller cmd_id d =
    cancel_owned w caller cmd_id d (or_else (source_of cmd_id d.conv) (w.stored_source cmd_id))

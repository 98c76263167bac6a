-- ===== src/Dispatcher/Views.antt =====
-- src/agent_agora/dispatcher.py: what is read without a change, and `reply`.
use agent_agora.Dispatcher.{Dispatcher, some, World}
use agent_agora.Prelude.{
  Bool, String, String, String, String, String, String, String, Dict, List, ℕ, lookup, insert,
  Option, lookup, Option, Option, Option, ℕ, if◌then◌else◌, ◌∷◌, [], map, sort_by, false, false,
  none, ◌+◌, elem, ◌+◌, ◌==◌, str_lt, ◌&&◌, length, or_default, not, ltb, ◌++◌,
}
use agent_agora.Registry.Instances.{list_instances, WaitMode, InstanceInfo}
use agent_agora.Conversations.{
  is_primary, conv_id_of, Participant, Conversation, ConversationStore, source_of, get, or_else,
}

abbrev count_if : Bool → ℕ → ℕ
count_if b n = if b then n + 1 else n

unfoldable pub waits_on : String → Dict (List String) → ℕ
waits_on iid [] = 0
waits_on iid ((cmd_id, replyers) ∷ m) = count_if (elem iid replyers) (waits_on iid m)

unfoldable pub waits_on_all : String → Dict (Dict (List String)) → ℕ
unfolding waits_on
waits_on_all iid [] = 0
waits_on_all iid ((source, pending) ∷ m) = waits_on iid pending + waits_on_all iid m

unfoldable pub in_flight_count : String → Dispatcher → ℕ
unfolding waits_on_all
in_flight_count iid d = waits_on_all iid d.in_flight

-- The edge from a source to a target, with the number of answers.
pub record Edge : Type 0 where
  pub source : String
  pub target : String
  pub count : ℕ

-- `counts[(source, target)] = counts.get(…, 0) + 1`
unfoldable pub count_edge : (source target : String) → List Edge → List Edge
count_edge source target [] = record { source = source; target = target; count = 1 } ∷ []
count_edge source target (e ∷ es) =
    let rest = count_edge source target es in
    if e.source == source && e.target == target
    then record e { count = e.count + 1 } ∷ es
    else e ∷ rest

unfoldable pub count_targets : String → List String → List Edge → List Edge
unfolding count_edge
count_targets source [] es = es
count_targets source (t ∷ ts) es = count_targets source ts (count_edge source t es)

unfoldable pub count_commands : String → Dict (List String) → List Edge → List Edge
unfolding count_targets
count_commands source [] es = es
count_commands source ((cmd_id, replyers) ∷ m) es =
    count_commands source m (count_targets source replyers es)

unfoldable pub count_sources : Dict (Dict (List String)) → List Edge → List Edge
unfolding count_commands
count_sources [] es = es
count_sources ((source, pending) ∷ m) es = count_sources m (count_commands source pending es)

unfoldable pub in_flight_edges : Dispatcher → List Edge
unfolding count_sources
in_flight_edges d = count_sources d.in_flight []

pub record Glance : Type 0 where
  pub queue_depth : ℕ
  pub in_flight : ℕ
  pub last_wait_at : Option ℕ
  pub last_dispatch_to_at : Option ℕ
  pub wait_mode : WaitMode
  pub accepting : Bool

-- `none` stands for `registered: False`.
unfoldable pub glance : String → Dispatcher → Option Glance
unfolding in_flight_count lookup
glance t d = elim (lookup t d.registry.by_instance) [
  | none ↦ none
  | some info ↦ some (record {
    queue_depth = length (d.queues t);
    in_flight = in_flight_count t d;
    last_wait_at = info.last_seen_at;
    last_dispatch_to_at = lookup t d.last_dispatch_to;
    wait_mode = info.wait_mode;
    accepting = info.accepting;
  })
]

unfoldable pub glance_all : List String → Dispatcher → Dict (Option Glance) → Dict (Option Glance)
unfolding glance insert
glance_all [] d out = out
glance_all (t ∷ ts) d out = glance_all ts d (insert t (glance t d) out)

unfoldable pub peek : Option (List String) → Dispatcher → Dict (Option Glance)
unfolding glance_all list_instances
peek none d =
    glance_all (map (λ (i : InstanceInfo). i.instance_id) (list_instances d.registry)) d []
peek (some targets) d = glance_all targets d []

pub record Coverage : Type 0 where
  pub conversation_id : Option String
  pub pending : List String
  pub responded : List String
  pub deadline_ts : Option ℕ
  pub expired : Bool

-- `pending.extend(sorted(tset))` for each source
unfoldable pub pending_on : String → Dict (Dict (List String)) → List String
unfolding lookup sort_by
pending_on cmd_id [] = []
pending_on cmd_id ((source, m) ∷ rest) =
    sort_by str_lt (or_default (lookup cmd_id m) []) ++ pending_on cmd_id rest

abbrev is_text : Option String → String → Bool
is_text none s = false
is_text (some t) s = t == s

unfoldable pub responders : Option String → List String → Dict Participant → List String
unfolding is_primary
responders src pending [] = []
responders src pending ((iid, p) ∷ ps) =
    let rest = responders src pending ps in
    if is_primary p.role && not (is_text src iid) && not (elem iid pending)
    then iid ∷ rest
    else rest

abbrev participants_of : Option Conversation → Dict Participant
participants_of none = []
participants_of (some c) = c.participants

abbrev conversation_at : Option String → ConversationStore → Option Conversation
conversation_at none s = none
conversation_at (some conv_id) s = if conv_id == "" then none else get conv_id s

abbrev is_past : ℕ → Option ℕ → Bool
is_past now none = false
is_past now (some t) = ltb t now

unfoldable pub coverage : World → String → Dispatcher → Coverage
unfolding conv_id_of source_of get pending_on responders lookup sort_by
coverage w cmd_id d =
    let conv_id = or_else (conv_id_of cmd_id d.conv) (w.stored_conversation cmd_id) in
    let pending = pending_on cmd_id d.in_flight in
    let due = lookup cmd_id d.deadlines in
    record {
      conversation_id = conv_id;
      pending = pending;
      responded = sort_by str_lt (
          responders (source_of cmd_id d.conv) pending
            (participants_of (conversation_at conv_id d.conv)));
      deadline_ts = due;
      expired = is_past w.now due;
    }

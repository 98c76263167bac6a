-- ===== src/Storage/Recovered.antt =====
-- The restart (src/agent_agora/dispatcher.py, restore_from_persistence): what it puts in the inboxes.
use mathlib.Core.List.{Perm}
use mathlib.Core.List.Perm
use agent_agora.Prelude.{
  ℕ, List, List, keep, String, map, String, ◌≡◌, ◌≡◌, ◌≡◌, ◌++◌, ◌++◌, ◌&&◌, [], ◌∷◌, sym, arith,
  append-nil, refl, eq_iff, append_assoc, Perm-keep, sort_by-perm,
}
use agent_agora.Storage.{Database, Row, Row, Row}
use agent_agora.Storage.Restart.{
  restore_rows, restore_from_persistence, envelope_of_row, restore_inflight, restore_row,
  is_undrained, is_live, is_undrained, row_lt,
}
use agent_agora.Dispatcher.{Dispatcher, Dispatcher, push}
use agent_agora.Envelope.{Envelope}
use agent_agora.Dispatcher.Delivery.{for_target, for_target}

-- The messages that the database has not seen drained, and those of conversations that are open.
abbrev pub undrained : Database → List Row
undrained db = keep is_undrained db.messages

abbrev pub live : Database → List Row → List Envelope
live db rows = keep (λ e. is_live db e.conversation_id) (map envelope_of_row rows)

restore_rows-queues :
    (rs : List Row) (d : Dispatcher) (t : String)
    → (restore_rows rs d).queues t ≡ d.queues t ++ keep (for_target t) (map envelope_of_row rs)
unfolding restore_rows restore_row push envelope_of_row
restore_rows-queues [] d t = sym (append-nil (d.queues t))
restore_rows-queues (r ∷ rs) d t = ground (
  arith,
  restore_rows-queues rs (restore_row r d) t,
  eq_iff r.target t,
  append_assoc (d.queues t) (envelope_of_row r ∷ []) (keep (for_target t) (map envelope_of_row rs)),
)

restored-queues :
    (now : ℕ) (db : Database) (d : Dispatcher) (t : String)
    → (restore_from_persistence now db d).0.queues t
      ≡ d.queues t ++ keep (for_target t) (map envelope_of_row (restore_inflight db))
unfolding restore_from_persistence
restored-queues now db d t = restore_rows-queues (restore_inflight db) d t

keep-both :
    (db : Database) (rs : List Row)
    → map envelope_of_row (keep (λ r. is_undrained r && is_live db r.conversation_id) rs)
      ≡ live db (keep is_undrained rs)
unfolding envelope_of_row
keep-both db [] = refl
keep-both db (r ∷ rs) = ground (arith, keep-both db rs)

-- The inbox is rebuilt from exactly the rows that are not drained and whose conversation is open.
pub restored-perm :
    (now : ℕ) (db : Database) (d : Dispatcher) (t : String)
    → d.queues t ≡ []
    → Perm
        ((restore_from_persistence now db d).0.queues t)
        (keep (for_target t) (live db (undrained db)))
unfolding restore_inflight
restored-perm now db d t empty =
    let pending = keep (λ r. is_undrained r && is_live db r.conversation_id) db.messages in
    rw (restored-queues now db d t, empty, ← keep-both db db.messages)
      (Perm-keep (for_target t) (Perm.map envelope_of_row (sort_by-perm row_lt pending)))

-- ===== src/Storage/Restarted.antt =====
-- src/agent_agora/dispatcher.py: the two ways to start again, as a whole.
use agent_agora.Prelude.{
  ℕ, List, List, List, keep, All, keep, ◌≡◌, String, ◌&&◌, ◌&&◌, ◌&&◌, [], ◌∷◌, lookup, lookup,
  refl, any, false, false, arith, arith, arith, ap, sort_by, ◌||◌, Bool, ◌∙◌,
}
use agent_agora.Storage.{Database, Row, Row, Row, set_rows, set_rows}
use agent_agora.Storage.Restart.{
  restore_rows, restore_from_persistence, restore_from_persistence, restore_row,
  restore_in_flight_pending, restore_inflight, mark_orphan_closed_inflight,
  mark_orphan_closed_inflight, is_undrained, is_undrained, is_undrained, drop_inflight_on_restart,
  drop_inflight, is_live, is_closed_row, is_live, is_live, drop_row, drop_row, is_awaited_row,
  row_lt, expect_rows, merge_pending,
}
use agent_agora.Dispatcher.{push, Dispatcher, Dispatcher}
use agent_agora.Storage.Pending.{
  awaited, is_row_for, is_live-closed, awaited-merge_pending, expect_rows-IsNested,
  awaited-expect_rows, any-keep, orphans-any,
}

restore_rows-in_flight :
    (rs : List Row) (d : Dispatcher) → (restore_rows rs d).in_flight ≡ d.in_flight
unfolding restore_rows restore_row push
restore_rows-in_flight [] d = refl
restore_rows-in_flight (r ∷ rs) d = restore_rows-in_flight rs (restore_row r d)

pending-any :
    (now : ℕ) (db : Database) (s c t : String)
    → let db1 = mark_orphan_closed_inflight now db in
      (any (is_row_for s c t) (keep (is_awaited_row db1) db1.messages) || awaited s c t [])
      ≡ any (λ r. is_awaited_row db r && is_row_for s c t r) db.messages
unfolding mark_orphan_closed_inflight lookup is_awaited_row is_live
pending-any now db s c t =
    let db1 = mark_orphan_closed_inflight now db in
    let or_false : (b : Bool) → (b || false) ≡ b = λ b. ground arith in
    or_false _
    ∙ any-keep (is_awaited_row db1) (is_row_for s c t) db1.messages
    ∙ orphans-any now db (is_row_for s c t) db.messages (λ r. refl)

-- After a restart, a source waits for a target's answer to a command exactly if the database holds
-- the primary message of that command to that target, with an answer expected, not drained, and in a
-- conversation that is not closed.
pub restart-awaited :
    (now : ℕ) (db : Database) (fresh : Dispatcher) (source cmd_id target : String)
    → fresh.in_flight ≡ []
    → awaited source cmd_id target (restore_from_persistence now db fresh).0.in_flight
      ≡ any (λ r. is_awaited_row db r && is_row_for source cmd_id target r) db.messages
unfolding restore_from_persistence restore_in_flight_pending
restart-awaited now db fresh s c t empty =
    let db1 = mark_orphan_closed_inflight now db in
    let rows = keep (is_awaited_row db1) db1.messages in
    ap (λ m. awaited s c t (merge_pending (expect_rows rows []) m))
      (restore_rows-in_flight (restore_inflight db) fresh ∙ empty)
    ∙ awaited-merge_pending s c t (expect_rows rows []) (expect_rows-IsNested rows [] (tt, tt))
    ∙ awaited-expect_rows s c t rows []
    ∙ pending-any now db s c t

orphans-kept :
    (now : ℕ) (db : Database) (rs : List Row)
    → keep
        (λ r. is_undrained r && is_live db r.conversation_id)
        (set_rows
          (λ r. is_undrained r && is_closed_row (lookup r.conversation_id db.conversations))
          (drop_row now)
          rs)
      ≡ keep (λ r. is_undrained r && is_live db r.conversation_id) rs
orphans-kept now db [] = refl
orphans-kept now db (r ∷ rs) =
    ground (arith, orphans-kept now db rs, is_live-closed db r.conversation_id)

orphans-gone :
    (now : ℕ) (db : Database) (rs : List Row)
    → All
        (λ r. (is_undrained r && is_closed_row (lookup r.conversation_id db.conversations)) ≡ false)
        (set_rows
          (λ r. is_undrained r && is_closed_row (lookup r.conversation_id db.conversations))
          (drop_row now)
          rs)
orphans-gone now db [] = tt
orphans-gone now db (r ∷ rs) = (ground arith, orphans-gone now db rs)

all_dropped :
    (now : ℕ) (db : Database) (rs : List Row)
    → keep
        (λ r. is_undrained r && is_live db r.conversation_id)
        (set_rows is_undrained (drop_row now) rs)
      ≡ []
all_dropped now db [] = refl
all_dropped now db (r ∷ rs) = ground (arith, all_dropped now db rs)

-- A second restart finds what the first one found: the rows for the inboxes stay the same, and no
-- message of a closed conversation is left undrained. After a clean start no row is left for the
-- inboxes, whatever the database held.
pub restart-stable :
    (now : ℕ) (db : Database) (fresh : Dispatcher)
    → (restore_inflight (restore_from_persistence now db fresh).1 ≡ restore_inflight db)
      × All
          (λ r.
            (is_undrained r && is_closed_row (lookup r.conversation_id db.conversations)) ≡ false)
          (restore_from_persistence now db fresh).1.messages
      × (restore_inflight (drop_inflight_on_restart now db fresh).1 ≡ [])
unfolding restore_from_persistence restore_inflight mark_orphan_closed_inflight
    drop_inflight_on_restart drop_inflight is_live sort_by
restart-stable now db fresh = (
  ap (sort_by row_lt) (orphans-kept now db db.messages),
  orphans-gone now db db.messages,
  ap (sort_by row_lt) (all_dropped now db db.messages),
)

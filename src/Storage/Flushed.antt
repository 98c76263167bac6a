-- ===== src/Storage/Flushed.antt =====
-- A flush, its transaction, and a restart: src/agent_agora/dispatcher.py.
use mathlib.Core.List.{Perm}
use agent_agora.Prelude.{
  ℕ, List, List, String, String, String, map, Bool, keep, keep, map, ◌∷◌, ◌==◌, not, [], ◌≡◌, ◌&&◌,
  ◌≡◌, ◌≡◌, arith, elem, arith, some, eq_iff, refl, ◌++◌, true, true, true, append-nil, sort_by,
  subst, sym,
}
use agent_agora.Storage.{
  Database, execute_all, Row, Row, Row, execute, set_rows, has_id, run_queue, run_request,
}
use agent_agora.Envelope.{Envelope, Envelope}
use agent_agora.Dispatcher.Flush.{
  with_age, mark_all_drained, touch, drained_by, Filter, Filter, flush, order_of, drain,
  note_inbound, is_primary_envelope,
}
use agent_agora.Storage.Restart.{is_undrained, is_live, envelope_of_row, restore_from_persistence}
use agent_agora.Dispatcher.{mark_drained, Dispatcher, World, Statement, update}
use agent_agora.Storage.Recovered.{undrained, live, restored-perm}
use agent_agora.Dispatcher.Fanout.{submit}
use agent_agora.Dispatcher.Delivery.{for_target}
use agent_agora.Errors.{ok}
use agent_agora.Dispatcher.Drained.{flush-drained_by, drained_by-out}

abbrev pub ids : List Envelope → List String
ids [] = []
ids (e ∷ es) = e.id ∷ ids es

ids-with_age : (now : ℕ) (es : List Envelope) → ids (map (with_age now) es) ≡ ids es
ids-with_age now [] = refl
ids-with_age now (e ∷ es) = ground (arith, ids-with_age now es)

-- The rows of an inbox whose command is one of `cmds`.
abbrev is_taken : (iid : String) → List String → Row → Bool
is_taken iid cmds r = (r.target == iid) && elem r.command_id cmds

undrained-mark :
    (cmd_id iid : String) (now : ℕ) (rs : List Row)
    → keep is_undrained (set_rows (has_id cmd_id iid) (λ r. record r { drained_at = some now }) rs)
      ≡ keep (λ r. not (is_taken iid (cmd_id ∷ []) r)) (keep is_undrained rs)
undrained-mark cmd_id iid now [] = refl
undrained-mark cmd_id iid now (r ∷ rs) = ground (
  arith,
  undrained-mark cmd_id iid now rs,
  eq_iff cmd_id r.command_id,
  eq_iff r.command_id cmd_id,
)

keep-taken :
    (iid c : String) (cs : List String) (rs : List Row)
    → keep (λ r. not (is_taken iid cs r)) (keep (λ r. not (is_taken iid (c ∷ []) r)) rs)
      ≡ keep (λ r. not (is_taken iid (c ∷ cs) r)) rs
keep-taken iid c cs [] = refl
keep-taken iid c cs (r ∷ rs) = ground (arith, keep-taken iid c cs rs)

none_taken : (iid : String) (rs : List Row) → rs ≡ keep (λ r. not (is_taken iid [] r)) rs
none_taken iid [] = refl
none_taken iid (r ∷ rs) = ground (arith, none_taken iid rs)

-- Marking rows as drained breaks no constraint, and touches no conversation.
marked :
    (iid : String) (now : ℕ) (es : List Envelope) (db : Database)
    → (db' : Database) × (execute_all (map (λ x. mark_drained x.id iid now) es) db ≡ some db')
      × (db'.conversations ≡ db.conversations)
      × (undrained db' ≡ keep (λ r. not (is_taken iid (ids es) r)) (undrained db))
unfolding execute_all execute
marked iid now [] db = (db, refl, refl, none_taken iid (undrained db))
marked iid now (e ∷ es) db =
    let db1 = record db {
      messages = set_rows (has_id e.id iid) (λ r. record r { drained_at = some now }) db.messages;
    } in
    let (db', runs, same, left) = marked iid now es db1 in
    (
      db',
      runs,
      same,
      ground (
        arith,
        undrained-mark e.id iid now db.messages,
        keep-taken iid e.id (ids es) (undrained db),
      ),
    )

mark_all_drained-writes :
    (now : ℕ) (iid : String) (es : List Envelope) (d : Dispatcher)
    → (written : List (List Statement)) × ((mark_all_drained true now iid es d).writes
        ≡ d.writes ++ written)
      × ((db : Database)
          → run_queue written db ≡ run_queue (map (λ x. mark_drained x.id iid now) es ∷ []) db)
unfolding mark_all_drained submit run_queue run_request execute_all
mark_all_drained-writes now iid [] d = ([], ground (arith, append-nil d.writes), λ db. refl)
mark_all_drained-writes now iid (e ∷ es) d =
    (map (λ x. mark_drained x.id iid now) (e ∷ es) ∷ [], refl, λ db. refl)

touch-writes : (now : ℕ) (iid : String) (d : Dispatcher) → (touch now iid d).writes ≡ d.writes
unfolding touch
touch-writes now iid d = ground arith

-- What a flush writes, where the write queue commits.
drained_by-writes :
    (w : World) (iid : String) (f : Filter) (d : Dispatcher)
    → w.commits ≡ true
    → let sorted = sort_by (order_of f iid d) (drain f (d.queues iid)).0 in
      (written : List (List Statement)) × ((drained_by w iid f d).1.writes ≡ d.writes ++ written)
      × ((db : Database)
          → run_queue written db
            ≡ run_queue (map (λ x. mark_drained x.id iid w.now) sorted ∷ []) db)
unfolding drained_by
drained_by-writes w iid f d commits =
    let sorted = sort_by (order_of f iid d) (drain f (d.queues iid)).0 in
    let d1 = record d {
      queues = update iid (drain f (d.queues iid)).1 d.queues;
      last_inbound = note_inbound iid (keep is_primary_envelope sorted) d.last_inbound;
    } in
    let (written, e, same) = mark_all_drained-writes w.now iid sorted (touch w.now iid d1) in
    let t = touch-writes w.now iid d1 in (written, rw commits (ground arith), same)

same_tail : {A : Type 0} (l xs ys : List A) → l ++ xs ≡ l ++ ys → xs ≡ ys
same_tail [] xs ys h = h
same_tail (z ∷ l) xs ys h = same_tail l xs ys (ground arith)

live-same :
    (db db' : Database) (rs : List Row)
    → db'.conversations ≡ db.conversations
    → live db' rs ≡ live db rs
unfolding is_live
live-same db db' [] h = refl
live-same db db' (r ∷ rs) h = ground (arith, live-same db db' rs h)

left-taken :
    (db : Database) (iid t : String) (cmds : List String) (rs : List Row)
    → keep (for_target t) (live db (keep (λ r. not (is_taken iid cmds r)) rs))
      ≡ keep (λ e. not (iid == t && elem e.id cmds)) (keep (for_target t) (live db rs))
unfolding envelope_of_row
left-taken db iid t cmds [] = refl
left-taken db iid t cmds (r ∷ rs) =
    ground
      (arith, left-taken db iid t cmds rs, eq_iff r.target t, eq_iff iid t, eq_iff r.target iid)

-- The server stops after a flush that returned, with the writes that it put in the queue done, and
-- starts again with empty inboxes. Then no message that the flush returned comes back to its inbox;
-- all else that was not drained comes back, as far as its conversation is not closed.
pub restart-flush :
    (w : World) (iid : String) (f : Filter) (d d' : Dispatcher) (out : List Envelope)
    (written : List (List Statement)) (now : ℕ) (db : Database) (fresh : Dispatcher)
    → w.commits ≡ true
    → flush w iid f d ≡ (ok out, d')
    → d'.writes ≡ d.writes ++ written
    → ((t : String) → fresh.queues t ≡ [])
    → (t : String)
    → Perm ((restore_from_persistence now (run_queue written db) fresh).0.queues t) (
        keep
          (λ e. not (iid == t && elem e.id (ids out)))
          (keep (for_target t) (live db (undrained db))))
unfolding run_queue run_request
restart-flush w iid f d d' out written now db fresh commits h wrote empty t =
    let e = flush-drained_by w iid f d d' out h in
    let o = drained_by-out w iid f d in
    let sorted = sort_by (order_of f iid d) (drain f (d.queues iid)).0 in
    let (written1, wrote1, same) = drained_by-writes w iid f d commits in
    let its_own = same_tail d.writes written written1 (ground arith) in
    let (db', runs, conversations, left) = marked iid w.now sorted db in
    let there : run_queue written db ≡ db' = ground (arith, same db) in
    let aged : ids out ≡ ids sorted = ground (arith, ids-with_age w.now sorted) in
    subst
      (λ x. Perm ((restore_from_persistence now x fresh).0.queues t) (
        keep (λ e. not (iid == t && elem e.id (ids out)))
          (keep (for_target t) (live db (undrained db)))))
      (sym there)
      (subst (Perm ((restore_from_persistence now db' fresh).0.queues t))
        (ground (
          arith,
          left-taken db iid t (ids sorted) (undrained db),
          live-same db db' (undrained db') conversations,
        ))
        (restored-perm now db' fresh t (empty t)))

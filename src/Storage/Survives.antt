-- ===== src/Storage/Survives.antt =====
-- The messages of a dispatch after a restart: src/agent_agora/dispatcher.py.
use mathlib.Core.List.{Perm}
use agent_agora.Prelude.{
  ℕ, String, List, All, Bool, keep, ◌∷◌, [], Option, [], map, map, refl, some, ◌≡◌, arith, ◌++◌,
  keep-append, subst,
}
use agent_agora.Storage.{Database, row_of, execute_all, Row}
use agent_agora.Storage.Durable.{IsPlain, row_for, restored_row, dispatch_txn-messages}
use agent_agora.Dispatcher.Fanout.{fire_dispatched}
use agent_agora.Dispatcher.Dispatch.{
  envelope_for, send_envelopes, some_nonempty, Receipt, dispatch, note_closing,
}
use agent_agora.Dispatcher.{World, World, Dispatcher, Statement}
use agent_agora.Envelope.{
  Envelope, Envelope, Envelope, Envelope, DeliveredAs, DeliveredAs, priority_rank,
}
use agent_agora.Dispatcher.Checks.{Request, Request, Request, Plan, Plan, Plan, Plan, Plan}
use agent_agora.Storage.Restart.{is_undrained, envelope_of_row, restore_from_persistence, is_live}
use agent_agora.Errors.{ok}
use agent_agora.Dispatcher.Delivery.{for_target, send_envelopes-Delivers, settle-same}
use agent_agora.Storage.Recovered.{live, undrained, restored-perm}
use agent_agora.Dispatcher.Outcome.{dispatch-ok, txn_of}
use agent_agora.Dispatcher.Made.{send_envelopes-All}

some_nonempty-some : (l : List String) → ¬ (some_nonempty l ≡ some [])
some_nonempty-some [] e = cc
some_nonempty-some (c ∷ cs) e = cc

envelope_for-IsPlain :
    (w : World) (q : Request) (p : Plan) (t : String) (das : DeliveredAs)
    (expect_result closing : Bool) (deadline : Option ℕ)
    → IsPlain (envelope_for w q p t das expect_result closing deadline)
unfolding envelope_for
envelope_for-IsPlain w q p t das x c deadline = (refl, some_nonempty-some p.cc_list)

restored_rows :
    (db : Database) (es : List Envelope)
    → All IsPlain es
    → (keep is_undrained (map row_for es) ≡ map row_for es)
      × (map envelope_of_row (map row_for es) ≡ es)
unfolding row_of
restored_rows db [] a = (refl, refl)
restored_rows db (e ∷ es) a =
    let (u, r) = restored_rows db es a.1 in
    let back = restored_row (priority_rank e.priority) e a.0 in (ground arith, ground arith)

same_txn : {A : Type 0} (l : List A) (x y : A) → l ++ x ∷ [] ≡ l ++ y ∷ [] → x ≡ y
same_txn [] x y h = ground arith
same_txn (z ∷ l) x y h = same_txn l x y (ground arith)

-- What a dispatch delivered is what its transaction stores.
dispatch-stored :
    (w : World) (q : Request) (d d' : Dispatcher) (r : Receipt) (txn : List Statement)
    (db db' : Database)
    → dispatch w q d ≡ (ok r, d')
    → d'.writes ≡ d.writes ++ txn ∷ []
    → execute_all txn db ≡ some db'
    → (es : List Envelope) × All IsPlain es
      × ((t : String) → d'.queues t ≡ d.queues t ++ keep (for_target t) es)
      × (db'.messages ≡ db.messages ++ map row_for es)
unfolding fire_dispatched
dispatch-stored w q d d' r txn db db' h written runs =
    let (p, planned, room, left, receipt) = dispatch-ok w q d d' r h in
    let k = send_envelopes w q p d in
    let v = send_envelopes-Delivers w q p d in
    let same = settle-same w q p k in
    let its_own : txn ≡ txn_of w q p d = same_txn d.writes txn (txn_of w q p d) (ground arith) in
    (
      k.envelopes,
      send_envelopes-All IsPlain w q p (envelope_for-IsPlain w q p) d,
      λ t. ground (arith, v.inbox t),
      dispatch_txn-messages p.conversation (note_closing w q k.state) k.envelopes db db'
          (subst (λ ss. execute_all ss db ≡ some db') its_own runs),
    )

live-append :
    (db : Database) (front back : List Row)
    → live db (front ++ back) ≡ live db front ++ live db back
live-append db [] back = refl
live-append db (r ∷ front) back = ground (arith, live-append db front back)

-- The server stops after a dispatch that returned, with its transaction applied to the database, and
-- starts again with empty inboxes. Then each inbox holds, in some order, what the database had not
-- seen drained before and the very envelopes that the dispatch delivered, field by field, as far as
-- their conversations are not closed.
pub restart-dispatch :
    (w : World) (q : Request) (d d' : Dispatcher) (r : Receipt) (txn : List Statement) (now : ℕ)
    (db db' : Database) (fresh : Dispatcher)
    → dispatch w q d ≡ (ok r, d')
    → d'.writes ≡ d.writes ++ txn ∷ []
    → execute_all txn db ≡ some db'
    → ((t : String) → fresh.queues t ≡ [])
    → (es : List Envelope) × ((t : String) → d'.queues t ≡ d.queues t ++ keep (for_target t) es)
      × ((t : String)
          → Perm ((restore_from_persistence now db' fresh).0.queues t) (
              keep
                (for_target t)
                (live db' (undrained db) ++ keep (λ e. is_live db' e.conversation_id) es)))
restart-dispatch w q d d' r txn now db db' fresh h written runs empty =
    let (es, plain, inbox, stored) = dispatch-stored w q d d' r txn db db' h written runs in
    let (u, back) = restored_rows db es plain in
    let all : live db' (undrained db')
        ≡ live db' (undrained db) ++ keep (λ e. is_live db' e.conversation_id) es =
      ground (
        arith,
        keep-append is_undrained db.messages (map row_for es),
        live-append db' (undrained db) (map row_for es),
      ) in
    (
      es,
      inbox,
      λ t.
          subst
            (λ l.
              Perm ((restore_from_persistence now db' fresh).0.queues t) (keep (for_target t) l))
            all (restored-perm now db' fresh t (empty t)),
    )

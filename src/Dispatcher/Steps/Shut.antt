-- ===== src/Dispatcher/Steps/Shut.antt =====
-- src/agent_agora/dispatcher.py, `close`: a router that is closed stays closed.
use agent_agora.Dispatcher.{Dispatcher, World, World, ◌∷◌}
use agent_agora.Prelude.{
  ◌≡◌, Bool, ◌≡◌, true, ◌∙◌, String, ℕ, [], ap, arith, arith, length, subst, ◌≤◌, ◌≤◌, sym, false,
  refl, Option, List, List, List, sort_by, ◌⊎◌, List, str_lt, inl, some, inr, Bool-cases, eq_iff,
  ◌==◌, none, Option-cases,
}
use agent_agora.Dispatcher.Dispatch.{dispatch, after_plan}
use agent_agora.Dispatcher.Broadcast.{announce, broadcast_plan, Announcement, after_broadcast_plan}
use agent_agora.Dispatcher.Emit.{bot_emit, emit_plan, Emission, after_emit_plan}
use agent_agora.Dispatcher.Flush.{flush, Filter, touch}
use agent_agora.Dispatcher.Wait.{
  begin_wait, system_notify, cancel_future, close, forget_waiter, remove_first, end_wait,
}
use agent_agora.Dispatcher.Deadlines.{expire_overdue_deadlines}
use agent_agora.Errors.{
  Error, Result, raise_if, dispatcher_closed, dispatcher_closed, dispatcher_closed, ◌>>=◌, raise,
}
use agent_agora.Dispatcher.Checks.{plan_of, Request}
use agent_agora.Json.{Value}
use agent_agora.Dispatcher.Cancel.{
  pop_command, take_back, mark_all_dropped, cancel_locked, cancel, Cancelled, note_popped,
  pending_targets,
}
use agent_agora.Dispatcher.Fanout.{submit}
use agent_agora.Envelope.{Envelope, Envelope}
use agent_agora.Dispatcher.Steps.{
  Reach, next, Step, here, dispatching, announcing, emitting, flushing, beginning_wait,
  cancelling_future, forgetting_waiter, ending_wait, notifying, expiring, cancelling, closing,
  administering,
}
use agent_agora.Dispatcher.Wakeups.Readers.{touch-same}

-- The router is closed, nobody waits, and its inboxes hold no more than they did.
pub record IsShut (d0 d : Dispatcher) : Type 0 where
  pub down : d.is_down ≡ true
  pub idle : (t : String) → d.waiters t ≡ []
  pub quiet : (t : String) → length (d.queues t) ≤ length (d0.queues t)

-- A check that fails ends the block.
stops {ℓ} :
    {B : Type ℓ} (test : Bool) (code : Error) (rest : Unit {0} → Result B)
    → test ≡ true
    → (raise_if test code >>= rest) ≡ raise code
stops true code rest h = refl
stops false code rest h = cc

same-IsShut :
    (d0 d d' : Dispatcher)
    → d'.is_down ≡ d.is_down
    → d'.waiters ≡ d.waiters
    → d'.queues ≡ d.queues
    → IsShut d0 d
    → IsShut d0 d'
same-IsShut d0 d d' a b c v = record {
  down = a ∙ v.down;
  idle = λ t. ap (λ f. f t) b ∙ v.idle t;
  quiet = λ t. subst (λ f. length (f t) ≤ length (d0.queues t)) (sym c) (v.quiet t);
}

dispatch-shut :
    (w : World) (q : Request) (d : Dispatcher) → d.is_down ≡ true → (dispatch w q d).1 ≡ d
unfolding dispatch plan_of
dispatch-shut w q d h =
    let e = stops d.is_down dispatcher_closed _ h in ap (λ p. (after_plan w q d p).1) e

announce-shut :
    (w : World) (q : Announcement) (d : Dispatcher) → d.is_down ≡ true → (announce w q d).1 ≡ d
unfolding announce broadcast_plan
announce-shut w q d h =
    let e = stops d.is_down dispatcher_closed _ h in ap (λ p. (after_broadcast_plan w q d p).1) e

bot_emit-shut :
    (w : World) (q : Emission) (d : Dispatcher) → d.is_down ≡ true → (bot_emit w q d).1 ≡ d
unfolding bot_emit emit_plan
bot_emit-shut w q d h =
    let e = stops d.is_down dispatcher_closed _ h in ap (λ p. (after_emit_plan w q d p).1) e

flush-shut :
    (w : World) (iid : String) (f : Filter) (d : Dispatcher)
    → d.is_down ≡ true
    → (flush w iid f d).1 ≡ d
unfolding flush
flush-shut w iid f d h = ground arith

begin_wait-shut :
    (iid : String) (future : ℕ) (d : Dispatcher)
    → d.is_down ≡ true
    → (begin_wait iid future d).1 ≡ d
unfolding begin_wait
begin_wait-shut iid future d h = ground arith

system_notify-shut :
    (w : World) (target : String) (payload : Value) (d : Dispatcher)
    → d.is_down ≡ true
    → (system_notify w target payload d).1 ≡ d
unfolding system_notify
system_notify-shut w target payload d h = ground arith

expire-shut :
    (fresh : ℕ → String) (now : ℕ) (d : Dispatcher)
    → d.is_down ≡ true
    → (expire_overdue_deadlines fresh now d).1 ≡ d
unfolding expire_overdue_deadlines
expire-shut fresh now d h = ground arith

pop_command-length :
    (cmd_id : String) (l rest : List Envelope)
    → pop_command cmd_id l ≡ some rest
    → length rest ≤ length l
unfolding pop_command
pop_command-length cmd_id [] rest h = absurd (ground arith)
pop_command-length cmd_id (e ∷ es) rest h = elim (Bool-cases (e.id == cmd_id)) [
  | inl hit ↦ ground arith
  | inr miss ↦ elim (Option-cases (pop_command cmd_id es)) [
    | inl gone ↦ absurd (ground arith)
    | inr (r, found) ↦ let x = pop_command-length cmd_id es r found in ground arith
  ]
]

note_popped-IsShut :
    (d0 : Dispatcher) (cmd_id t : String) (o : Option (List Envelope)) (s : Dispatcher × Cancelled)
    → pop_command cmd_id (s.0.queues t) ≡ o
    → IsShut d0 s.0
    → IsShut d0 (note_popped t o s).0
note_popped-IsShut d0 cmd_id t none s e v = v
note_popped-IsShut d0 cmd_id t (some rest) s e v = record {
  down = v.down;
  idle = v.idle;
  quiet =
      λ u. ground (arith, eq_iff t u, v.quiet u, pop_command-length cmd_id (s.0.queues t) rest e);
}

take_back-IsShut :
    (d0 : Dispatcher) (cmd_id : String) (ts : List String) (s : Dispatcher × Cancelled)
    → IsShut d0 s.0
    → IsShut d0 (take_back cmd_id ts s).0
unfolding take_back
take_back-IsShut d0 cmd_id [] s v = v
take_back-IsShut d0 cmd_id (t ∷ ts) s v =
    take_back-IsShut d0 cmd_id ts _ (note_popped-IsShut d0 cmd_id t _ s refl v)

mark_all_dropped-IsShut :
    (d0 : Dispatcher) (commits : Bool) (now : ℕ) (cmd_id : String) (ts : List String)
    (d : Dispatcher)
    → IsShut d0 d
    → IsShut d0 (mark_all_dropped commits now cmd_id ts d)
unfolding mark_all_dropped submit
mark_all_dropped-IsShut d0 commits now cmd_id [] d v = v
mark_all_dropped-IsShut d0 true now cmd_id (t ∷ ts) d v = same-IsShut d0 d _ refl refl refl v
mark_all_dropped-IsShut d0 false now cmd_id (t ∷ ts) d v = v

cancel_locked-IsShut :
    (d0 : Dispatcher) (w : World) (caller cmd_id : String) (d : Dispatcher)
    → IsShut d0 d
    → IsShut d0 (cancel_locked w caller cmd_id d).1
unfolding cancel_locked
cancel_locked-IsShut d0 w caller cmd_id d v =
    let s =
      take_back cmd_id (sort_by str_lt (pending_targets caller cmd_id d.in_flight))
        (d, record { command_id = cmd_id; cancelled = []; already_consumed = [] }) in
    mark_all_dropped-IsShut d0 _ _ _ _ _
      (same-IsShut d0 s.0 _ refl refl refl (take_back-IsShut d0 cmd_id _ _ v))

cancel-IsShut :
    (d0 : Dispatcher) (w : World) (caller cmd_id : String) (d : Dispatcher)
    → IsShut d0 d
    → IsShut d0 (cancel w caller cmd_id d).1
unfolding cancel
cancel-IsShut d0 w caller cmd_id d v =
    let cases : ((cancel w caller cmd_id d).1 ≡ d)
        ⊎ ((cancel w caller cmd_id d).1 ≡ (cancel_locked w caller cmd_id d).1) =
      ground arith in
    elim cases [
      | inl e ↦ subst (IsShut d0) (sym e) v
      | inr e ↦ subst (IsShut d0) (sym e) (cancel_locked-IsShut d0 w caller cmd_id d v)
    ]

touch-down : (now : ℕ) (iid : String) (d : Dispatcher) → (touch now iid d).is_down ≡ d.is_down
unfolding touch
touch-down now iid d = ground arith

Step-IsShut : {d e : Dispatcher} (d0 : Dispatcher) → Step d e → IsShut d0 d → IsShut d0 e
unfolding cancel_future forget_waiter remove_first end_wait close
Step-IsShut d0 (dispatching {d} w q) v = subst (IsShut d0) (sym (dispatch-shut w q d v.down)) v
Step-IsShut d0 (announcing {d} w q) v = subst (IsShut d0) (sym (announce-shut w q d v.down)) v
Step-IsShut d0 (emitting {d} w q) v = subst (IsShut d0) (sym (bot_emit-shut w q d v.down)) v
Step-IsShut d0 (flushing {d} w iid f) v = subst (IsShut d0) (sym (flush-shut w iid f d v.down)) v
Step-IsShut d0 (beginning_wait {d} iid future) v =
    subst (IsShut d0) (sym (begin_wait-shut iid future d v.down)) v
Step-IsShut d0 (cancelling_future {d} future) v =
    same-IsShut d0 d _ (ground arith) (ground arith) (ground arith) v
Step-IsShut d0 (forgetting_waiter {d} iid future) v = record {
  down = v.down;
  idle = λ t. ground (arith, eq_iff iid t, v.idle t, v.idle iid);
  quiet = v.quiet;
}
Step-IsShut d0 (ending_wait {d} now iid) v =
    let s = touch-same now iid d in
    same-IsShut d0 d (touch now iid d) (touch-down now iid d) s.1 s.0 v
Step-IsShut d0 (notifying {d} w target payload) v =
    subst (IsShut d0) (sym (system_notify-shut w target payload d v.down)) v
Step-IsShut d0 (expiring {d} fresh now) v =
    subst (IsShut d0) (sym (expire-shut fresh now d v.down)) v
Step-IsShut d0 (cancelling {d} w caller cmd_id) v = cancel-IsShut d0 w caller cmd_id d v
Step-IsShut d0 (closing {d} ids) v = record { down = refl; idle = λ t. refl; quiet = v.quiet }
Step-IsShut d0 (administering {d} r b s m c) v = same-IsShut d0 d _ refl refl refl v

-- After `close`, whatever is called in whatever order, the router stays closed, nobody waits for an
-- inbox, and no inbox holds more messages than it did.
pub Reach-IsShut :
    {d : Dispatcher} (ids : List String) {e : Dispatcher} → Reach (close ids d) e → IsShut d e
unfolding close
Reach-IsShut {d} ids here = record { down = refl; idle = λ t. refl; quiet = λ t. omega arith }
Reach-IsShut {d} ids (next r s) = Step-IsShut d s (Reach-IsShut ids r)

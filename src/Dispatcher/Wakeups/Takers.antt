-- ===== src/Dispatcher/Wakeups/Takers.antt =====
-- src/agent_agora/dispatcher.py: `expire_overdue_deadlines` and `cancel` keep the inboxes awake.
use agent_agora.Dispatcher.{World, World, Dispatcher, Dispatcher, ◌∷◌}
use agent_agora.Prelude.{
  ℕ, String, String, String, Bool, List, List, List, Dict, ◌≡◌, some, sort_by, ◌⊎◌, [], [], str_lt,
  arith, [], [], [], inl, subst, subst, inr, sym, sym, eq_iff, refl, Option, none,
}
use agent_agora.Dispatcher.Cancel.{
  pop_command, take_back, mark_all_dropped, cancel_locked, cancel, Cancelled, pending_targets,
  note_popped,
}
use agent_agora.Dispatcher.Deadlines.{
  emit_timeout, emit_timeouts, notify_sources, expire_command, expire_commands,
  expire_overdue_deadlines, Clerk, Clerk, Clerk, overdue,
}
use agent_agora.Dispatcher.Wait.{system_envelope}
use agent_agora.Dispatcher.Wakeups.{IsAwake, IsAwake, IsAwake, wake-push-IsAwake, same-IsAwake}
use agent_agora.Envelope.{Envelope}
use agent_agora.Dispatcher.Wakeups.Readers.{submit-same, fewer-IsAwake}

module _ (fresh : ℕ → String) (now : ℕ) where
  emit_timeout-IsAwake :
      (source cmd_id target : String) (k : Clerk)
      → IsAwake k.router
      → IsAwake (emit_timeout fresh now source cmd_id target k).router
  unfolding emit_timeout system_envelope
  emit_timeout-IsAwake source cmd_id target k v = wake-push-IsAwake _ k.router v

  emit_timeouts-IsAwake :
      (source cmd_id : String) (ts : List String) (k : Clerk)
      → IsAwake k.router
      → IsAwake (emit_timeouts fresh now source cmd_id ts k).router
  unfolding emit_timeouts
  emit_timeouts-IsAwake source cmd_id [] k v = v
  emit_timeouts-IsAwake source cmd_id (t ∷ ts) k v =
      emit_timeouts-IsAwake source cmd_id ts _ (emit_timeout-IsAwake source cmd_id t k v)

  notify_sources-IsAwake :
      (cmd_id : String) (m : Dict (Dict (List String))) (k : Clerk)
      → IsAwake k.router
      → IsAwake (notify_sources fresh now cmd_id m k).router
  unfolding notify_sources
  notify_sources-IsAwake cmd_id [] k v = v
  notify_sources-IsAwake cmd_id ((source, pending) ∷ m) k v =
      notify_sources-IsAwake cmd_id m _ (emit_timeouts-IsAwake source cmd_id _ k v)

  expire_command-IsAwake :
      (cmd_id : String) (k : Clerk)
      → IsAwake k.router
      → IsAwake (expire_command fresh now cmd_id k).router
  unfolding expire_command
  expire_command-IsAwake cmd_id k v =
      let k1 = notify_sources fresh now cmd_id k.router.in_flight k in
      same-IsAwake k1.router _ (λ i. k1.router.queues) (λ i. k1.router.waiters)
        (notify_sources-IsAwake cmd_id k.router.in_flight k v)

  expire_commands-IsAwake :
      (cs : List String) (k : Clerk)
      → IsAwake k.router
      → IsAwake (expire_commands fresh now cs k).router
  unfolding expire_commands
  expire_commands-IsAwake [] k v = v
  expire_commands-IsAwake (c ∷ cs) k v = expire_commands-IsAwake cs _ (expire_command-IsAwake c k v)

  pub expire_overdue_deadlines-IsAwake :
      (d : Dispatcher) → IsAwake d → IsAwake (expire_overdue_deadlines fresh now d).1
  unfolding expire_overdue_deadlines
  expire_overdue_deadlines-IsAwake d v =
      let k =
        expire_commands fresh now (overdue fresh now d.deadlines)
          (record { router = d; next = 0; expired = [] }) in
      let same : ((expire_overdue_deadlines fresh now d).1 ≡ d)
          ⊎ (((expire_overdue_deadlines fresh now d).1.queues ≡ k.router.queues)
              × ((expire_overdue_deadlines fresh now d).1.waiters ≡ k.router.waiters)) =
        ground arith in
      elim same [
        | inl e ↦ subst IsAwake (sym e) v
        | inr e ↦
            same-IsAwake k.router _ e.0 e.1
              (expire_commands-IsAwake (overdue fresh now d.deadlines) _ v)
      ]

pop_command-some :
    (cmd_id : String) (l rest : List Envelope) → pop_command cmd_id l ≡ some rest → ¬ (l ≡ [])
unfolding pop_command
pop_command-some cmd_id [] rest h = absurd (ground arith)
pop_command-some cmd_id (e ∷ es) rest h = λ x. ground arith

note_popped-IsAwake :
    (cmd_id t : String) (o : Option (List Envelope)) (s : Dispatcher × Cancelled)
    → pop_command cmd_id (s.0.queues t) ≡ o
    → IsAwake s.0
    → IsAwake (note_popped t o s).0
note_popped-IsAwake cmd_id t none s e v = v
note_popped-IsAwake cmd_id t (some rest) s e v =
    fewer-IsAwake s.0 (note_popped t (some rest) s).0
      (λ u busy. ground (arith, eq_iff t u, pop_command-some cmd_id (s.0.queues t) rest e))
      (λ u x. x) v

take_back-IsAwake :
    (cmd_id : String) (ts : List String) (s : Dispatcher × Cancelled)
    → IsAwake s.0
    → IsAwake (take_back cmd_id ts s).0
unfolding take_back
take_back-IsAwake cmd_id [] s v = v
take_back-IsAwake cmd_id (t ∷ ts) s v =
    take_back-IsAwake cmd_id ts _ (note_popped-IsAwake cmd_id t _ s refl v)

mark_all_dropped-same :
    (commits : Bool) (now : ℕ) (cmd_id : String) (ts : List String) (d : Dispatcher)
    → ((mark_all_dropped commits now cmd_id ts d).queues ≡ d.queues)
      × ((mark_all_dropped commits now cmd_id ts d).waiters ≡ d.waiters)
unfolding mark_all_dropped
mark_all_dropped-same commits now cmd_id [] d = (refl, refl)
mark_all_dropped-same commits now cmd_id (t ∷ ts) d = submit-same commits _ d

cancel_locked-IsAwake :
    (w : World) (caller cmd_id : String) (d : Dispatcher)
    → IsAwake d
    → IsAwake (cancel_locked w caller cmd_id d).1
unfolding cancel_locked
cancel_locked-IsAwake w caller cmd_id d v =
    let targets = sort_by str_lt (pending_targets caller cmd_id d.in_flight) in
    let s = (mark_all_dropped-same w.commits w.now cmd_id _ _) in
    same-IsAwake _ (cancel_locked w caller cmd_id d).1 s.0 s.1 (
      take_back-IsAwake cmd_id targets
        (d, record { command_id = cmd_id; cancelled = []; already_consumed = [] }) v)

pub cancel-IsAwake :
    (w : World) (caller cmd_id : String) (d : Dispatcher)
    → IsAwake d
    → IsAwake (cancel w caller cmd_id d).1
unfolding cancel
cancel-IsAwake w caller cmd_id d v =
    let cases : ((cancel w caller cmd_id d).1 ≡ d)
        ⊎ ((cancel w caller cmd_id d).1 ≡ (cancel_locked w caller cmd_id d).1) =
      ground arith in
    elim cases [
      | inl e ↦ subst IsAwake (sym e) v
      | inr e ↦ subst IsAwake (sym e) (cancel_locked-IsAwake w caller cmd_id d v)
    ]

-- ===== src/Dispatcher/Replies/Expired.antt =====
-- src/agent_agora/dispatcher.py, `expire_overdue_deadlines`: nothing that is overdue stays awaited.
use agent_agora.Dispatcher.{Dispatcher, wake, push, ◌∷◌, some}
use agent_agora.Prelude.{
  ℕ, ℕ, String, String, Option, List, Dict, List, ◌≡◌, lookup, lookup, if◌then◌else◌, if◌then◌else◌,
  false, or_default, ◌==◌, ◌==◌, elem, elem, [], [], [], arith, arith, ◌∙◌, arith, refl, eq_iff,
  lookup-remove, none,
}
use agent_agora.Dispatcher.Cancel.{pending_targets}
use agent_agora.Dispatcher.Deadlines.{
  emit_timeouts, notify_sources, expire_command, expire_commands, expire_overdue_deadlines,
  forget_command, emit_timeout, Clerk, forget_targets, overdue,
}

forget_targets-pending :
    (fresh : ℕ → String) (now : ℕ) (cmd_id c : String) (o : Option (List String))
    (pending : Dict (List String))
    → lookup cmd_id pending ≡ o
    → or_default (lookup c (forget_targets fresh now cmd_id o pending)) []
      ≡ (if cmd_id == c then [] else or_default (lookup c pending) [])
forget_targets-pending fresh now cmd_id c none pending h = ground (arith, eq_iff cmd_id c)
forget_targets-pending fresh now cmd_id c (some []) pending h = ground (arith, eq_iff cmd_id c)
forget_targets-pending fresh now cmd_id c (some (t ∷ ts)) pending h =
    ground (arith, lookup-remove cmd_id c pending)

module _ (fresh : ℕ → String) (now : ℕ) where
  forget_command-pending :
      (cmd_id s c : String) (m : Dict (Dict (List String)))
      → pending_targets s c (forget_command fresh now cmd_id m)
        ≡ (if cmd_id == c then [] else pending_targets s c m)
  unfolding pending_targets forget_command lookup
  forget_command-pending cmd_id s c [] = ground arith
  forget_command-pending cmd_id s c ((source, pending) ∷ m) = ground (
    arith,
    forget_targets-pending fresh now cmd_id c (lookup cmd_id pending) pending refl,
    forget_command-pending cmd_id s c m,
  )

  emit_timeouts-pending :
      (source cmd_id : String) (ts : List String) (k : Clerk)
      → ((emit_timeouts fresh now source cmd_id ts k).router.in_flight ≡ k.router.in_flight)
  unfolding emit_timeouts emit_timeout wake push
  emit_timeouts-pending source cmd_id [] k = refl
  emit_timeouts-pending source cmd_id (t ∷ ts) k =
      emit_timeouts-pending source cmd_id ts (emit_timeout fresh now source cmd_id t k)

  notify_sources-pending :
      (cmd_id : String) (m : Dict (Dict (List String))) (k : Clerk)
      → (notify_sources fresh now cmd_id m k).router.in_flight ≡ k.router.in_flight
  unfolding notify_sources
  notify_sources-pending cmd_id [] k = refl
  notify_sources-pending cmd_id ((source, pending) ∷ m) k =
      notify_sources-pending cmd_id m
        (emit_timeouts fresh now source cmd_id (or_default (lookup cmd_id pending) []) k)
      ∙ emit_timeouts-pending source cmd_id (or_default (lookup cmd_id pending) []) k

  expire_command-pending :
      (cmd_id s c : String) (k : Clerk)
      → pending_targets s c (expire_command fresh now cmd_id k).router.in_flight
        ≡ (if cmd_id == c then [] else pending_targets s c k.router.in_flight)
  unfolding expire_command
  expire_command-pending cmd_id s c k = forget_command-pending cmd_id s c k.router.in_flight

  expire_commands-pending :
      (cs : List String) (s c : String) (k : Clerk)
      → pending_targets s c (expire_commands fresh now cs k).router.in_flight
        ≡ (if elem c cs then [] else pending_targets s c k.router.in_flight)
  unfolding expire_commands
  expire_commands-pending [] s c k = refl
  expire_commands-pending (x ∷ xs) s c k = ground (
    arith,
    expire_commands-pending xs s c (expire_command fresh now x k),
    expire_command-pending x s c k,
  )

  -- A sweep on an open router stops the wait for every answer of an overdue command, and for no other.
  pub expire_overdue_deadlines-pending :
      (d : Dispatcher) (s c : String)
      → d.is_down ≡ false
      → pending_targets s c (expire_overdue_deadlines fresh now d).1.in_flight
        ≡ (if elem c (overdue fresh now d.deadlines) then [] else pending_targets s c d.in_flight)
  unfolding expire_overdue_deadlines
  expire_overdue_deadlines-pending d s c up = ground (
    arith,
    expire_commands-pending (overdue fresh now d.deadlines) s c
        (record { router = d; next = 0; expired = [] }),
  )

-- ===== src/Dispatcher/Wakeups/Readers.antt =====
-- src/agent_agora/dispatcher.py: readers, waiters and the sweeps keep an inbox awake.
use agent_agora.Dispatcher.Wakeups.{IsAwake, IsAwake, same-IsAwake, wake-push-IsAwake}
use agent_agora.Dispatcher.Wait.{
  forget_waiter, system_notify, end_wait, close, begin_wait, remove_first, system_envelope,
}
use agent_agora.Dispatcher.Flush.{
  touch, drain, mark_all_drained, drained_by, flush, Filter, Filter, Filter,
}
use agent_agora.Dispatcher.{Dispatcher, World, wake, Statement, push, update, ◌∷◌}
use agent_agora.Prelude.{
  ℕ, ℕ, List, String, String, String, String, String, String, ◌≡◌, arith, arith, ◌≡◌, refl, [],
  eq_iff, eq_iff, inl, inr, none, ◌⊎◌, Bool, keep, subst, true, sym, ◌∙◌, sym, false, ap,
}
use agent_agora.Json.{Value}
use agent_agora.Dispatcher.Fanout.{submit}
use agent_agora.Envelope.{Envelope}

-- Fewer messages, and no more waiters.
pub fewer-IsAwake :
    (d d' : Dispatcher)
    → ((t : String) → ¬ (d'.queues t ≡ []) → ¬ (d.queues t ≡ []))
    → ((t : String) → d.waiters t ≡ [] → d'.waiters t ≡ [])
    → IsAwake d
    → IsAwake d'
unfolding IsAwake
fewer-IsAwake d d' less none_more v = λ t busy. none_more t (v t (less t busy))

pub begin_wait-IsAwake :
    (iid : String) (future : ℕ) (d : Dispatcher) → IsAwake d → IsAwake (begin_wait iid future d).1
unfolding IsAwake begin_wait
begin_wait-IsAwake iid future d v = λ t busy. ground (arith, v t, eq_iff iid t)

pub forget_waiter-IsAwake :
    (iid : String) (future : ℕ) (d : Dispatcher) → IsAwake d → IsAwake (forget_waiter iid future d)
unfolding forget_waiter remove_first
forget_waiter-IsAwake iid future d v =
    fewer-IsAwake d _ (λ t busy. busy) (λ t e. ground (arith, eq_iff iid t)) v

pub system_notify-IsAwake :
    (w : World) (target : String) (payload : Value) (d : Dispatcher)
    → IsAwake d
    → IsAwake (system_notify w target payload d).1
unfolding system_notify system_envelope
system_notify-IsAwake w target payload d v =
    let e = system_envelope w.cmd_id target w.fresh_id none w.now payload in
    let cases : ((system_notify w target payload d).1 ≡ d)
        ⊎ ((system_notify w target payload d).1 ≡ wake target (push e d)) =
      ground arith in
    elim cases [
      | inl f ↦ subst IsAwake (sym f) v
      | inr f ↦ subst IsAwake (sym f) (wake-push-IsAwake e d v)
    ]

pub touch-same :
    (now : ℕ) (iid : String) (d : Dispatcher)
    → ((touch now iid d).queues ≡ d.queues) × ((touch now iid d).waiters ≡ d.waiters)
unfolding touch
touch-same now iid d = ground arith

pub end_wait-IsAwake :
    (now : ℕ) (iid : String) (d : Dispatcher) → IsAwake d → IsAwake (end_wait now iid d).1
unfolding end_wait
end_wait-IsAwake now iid d v =
    let s = touch-same now iid d in same-IsAwake d (touch now iid d) s.0 s.1 v

pub close-IsAwake : (ids : List String) (d : Dispatcher) → IsAwake d → IsAwake (close ids d)
unfolding close IsAwake
close-IsAwake ids d v = λ t busy. refl

keep-some : {A : Type 0} (p : A → Bool) (l : List A) → ¬ (keep p l ≡ []) → ¬ (l ≡ [])
keep-some p [] h = h
keep-some p (x ∷ xs) h = λ e. ground arith

-- What stays in an inbox was there.
drain-fewer : (f : Filter) (l : List Envelope) → ¬ ((drain f l).1 ≡ []) → ¬ (l ≡ [])
unfolding drain
drain-fewer f [] h = h
drain-fewer f (e ∷ es) h = λ x. ground arith

pub submit-same :
    (commits : Bool) (txn : List Statement) (d : Dispatcher)
    → ((submit commits txn d).1.queues ≡ d.queues) × ((submit commits txn d).1.waiters ≡ d.waiters)
unfolding submit
submit-same true txn d = (refl, refl)
submit-same false txn d = (refl, refl)

pub mark_all_drained-same :
    (commits : Bool) (now : ℕ) (iid : String) (es : List Envelope) (d : Dispatcher)
    → ((mark_all_drained commits now iid es d).queues ≡ d.queues)
      × ((mark_all_drained commits now iid es d).waiters ≡ d.waiters)
unfolding mark_all_drained
mark_all_drained-same commits now iid [] d = (refl, refl)
mark_all_drained-same commits now iid (e ∷ es) d = submit-same commits _ d

drained_by-IsAwake :
    (w : World) (iid : String) (f : Filter) (d : Dispatcher)
    → IsAwake d
    → IsAwake (drained_by w iid f d).1
unfolding drained_by
drained_by-IsAwake w iid f d v =
    let d' = (drained_by w iid f d).1 in
    let q : d'.queues ≡ update iid (drain f (d.queues iid)).1 d.queues =
      (mark_all_drained-same _ _ _ _ _).0 ∙ (touch-same _ _ _).0 in
    let ws : d'.waiters ≡ d.waiters = (mark_all_drained-same _ _ _ _ _).1 ∙ (touch-same _ _ _).1 in
    fewer-IsAwake d d'
      (λ t busy. ground (arith, eq_iff iid t, drain-fewer f (d.queues iid), ap (λ g. g t) q))
      (λ t e. ap (λ g. g t) ws ∙ e) v

pub flush-IsAwake :
    (w : World) (iid : String) (f : Filter) (d : Dispatcher)
    → IsAwake d
    → IsAwake (flush w iid f d).1
unfolding flush
flush-IsAwake w iid f d v =
    let cases : ((flush w iid f d).1 ≡ d) ⊎ ((flush w iid f d).1 ≡ (drained_by w iid f d).1) =
      ground arith in
    elim cases [
      | inl e ↦ subst IsAwake (sym e) v
      | inr e ↦ subst IsAwake (sym e) (drained_by-IsAwake w iid f d v)
    ]

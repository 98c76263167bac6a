-- ===== src/Dispatcher/Drained.antt =====
-- src/agent_agora/dispatcher.py, `flush`: what leaves an inbox, in which order, and what stays.
use agent_agora.Dispatcher.{Dispatcher, World, update, ◌∷◌}
use mathlib.Core.List.{Perm}
use agent_agora.Prelude.{
  Bool, Bool, Bool, ℕ, List, List, List, List, List, String, String, String, String, String, String,
  ◌≡◌, ◌≡◌, keep, not, ◌≡◌, ◌≡◌, ◌≡◌, ◌≡◌, ◌≡◌, ◌≡◌, ◌≡◌, ◌≡◌, ◌≡◌, ◌≡◌, true, true, [], true, true,
  true, map, arith, arith, arith, ◌&&◌, arith, Bool-cases, false, false, false, arith, sort_by, sym,
  str_lt_asym, IsSorted, ◌∙◌, sort_by-perm, refl, inl, if◌then◌else◌, sort_by-IsSorted, inr, ◌==◌,
  eq_iff, ap,
}
use agent_agora.Dispatcher.Flush.{
  Filter, drain, fifo_lt, priority_lt, order_of, flush, drained_by, drained_by, matches, is_given,
  keep_or_nil, with_age, with_age,
}
use agent_agora.Envelope.{Envelope, Envelope}
use agent_agora.Errors.{ok, ok, ok}
use agent_agora.Dispatcher.Wakeups.Readers.{mark_all_drained-same, touch-same}
use agent_agora.CommMatrix.{weight_of}

keep_all : {A : Type 0} (p : A → Bool) (l : List A) → ((x : A) → p x ≡ true) → keep p l ≡ l
keep_all p [] h = refl
keep_all p (x ∷ xs) h = ground (arith, h x, keep_all p xs h)

keep_no :
    {A : Type 0} (p : A → Bool) (l : List A) → ((x : A) → p x ≡ true) → keep (λ x. not (p x)) l ≡ []
keep_no p [] h = refl
keep_no p (x ∷ xs) h = ground (arith, h x, keep_no p xs h)

keep_rest : {A : Type 0} (p : A → Bool) (l : List A) → keep p l ≡ [] → keep (λ x. not (p x)) l ≡ l
keep_rest p [] h = refl
keep_rest p (x ∷ xs) h = ground (arith, keep_rest p xs)

free-matches :
    (f : Filter)
    → (not (is_given f.from_sources) && not (is_given f.by_conversation)) ≡ true
    → (e : Envelope) → matches f e ≡ true
unfolding matches
free-matches f h e = ground arith

keep_or_nil-exact :
    (f : Filter) (l out : List Envelope)
    → out ≡ keep (matches f) l
    → keep_or_nil out l (keep (λ e. not (matches f e)) l)
      ≡ (keep (matches f) l, keep (λ e. not (matches f e)) l)
keep_or_nil-exact f l [] h = ground (arith, keep_rest (matches f) l (sym h))
keep_or_nil-exact f l (e ∷ es) h = ground arith

-- Whatever path it takes, the drain splits the inbox by `_matches`.
pub drain-exact :
    (f : Filter) (l : List Envelope)
    → drain f l ≡ (keep (matches f) l, keep (λ e. not (matches f e)) l)
unfolding drain
drain-exact f [] = refl
drain-exact f (e ∷ es) =
    elim (Bool-cases (not (is_given f.from_sources) && not (is_given f.by_conversation))) [
      | inl free ↦
          let every : (x : Envelope) → matches f x ≡ true = free-matches f free in
          rw free
            (rw (keep_all (matches f) (e ∷ es) every, keep_no (matches f) (e ∷ es) every) refl)
      | inr given ↦ rw given (keep_or_nil-exact f (e ∷ es) (keep (matches f) (e ∷ es)) refl)
    ]

fifo_lt_asym : (a b : Envelope) → fifo_lt a b ≡ true → fifo_lt b a ≡ false
unfolding fifo_lt
fifo_lt_asym a b h = ground (arith, str_lt_asym a.id b.id)

priority_lt_asym :
    (weight : Envelope → ℕ) (a b : Envelope)
    → priority_lt weight a b ≡ true
    → priority_lt weight b a ≡ false
unfolding priority_lt
priority_lt_asym weight a b h = ground (arith, fifo_lt_asym a b)

order_of_asym :
    (f : Filter) (iid : String) (d : Dispatcher) (a b : Envelope)
    → order_of f iid d a b ≡ true
    → order_of f iid d b a ≡ false
unfolding order_of
order_of_asym f iid d a b h =
    ground (arith, fifo_lt_asym a b, priority_lt_asym (λ e. weight_of d.comm e.source iid) a b)

-- What a flush returns, and the inboxes that it leaves.
pub record Flushed (now : ℕ) (iid : String) (f : Filter) (d d' : Dispatcher) (out : List Envelope)
    : Type 0 where
  pub sorted : List Envelope
  pub aged : out ≡ map (with_age now) sorted
  pub complete : Perm sorted (keep (matches f) (d.queues iid))
  pub ordered : IsSorted (order_of f iid d) sorted
  pub left :
      (t : String)
      → d'.queues t ≡ (if iid == t then keep (λ e. not (matches f e)) (d.queues t) else d.queues t)

pub flush-drained_by :
    (w : World) (iid : String) (f : Filter) (d d' : Dispatcher) (out : List Envelope)
    → flush w iid f d ≡ (ok out, d')
    → drained_by w iid f d ≡ (ok out, d')
unfolding flush
flush-drained_by w iid f d d' out h = ground arith

drained_by-queues :
    (w : World) (iid : String) (f : Filter) (d : Dispatcher)
    → (drained_by w iid f d).1.queues ≡ update iid (drain f (d.queues iid)).1 d.queues
unfolding drained_by
drained_by-queues w iid f d = (mark_all_drained-same _ _ _ _ _).0 ∙ (touch-same _ _ _).0

pub drained_by-out :
    (w : World) (iid : String) (f : Filter) (d : Dispatcher)
    → (drained_by w iid f d).0
      ≡ ok (map (with_age w.now) (sort_by (order_of f iid d) (drain f (d.queues iid)).0))
unfolding drained_by
drained_by-out w iid f d = refl

-- A flush that returns gives exactly the messages of the inbox that match, each with its age, sorted
-- by priority or by age as asked for. The others stay in place, as do all other inboxes.
pub flush-Flushed :
    (w : World) (iid : String) (f : Filter) (d d' : Dispatcher) (out : List Envelope)
    → flush w iid f d ≡ (ok out, d')
    → Flushed w.now iid f d d' out
flush-Flushed w iid f d d' out h =
    let e = flush-drained_by w iid f d d' out h in
    let x = drain-exact f (d.queues iid) in
    let q = drained_by-queues w iid f d in
    let o = drained_by-out w iid f d in
    let sorted = sort_by (order_of f iid d) (keep (matches f) (d.queues iid)) in
    record {
      sorted = sorted;
      aged = ground arith;
      complete = sort_by-perm (order_of f iid d) (keep (matches f) (d.queues iid));
      ordered =
          sort_by-IsSorted (order_of f iid d) (order_of_asym f iid d)
            (keep (matches f) (d.queues iid));
      left = λ t. ground (arith, eq_iff iid t, ap (λ g. g t) q);
    }

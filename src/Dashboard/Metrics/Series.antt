-- ===== src/Dashboard/Metrics/Series.antt =====
-- src/agent_agora/dashboard/metrics.py: whose series are kept, and how long they are.
use agent_agora.Dashboard.LogBuffer.{append_bounded}
use agent_agora.Prelude.{
  ℕ, ◌∷◌, List, String, lookup, length, String, ◌≤◌, Dict, Dict, ◌≤◌, Dict, Option, Option, Option,
  Dict, arith, All, has_key, All, length-append, or_default, ◌≡◌, ◌≡◌, ◌≡◌, [], elem, [], [], elem,
  elem, [], [], ◌&&◌, Option-cases, insert, keys, keys, refl, eq_iff, All-insert, ◌||◌, not, inl,
  lookup-insert, false, inr, All-lookup,
}
use agent_agora.Dashboard.Metrics.{
  Collector, Rates, sample_workers, sample_workers, sample_workers, sample, WorkerSample, keep_live,
  keep_live, worker_sample, elapsed_since,
}
use agent_agora.Dispatcher.Views.{Glance, Glance, Glance, Glance}

append_bounded-fits :
    {A : Type 0} (n : ℕ) (x : A) (l : List A) → length l ≤ n → length (append_bounded n x l) ≤ n
append_bounded-fits n x [] h = ground arith
append_bounded-fits n x (y ∷ ys) h = ground (arith, length-append ys (x ∷ []))

module _ {V : Type 0} (P : String × V → Type 0) where
  All-keep_live : (live : List String) (d : Dict V) → All P d → All P (keep_live live d)
  All-keep_live live [] a = tt
  All-keep_live live ((k, v) ∷ d) a = ground (arith, All-keep_live live d a.1)

has_key-keep_live :
    {V : Type 0} (live : List String) (d : Dict V) (k : String)
    → has_key k (keep_live live d) ≡ (elem k live && has_key k d)
unfolding lookup
has_key-keep_live live [] k = ground arith
has_key-keep_live live ((j, v) ∷ d) k = ground (arith, has_key-keep_live live d k, eq_iff j k)

module _ {F : Type 0} where
  -- No series is longer than the capacity.
  abbrev pub IsShort : Collector F → Type 0
  IsShort c = (length c.global_series ≤ c.capacity) × All (λ e. length e.1 ≤ c.capacity) c.workers

  short-or_default :
      (iid : String) (n : ℕ) (d : Dict (List (WorkerSample F)))
      → All (λ e. length e.1 ≤ n) d
      → length (or_default (lookup iid d) []) ≤ n
  short-or_default iid n d a = elim (Option-cases (lookup iid d)) [
    | inl absent ↦ rw absent (omega arith)
    | inr (l, found) ↦ rw found (All-lookup (λ e. length e.1 ≤ n) iid d a found)
  ]

  sample_workers-IsShort :
      (r : Rates F) (now : ℕ) (elapsed : Option ℕ) (ps : Dict (Option Glance)) (c : Collector F)
      → IsShort c
      → IsShort (sample_workers r now elapsed ps c)
  unfolding sample_workers
  sample_workers-IsShort r now elapsed [] c v = v
  sample_workers-IsShort r now elapsed ((iid, g) ∷ ps) c v =
      let x = worker_sample r now elapsed c iid g in
      let old = or_default (lookup iid c.workers) [] in
      let l = append_bounded c.capacity x old in
      sample_workers-IsShort r now elapsed ps (record c { workers = insert iid l c.workers })
        (
          v.0,
          All-insert (λ e. length e.1 ≤ c.capacity) iid l c.workers
              (append_bounded-fits c.capacity x old (short-or_default iid c.capacity c.workers v.1))
              v.1,
        )

  sample_workers-has_key :
      (r : Rates F) (now : ℕ) (elapsed : Option ℕ) (ps : Dict (Option Glance)) (c : Collector F)
      (k : String)
      → has_key k (sample_workers r now elapsed ps c).workers
        ≡ (elem k (keys ps) || has_key k c.workers)
  unfolding sample_workers
  sample_workers-has_key r now elapsed [] c k = refl
  sample_workers-has_key r now elapsed ((iid, g) ∷ ps) c k =
      let x = worker_sample r now elapsed c iid g in
      let l = append_bounded c.capacity x (or_default (lookup iid c.workers) []) in
      ground (
        arith,
        sample_workers-has_key r now elapsed ps (record c { workers = insert iid l c.workers }) k,
        lookup-insert iid k l c.workers,
        eq_iff iid k,
      )

  sample_workers-capacity :
      (r : Rates F) (now : ℕ) (elapsed : Option ℕ) (ps : Dict (Option Glance)) (c : Collector F)
      → (sample_workers r now elapsed ps c).capacity ≡ c.capacity
  unfolding sample_workers
  sample_workers-capacity r now elapsed [] c = refl
  sample_workers-capacity r now elapsed ((iid, g) ∷ ps) c =
      sample_workers-capacity r now elapsed ps _

  -- After a tick exactly the workers that were seen have a series, no counter of another worker is
  -- left, and no series is longer than the capacity if none was before.
  pub sample-IsShort :
      (r : Rates F) (now err_total : ℕ) (peeked : Dict (Option Glance)) (c : Collector F)
      → IsShort c
      → IsShort (sample r now err_total peeked c).1
        × ((k : String)
            → has_key k (sample r now err_total peeked c).1.workers ≡ elem k (keys peeked))
        × ((k : String)
            → (has_key k (sample r now err_total peeked c).1.arrivals && not (elem k (keys peeked)))
              ≡ false)
  unfolding sample
  sample-IsShort r now err_total peeked c v =
      let elapsed = elapsed_since now c.last_t in
      let g = (sample r now err_total peeked c).0 in
      let c1 = record c { global_series = append_bounded c.capacity g c.global_series } in
      let c2 = sample_workers r now elapsed peeked c1 in
      let live = keys peeked in
      let short : IsShort c2 =
        sample_workers-IsShort r now elapsed peeked c1
          (append_bounded-fits c.capacity g c.global_series v.0, v.1) in
      (
        (short.0, All-keep_live (λ e. length e.1 ≤ c2.capacity) live c2.workers short.1),
        (λ k. ground (
          arith,
          has_key-keep_live live c2.workers k,
          sample_workers-has_key r now elapsed peeked c1 k,
        )),
        (λ k. ground (arith, has_key-keep_live live c2.arrivals k)),
      )

-- ===== src/Dashboard/Metrics.antt =====
-- src/agent_agora/dashboard/metrics.py: the series of the collector. A rate is a float: its type and
-- the division of `_rate` are parameters.
pub mod Series
use agent_agora.Envelope.{Envelope}
use agent_agora.Prelude.{
  ◌∷◌, ℕ, Dict, ◌+◌, Option, Option, Dict, Option, Option, List, Option, Dict, insert, String,
  String, some, or_default, or_default, keep, ◌-◌, keys, none, suc, lookup, lookup, elem, zero, [],
  [],
}
use agent_agora.Dashboard.LogBuffer.{append_bounded}
use agent_agora.Dispatcher.Views.{Glance, Glance, Glance, Glance}

-- `(cur - prev) / elapsed * 60.0`, and `0.0`
pub record Rates (F : Type 0) : Type 0 where
  pub per_minute : (cur prev elapsed : ℕ) → F
  pub no_rate : F

module _ (F : Type 0) where
  pub record GlobalSample : Type 0 where
    pub ts : ℕ
    pub dispatch_rate_per_min : F
    pub error_rate_per_min : F
    pub total_inbox_depth : ℕ

  pub record WorkerSample : Type 0 where
    pub ts : ℕ
    pub inbox_depth : ℕ
    pub dispatch_rate_per_min : F

  pub record Collector : Type 0 where
    pub capacity : ℕ
    pub dispatch_count : ℕ
    pub arrivals : Dict ℕ
    pub global_series : List GlobalSample
    pub workers : Dict (List WorkerSample)
    pub last_t : Option ℕ
    pub last_dispatch : ℕ
    pub last_err : ℕ
    pub last_arrivals : Dict ℕ

-- `p.get("queue_depth") or 0`
abbrev pub depth_of : Option Glance → ℕ
depth_of none = 0
depth_of (some g) = g.queue_depth

unfoldable pub total_depth : Dict (Option Glance) → ℕ
total_depth [] = 0
total_depth ((iid, g) ∷ ps) = depth_of g + total_depth ps

-- `for k in [k for k in d if k not in live]: del d[k]`
abbrev pub keep_live {ℓ} : {V : Type ℓ} → List String → Dict V → Dict V
keep_live live = keep (λ e. elem e.0 live)

abbrev pub elapsed_since : ℕ → Option ℕ → Option ℕ
elapsed_since now none = none
elapsed_since now (some t) = some (now - t)

module _ {F : Type 0} where
  -- The hook on each dispatched envelope.
  unfoldable pub on_dispatch : Envelope → Collector F → Collector F
  on_dispatch e c = record c {
    dispatch_count = c.dispatch_count + 1;
    arrivals = insert e.target (or_default (lookup e.target c.arrivals) 0 + 1) c.arrivals;
  }

  -- `if elapsed and elapsed > 0`
  unfoldable pub rate_of : Rates F → (cur prev : ℕ) → (elapsed : Option ℕ) → F
  rate_of r cur prev none = r.no_rate
  rate_of r cur prev (some zero) = r.no_rate
  rate_of r cur prev (some (suc n)) = r.per_minute cur prev (suc n)

  unfoldable pub worker_sample :
      Rates F
      → (now : ℕ) (elapsed : Option ℕ) → Collector F
      → (iid : String) → Option Glance
      → WorkerSample F
  unfolding rate_of
  worker_sample r now elapsed c iid g = record {
    ts = now;
    inbox_depth = depth_of g;
    dispatch_rate_per_min =
        rate_of r (or_default (lookup iid c.arrivals) 0) (or_default (lookup iid c.last_arrivals) 0)
          elapsed;
  }

  -- `self._workers.setdefault(iid, deque(maxlen=…)).append(…)`, for each worker
  unfoldable pub sample_workers :
      Rates F → (now : ℕ) (elapsed : Option ℕ) → Dict (Option Glance) → Collector F → Collector F
  unfolding worker_sample
  sample_workers r now elapsed [] c = c
  sample_workers r now elapsed ((iid, g) ∷ ps) c =
      let x = worker_sample r now elapsed c iid g in
      sample_workers r now elapsed ps (record c {
        workers =
            insert iid (append_bounded c.capacity x (or_default (lookup iid c.workers) []))
              c.workers;
      })

  -- One tick, at a clock that is not set back. The rates are of the counters since the last tick.
  unfoldable pub sample :
      Rates F
      → (now err_total : ℕ) → Dict (Option Glance)
      → Collector F
      → GlobalSample F × Collector F
  unfolding rate_of total_depth sample_workers
  sample r now err_total peeked c =
      let elapsed = elapsed_since now c.last_t in
      let g : GlobalSample F = record {
        ts = now;
        dispatch_rate_per_min = rate_of r c.dispatch_count c.last_dispatch elapsed;
        error_rate_per_min = rate_of r err_total c.last_err elapsed;
        total_inbox_depth = total_depth peeked;
      } in
      let c1 =
        sample_workers r now elapsed peeked
          (record c { global_series = append_bounded c.capacity g c.global_series }) in
      let live = keys peeked in
      let arrivals = keep_live live c1.arrivals in
      (
        g,
        record c1 {
          workers = keep_live live c1.workers;
          arrivals = arrivals;
          last_t = some now;
          last_dispatch = c1.dispatch_count;
          last_err = err_total;
          last_arrivals = arrivals;
        },
      )

-- ===== src/Dashboard/LogBuffer/Newest.antt =====
-- src/agent_agora/dashboard/logbuffer.py: the buffer is a window on all that was logged.
use agent_agora.Text.{pos}
use agent_agora.Prelude.{
  ℕ, List, length, length, String, ◌≤◌, ◌≤◌, ◌≡◌, Option, [], newest, ◌+◌, ◌++◌, ◌++◌, keep, some,
  arith, map, suc, newest_short, length-append, append-nil, length-newest, ap, newest-append,
  append_assoc,
}
use agent_agora.Dashboard.LogBuffer.{
  LogHandler, LogRecord, emit, emit, emit, records, counts, ◌∷◌, append_bounded, MinLevel, is_error,
  entry_of, no_logs, at_least,
}

pub append_bounded-newest {ℓ} :
    {A : Type ℓ} (n : ℕ) (x : A) (l : List A)
    → length l ≤ n
    → append_bounded n x l ≡ newest n (l ++ x ∷ [])
append_bounded-newest n x [] h = ground arith
append_bounded-newest n x (y ∷ ys) h = ground (
  arith,
  newest_short n (ys ++ x ∷ []),
  newest_short n (y ∷ ys ++ x ∷ []),
  length-append ys (x ∷ []),
)

-- All that was logged, one record after the other.
unfoldable pub emit_all : List LogRecord → LogHandler → LogHandler
unfolding emit
emit_all [] h = h
emit_all (r ∷ rs) h = emit_all rs (emit r h)

emit_all-entries :
    (rs : List LogRecord) (h : LogHandler)
    → length h.entries ≤ h.capacity
    → (emit_all rs h).entries ≡ newest h.capacity (h.entries ++ map entry_of rs)
unfolding emit_all emit
emit_all-entries [] h fits =
    ground (arith, newest_short h.capacity h.entries fits, append-nil h.entries)
emit_all-entries (r ∷ rs) h fits = ground (
  arith,
  emit_all-entries rs (emit r h),
  append_bounded-newest h.capacity (entry_of r) h.entries fits,
  length-newest h.capacity (h.entries ++ entry_of r ∷ []),
  newest-append h.capacity (h.entries ++ entry_of r ∷ []) (map entry_of rs),
  append_assoc h.entries (entry_of r ∷ []) (map entry_of rs),
)

emit_all-counts :
    (rs : List LogRecord) (h : LogHandler)
    → counts (emit_all rs h)
      ≡ (h.total_emitted + length rs, h.total_errors + length (keep is_error rs))
unfolding emit_all emit counts
emit_all-counts [] h = ground arith
emit_all-counts (r ∷ rs) h = ground (arith, emit_all-counts rs (emit r h))

-- After any records, a view of the newest `limit` entries from a level on, for a positive limit, is
-- what the whole history would show of its newest `capacity` entries, oldest first; and the counters
-- have counted every record and every error, also those that left the buffer.
pub records-newest :
    (upper : String → String) (limit capacity : ℕ) (min_level : Option MinLevel)
    (rs : List LogRecord)
    → (records upper (some (pos (suc limit))) min_level (emit_all rs (no_logs capacity))
        ≡ newest (suc limit) (at_least upper min_level (newest capacity (map entry_of rs))))
      × (counts (emit_all rs (no_logs capacity)) ≡ (length rs, length (keep is_error rs)))
unfolding records
records-newest upper limit capacity min_level rs =
    let e = emit_all-entries rs (no_logs capacity) (omega arith) in
    (
      ap (λ l. newest (suc limit) (at_least upper min_level l)) e,
      ground (arith, emit_all-counts rs (no_logs capacity)),
    )

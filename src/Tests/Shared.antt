-- ===== src/Tests/Shared.antt =====
-- Shared files, the buffers of the dashboard and the ids of operators, run.
use Prim.Native.String.{count}
use agent_agora.Files.{Libraries, no_policy, can_upload, can_upload, can_download, matching}
use agent_agora.Files.Routes.{
  sent, failed, Upload, Response, Response, upload, upload, denied, read_stream, declares_too_much,
  download,
}
use agent_agora.Errors.{ok, file_too_large}
use agent_agora.Prelude.{
  none, some, false, ℕ, List, Dict, [], ◌∷◌, ◌≡◌, String, ◌-◌, ◌∷◌, Option, length, ◌↔◌, has_key,
  keep, ltb, elem, newest, keys, true, not, true, ◌&&◌, map, refl, arith, insert, lookup,
}
use agent_agora.Files.Store.{
  Digests, FileStore, Handle, store_bytes, record_file, file_meta, path_of,
}
use agent_agora.Registry.Operator.{strip_operator_prefix, operator_id}
use agent_agora.Dashboard.LogBuffer.{
  records, records, LogRecord, error_level, name, emit, no_logs, at_least, entry_of, counts,
  is_error,
}
use agent_agora.Dashboard.Metrics.{Rates, Collector, sample}
use agent_agora.Dashboard.Metrics.Series.{IsShort, sample-IsShort}
use agent_agora.Text.{pos}
use agent_agora.Dashboard.LogBuffer.Newest.{emit_all, records-newest}
use agent_agora.Dispatcher.Views.{Glance}
use agent_agora.Files.Routes.Shared.{IsShared, upload-download}
use agent_agora.Registry.Operator.RoundTrip.{strip_operator_prefix-operator_id}

-- No file policy is loaded, and no library is called.
abbrev libraries : Libraries
libraries = record { loads = λ t. none; compile = λ t. none; match_file = λ v n. ok false }

abbrev digests : Digests
digests = record { sha256 = λ b. "digest"; guess_type = λ n. none }

abbrev no_files : FileStore
no_files = record { directory = []; table = []; max_bytes = 5 }

-- A body of two chunks, as long as the bound.
abbrev notes : Upload
notes = record {
  worker = some "alice";
  file_name = some "notes.txt";
  content_length = none;
  chunks = (1 ∷ 2 ∷ []) ∷ (3 ∷ 4 ∷ 5 ∷ []) ∷ [];
}

abbrev no_handle : Handle
no_handle = record { file_id = ""; name = ""; size = 0; sha256 = "" }

abbrev uploaded : Response Handle × FileStore
uploaded = upload libraries digests 7 "f1" no_policy notes no_files

abbrev handle_or_none : Response Handle → Handle
handle_or_none (sent h) = h
handle_or_none (denied s e) = no_handle
handle_or_none (failed e) = no_handle

-- Later another file is uploaded.
abbrev with_more : FileStore
with_more = (upload libraries digests 8 "f2" no_policy notes uploaded.1).1

upload-download_example :
    (can_upload libraries no_policy "alice" "notes.txt" ≡ ok true)
    × IsShared digests "f1" "notes.txt" (1 ∷ 2 ∷ 3 ∷ 4 ∷ 5 ∷ []) no_files uploaded.1
    × ((type : String) × (download libraries no_policy
            (some "bob")
            (handle_or_none uploaded.0).file_id
            with_more
          ≡ sent (record {
            content = 1 ∷ 2 ∷ 3 ∷ 4 ∷ 5 ∷ [];
            media_type = type;
            filename = "notes.txt";
          })))
unfolding upload can_upload can_download read_stream store_bytes record_file declares_too_much
    matching file_meta path_of insert lookup
upload-download_example =
    upload-download libraries digests 7 "f1" no_policy no_policy notes no_files uploaded.1 with_more
      (handle_or_none uploaded.0) (some "bob") refl refl refl refl

-- One byte more is refused while it is read.
too_long :
    upload libraries digests 7 "f1" no_policy
      (record notes { chunks = (6 ∷ []) ∷ notes.chunks })
      no_files
    ≡ (denied 413 file_too_large, no_files)
unfolding upload can_upload read_stream declares_too_much matching
too_long = refl

strip_operator_prefix-operator_id_example :
    (strip_operator_prefix (operator_id "ann") ≡ some "ann")
    ↔ ((operator_id "ann" ≡ operator_id "ann") × (ltb 0 (count "ann") ≡ true))
strip_operator_prefix-operator_id_example =
    strip_operator_prefix-operator_id (operator_id "ann") "ann"

abbrev logged : ℕ → String → LogRecord
logged n text = record {
  created = n;
  levelname = "ERROR";
  levelno = error_level;
  logger = "agora";
  formatted = none;
  raw = text;
}

abbrev history : List LogRecord
history = logged 1 "a" ∷ logged 2 "b" ∷ logged 3 "c" ∷ []

records-newest_example :
    (records (λ s. s) (some (pos 1)) (some (name "ERROR")) (emit_all history (no_logs 2))
      ≡ newest 1 (at_least (λ s. s) (some (name "ERROR")) (newest 2 (map entry_of history))))
    × (counts (emit_all history (no_logs 2)) ≡ (length history, length (keep is_error history)))
records-newest_example = records-newest (λ s. s) 0 2 (some (name "ERROR")) history

-- With the limit 0 all records are returned.
limit_zero : length (records (λ s. s) (some (pos 0)) none (emit_all history (no_logs 2))) ≡ 2
unfolding records emit_all emit
limit_zero = refl

-- The rates are the plain differences.
abbrev differences : Rates ℕ
differences = record { per_minute = λ cur prev elapsed. cur - prev; no_rate = 0 }

abbrev no_samples : Collector ℕ
no_samples = record {
  capacity = 2;
  dispatch_count = 1;
  arrivals = ("bob", 1) ∷ [];
  global_series = [];
  workers = [];
  last_t = none;
  last_dispatch = 0;
  last_err = 0;
  last_arrivals = [];
}

abbrev seen : Dict (Option Glance)
seen = ("alice", none) ∷ []

sample-IsShort_example :
    IsShort (sample differences 4 0 seen no_samples).1
    × ((k : String)
        → has_key k (sample differences 4 0 seen no_samples).1.workers ≡ elem k (keys seen))
    × ((k : String)
        → (has_key k (sample differences 4 0 seen no_samples).1.arrivals
            && not (elem k (keys seen)))
          ≡ false)
sample-IsShort_example = sample-IsShort differences 4 0 seen no_samples (omega arith, tt)

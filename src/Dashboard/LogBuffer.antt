-- ===== src/Dashboard/LogBuffer.antt =====
-- src/agent_agora/dashboard/logbuffer.py: the newest log records, in a deque of bounded length.
pub mod Newest
use agent_agora.Text.{ℤ, pos, negsuc}
use agent_agora.Prelude.{
  ℕ, String, String, List, [], Bool, or_default, List, ◌+◌, String, String, String, String, List,
  Option, String, leb, if◌then◌else◌, if◌then◌else◌, some, suc, ◌==◌, keep, newest, ◌∷◌, ◌||◌, none,
  zero, none, ◌++◌, ltb, length,
}

-- What the handler reads of a `LogRecord`: `getMessage()`, where it does not raise, and the raw text.
pub record LogRecord : Type 0 where
  pub created : ℕ
  pub levelname : String
  pub levelno : ℕ
  pub logger : String
  pub formatted : Option String
  pub raw : String

pub record LogEntry : Type 0 where
  pub time : ℕ
  pub level : String
  pub levelno : ℕ
  pub logger : String
  pub message : String

pub record LogHandler : Type 0 where
  pub entries : List LogEntry
  pub capacity : ℕ
  pub total_emitted : ℕ
  pub total_errors : ℕ

abbrev pub no_logs : ℕ → LogHandler
no_logs capacity = record { entries = []; capacity = capacity; total_emitted = 0; total_errors = 0 }

-- `logging.ERROR`
abbrev pub error_level : ℕ
error_level = 40

abbrev pub is_error : LogRecord → Bool
is_error r = leb error_level r.levelno

unfoldable pub entry_of : LogRecord → LogEntry
entry_of r = record {
  time = r.created;
  level = r.levelname;
  levelno = r.levelno;
  logger = r.logger;
  message = or_default r.formatted r.raw;
}

abbrev pub rest_of {ℓ} : {A : Type ℓ} → List A → List A
rest_of [] = []
rest_of (x ∷ xs) = xs

-- A `deque` with `maxlen` drops from the left what does not fit.
abbrev pub append_bounded {ℓ} : {A : Type ℓ} → ℕ → A → List A → List A
append_bounded maxlen x l =
    let longer = l ++ x ∷ [] in if ltb maxlen (length longer) then rest_of longer else longer

unfoldable pub emit : LogRecord → LogHandler → LogHandler
unfolding entry_of
emit r h = record h {
  entries = append_bounded h.capacity (entry_of r) h.entries;
  total_emitted = h.total_emitted + 1;
  total_errors = if is_error r then h.total_errors + 1 else h.total_errors;
}

-- `counts`
unfoldable pub counts : LogHandler → ℕ × ℕ
counts h = (h.total_emitted, h.total_errors)

-- `logging.getLevelNamesMapping().get(name, 0)`
unfoldable pub level_of : String → ℕ
level_of name =
    if name == "CRITICAL" || name == "FATAL"
    then 50
    else if name == "ERROR"
    then error_level
    else if name == "WARN" || name == "WARNING"
    then 30
    else if name == "INFO"
    then 20
    else if name == "DEBUG"
    then 10
    else 0

pub data MinLevel : Type 0 where
  number : ℕ → MinLevel
  name : String → MinLevel

-- `upper` is the text's `upper()`.
abbrev pub threshold : (upper : String → String) → MinLevel → ℕ
threshold upper (number n) = n
threshold upper (name s) = level_of (upper s)

abbrev pub at_least : (upper : String → String) → Option MinLevel → List LogEntry → List LogEntry
at_least upper none l = l
at_least upper (some m) l = keep (λ e. leb (threshold upper m) e.levelno) l

abbrev pub drop : ℕ → List LogEntry → List LogEntry
drop zero l = l
drop (suc n) [] = []
drop (suc n) (e ∷ es) = drop n es

-- `items[-limit:]`: all of them for 0, and all but the first for a negative limit
abbrev pub last_of : Option ℤ → List LogEntry → List LogEntry
last_of none l = l
last_of (some (pos zero)) l = l
last_of (some (pos (suc n))) l = newest (suc n) l
last_of (some (negsuc n)) l = drop (suc n) l

unfoldable pub records :
    (upper : String → String) (limit : Option ℤ) (min_level : Option MinLevel)
    → LogHandler
    → List LogEntry
unfolding level_of
records upper limit min_level h = last_of limit (at_least upper min_level h.entries)

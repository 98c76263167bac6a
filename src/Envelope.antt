-- ===== src/Envelope.antt =====
-- src/agent_agora/envelope.py: a message as it lies in an inbox, and the checks of its parts. The
-- priority's text is checked where it comes in; a deadline under the lock, where the first envelope is made.
use agent_agora.Conversations.{Kind}
use agent_agora.Errors.{Result, ok, raise, invalid_priority, payload_too_large, invalid_deadline_ts}
use agent_agora.Prelude.{
  ℕ, String, ℕ, ℕ, String, if◌then◌else◌, if◌then◌else◌, ◌==◌, ltb, Bool, Option, List, true, none,
  some, false,
}
use agent_agora.Json.{Value}

pub data Priority : Type 0 where
  high normal low : Priority

pub data DeliveredAs : Type 0 where
  primary cc subscribed : DeliveredAs

-- `_PRIORITY_RANK`
unfoldable pub priority_rank : Priority → ℕ
priority_rank high = 0
priority_rank normal = 1
priority_rank low = 2

unfoldable pub validate_priority : String → Result Priority
validate_priority p =
    if p == "high"
    then ok high
    else if p == "normal"
    then ok normal
    else if p == "low"
    then ok low
    else raise invalid_priority

abbrev pub max_payload_bytes : ℕ
max_payload_bytes = 1_048_576

-- `size` is the number of bytes of the payload's JSON text.
unfoldable pub validate_payload_size : ℕ → Result ℕ
validate_payload_size size = if ltb max_payload_bytes size then raise payload_too_large else ok size

-- A deadline as a caller gives it: the instant of an ISO text, or a text that is none.
pub data DeadlineTs : Type 0 where
  instant : ℕ → DeadlineTs
  malformed : DeadlineTs

unfoldable pub validate_deadline_ts : Option DeadlineTs → Result (Option ℕ)
validate_deadline_ts none = ok none
validate_deadline_ts (some (instant t)) = ok (some t)
validate_deadline_ts (some malformed) = raise invalid_deadline_ts

abbrev pub is_raised : Result (Option ℕ) → Bool
is_raised (raise e) = true
is_raised (ok t) = false

abbrev pub value_or_none : Result (Option ℕ) → Option ℕ
value_or_none (raise e) = none
value_or_none (ok t) = t

-- The instant of a deadline that an envelope may carry.
unfoldable pub instant_of : Option DeadlineTs → Option ℕ
unfolding validate_deadline_ts
instant_of given = value_or_none (validate_deadline_ts given)

-- Whether `make_envelope` raises.
unfoldable pub is_malformed : Option DeadlineTs → Bool
unfolding validate_deadline_ts
is_malformed given = is_raised (validate_deadline_ts given)

pub record Envelope : Type 0 where
  pub id : String
  pub source : String
  pub target : String
  pub payload : Value
  pub created_at : ℕ
  pub expect_result : Bool
  pub reply_to : Option String
  pub cc_list : Option (List String)
  pub delivered_as : DeliveredAs
  pub dispatch_kind : Kind
  pub in_reply_to : Option String
  pub conversation_id : String
  pub closing : Bool
  pub priority : Priority
  pub deadline_ts : Option ℕ
  pub wait_age_ms : ℕ
  pub reply_only : Bool

-- ===== src/Errors.antt =====
-- src/agent_agora/errors.py and the exceptions of the modules around it: what an operation raises,
-- and the monad of the checks that may raise.
use agent_agora.Prelude.{if◌then◌else◌, Bool, true, false, ◌≡◌, refl, ◌⊎◌, inl, inr}

-- The codes of `AgoraError`, then the other exceptions, named after their messages.
pub data Error : Type 0 where
  payload_missing_msgtype unknown_msgtype schema_violation schema_immutable : Error
  schema_missing_msgtype no_route unhandled_schema comm_denied : Error
  comm_matrix_shape_mismatch comm_matrix_invalid_cell comm_matrix_invalid_pattern : Error
  comm_matrix_empty no_inbound_to_reply unknown_command not_command_owner : Error
  not_registered dispatcher_closed invalid_target reply_to_in_cc inbox_full : Error
  payload_too_large invalid_priority target_and_reply not_a_participant write_failed : Error
  unhashable bot_emit_not_a_bot description_required subscribe_required : Error
  cannot_subscribe_conversation schema_kind_not_bot_task session_unavailable : Error
  not_for_bots file_too_large file_policy_invalid key_error : Error
  file_upload_denied file_download_denied unknown_file attribute_error : Error
  value_error type_error invalid_deadline_ts : Error

-- What a call ends with: an exception, or the value that it returns.
pub data Result {ℓ} (A : Type ℓ) : Type ℓ where
  raise : Error → Result A
  ok : A → Result A

module _ {ℓ κ} {A : Type ℓ} {B : Type κ} where
  infixl 5 ◌>>=◌
  -- The next statement runs on the value, and an exception ends the block.
  abbrev pub ◌>>=◌ : Result A → (A → Result B) → Result B
  raise code >>= next = raise code
  ok value >>= next = next value

  -- A block that returned has run each of its steps.
  pub >>=-eq-ok :
      (first : Result A) (next : A → Result B) {result : B}
      → (first >>= next) ≡ ok result
      → (value : A) × (first ≡ ok value) × (next value ≡ ok result)
  >>=-eq-ok (raise code) next h = cc
  >>=-eq-ok (ok value) next h = (value, refl, h)

module _ {ℓ} {B : Type ℓ} where
  infixl 5 ◌>>◌
  abbrev pub ◌>>◌ : Result (Unit {0}) → Result B → Result B
  first >> rest = first >>= (λ u. rest)

-- `if test: raise code`
abbrev pub raise_if : (test : Bool) → Error → Result (Unit {0})
raise_if test code = if test then raise code else ok tt

pub raise_if-eq-ok :
    (test : Bool) (code : Error) (u : Unit {0}) → raise_if test code ≡ ok u → test ≡ false
raise_if-eq-ok false code u h = refl
raise_if-eq-ok true code u h = cc

pub Result-cases {ℓ} :
    {A : Type ℓ} (m : Result A) → ((a : A) × (m ≡ ok a)) ⊎ ((code : Error) × (m ≡ raise code))
Result-cases (raise code) = inr (code, refl)
Result-cases (ok a) = inl (a, refl)

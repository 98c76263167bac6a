-- ===== src/Dashboard/Credentials.antt =====
-- src/agent_agora/dashboard/auth.py: the checks of a password and of a signed token. base64, UTF-8,
-- SHA-256, PBKDF2, HMAC, JSON and the clock are parameters.
use Prim.Native.Char.{code}
use Prim.Native.String.{◌++◌ as append, len, slice}
use text.Mathlib.Text.{starts_with}
use agent_agora.Json.{Value, obj, str, null, Fields, get_field}
use agent_agora.Files.Store.{Bytes}
use agent_agora.Text.{ℤ, split, parse_int}
use agent_agora.Errors.{Result, ok, raise, ◌>>=◌, value_error, type_error, attribute_error}
use agent_agora.Prelude.{
  ◌∷◌, [], none, some, true, false, String, String, String, String, String, String, ℕ, String, Bool,
  Option, String, String, Bool, String, Option, Option, Option, String, String, String, String,
  String, String, Option, String, Option, Option, String, String, Option, Option, Option, Option,
  String, Option, Option, String, Option, if◌then◌else◌, List, List, List, nat_eq, leb, nat_eq,
  ◌&&◌, ◌==◌, ◌==◌, List, ◌==◌, ◌==◌, ◌==◌,
}

-- `none` is a `ValueError`; `is_past` is `time.time() >= float(exp)`, which may raise a `TypeError` too.
pub record Crypto : Type 0 where
  pub b64decode : String → Option Bytes
  pub decode_text : Bytes → Option String
  pub sha256_b64 : (plain : String) → String
  pub pbkdf2_hmac : (plain : String) (salt : Bytes) (iters : ℤ) → Option Bytes
  pub urlsafe_b64decode : String → Option Bytes
  pub hmac_sha256 : (secret input : String) → Bytes
  pub loads : Bytes → Option Value
  pub is_past : Value → Result Bool

-- `s.split(sep, 1)` where the separator is there
unfoldable pub split_once : (sep : ℕ) → String → Option (String × String)
split_once sep String.[] = none
split_once sep (String.◌∷◌ c s) =
    let rest = split_once sep s in
    if nat_eq (code c) sep
    then some (String.[], s)
    else elim rest [ none ↦ none | some (front, back) ↦ some (String.◌∷◌ c front, back) ]

unfoldable pub is_ascii : String → Bool
is_ascii String.[] = true
is_ascii (String.◌∷◌ c s) = leb (code c) 127 && is_ascii s

unfoldable pub bytes_eq : Bytes → Bytes → Bool
bytes_eq [] [] = true
bytes_eq (x ∷ xs) (y ∷ ys) = nat_eq x y && bytes_eq xs ys
bytes_eq _ _ = false

abbrev or_value_error {ℓ} : {A : Type ℓ} → Option A → Result A
or_value_error none = raise value_error
or_value_error (some a) = ok a

-- `pbkdf2_sha256$<iters>$<salt>$<hash>`, behind the first `$`
unfoldable pub verify_pbkdf2 : Crypto → (plain parts : String) → Result Bool
unfolding split_once bytes_eq parse_int
verify_pbkdf2 c plain parts = do
  iters_rest ← or_value_error (split_once 36 parts)
  salt_hash ← or_value_error (split_once 36 iters_rest.1)
  iters ← or_value_error (parse_int iters_rest.0)
  salt ← or_value_error (c.b64decode salt_hash.0)
  expected ← or_value_error (c.b64decode salt_hash.1)
  actual ← or_value_error (c.pbkdf2_hmac plain salt iters)
  ok (bytes_eq actual expected)

-- `compare_digest` of two texts, which have to be ASCII
unfoldable pub compare_texts : (actual expected : String) → Result Bool
unfolding is_ascii
compare_texts actual expected =
    if is_ascii actual && is_ascii expected then ok (actual == expected) else raise type_error

abbrev pub or_false : Result Bool → Result Bool
or_false (raise value_error) = ok false
or_false r = r

unfoldable pub verify_password : Crypto → (plain stored : String) → Result Bool
unfolding verify_pbkdf2 compare_texts
verify_password c plain stored =
    if starts_with stored "{SHA256}"
    then compare_texts (c.sha256_b64 plain) (slice stored (len "{SHA256}") (len stored))
    else if starts_with stored "pbkdf2_sha256$"
    then or_false (verify_pbkdf2 c plain (slice stored (len "pbkdf2_sha256$") (len stored)))
    else ok false

abbrev fields_of : Value → Result Fields
fields_of (obj fs) = ok fs
fields_of _ = raise attribute_error

-- `payload.get("exp")`: without one, or with `null`, a token does not expire.
abbrev expired_by : Crypto → Option Value → Result Bool
expired_by c none = ok false
expired_by c (some null) = ok false
expired_by c (some v) = c.is_past v

abbrev pub is_hs256 : Option Value → Bool
is_hs256 (some (str alg)) = alg == "HS256"
is_hs256 _ = false

-- `sub if isinstance(sub, str) and sub else None`
abbrev pub subject : Option Value → Option String
subject (some (str sub)) = if sub == "" then none else some sub
subject _ = none

-- `json.loads(_b64url_decode(s))`, whose `get` is called
unfoldable pub load_object : Crypto → String → Result Fields
load_object c s = do
  bytes ← or_value_error (c.urlsafe_b64decode s)
  v ← or_value_error (c.loads bytes)
  fields_of v

unfoldable pub read_claims : Crypto → (payload_b64 : String) → Result (Option String)
unfolding load_object get_field
read_claims c payload_b64 = do
  payload ← load_object c payload_b64
  expired ← expired_by c (get_field "exp" payload)
  ok (if expired then none else subject (get_field "sub" payload))

abbrev pub signing_input : (header_b64 payload_b64 : String) → String
signing_input header_b64 payload_b64 = append header_b64 (append "." payload_b64)

abbrev pub claims_if_signed :
    Crypto → (payload_b64 : String) (matches : Bool) → Result (Option String)
claims_if_signed c payload_b64 false = ok none
claims_if_signed c payload_b64 true = read_claims c payload_b64

unfoldable pub check_signature :
    Crypto → (secret header_b64 payload_b64 sig_b64 : String) → Result (Option String)
unfolding read_claims is_ascii bytes_eq
check_signature c secret header_b64 payload_b64 sig_b64 =
    let input = signing_input header_b64 payload_b64 in
    (if is_ascii input then ok (c.hmac_sha256 secret input) else raise value_error) >>= (λ expected.
      or_value_error (c.urlsafe_b64decode sig_b64)
      >>= (λ sig. claims_if_signed c payload_b64 (bytes_eq expected sig)))

unfoldable pub verify_parts : Crypto → (secret : String) → List String → Result (Option String)
unfolding load_object check_signature get_field
verify_parts c secret (header_b64 ∷ payload_b64 ∷ sig_b64 ∷ []) = do
  header ← load_object c header_b64
  if is_hs256 (get_field "alg" header)
      then check_signature c secret header_b64 payload_b64 sig_b64
      else ok none
verify_parts c secret _ = raise value_error

abbrev pub or_nobody : Result (Option String) → Result (Option String)
or_nobody (raise value_error) = ok none
or_nobody (raise type_error) = ok none
or_nobody r = r

unfoldable pub verify_jwt : Crypto → (tok secret : String) → Result (Option String)
unfolding split verify_parts
verify_jwt c tok secret = or_nobody (verify_parts c secret (split 46 tok))

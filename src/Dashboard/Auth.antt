-- ===== src/Dashboard/Auth.antt =====
-- src/agent_agora/dashboard/auth.py: who may call the paths of the operators.
pub mod Proven
pub mod Settings
use Prim.Native.Char.{code}
use Prim.Native.String.{◌++◌ as append, len, slice}
use text.Mathlib.Text.{starts_with}
use agent_agora.Json.{Value, obj, str, null, Fields, get_field}
use agent_agora.Files.Store.{Bytes}
use agent_agora.Text.{ℤ, split, strip, parse_int}
use agent_agora.Errors.{Result, ok, raise, ◌>>=◌, value_error, type_error, attribute_error, Error}
use agent_agora.Prelude.{
  ◌∷◌, [], none, some, true, false, String, Dict, lookup, Dict, String, String, String, String,
  String, ℕ, String, Bool, Option, String, String, Bool, String, Option, Option, Option, String,
  String, String, String, String, String, Option, String, Option, Option, String, String, Option,
  Option, Option, Option, String, Option, Option, String, Option, if◌then◌else◌, List, insert, List,
  List, nat_eq, leb, nat_eq, ◌&&◌, ◌==◌, ◌==◌, List, ◌==◌, ◌==◌, or_default, ◌==◌, has_key, ◌||◌,
}
use agent_agora.Dashboard.Credentials.{
  split_once, split_once, Crypto, Crypto, Crypto, Crypto, Crypto, verify_password, verify_jwt,
}

pub data Mode : Type 0 where
  trust token basic jwt : Mode

pub record Auth : Type 0 where
  pub mode : Mode
  pub token_to_user : Dict String
  pub users : Dict String
  pub jwt_secret : Option String
  pub protected_paths : List String
  pub query_param_paths : List String

-- The users by their tokens; two users may not share one.
unfoldable pub by_token : Dict String → Dict String → Result (Dict String)
unfolding lookup insert
by_token [] m = ok m
by_token ((user, tok) ∷ tokens) m =
    let rest = by_token tokens (insert tok user m) in
    if has_key tok m then raise value_error else rest

-- `__init__`, with a mode that is known
unfoldable pub make_auth :
    Mode
    → (tokens users : Dict String) (jwt_secret : Option String)
      (protected_paths query_param_paths : List String)
    → Result Auth
unfolding by_token
make_auth mode tokens users jwt_secret protected_paths query_param_paths = do
  m ← by_token tokens []
  ok (record {
    mode = mode;
    token_to_user = m;
    users = users;
    jwt_secret = jwt_secret;
    protected_paths = protected_paths;
    query_param_paths = query_param_paths;
  })

-- What is read of a request: the path, two headers, and the query's `t` and `u`.
pub record WebRequest : Type 0 where
  pub path : String
  pub authorization : Option String
  pub operator_user : Option String
  pub query_t : Option String
  pub query_u : Option String

unfoldable pub is_below : (path : String) → List String → Bool
is_below path [] = false
is_below path (p ∷ ps) = path == p || starts_with path (append p "/") || is_below path ps

unfoldable pub is_protected : Auth → String → Bool
unfolding is_below
is_protected a path = is_below path a.protected_paths

unfoldable pub is_query_param_path : Auth → String → Bool
unfolding is_below
is_query_param_path a path = is_below path a.query_param_paths

-- What stands behind a prefix, stripped.
unfoldable pub after_prefix : (prefix : String) → Option String → Option String
after_prefix prefix none = none
after_prefix prefix (some s) =
    if starts_with s prefix then some (strip (slice s (len prefix) (len s))) else none

-- The credentials of `Authorization: Basic`
abbrev credentials_in : Crypto → Option String → Option (String × String)
unfolding split_once
credentials_in c none = none
credentials_in c (some s) = elim (c.b64decode s) [
  | none ↦ none
  | some bytes ↦ elim (c.decode_text bytes) [ none ↦ none | some text ↦ split_once 58 text ]
]

unfoldable pub credentials : Crypto → WebRequest → Option (String × String)
unfolding after_prefix split_once strip
credentials c q = credentials_in c (after_prefix "Basic " q.authorization)

abbrev pub name_if : String → Result Bool → Result (Option String)
name_if name (raise e) = raise e
name_if name (ok b) = ok (if b then some name else none)

abbrev pub basic_with : Crypto → (plain name : String) → Option String → Result (Option String)
basic_with c plain name none = ok none
basic_with c plain name (some stored) = name_if name (verify_password c plain stored)

abbrev pub basic_user : Crypto → Auth → Option (String × String) → Result (Option String)
basic_user c a none = ok none
basic_user c a (some (name, plain)) = basic_with c plain name (lookup name a.users)

abbrev pub nonempty : String → Option String
nonempty s = if s == "" then none else some s

abbrev pub filled : Option String → Option String
filled none = none
filled (some s) = nonempty s

-- The token of a bearer, or else, where the path allows it, the query's.
unfoldable pub presented : Auth → WebRequest → Option String
unfolding after_prefix strip is_query_param_path
presented a q = elim (after_prefix "Bearer " q.authorization) [
  | some t ↦ some t
  | none ↦ if is_query_param_path a q.path then filled q.query_t else none
]

abbrev pub token_user : Auth → Option String → Option String
token_user a none = none
token_user a (some t) = lookup t a.token_to_user

abbrev pub jwt_user : Crypto → Auth → Option String → Result (Option String)
jwt_user c a none = ok none
jwt_user c a (some t) = if t == "" then ok none else verify_jwt c t (or_default a.jwt_secret "")

unfoldable pub trusted_user : Auth → WebRequest → Option String
unfolding strip is_query_param_path
trusted_user a q = elim (nonempty (strip (or_default q.operator_user ""))) [
  | some user ↦ some user
  | none ↦ if is_query_param_path a q.path then nonempty (strip (or_default q.query_u "")) else none
]

unfoldable pub resolve_user : Crypto → Auth → WebRequest → Result (Option String)
unfolding presented trusted_user credentials
resolve_user c a q = elim a.mode [
  | Mode.token ↦ ok (token_user a (presented a q))
  | Mode.basic ↦ basic_user c a (credentials c q)
  | Mode.jwt ↦ jwt_user c a (presented a q)
  | Mode.trust ↦ ok (trusted_user a q)
]

-- What becomes of a request: it goes on, as a user's where its path is protected, or not.
pub data Passage : Type 0 where
  open_path : Passage
  passed_as : (user : String) → Passage
  unauthorized : Passage
  broken : Error → Passage

abbrev pub passage : Result (Option String) → Passage
passage (raise e) = broken e
passage (ok none) = unauthorized
passage (ok (some user)) = if user == "" then unauthorized else passed_as user

unfoldable pub pass : Crypto → Auth → WebRequest → Passage
unfolding is_protected resolve_user
pass c a q = if is_protected a q.path then passage (resolve_user c a q) else open_path

-- ===== src/Tests/Callers.antt =====
-- Callers of the operators' paths, run.
use agent_agora.Json.{arr, nil}
use agent_agora.Errors.{ok, raise, attribute_error}
use agent_agora.Prelude.{◌∷◌, [], none, some, false, Dict, String, ◌≡◌, insert, lookup, refl}
use agent_agora.Dashboard.Credentials.{Crypto, verify_jwt, verify_parts, split_once, load_object}
use agent_agora.Dashboard.Auth.{
  Auth, WebRequest, make_auth, pass, Mode, by_token, is_protected, is_below, is_below, resolve_user,
  presented, open_path, after_prefix,
}
use agent_agora.Dashboard.Auth.Settings.{parse_tokens, parse_entries}
use agent_agora.Text.{split, strip}
use agent_agora.Dashboard.Auth.Proven.{HasShown, pass-HasShown}

-- Whatever is decoded is no object.
abbrev crypto : Crypto
crypto = record {
  b64decode = λ s. none;
  decode_text = λ b. none;
  sha256_b64 = λ s. s;
  pbkdf2_hmac = λ p s i. none;
  urlsafe_b64decode = λ s. some [];
  hmac_sha256 = λ s i. [];
  loads = λ b. some (arr nil);
  is_past = λ v. ok false;
}

abbrev ann_only : Dict String
ann_only = ("ann", "t1") ∷ []

abbrev auth : Auth
auth = record {
  mode = Mode.token;
  token_to_user = ("t1", "ann") ∷ [];
  users = [];
  jwt_secret = none;
  protected_paths = "/dashboard" ∷ [];
  query_param_paths = [];
}

abbrev from_ann : WebRequest
from_ann = record {
  path = "/dashboard/files";
  authorization = some "Bearer t1";
  operator_user = some "bob";
  query_t = none;
  query_u = none;
}

-- The token counts, and not the name in the other header.
pass-HasShown_example : HasShown crypto ann_only auth from_ann "ann" Mode.token
unfolding make_auth by_token pass is_protected is_below resolve_user presented after_prefix strip
pass-HasShown_example =
    pass-HasShown crypto Mode.token ann_only [] none ("/dashboard" ∷ []) [] auth from_ann "ann" refl
      refl

-- A path that only begins alike is open.
open_neighbour : pass crypto auth (record from_ann { path = "/dashboards" }) ≡ open_path
unfolding pass is_protected is_below
open_neighbour = refl

-- A token whose header is no object is not refused but breaks the handler.
no_object_header : verify_jwt crypto "a.b.c" "secret" ≡ raise attribute_error
unfolding verify_jwt split verify_parts load_object
no_object_header = refl

ann_of_text : parse_tokens " ann : t1 ,," ≡ ok ann_only
unfolding parse_tokens parse_entries split split_once strip insert lookup
ann_of_text = refl

-- ===== src/Registry/Operator.antt =====
-- src/agent_agora/registry/core.py: the `operator:` namespace. A text's length is its number of
-- characters, and the prefix is ASCII.
pub mod RoundTrip
use Prim.Native.String.{◌++◌ as append, count, len, slice}
use text.Mathlib.Text.{starts_with}
use agent_agora.Prelude.{String, Bool, false, Option, none, some, ltb, if◌then◌else◌}

abbrev pub operator_prefix : String
operator_prefix = "operator:"

unfoldable pub is_operator : String → Bool
is_operator iid =
    if starts_with iid operator_prefix then ltb (count operator_prefix) (count iid) else false

unfoldable pub operator_id : String → String
operator_id user = append operator_prefix user

unfoldable pub strip_operator_prefix : String → Option String
strip_operator_prefix iid =
    if is_operator iid then some (slice iid (len operator_prefix) (len iid)) else none

-- ===== src/Files.antt =====
-- src/agent_agora/files/policy.py: who may upload and download which file. `json`, `re` and `pathspec`
-- are parameters.
pub mod Store
pub mod Routes
pub mod Collected
use agent_agora.Json.{
  Fields, field, end, Value, obj, arr, cons, nil, get_field, get_field, has_field, str,
}
use agent_agora.Prelude.{
  ℕ, String, Dict, [], Option, Option, Option, String, lookup, String, Option, String, String,
  String, String, Bool, Bool, false, Bool, Bool, Bool, Bool, List, List, List, Bool, Bool, some,
  if◌then◌else◌, if◌then◌else◌, true, none, none, ◌∷◌, not,
}
use agent_agora.Errors.{
  file_policy_invalid, attribute_error, Result, ok, ok, raise, raise, raise, raise, ◌>>=◌, ◌>>=◌,
  ◌>>◌, raise_if,
}

-- `json.loads`, `re.compile` with `fullmatch`, and `PathSpec.from_lines("gitignore", …).match_file`,
-- which may raise on what is no list of texts.
pub record Libraries : Type 0 where
  pub loads : String → Option Value
  pub compile : String → Option (String → Bool)
  pub match_file : Value → String → Result Bool

pub record FilePolicy : Type 0 where
  pub workers : Fields
  pub compiled : Dict (String → Bool)
  pub active : Bool

abbrev pub no_policy : FilePolicy
no_policy = record { workers = end; compiled = []; active = false }

abbrev workers_of : Option Value → Result Fields
workers_of none = ok end
workers_of (some (obj workers)) = ok workers
workers_of (some _) = raise file_policy_invalid

abbrev compiled_or_raise : Option (String → Bool) → Result (String → Bool)
compiled_or_raise none = raise file_policy_invalid
compiled_or_raise (some p) = ok p

unfoldable pub compile_keys : Libraries → Fields → Result (Dict (String → Bool))
compile_keys libs end = ok []
compile_keys libs (field key v fs) = do
  p ← compiled_or_raise (libs.compile key)
  rest ← compile_keys libs fs
  ok ((key, p) ∷ rest)

abbrev object_of : Option Value → Result Fields
object_of (some (obj fs)) = ok fs
object_of _ = raise file_policy_invalid

-- `load_json`: the new policy, or an error, which leaves the old one in place.
unfoldable pub load_json : Libraries → String → Result FilePolicy
unfolding compile_keys get_field has_field
load_json libs text = do
  data_ ← object_of (libs.loads text)
  raise_if (has_field "fallback" data_) file_policy_invalid
  workers ← workers_of (get_field "workers" data_)
  compiled ← compile_keys libs workers
  ok (record { workers = workers; compiled = compiled; active = true })

abbrev pub fullmatches : String → Option (String → Bool) → Bool
fullmatches worker none = false
fullmatches worker (some p) = p worker

-- `[entry for key, entry in workers.items() if …fullmatch(worker_id) is not None]`
unfoldable pub matching_in : Dict (String → Bool) → String → Fields → List Value
unfolding lookup
matching_in compiled worker end = []
matching_in compiled worker (field key entry fs) =
    let rest = matching_in compiled worker fs in
    if fullmatches worker (lookup key compiled) then entry ∷ rest else rest

unfoldable pub matching : FilePolicy → String → List Value
unfolding matching_in
matching p worker = if not p.active then [] else matching_in p.compiled worker p.workers

abbrev given_or : Value → Option Value → Value
given_or default none = default
given_or default (some v) = v

-- `e.get(mode, default)`, an attribute error where the entry is no object
unfoldable pub patterns_of : (mode : String) (default : Value) → Value → Result Value
unfolding get_field
patterns_of mode default (obj entry) = ok (given_or default (get_field mode entry))
patterns_of mode default _ = raise attribute_error

-- `any(self._match(…) for e in entries)`, which stops at the first match.
unfoldable pub any_match :
    Libraries → (mode : String) (default : Value) (file_name : String) → List Value → Result Bool
unfolding patterns_of
any_match libs mode default file_name [] = ok false
any_match libs mode default file_name (e ∷ es) =
    let later = any_match libs mode default file_name es in
    patterns_of mode default e >>= (λ patterns.
      libs.match_file patterns file_name >>= (λ found. if found then ok true else later))

abbrev allowed_by :
    Libraries → (mode : String) (default : Value) (file_name : String) → List Value → Result Bool
allowed_by libs mode default file_name [] = ok true
allowed_by libs mode default file_name (e ∷ es) = any_match libs mode default file_name (e ∷ es)

unfoldable pub can_upload : Libraries → FilePolicy → (worker file_name : String) → Result Bool
unfolding matching any_match
can_upload libs p worker file_name = allowed_by libs "w" (arr nil) file_name (matching p worker)

unfoldable pub can_download : Libraries → FilePolicy → (worker file_name : String) → Result Bool
unfolding matching any_match
can_download libs p worker file_name =
    allowed_by libs "r" (arr (cons (str "*") nil)) file_name (matching p worker)

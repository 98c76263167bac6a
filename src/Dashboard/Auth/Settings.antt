-- ===== src/Dashboard/Auth/Settings.antt =====
-- src/agent_agora/dashboard/auth.py: the users and their tokens or hashes, as the environment gives them.
use agent_agora.Errors.{◌>>=◌, Result, ok, raise, value_error}
use agent_agora.Text.{split, strip}
use agent_agora.Dashboard.Credentials.{split_once}
use agent_agora.Prelude.{
  ◌∷◌, [], none, some, true, false, ◌||◌, Bool, Bool, insert, String, String, String, Dict, Option,
  List, List, Dict, Dict, if◌then◌else◌, if◌then◌else◌, if◌then◌else◌, ◌==◌, ◌==◌, ◌==◌, has_key,
  ◌&&◌, not,
}

-- What an entry must not do to the users before it.
abbrev pub add_user : (may_replace : Bool) → String → String → Dict String → Result (Dict String)
add_user may_replace user value users =
    if user == "" || value == ""
    then raise value_error
    else if has_key user users && not may_replace
    then raise value_error
    else ok (insert user value users)

abbrev pub add_entry :
    (may_replace : Bool) → Option (String × String) → Dict String → Result (Dict String)
unfolding strip
add_entry may_replace none users = raise value_error
add_entry may_replace (some (user, value)) users =
    add_user may_replace (strip user) (strip value) users

-- The loop over the entries; one that is blank is passed over.
unfoldable pub parse_entries :
    (may_replace : Bool) → List String → Dict String → Result (Dict String)
unfolding split_once strip insert
parse_entries may_replace [] users = ok users
parse_entries may_replace (entry ∷ entries) users =
    let rest = parse_entries may_replace entries users in
    if strip entry == ""
    then rest
    else add_entry may_replace (split_once 58 (strip entry)) users
      >>= parse_entries may_replace entries

abbrev entries_of : String → List String
entries_of value = if value == "" then [] else split 44 value

-- A user that stands twice is refused.
unfoldable pub parse_basic_users : String → Result (Dict String)
unfolding strip split parse_entries
parse_basic_users env_value = parse_entries false (entries_of (strip env_value)) []

-- The later token of a user replaces the earlier one.
unfoldable pub parse_tokens : String → Result (Dict String)
unfolding strip split parse_entries
parse_tokens env_value = parse_entries true (entries_of (strip env_value)) []

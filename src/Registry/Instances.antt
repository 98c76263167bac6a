-- ===== src/Registry/Instances.antt =====
-- src/agent_agora/registry/core.py: `InstanceInfo` and `InstanceRegistry`.
use agent_agora.Prelude.{ℕ, String, Bool, true, Option, none, some, List, []}
use agent_agora.Errors.{Result, ok, raise, not_registered}
use agent_agora.Registry.{Hooks, Registry, register_info, replace_and_store, list_all}

pub data WaitMode : Type 0 where
  auto manual unknown : WaitMode

pub record InstanceInfo : Type 0 where
  pub instance_id : String
  pub session_id : String
  pub role : String
  pub registered_at : ℕ
  pub description : String
  pub cwd : String
  pub wait_mode : WaitMode
  pub last_seen_at : Option ℕ
  pub accepting : Bool

-- A worker has no derived index: both hooks do nothing.
abbrev pub worker_hooks : Hooks InstanceInfo (Unit {0})
worker_hooks = record {
  session_id = λ i. i.session_id;
  instance_id = λ i. i.instance_id;
  on_store = λ i x. x;
  on_detach = λ i x. x;
}

abbrev pub InstanceRegistry : Type 0
InstanceRegistry = Registry InstanceInfo (Unit {0})

abbrev pub no_instances : InstanceRegistry
no_instances = record { by_session = []; by_instance = []; index = tt }

abbrev wait_mode_or_unknown : Option WaitMode → WaitMode
wait_mode_or_unknown none = unknown
wait_mode_or_unknown (some m) = m

-- `now` is the clock's reading for `registered_at`.
unfoldable pub register :
    (now : ℕ) (session_id instance_id role description cwd : String)
    → Option WaitMode
    → InstanceRegistry
    → InstanceRegistry × InstanceInfo
unfolding register_info
register now session_id instance_id role description cwd wait_mode r =
    let i : InstanceInfo = record {
      instance_id = instance_id;
      session_id = session_id;
      role = role;
      registered_at = now;
      description = description;
      cwd = cwd;
      wait_mode = wait_mode_or_unknown wait_mode;
      last_seen_at = none;
      accepting = true;
    } in
    (register_info worker_hooks i r, i)

unfoldable pub touch_last_seen : ℕ → String → InstanceRegistry → InstanceRegistry
unfolding replace_and_store
touch_last_seen now iid r =
    (replace_and_store worker_hooks (λ i. record i { last_seen_at = some now }) iid r).0

abbrev raise_if_missing : InstanceRegistry × Option InstanceInfo → Result InstanceRegistry
raise_if_missing (r, none) = raise not_registered
raise_if_missing (r, some i) = ok r

unfoldable pub set_accepting : String → Bool → InstanceRegistry → Result InstanceRegistry
unfolding replace_and_store
set_accepting iid accepting r =
    raise_if_missing
      (replace_and_store worker_hooks (λ i. record i { accepting = accepting }) iid r)

unfoldable pub list_instances : InstanceRegistry → List InstanceInfo
unfolding list_all
list_instances r = list_all r

-- ===== src/Registry.antt =====
-- src/agent_agora/registry/core.py, `_BidirectionalRegistry`: the two maps between sessions and
-- instances, with the hooks of the subclasses. `threading.Lock` makes each method one step.
pub mod Operator
pub mod Instances
pub mod Bots
pub mod Bijection
pub mod Routing
use agent_agora.Prelude.{String, Dict, lookup, insert, remove, values, Option, none, some, List}
use agent_agora.Errors.{Result, ok, raise, not_registered}

-- What the base class reads of an entry, and the hooks `_on_store_locked` and `_on_detach_locked`
-- on the derived index `X` of the subclass.
pub record Hooks (I X : Type 0) : Type 0 where
  pub session_id : I → String
  pub instance_id : I → String
  pub on_store : I → X → X
  pub on_detach : I → X → X

pub record Registry (I X : Type 0) : Type 0 where
  pub by_session : Dict I
  pub by_instance : Dict I
  pub index : X

module _ {I X : Type 0} (h : Hooks I X) where
  unfoldable pub detach : I → Registry I X → Registry I X
  detach i r = record {
    by_session = remove (h.session_id i) r.by_session;
    by_instance = remove (h.instance_id i) r.by_instance;
    index = h.on_detach i r.index;
  }

  -- `if prior is not None: self._detach_locked(prior)`
  unfoldable pub detach_prior : Option I → Registry I X → Registry I X
  unfolding detach
  detach_prior none r = r
  detach_prior (some i) r = detach i r

  unfoldable pub store : I → Registry I X → Registry I X
  store i r = record {
    by_session = insert (h.session_id i) i r.by_session;
    by_instance = insert (h.instance_id i) i r.by_instance;
    index = h.on_store i r.index;
  }

  unfoldable pub register_info : I → Registry I X → Registry I X
  unfolding detach_prior store
  register_info i r =
      let r1 = detach_prior (lookup (h.instance_id i) r.by_instance) r in
      let r2 = detach_prior (lookup (h.session_id i) r1.by_session) r1 in store i r2

  unfoldable pub unregister_session : String → Registry I X → Registry I X
  unfolding detach_prior
  unregister_session sid r = detach_prior (lookup sid r.by_session) r

  abbrev replace_found : (I → I) → String → Option I → Registry I X → Registry I X × Option I
  replace_found change iid none r = (r, none)
  replace_found change iid (some i) r = (
    record r {
      by_session = insert (h.session_id (change i)) (change i) r.by_session;
      by_instance = insert iid (change i) r.by_instance;
    },
    some (change i),
  )

  -- `replace(info, **changes)`, stored in both maps
  unfoldable pub replace_and_store : (I → I) → String → Registry I X → Registry I X × Option I
  replace_and_store change iid r = replace_found change iid (lookup iid r.by_instance) r

abbrev pub or_unregistered : {I : Type 0} → Option I → Result I
or_unregistered none = raise not_registered
or_unregistered (some i) = ok i

module _ {I X : Type 0} where
  unfoldable pub resolve_session : String → Registry I X → Result I
  resolve_session sid r = or_unregistered (lookup sid r.by_session)

  unfoldable pub resolve_instance_id : String → Registry I X → Result I
  resolve_instance_id iid r = or_unregistered (lookup iid r.by_instance)

  -- `_list_all`
  unfoldable pub list_all : Registry I X → List I
  list_all r = values r.by_instance

-- ===== src/Schemas.antt =====
-- src/agent_agora/storage/schemas.py, `SchemaRegistry`: the catalogue of message types, with a
-- reference count for what workers and bots register. jsonschema is the parameter `JsonSchema`.
pub mod Counting
use agent_agora.Json.{Value, str, obj, Fields, get_field, has_field, value_eq}
use agent_agora.Errors.{
  Result, ok, raise, schema_immutable, ◌>>◌, raise_if, schema_missing_msgtype, schema_violation,
}
use agent_agora.Prelude.{
  String, List, Bool, Dict, [], Option, Bool, String, String, String, Option, String, String,
  String, String, String, String, ℕ, false, insert, add, if◌then◌else◌, or_default, remove, discard,
  keys, ◌∷◌, some, lookup, elem, not, not, lookup, ◌++◌, none, has_key, ◌||◌,
}

pub data SchemaKind : Type 0 where
  conversation bot_task : SchemaKind

pub record SchemaEntry : Type 0 where
  pub name : String
  pub body : Value
  pub kind : SchemaKind
  pub purpose : String
  pub registered_at : ℕ
  pub registered_by : Option String

-- A compiled validator gives the messages of the errors that it finds, sorted by their path.
abbrev pub Validator : Type 0
Validator = Value → List String

-- `Draft202012Validator.check_schema` and the validator of a body.
pub record JsonSchema : Type 0 where
  pub is_schema : Value → Bool
  pub validator : Value → Validator

pub record SchemaRegistry : Type 0 where
  pub entries : Dict SchemaEntry
  pub validators : Dict Validator
  pub refs : Dict (List String)
  pub permanent : List String

abbrev pub no_schemas : SchemaRegistry
no_schemas = record { entries = []; validators = []; refs = []; permanent = [] }

abbrev has_msgtype_in : Option Value → Bool
has_msgtype_in (some (obj props)) = has_field "msgtype" props
has_msgtype_in _ = false

unfoldable pub has_msgtype_property : Value → Bool
unfolding has_field get_field
has_msgtype_property (obj body) = has_msgtype_in (get_field "properties" body)
has_msgtype_property _ = false

-- `self._refs.setdefault(name, set()).add(holder)`
unfoldable pub add_ref : String → String → SchemaRegistry → SchemaRegistry
add_ref name holder r = record r {
  refs = insert name (add holder (or_default (lookup name r.refs) [])) r.refs;
}

abbrev pub hold_again : String → Option String → SchemaRegistry → SchemaRegistry
hold_again name none r = r
hold_again name (some holder) r = if elem name r.permanent then r else add_ref name holder r

abbrev pub hold_first : String → Option String → SchemaRegistry → SchemaRegistry
hold_first name none r = record r { permanent = add name r.permanent }
hold_first name (some holder) r = record r { refs = insert name (holder ∷ []) r.refs }

-- Under the lock of `register`.
unfoldable pub register_locked :
    JsonSchema
    → SchemaEntry
    → Option SchemaEntry
    → SchemaRegistry
    → Result (SchemaRegistry × SchemaEntry)
unfolding add_ref
register_locked js e (some existing) r =
    if not (value_eq existing.body e.body)
    then raise schema_immutable
    else ok (hold_again e.name e.registered_by r, existing)
register_locked js e none r = ok (
  hold_first e.name e.registered_by (record r {
    entries = insert e.name e r.entries;
    validators = insert e.name (js.validator e.body) r.validators;
  }),
  e,
)

-- `e` is the entry that would be new. An error leaves the registry as it is.
unfoldable pub register :
    JsonSchema → SchemaEntry → SchemaRegistry → Result (SchemaRegistry × SchemaEntry)
unfolding register_locked has_msgtype_property
register js e r = do
  raise_if (not (has_msgtype_property e.body)) schema_missing_msgtype
  raise_if (not (js.is_schema e.body)) schema_violation
  register_locked js e (lookup e.name r.entries) r

unfoldable pub acquire_ref : String → String → SchemaRegistry → SchemaRegistry
unfolding add_ref
acquire_ref name holder r =
    if not (has_key name r.entries) || elem name r.permanent then r else add_ref name holder r

unfoldable pub refs_of : String → SchemaRegistry → List String
refs_of name r = or_default (lookup name r.refs) []

abbrev pub release_left :
    String → List String → SchemaRegistry × List String → SchemaRegistry × List String
release_left name [] (r, released) = (
  record r {
    entries = remove name r.entries;
    validators = remove name r.validators;
    refs = remove name r.refs;
  },
  released ++ name ∷ [],
)
release_left name (h ∷ hs) (r, released) =
    (record r { refs = insert name (h ∷ hs) r.refs }, released)

-- One round of the loop of `release_holder`.
unfoldable pub release_one :
    String → String → SchemaRegistry × List String → SchemaRegistry × List String
unfolding refs_of
release_one holder name (r, released) =
    release_left name (discard holder (refs_of name r)) (r, released)

unfoldable pub release_names :
    String → List String → SchemaRegistry × List String → SchemaRegistry × List String
unfolding release_one
release_names holder [] s = s
release_names holder (name ∷ names) s = release_names holder names (release_one holder name s)

-- The registry, and the names of the schemas that are gone.
unfoldable pub release_holder : String → SchemaRegistry → SchemaRegistry × List String
unfolding release_names
release_holder holder r = release_names holder (keys r.refs) (r, [])

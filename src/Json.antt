-- ===== src/Json.antt =====
-- The JSON values that payloads and schemas are. A number is an integer; floats are not modelled.
use agent_agora.Prelude.{
  ℕ, suc, String, Bool, true, false, ◌&&◌, Option, none, some, nat_eq, if◌then◌else◌, ◌==◌, not,
  ◌==◌,
}
use agent_agora.Text.{ℤ, pos, negsuc}

mutual
  -- The members of an object, in their order.
  pub data Fields : Type 0 where
    field : (key : String) → Value → Fields → Fields
    end : Fields

  pub data Value : Type 0 where
    obj : Fields → Value
    arr : Items → Value
    str : String → Value
    num : ℤ → Value
    bool : Bool → Value
    null : Value

  -- The elements of an array.
  pub data Items : Type 0 where
    cons : Value → Items → Items
    nil : Items

-- `d.get(k)`
unfoldable pub get_field : String → Fields → Option Value
get_field k end = none
get_field k (field j v fs) = if j == k then some v else get_field k fs

-- `d[k] = v` for a key that is not there
unfoldable pub add_field : String → Value → Fields → Fields
add_field k v end = field k v end
add_field k v (field j w fs) = field j w (add_field k v fs)

abbrev is_present : Option Value → Bool
is_present none = false
is_present (some v) = true

-- `k in d`
unfoldable pub has_field : String → Fields → Bool
unfolding get_field
has_field k fs = is_present (get_field k fs)

unfoldable pub field_count : Fields → ℕ
field_count end = 0
field_count (field k v fs) = suc (field_count fs)

int_eq : ℤ → ℤ → Bool
int_eq (pos m) (pos n) = nat_eq m n
int_eq (negsuc m) (negsuc n) = nat_eq m n
int_eq _ _ = false

-- `True == 1` and `False == 0`
bool_eq_int : Bool → ℤ → Bool
unfolding int_eq
bool_eq_int b n = int_eq (pos (if b then 1 else 0)) n

bool_eq : Bool → Bool → Bool
bool_eq true b = b
bool_eq false b = not b

-- Python's `==`: dicts are equal whatever the order of their keys.
unfoldable mutual
  unfolding int_eq bool_eq bool_eq_int

  pub value_eq : Value → Value → Bool
  value_eq null null = true
  value_eq (bool a) (bool b) = bool_eq a b
  value_eq (bool a) (num n) = bool_eq_int a n
  value_eq (num n) (bool a) = bool_eq_int a n
  value_eq (num m) (num n) = int_eq m n
  value_eq (str s) (str t) = s == t
  value_eq (arr xs) (arr ys) = items_eq xs ys
  value_eq (obj fs) (obj gs) = nat_eq (field_count fs) (field_count gs) && fields_in fs gs
  value_eq _ _ = false

  pub items_eq : Items → Items → Bool
  items_eq nil nil = true
  items_eq (cons x xs) (cons y ys) = value_eq x y && items_eq xs ys
  items_eq _ _ = false

  pub fields_in : Fields → Fields → Bool
  fields_in end gs = true
  fields_in (field k v fs) gs =
      elim (get_field k gs) [ none ↦ false | some w ↦ value_eq v w ] && fields_in fs gs

-- ===== src/Value.antt =====
-- JSON values, as the source's `Any` in a request, a decision, an event or a policy.
mod Data
mod Equality
unfoldable pub use Data.*
unfoldable pub use Equality.*
use Data.{
  Float, finite, Value, null, boolean, integer, float, text, array, object, Items, nil, cons,
  Fields, end, field,
}
use governed_autonomy_substr.Base.{
  Bool, Dict, List, Option, String, [], false, get_or, is_blank, map, none, not, refl, some, true,
  ◌∷◌, ◌≡◌,
}
use governed_autonomy_substr.Base.Int.{eq_ℤ, pos, ℤ}

abbrev pub entries : Fields → Dict Value
entries end = []
entries (field k v fs) = (k, v) ∷ entries fs

abbrev pub fields : Dict Value → Fields
fields [] = end
fields ((k, v) ∷ d) = field k v (fields d)

abbrev pub elements : Items → List Value
elements nil = []
elements (cons v vs) = v ∷ elements vs

abbrev pub items : List Value → Items
items [] = nil
items (v ∷ vs) = cons v (items vs)

abbrev pub dict : Dict Value → Value
dict d = object (fields d)

-- A list of strings, as JSON.
abbrev pub texts : List String → Value
texts ss = array (items (map text ss))

pub entries-fields : (d : Dict Value) → entries (fields d) ≡ d
entries-fields [] = refl
entries-fields ((k, v) ∷ d) = cc (entries-fields d)

-- `isinstance(v, str)`, `isinstance(v, dict)` and `isinstance(v, list)`, with the value.
abbrev pub as_text : Value → Option String
as_text (text s) = some s
as_text _ = none

abbrev pub as_dict : Value → Option (Dict Value)
as_dict (object fs) = some (entries fs)
as_dict _ = none

abbrev pub as_list : Value → Option (List Value)
as_list (array vs) = some (elements vs)
as_list _ = none

-- `isinstance(v, int) and not isinstance(v, bool)`.
abbrev pub as_int : Value → Option ℤ
as_int (integer n) = some n
as_int _ = none

-- Python's `bool(v)`.
abbrev pub truthy : Value → Bool
truthy null = false
truthy (boolean b) = b
truthy (integer n) = not (eq_ℤ n (pos 0))
truthy (float (finite m e)) = not (eq_ℤ m (pos 0))
truthy (float _) = true
truthy (text s) = not (is_blank s)
truthy (array nil) = false
truthy (array (cons v vs)) = true
truthy (object end) = false
truthy (object (field k v fs)) = true

-- `v is True`.
abbrev pub is_true : Value → Bool
is_true (boolean b) = b
is_true _ = false

-- A dict's entry, or `None`.
abbrev pub get : String → Dict Value → Value
get k d = get_or k null d

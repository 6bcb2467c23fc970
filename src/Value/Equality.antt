-- ===== src/Value/Equality.antt =====
-- Python's `==` and `>` on JSON values.
use governed_autonomy_substr.Base.{
  Bool, Option, String, arith, eq_text, false, if◌then◌else◌, none, some, suc, true, ℕ, ◌&&◌, ◌==◌,
  ◌^◌, ◌≡◌,
}
use governed_autonomy_substr.Base.Int.{eq_ℤ, ltb_ℤ, pos, ◌*ℤ◌}
use governed_autonomy_substr.Value.Data.{
  Fields, Float, Items, Value, array, boolean, cons, end, field, finite, float, infinity, integer,
  minus_infinity, nil, null, object, text,
}

-- The number that a value is: Python counts `False` and `True` as 0 and 1.
abbrev pub as_number : Value → Option Float
as_number (boolean false) = some (finite (pos 0) 0)
as_number (boolean true) = some (finite (pos 1) 0)
as_number (integer n) = some (finite n 0)
as_number (float x) = some x
as_number _ = none

-- Comparisons of an `int` with a `float` are exact in Python.
abbrev pub eq_float : Float → Float → Bool
eq_float (finite m e) (finite n f) = eq_ℤ (m *ℤ pos (2 ^ f)) (n *ℤ pos (2 ^ e))
eq_float infinity infinity = true
eq_float minus_infinity minus_infinity = true
eq_float _ _ = false

abbrev pub lt_float : Float → Float → Bool
lt_float (finite m e) (finite n f) = ltb_ℤ (m *ℤ pos (2 ^ f)) (n *ℤ pos (2 ^ e))
lt_float (finite m e) infinity = true
lt_float minus_infinity (finite n f) = true
lt_float minus_infinity infinity = true
lt_float _ _ = false

-- `math.isfinite`.
abbrev pub is_finite : Float → Bool
is_finite (finite m e) = true
is_finite _ = false

abbrev eq_number : Option Float → Option Float → Bool
eq_number (some x) (some y) = eq_float x y
eq_number _ _ = false

abbrev field_value : String → Fields → Option Value
field_value k end = none
field_value k (field j v fs) = if eq_text k j then some v else field_value k fs

abbrev size : Fields → ℕ
size end = 0
size (field k v fs) = suc (size fs)

-- Dicts are equal with the same keys at equal values, in any order.
unfoldable mutual
  pub eq_value : Value → Value → Bool
  eq_value null w = elim w [ null ↦ true | _ ↦ false ]
  eq_value (boolean b) w = eq_number (as_number (boolean b)) (as_number w)
  eq_value (integer n) w = eq_number (as_number (integer n)) (as_number w)
  eq_value (float x) w = eq_number (some x) (as_number w)
  eq_value (text s) w = elim w [ text t ↦ eq_text s t | _ ↦ false ]
  eq_value (array vs) w = elim w [ array ws ↦ eq_items vs ws | _ ↦ false ]
  eq_value (object fs) w = elim w [
    | object gs ↦ (size fs == size gs) && eq_fields fs gs
    | _ ↦ false
  ]

  pub eq_items : Items → Items → Bool
  eq_items nil ws = elim ws [ nil ↦ true | _ ↦ false ]
  eq_items (cons v vs) ws = elim ws [ nil ↦ false | cons w ws' ↦ eq_value v w && eq_items vs ws' ]

  pub eq_fields : Fields → Fields → Bool
  eq_fields end gs = true
  eq_fields (field k v fs) gs = elim (field_value k gs) [
    | none ↦ false
    | some w ↦ eq_value v w && eq_fields fs gs
  ]

pub eq_value-text : (s : String) (v : Value) → eq_value v (text s) ≡ true → v ≡ text s
unfolding eq_value
eq_value-text s null h = cc
eq_value-text s (boolean false) h = cc
eq_value-text s (boolean true) h = cc
eq_value-text s (integer n) h = cc
eq_value-text s (float x) h = cc
eq_value-text s (text t) h = ground arith
eq_value-text s (array vs) h = cc
eq_value-text s (object fs) h = cc

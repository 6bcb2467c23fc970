-- ===== src/Replay/KeyOrder.antt =====
-- JSON values up to the order of the keys of their objects: what `sort_keys=True` forgets.
use governed_autonomy_substr.Base.{
  Bool, Dict, String, ap, arith, false, if◌then◌else◌, le_text, refl, sym, true, ◌≡◌,
}
use governed_autonomy_substr.Platform.{Platform, canonical_json}
use governed_autonomy_substr.Value.{
  Fields, Items, Value, array, boolean, cons, dict, end, entries, field, fields, float, integer,
  nil, null, object, text,
}

-- The entry goes before the first key that is not less.
unfoldable pub insert_field : String → Value → Fields → Fields
insert_field k v end = field k v end
insert_field k v (field j w fs) =
    let rest = insert_field k v fs in
    if le_text k j then field k v (field j w fs) else field j w rest

-- The value with the keys of every object in order.
unfoldable mutual
  pub sort_keys : Value → Value
  sort_keys (object fs) = object (sort_fields fs)
  sort_keys (array vs) = array (sort_items vs)
  sort_keys (text s) = text s
  sort_keys (integer n) = integer n
  sort_keys (float x) = float x
  sort_keys (boolean b) = boolean b
  sort_keys null = null

  pub sort_fields : Fields → Fields
  sort_fields (field k v fs) = insert_field k (sort_keys v) (sort_fields fs)
  sort_fields end = end

  pub sort_items : Items → Items
  sort_items (cons v vs) = cons (sort_keys v) (sort_items vs)
  sort_items nil = nil

abbrev pub Reordered : Value → Value → Type 0
Reordered v w = sort_keys v ≡ sort_keys w

-- What `json.dumps(..., sort_keys=True)` promises: the order of keys does not change the text.
abbrev pub SortsKeys : ⦃p : Platform⦄ → Type 0
SortsKeys = (v w : Value) → Reordered v w → canonical_json v ≡ canonical_json w

abbrev is_object : Value → Bool
is_object (object fs) = true
is_object _ = false

fields-entries : (fs : Fields) → fields (entries fs) ≡ fs
fields-entries end = refl
fields-entries (field k v fs) = cc (fields-entries fs)

-- Only an object is an object up to the order of keys.
pub Reordered-dict :
    (v : Value) (d : Dict Value) → Reordered v (dict d) → (e : Dict Value) × (v ≡ dict e)
unfolding sort_keys
Reordered-dict (object fs) d same = (entries fs, ap object (sym (fields-entries fs)))
Reordered-dict (array vs) d same = absurd (ground (arith, ap is_object same))
Reordered-dict (text s) d same = absurd (ground (arith, ap is_object same))
Reordered-dict (integer n) d same = absurd (ground (arith, ap is_object same))
Reordered-dict (float x) d same = absurd (ground (arith, ap is_object same))
Reordered-dict (boolean b) d same = absurd (ground (arith, ap is_object same))
Reordered-dict null d same = absurd (ground (arith, ap is_object same))

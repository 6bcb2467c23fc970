-- ===== src/Value/Data.antt =====
-- The data type of JSON values.
use governed_autonomy_substr.Base.{Bool, String, ℕ}
use governed_autonomy_substr.Base.Int.{ℤ}

-- A float is a dyadic rational, or one of the values that `json` reads besides: `finite m e` is
-- m / 2 ^ e.
pub data Float : Type 0 where
  finite : ℤ → ℕ → Float
  infinity minus_infinity nan : Float

-- An object keeps the order of its keys.
mutual
  pub data Fields : Type 0 where
    field : String → Value → Fields → Fields
    end : Fields

  pub data Value : Type 0 where
    object : Fields → Value
    array : Items → Value
    text : String → Value
    integer : ℤ → Value
    float : Float → Value
    boolean : Bool → Value
    null : Value

  pub data Items : Type 0 where
    cons : Value → Items → Items
    nil : Items

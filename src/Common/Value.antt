-- ===== src/Common/Value.antt =====
-- The values of a dynamic language that the program stores and passes on: what JSON has.
use owlclaw_core.Common.{Bool, Option, none, some, String, if◌then◌else◌}
use owlclaw_core.Common.Eq.{string_eq, ◌==◌}
use owlclaw_core.Common.Int.{ℤ}

mutual
  pub data Value : Type 0 where
    null : Value
    flag : Bool → Value
    number : ℤ → Value
    text : String → Value
    list : Items → Value
    object : Fields → Value

  pub data Items : Type 0 where
    nil : Items
    cons : Value → Items → Items

  pub data Fields : Type 0 where
    end : Fields
    field : String → Value → Fields → Fields

-- d.get(key)
unfoldable pub get_field : String → Fields → Option Value
get_field key end = none
get_field key (field k v rest) = if key == k then some v else get_field key rest

-- ===== src/Json/Values.antt =====
-- JSON values. A number is an integer: the messages have no others. A string is its bytes.
use uni_chat_sdk.Prelude.{Bytes, Bool}
use uni_chat_sdk.Prelude.Ints.{ℤ}

-- `Values` and `Members` are the lists inside an array and an object.
mutual
  pub data Value : Type 0 where
    null : Value
    bool : Bool → Value
    number : ℤ → Value
    str : Bytes → Value
    array : Values → Value
    object : Members → Value

  pub data Values : Type 0 where
    no_values : Values
    item : Value → Values → Values

  pub data Members : Type 0 where
    no_members : Members
    member : Bytes → Value → Members → Members

-- ===== src/Json.antt =====
-- `serde_json::Value` as far as the proxy uses it: the constructors that the source matches on and
-- builds, and the documented accessors. Parsing and printing are not modelled: they are parameters
-- of the components that call them.
pub mod Access
pub mod Update
pub mod Build
use hey_proxy.Base.{ℕ, String, Bool, List, [], ◌∷◌}

-- An integer that fits `u64`, a negative one, or anything else, kept by its printed form.
pub data Number : Type 0 where
  unsigned negative : ℕ → Number
  float : String → Number

mutual
  pub data Value : Type 0 where
    null : Value
    bool : Bool → Value
    number : Number → Value
    string : String → Value
    array : Items → Value
    object : Fields → Value

  pub data Items : Type 0 where
    nil : Items
    cons : Value → Items → Items

  pub data Fields : Type 0 where
    end : Fields
    field : String → Value → Fields → Fields

-- The elements of an array as a list, and back.
abbrev pub elements : Items → List Value
elements nil = []
elements (cons v vs) = v ∷ elements vs

abbrev pub items : List Value → Items
items [] = nil
items (v ∷ vs) = cons v (items vs)

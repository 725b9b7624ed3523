-- ===== src/Prelude/Json.antt =====
-- JSON values, which the source types as `unknown`. `undefined` is `none` of `Option Json`.
-- Numbers are whole.
use synth_agent_runtime.Prelude.{
  Bool, List, Option, String, [], if◌then◌else◌, list_eq, nat_eq, none, option_eq, some, string_eq,
  ◌==◌, ◌∷◌,
}
use synth_agent_runtime.Prelude.Int.{ℤ}

mutual
  pub data Json : Type 0 where
    null : Json
    bool : Bool → Json
    number : ℤ → Json
    text : String → Json
    array : Items → Json
    object : Fields → Json

  pub data Items : Type 0 where
    nil : Items
    cons : Json → Items → Items

  pub data Fields : Type 0 where
    end : Fields
    field : String → Json → Fields → Fields

-- an array of values; an absent value is written as `null`
unfoldable pub items : List (Option Json) → Items
items [] = nil
items (none ∷ xs) = cons null (items xs)
items (some x ∷ xs) = cons x (items xs)

-- a property of an object; of a value that is no object it is `undefined`
unfoldable pub get_field : String → Fields → Option Json
get_field k end = none
get_field k (field j v fs) = if j == k then some v else get_field k fs

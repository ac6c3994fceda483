-- ===== src/Prelude/JsonValue.antt =====
-- JSON values: what a field of type `unknown` holds.
use Prim.Native.String.{String}
use mathlib.Core.Bool.{Bool, true, false, not}
use mathlib.Core.Option.{Option, none, some}
use apply_agent.Prelude.Int.{ℤ, pos, negsuc}
use text.Mathlib.Text.{◌==◌}
use apply_agent.Prelude.Tests.{nat_beq, if◌then◌else◌}
use apply_agent.Prelude.Text.{is_empty}

-- The numbers are the integers: no code here computes with a number inside an `unknown` value.
mutual
  pub data Json : Type 0 where
    null : Json
    bool : Bool → Json
    num : ℤ → Json
    str : String → Json
    arr : Items → Json
    obj : Fields → Json

  pub data Items : Type 0 where
    nil : Items
    cons : Json → Items → Items

  pub data Fields : Type 0 where
    end : Fields
    field : String → Json → Fields → Fields

-- `Boolean(v)`
abbrev pub truthy : Json → Bool
truthy null = false
truthy (bool b) = b
truthy (num (pos n)) = not (nat_beq n 0)
truthy (num (negsuc n)) = true
truthy (str s) = not (is_empty s)
truthy (arr xs) = true
truthy (obj fs) = true

-- `v ?? w`: `null` counts as missing.
abbrev pub coalesce : Option Json → Option Json → Option Json
coalesce none w = w
coalesce (some null) w = w
coalesce (some v) w = some v

-- `o[key]` on the fields of an object
unfoldable pub json_field : String → Fields → Option Json
json_field key end = none
json_field key (field other v rest) =
    let later = json_field key rest in if other == key then some v else later

-- `...(v !== undefined ? { key: v } : {})`
unfoldable pub optional_field : String → Option Json → Fields → Fields
optional_field key none rest = rest
optional_field key (some v) rest = field key v rest

-- `JSON.parse`, where `none` is a `SyntaxError`, and `JSON.stringify`.
pub record Host : Type 0 where
  pub parse : String → Option Json
  pub stringify : Json → String

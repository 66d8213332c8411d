-- ===== src/Common/Json.antt =====
-- Values as `JSON.parse` gives them, and `undefined` as a missing member. An object's members are
-- its own: what it inherits is not looked at.
use Prim.Native.String.{String}
use mathlib.Core.Bool.{Bool, false}
use mathlib.Core.Option.{Option, none, some}
use text.Mathlib.Text.{◌==◌ as str_eq}
use abracadabra.Common.Tests.{if◌then◌else◌}
use abracadabra.Common.Numbers.{Number}

mutual
  pub data Json : Type 0 where
    null : Json
    bool : Bool → Json
    num : Number → Json
    str : String → Json
    arr : Items → Json
    obj : Members → Json

  pub data Items : Type 0 where
    nil : Items
    cons : Json → Items → Items

  pub data Members : Type 0 where
    end : Members
    member : String → Json → Members → Members

-- `r.k`, `none` for `undefined`
unfoldable pub field : String → Members → Option Json
field k end = none
field k (member j v ms) = if str_eq j k then some v else field k ms

abbrev pub as_string : Option Json → Option String
as_string (some (str s)) = some s
as_string _ = none

abbrev pub as_number : Option Json → Option Number
as_number (some (num n)) = some n
as_number _ = none

-- `typeof v === "object"` of a value that is there: `null` and arrays are objects too.
abbrev pub as_object : Option Json → Option Json
as_object (some null) = some null
as_object (some (arr xs)) = some (arr xs)
as_object (some (obj ms)) = some (obj ms)
as_object _ = none

abbrev pub is_true : Option Json → Bool
is_true (some (bool b)) = b
is_true _ = false

-- `v && s`, for a text: the empty one is falsy.
abbrev pub truthy : Option String → Option String
truthy none = none
truthy (some s) = if str_eq s "" then none else some s

-- ===== src/Common/Json.antt =====
-- A JSON value as Python's json module reads it: an object is a dict, its fields in the order they
-- were put in. A number is kept as the text that str gives it.
use mathlib.Core.Bool.{Bool}
use mathlib.Core.List.{List, [], ◌∷◌}
use mathlib.Core.Option.{Option, none, some}
use alerts_bi.Common.Tests.{if◌then◌else◌, ◌==◌}
use alerts_bi.Common.Texts.{Text, text_eq}

mutual
  pub data Json : Type 0 where
    null : Json
    boolean : Bool → Json
    number : Text → Json
    string : Text → Json
    array : Items → Json
    object : Fields → Json

  -- The elements of a list.
  pub data Items : Type 0 where
    no_items : Items
    item : Json → Items → Items

  -- The fields of a dict.
  pub data Fields : Type 0 where
    no_fields : Fields
    field : Text → Json → Fields → Fields

-- `fields[key]`, or nothing where the key is missing.
abbrev pub lookup : Text → Fields → Option Json
lookup key no_fields = none
lookup key (field k v fields) = let rest = lookup key fields in if k == key then some v else rest

abbrev pub keys : Fields → List Text
keys no_fields = []
keys (field k v fields) = k ∷ keys fields

abbrev pub items : Items → List Json
items no_items = []
items (item v vs) = v ∷ items vs

-- ===== src/Json.antt =====
-- engine/runtime/serialization.py: JSON values. A float is its IEEE 754 bit pattern. An object is
-- a dict in insertion order.
use durable_workflow_engine.Base.{
  List, [], ◌∷◌, ℕ, String, Bool, true, false, not, ◌&&◌, ◌||◌, ◌==◌, nat_eq, string_eq, ltb, leb,
  Option, none, some, if◌then◌else◌,
}
use durable_workflow_engine.Base.Int.{ℤ, pos, negsuc}

mutual
  pub data Json : Type 0 where
    null : Json
    bool : Bool → Json
    int : ℤ → Json
    float : ℕ → Json
    str : String → Json
    arr : Items → Json
    obj : Fields → Json

  pub data Items : Type 0 where
    nil : Items
    cons : Json → Items → Items

  pub data Fields : Type 0 where
    end : Fields
    field : String → Json → Fields → Fields

-- `attributes.get(key)`; `none` where the key is missing.
unfoldable pub get : String → Fields → Option Json
get k end = none
get k (field j v fs) = if j == k then some v else get k fs

-- `attributes.get(key, default)`.
abbrev pub get_default : String → Json → Fields → Json
get_default k d fs = elim (get k fs) [ none ↦ d | some v ↦ v ]

-- `attributes.get(key)` where a missing key reads as `None`.
abbrev pub get_null : String → Fields → Json
get_null k fs = get_default k null fs

-- The bit patterns of positive floats, negative floats, and floats in [0, 1).
unfoldable pub float_is_positive : ℕ → Bool
float_is_positive b = ltb 0 b && leb b 0x7ff0000000000000

unfoldable pub float_is_negative : ℕ → Bool
float_is_negative b = ltb 0x8000000000000000 b && leb b 0xfff0000000000000

unfoldable pub float_in_unit_interval : ℕ → Bool
float_in_unit_interval b = ltb b 0x3ff0000000000000 || b == 0x8000000000000000

abbrev float_is_zero : ℕ → Bool
float_is_zero b = b == 0 || b == 0x8000000000000000

-- Python's truth value of a JSON value.
unfoldable pub truthy : Json → Bool
truthy null = false
truthy (bool b) = b
truthy (int (pos n)) = ltb 0 n
truthy (int (negsuc n)) = true
truthy (float b) = not (float_is_zero b)
truthy (str s) = not (s == "")
truthy (arr nil) = false
truthy (arr (cons v vs)) = true
truthy (obj end) = false
truthy (obj (field k v fs)) = true

-- `isinstance(value, str)`, with the text.
abbrev pub as_str : Json → Option String
as_str (str s) = some s
as_str _ = none

-- A dict display.
abbrev pub fields_of : List (String × Json) → Fields
fields_of [] = end
fields_of ((k, v) ∷ rest) = field k v (fields_of rest)

abbrev pub object : List (String × Json) → Json
object ms = obj (fields_of ms)

-- `{**fields, key: value}`: an old key keeps its place.
unfoldable pub put : String → Json → Fields → Fields
put k v end = field k v end
put k v (field j w fs) = if j == k then field k v fs else field j w (put k v fs)

-- `{**fields, **others}`.
unfoldable pub merge : Fields → Fields → Fields
merge fs end = fs
merge fs (field k v others) = merge (put k v fs) others

-- `fields.pop(key, None)`.
unfoldable pub remove : String → Fields → Fields
remove k end = end
remove k (field j w fs) = if j == k then fs else field j w (remove k fs)

-- `isinstance(value, dict)`, with the dict.
abbrev pub as_obj : Json → Option Fields
as_obj (obj fs) = some fs
as_obj _ = none

-- `isinstance(value, int)`, with the number; a bool is an int.
abbrev pub as_int : Json → Option ℤ
as_int (int n) = some n
as_int (bool true) = some (pos 1)
as_int (bool false) = some (pos 0)
as_int _ = none

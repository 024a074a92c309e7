-- ===== src/Json.antt =====
-- serde_json's `Value`, and its accessors. An object lists its entries with distinct keys, a parsed
-- one in the order of its map; no lookup depends on it. A number is an unsigned integer, a negative one, `neg_int n` for
-- -(n + 1), or a float as the 64 bits of its IEEE 754 form.
use venice_e2ee_proxy.Base.{ℕ, Bool, true, false, List, [], ◌∷◌, Option, none, some}
use venice_e2ee_proxy.Text.{Text}
use venice_e2ee_proxy.Dict

pub data Number : Type 0 where
  pos_int : ℕ → Number
  neg_int : ℕ → Number
  float : ℕ → Number

mutual
  -- The entries of an object.
  pub data Fields : Type 0 where
    end : Fields
    field : Text → Value → Fields → Fields

  -- The elements of an array.
  pub data Items : Type 0 where
    nil : Items
    cons : Value → Items → Items

  pub data Value : Type 0 where
    string : Text → Value
    number : Number → Value
    boolean : Bool → Value
    null : Value
    object : Fields → Value
    array : Items → Value

abbrev pub entries : Fields → List (Text × Value)
entries end = []
entries (field k v m) = (k, v) ∷ entries m

abbrev pub items : Items → List Value
items nil = []
items (cons v vs) = v ∷ items vs

abbrev pub from_entries : List (Text × Value) → Fields
from_entries [] = end
from_entries ((k, v) ∷ m) = field k v (from_entries m)

abbrev pub from_items : List Value → Items
from_items [] = nil
from_items (v ∷ vs) = cons v (from_items vs)

-- `Map::get`.
abbrev pub get_field : Text → Fields → Option Value
get_field k m = Dict.get k (entries m)

-- `Value::get` with a text: a value that is no object has no such entry.
abbrev pub get : Text → Value → Option Value
get k (object m) = get_field k m
get k _ = none

abbrev pub as_str : Value → Option Text
as_str (string s) = some s
as_str _ = none

abbrev pub as_object : Value → Option Fields
as_object (object m) = some m
as_object _ = none

abbrev pub as_array : Value → Option Items
as_array (array vs) = some vs
as_array _ = none

abbrev pub as_bool : Value → Option Bool
as_bool (boolean b) = some b
as_bool _ = none

abbrev pub is_null : Value → Bool
is_null null = true
is_null _ = false

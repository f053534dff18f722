-- ===== src/Json.antt =====
-- serde_json's `Value` as the program reads it. A number that is an `i64` is `int`; any other is
-- `float`, with its text. An object keeps its fields in key order, as the crate's map does.
use Prim.Native.Nat.Ordering.{lt, eq, gt}
use Prim.Native.String.{compare}
use coverage_mcp.Prelude.{
  String, Bool, true, false, ◌&&◌, Option, none, some, List, [], ◌∷◌, str_eq, is_some,
  if◌then◌else◌,
}
use coverage_mcp.Prelude.Int.{ℤ, eqb_ℤ}

mutual
  pub data Value : Type 0 where
    null : Value
    bool : Bool → Value
    int : ℤ → Value
    float : String → Value
    str : String → Value
    arr : Items → Value
    obj : Fields → Value

  pub data Items : Type 0 where
    nil : Items
    item : Value → Items → Items

  pub data Fields : Type 0 where
    end : Fields
    field : String → Value → Fields → Fields

abbrev pub items : Items → List Value
items nil = []
items (item v vs) = v ∷ items vs

abbrev of_list : List Value → Items
of_list [] = nil
of_list (v ∷ vs) = item v (of_list vs)

-- `Value::Array`
abbrev pub array : List Value → Value
array vs = arr (of_list vs)

abbrev pub pairs : Fields → List (String × Value)
pairs end = []
pairs (field k v fs) = (k, v) ∷ pairs fs

abbrev pub as_str : Value → Option String
as_str (str s) = some s
as_str _ = none

abbrev pub as_i64 : Value → Option ℤ
as_i64 (int z) = some z
as_i64 _ = none

abbrev pub as_bool : Value → Option Bool
as_bool (bool b) = some b
as_bool _ = none

abbrev pub as_array : Value → Option (List Value)
as_array (arr vs) = some (items vs)
as_array _ = none

abbrev pub as_object : Value → Option Fields
as_object (obj fs) = some fs
as_object _ = none

abbrev pub is_string : Value → Bool
is_string v = is_some (as_str v)

abbrev pub is_object : Value → Bool
is_object v = is_some (as_object v)

-- `Map::get`
abbrev pub get_field : Fields → String → Option Value
get_field end k = none
get_field (field j v fs) k = if str_eq k j then some v else get_field fs k

-- `Map::insert`
abbrev pub put_field : Fields → String → Value → Fields
put_field end k v = field k v end
put_field (field j w fs) k v = elim (compare k j) [
  | lt ↦ field k v (field j w fs)
  | eq ↦ field j v fs
  | gt ↦ field j w (put_field fs k v)
]

-- `Map::remove`, the map that is left
abbrev pub drop_field : Fields → String → Fields
drop_field end k = end
drop_field (field j w fs) k = if str_eq k j then fs else field j w (drop_field fs k)

-- `Map::extend`
abbrev pub put_fields : Fields → Fields → Fields
put_fields fs end = fs
put_fields fs (field k v more) = put_fields (put_field fs k v) more

-- `value["key"]` and `Value::get`: null, or none, when the value is no object or lacks the key.
abbrev pub lookup : Value → String → Option Value
lookup (obj fs) k = get_field fs k
lookup _ k = none

abbrev pub index : Value → String → Value
index v k = elim (lookup v k) [ none ↦ null | some w ↦ w ]

abbrev same_bool : Bool → Bool → Bool
same_bool true b = b
same_bool false true = false
same_bool false false = true

-- `PartialEq` of values.
unfoldable mutual
  pub value_eq : Value → Value → Bool
  value_eq null null = true
  value_eq (bool a) (bool b) = same_bool a b
  value_eq (int a) (int b) = eqb_ℤ a b
  value_eq (float a) (float b) = str_eq a b
  value_eq (str a) (str b) = str_eq a b
  value_eq (arr a) (arr b) = items_eq a b
  value_eq (obj a) (obj b) = fields_eq a b
  value_eq _ _ = false

  items_eq : Items → Items → Bool
  items_eq nil nil = true
  items_eq (item v vs) (item w ws) = value_eq v w && items_eq vs ws
  items_eq _ _ = false

  fields_eq : Fields → Fields → Bool
  fields_eq end end = true
  fields_eq (field j v fs) (field k w gs) = str_eq j k && (value_eq v w && fields_eq fs gs)
  fields_eq _ _ = false

-- `value == "text"`
abbrev pub is_text : Value → String → Bool
is_text (str s) t = str_eq s t
is_text _ t = false

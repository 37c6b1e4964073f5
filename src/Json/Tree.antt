-- ===== src/Json/Tree.antt =====
-- serde_json's `Value`, where the source matches on its arms. A number is kept as the text that
-- `to_string` prints, and an object as its fields in order.
use equill.Base.{
  String, Bool, true, false, Option, none, some, List, [], ◌∷◌, ◌==◌, string_eq, if◌then◌else◌,
}

mutual
  pub data Tree : Type 0 where
    null : Tree
    truth : Bool → Tree
    number : String → Tree
    text : String → Tree
    array : Items → Tree
    object : Fields → Tree

  pub data Items : Type 0 where
    nil : Items
    cons : Tree → Items → Items

  pub data Fields : Type 0 where
    end : Fields
    field : String → Tree → Fields → Fields

-- `Map::get`
unfoldable pub get_field : Fields → String → Option Tree
get_field end name = none
get_field (field k v fs) name = if k == name then some v else get_field fs name

-- `Value::get` with a name
unfoldable pub get : Tree → String → Option Tree
unfolding get_field
get (object fs) name = get_field fs name
get _ name = none

-- `as_str`
abbrev pub as_str : Tree → Option String
as_str (text s) = some s
as_str _ = none

-- `is_null`
abbrev pub is_null : Tree → Bool
is_null null = true
is_null _ = false

-- the values of a sequence, and the fields of a struct, as serde writes them
abbrev pub items : List Tree → Items
items [] = nil
items (x ∷ xs) = cons x (items xs)

abbrev pub fields : List (String × Tree) → Fields
fields [] = end
fields ((k, v) ∷ rest) = field k v (fields rest)

-- ===== src/Config/Value.antt =====
-- The values that YAML reads (what rodeo/fleet/inventory.py and rodeo/config.py work on), with what
-- Python's bool, str, repr, int and `or` make of them. The keys of a mapping are texts.
use rodeo_cli.Base.{
  ℤ, pos, negsuc, String, ◌<>◌, Bool, true, false, not, Option, none, some, List, [], ◌∷◌, Outcome,
  ok, err, ◌==◌, nat_eq, string_eq, if◌then◌else◌,
}
use rodeo_cli.Base.Dict
use rodeo_cli.Base.Dict.{Dict}
use rodeo_cli.Portal.Python.{Python}
use rodeo_cli.Portal.Text.{is_empty, strip}

-- A float or a date, by what `str`, `bool` and `int` make of it.
pub record Scalar : Type 0 where
  pub shown : String
  pub is_true : Bool
  pub int : Option ℤ

mutual
  pub data Value : Type 0 where
    null : Value
    bool : Bool → Value
    int : ℤ → Value
    text : String → Value
    other : Scalar → Value
    list : Items → Value
    dict : Fields → Value

  pub data Items : Type 0 where
    no_items : Items
    item : Value → Items → Items

  pub data Fields : Type 0 where
    no_fields : Fields
    field : String → Value → Fields → Fields

unfoldable pub items : Items → List Value
items Items.no_items = []
items (Items.item v r) = v ∷ items r

unfoldable pub fields : Fields → Dict Value
fields Fields.no_fields = []
fields (Fields.field k v r) = (k, v) ∷ fields r

unfoldable pub list_of : List Value → Items
list_of [] = Items.no_items
list_of (v ∷ r) = Items.item v (list_of r)

unfoldable pub dict_of : Dict Value → Fields
dict_of [] = Fields.no_fields
dict_of ((k, v) ∷ r) = Fields.field k v (dict_of r)

-- isinstance(v, list), isinstance(v, dict)
unfoldable pub as_list : Value → Option (List Value)
unfolding items
as_list (Value.list r) = some (items r)
as_list _ = none

unfoldable pub as_dict : Value → Option (Dict Value)
unfolding fields
as_dict (Value.dict r) = some (fields r)
as_dict _ = none

-- The number of a value that Python takes for an int, and a Bool is one.
unfoldable pub as_int : Value → Option ℤ
as_int (Value.bool b) = some (if b then pos 1 else pos 0)
as_int (Value.int i) = some i
as_int _ = none

unfoldable pub is_null : Value → Bool
is_null Value.null = true
is_null _ = false

-- bool(v)
unfoldable pub is_true : Value → Bool
is_true Value.null = false
is_true (Value.bool b) = b
is_true (Value.int (pos n)) = not (n == 0)
is_true (Value.int (negsuc n)) = true
is_true (Value.text s) = not (is_empty s)
is_true (Value.other s) = s.is_true
is_true (Value.list Items.no_items) = false
is_true (Value.list (Items.item v r)) = true
is_true (Value.dict Fields.no_fields) = false
is_true (Value.dict (Fields.field k v r)) = true

-- v or w
unfoldable pub or_else : Value → Value → Value
or_else v w = if is_true v then v else w

-- d.get(k, w), and d.get(k)
unfoldable pub get_or : String → Value → Dict Value → Value
get_or k w d = elim (Dict.lookup k d) [ none ↦ w | some v ↦ v ]

unfoldable pub get : String → Dict Value → Value
get k d = get_or k Value.null d

unfoldable pub has_key : String → Dict Value → Bool
has_key k d = elim (Dict.lookup k d) [ none ↦ false | some v ↦ true ]

-- `d.get(k) or {}` where it is a mapping.
unfoldable pub mapping_or_empty : Value → Option (Dict Value)
mapping_or_empty v = if is_true v then as_dict v else some []

pub data IntError : Type 0 where
  value_error : IntError
  type_error : IntError

module _ (py : Python) where
  abbrev bool_text : Bool → String
  bool_text true = "True"
  bool_text false = "False"

  unfoldable mutual
    -- repr(v)
    pub repr_of : Value → String
    repr_of Value.null = "None"
    repr_of (Value.bool b) = bool_text b
    repr_of (Value.int i) = py.str i
    repr_of (Value.text s) = py.repr s
    repr_of (Value.other s) = s.shown
    repr_of (Value.list r) = "[" <> (repr_items r <> "]")
    repr_of (Value.dict r) = "{" <> (repr_fields r <> "}")

    repr_items : Items → String
    repr_items Items.no_items = ""
    repr_items (Items.item v Items.no_items) = repr_of v
    repr_items (Items.item v (Items.item w r)) = repr_of v <> (", " <> repr_items (Items.item w r))

    repr_fields : Fields → String
    repr_fields Fields.no_fields = ""
    repr_fields (Fields.field k v Fields.no_fields) = py.repr k <> (": " <> repr_of v)
    repr_fields (Fields.field k v (Fields.field j w r)) =
        py.repr k <> (": " <> (repr_of v <> (", " <> repr_fields (Fields.field j w r))))

  -- str(v)
  unfoldable pub str_of : Value → String
  str_of (Value.text s) = s
  str_of v = repr_of v

  -- int(v)
  unfoldable pub int_of : Value → Outcome IntError ℤ
  int_of Value.null = err type_error
  int_of (Value.bool b) = ok (if b then pos 1 else pos 0)
  int_of (Value.int i) = ok i
  int_of (Value.text s) = elim (py.int s) [ none ↦ err value_error | some i ↦ ok i ]
  int_of (Value.other s) = elim s.int [ none ↦ err type_error | some i ↦ ok i ]
  int_of (Value.list r) = err type_error
  int_of (Value.dict r) = err type_error

  -- str(v or d)
  unfoldable pub text_or : String → Value → String
  text_or d v = str_of (or_else v (Value.text d))

  -- `str(v).strip() if v else None`
  unfoldable pub optional_text : Value → Option String
  optional_text v = if is_true v then some (strip (str_of v)) else none

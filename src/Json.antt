-- ===== src/Json.antt =====
-- Values of a decoded JSON body, as the broker's messages carry them, and the conversions of
-- Python's runtime that the code calls on them.
use trading_execution.Prelude.{
  Bool, true, false, not, Option, none, some, List, String, str_eq, if◌then◌else◌, ◌||◌, any,
}
use trading_execution.Prelude.Int.{ℤ, pos, eqb_ℤ}
use trading_execution.Prelude.Float.{Float, eqb_f, zero_f}

mutual
  pub data Fields : Type 0 where
    end : Fields
    field : String → Value → Fields → Fields

  pub data Value : Type 0 where
    null : Value
    str : String → Value
    obj : Fields → Value
    int : ℤ → Value
    num : Float → Value
    bool : Bool → Value
    arr : Items → Value

  pub data Items : Type 0 where
    nil : Items
    cons : Value → Items → Items

-- `d.get(key)`: a key that is missing reads as None.
unfoldable pub get : String → Fields → Value
get k end = null
get k (field j v fs) = if str_eq j k then v else get k fs

-- `{k: v for k, v in row.items() if k != key}`
unfoldable pub without : String → Fields → Fields
without key end = end
without key (field k v fs) = if str_eq k key then without key fs else field k v (without key fs)

-- `key in d`
unfoldable pub has_key : String → Fields → Bool
has_key key end = false
has_key key (field k v fs) = str_eq k key || has_key key fs

-- The text functions of Python's runtime, on which the order path is parametrised.
pub record Text : Type 0 where
  pub strip : String → String
  pub lower : String → String
  pub upper : String → String
  -- `str(v)` of a value that is not a text
  pub show : Value → String
  -- `repr(v)`
  pub repr : Value → String
  -- `int(text)` and `float(text)`: `none` is ValueError
  pub parse_int : String → Option ℤ
  pub parse_float : String → Option Float
  -- `needle in text`
  pub contains : String → String → Bool

-- `str(v)`
unfoldable pub to_text : Text → Value → String
to_text t (str s) = s
to_text t v = t.show v

-- the truth value of a text: the empty one is false
abbrev pub is_blank : String → Bool
is_blank s = str_eq s ""

-- `text or None`
abbrev pub or_none : String → Option String
or_none s = if is_blank s then none else some s

-- the truth value of a value
unfoldable pub is_truthy : Value → Bool
is_truthy null = false
is_truthy (bool b) = b
is_truthy (int i) = not (eqb_ℤ i (pos 0))
is_truthy (num x) = not (eqb_f x zero_f)
is_truthy (str s) = not (is_blank s)
is_truthy (arr nil) = false
is_truthy (arr (cons v vs)) = true
is_truthy (obj end) = false
is_truthy (obj (field k v fs)) = true

-- `str(v or "")`
abbrev pub or_empty : Text → Value → String
or_empty t v = if is_truthy v then to_text t v else ""

-- `type(v).__name__`
unfoldable pub type_name : Value → String
type_name null = "NoneType"
type_name (bool b) = "bool"
type_name (int i) = "int"
type_name (num x) = "float"
type_name (str s) = "str"
type_name (arr vs) = "list"
type_name (obj fs) = "dict"

-- `s in texts`
abbrev pub one_of : String → List String → Bool
one_of s texts = any (λ u. str_eq s u) texts

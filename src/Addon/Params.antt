-- ===== src/Addon/Params.antt =====
-- internal/addon/params.go: the parameters that an addon declares, and their values.
use cifera.Base.{
  suc, Bool, true, false, Option, none, some, List, [], ◌∷◌, if◌then◌else◌, ℤ, pos, negsuc, Text,
  codes, text_eq, text_dec, itoa, lookup, insert,
}
use cifera.Value.{Value, nil, string, int, int64, float64, bool, other}

pub record ParamDef : Type 0 where
  pub name : Text
  pub type : Text
  pub default : Value
  pub description : Text

pub data ParamError : Type 0 where
  unsupported_type : Text → ParamError
  bad_default : Text → ParamError
  bad_value : Text → ParamError

pub data Result (A : Type 0) : Type 0 where
  ok : A → Result A
  err : ParamError → Result A

-- The four supported types.
pub data Kind : Type 0 where
  string_kind : Kind
  int_kind : Kind
  bool_kind : Kind
  json_kind : Kind

unfoldable pub kind_of : Text → Option Kind
kind_of t =
    if text_eq t (codes "string")
    then some string_kind
    else if text_eq t (codes "int")
    then some int_kind
    else if text_eq t (codes "bool")
    then some bool_kind
    else if text_eq t (codes "json")
    then some json_kind
    else none

abbrev zero_of : Kind → Value
zero_of string_kind = string []
zero_of int_kind = int (pos 0)
zero_of bool_kind = bool false
zero_of json_kind = nil

-- zeroByType
unfoldable pub zero_by_type : Text → Option Value
zero_by_type t = elim (kind_of t) [ none ↦ none | some k ↦ some (zero_of k) ]

-- fmt.Sprint of a number or a Boolean
abbrev print_int : ℤ → Text
print_int (pos n) = itoa n
print_int (negsuc n) = b'-' ∷ itoa (suc n)

abbrev print_bool : Bool → Text
print_bool true = codes "true"
print_bool false = codes "false"

abbrev pub to_string : Value → Option Value
to_string (string s) = some (string s)
to_string (int n) = some (string (print_int n))
to_string (int64 n) = some (string (print_int n))
to_string (float64 whole printed) = some (string printed)
to_string (bool b) = some (string (print_bool b))
to_string nil = none
to_string (other s) = none

abbrev pub to_int : Value → Option Value
to_int (int n) = some (int n)
to_int (int64 n) = some (int n)
to_int (float64 (some n) printed) = some (int n)
to_int (float64 none printed) = none
to_int nil = none
to_int (string s) = none
to_int (bool b) = none
to_int (other s) = none

abbrev pub to_bool : Value → Option Value
to_bool (bool b) = some (bool b)
to_bool nil = none
to_bool (string s) = none
to_bool (int n) = none
to_bool (int64 n) = none
to_bool (float64 whole printed) = none
to_bool (other s) = none

abbrev pub normalize_kind : Kind → Value → Option Value
normalize_kind string_kind v = to_string v
normalize_kind int_kind v = to_int v
normalize_kind bool_kind v = to_bool v
normalize_kind json_kind v = some v

-- normalizeValue
unfoldable pub normalize_value : Text → Value → Option Value
normalize_value t v = elim (kind_of t) [ none ↦ none | some k ↦ normalize_kind k v ]

abbrev pub is_nil : Value → Bool
is_nil nil = true
is_nil (string s) = false
is_nil (int n) = false
is_nil (int64 n) = false
is_nil (float64 whole printed) = false
is_nil (bool b) = false
is_nil (other s) = false

-- A value, or the error for this parameter.
abbrev or_error : ParamError → Option Value → Result Value
or_error e none = err e
or_error e (some v) = ok v

-- The declared default, or the zero value of the type.
unfoldable pub default_value : ParamDef → Value → Result Value
default_value d zero_value =
    if is_nil d.default
    then ok zero_value
    else or_error (bad_default d.name) (normalize_value d.type d.default)

-- A configured value takes the place of the default.
unfoldable pub configured_value : ParamDef → Option Value → Value → Result Value
configured_value d none v = ok v
configured_value d (some u) v = or_error (bad_value d.name) (normalize_value d.type u)

-- One round of the loop of ResolveParams. A nil map of values has no entries.
unfoldable pub param_value : ParamDef → List (Text × Value) → Result Value
param_value d values = elim (zero_by_type d.type) [
  | none ↦ err (unsupported_type d.name)
  | some z ↦ elim (default_value d z) [
    | err e ↦ err e
    | ok v ↦ configured_value d (lookup text_dec d.name values) v
  ]
]

unfoldable pub resolve_from :
    List ParamDef → List (Text × Value) → List (Text × Value) → Result (List (Text × Value))
resolve_from [] values resolved = ok resolved
resolve_from (d ∷ ds) values resolved = elim (param_value d values) [
  | err e ↦ err e
  | ok v ↦ resolve_from ds values (insert text_dec d.name v resolved)
]

-- ResolveParams
unfoldable pub resolve_params : List ParamDef → List (Text × Value) → Result (List (Text × Value))
resolve_params defs values = resolve_from defs values []

unfoldable pub merge : List (Text × Value) → List (Text × Value) → List (Text × Value)
merge m [] = m
merge m ((k, v) ∷ over) = merge (insert text_dec k v m) over

-- ParamsFor in internal/addon/addon.go: the parameters of a tenant, whose values come before the
-- global ones.
unfoldable pub params_for :
    List ParamDef
    → List (Text × Value)
    → List (Text × Value)
    → List (Text × Value)
    → Result (List (Text × Value))
params_for defs params global_overrides [] = ok params
params_for defs params global_overrides (o ∷ os) =
    resolve_params defs (merge (merge [] global_overrides) (o ∷ os))

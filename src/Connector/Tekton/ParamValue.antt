-- ===== src/Connector/Tekton/ParamValue.antt =====
-- internal/connector/tekton.go, `TektonParamValue.UnmarshalJSON`: what encoding/json does with a value for a
-- text and for a struct of texts is written out. The texts of its errors are shortened.
pub mod Laws
use fluxgate_operator.Prelude.{
  Bool, true, false, not, ◌||◌, Result, ok, err, failure, Unicode, equal_fold, String, ◌==◌, ◌<>◌,
  if◌then◌else◌, ◌>>=◌, ◌≡◌, ◌↔◌,
}
use fluxgate_operator.Json.{Json, Fields, null, bool, num, str, arr, obj, end, field}
use fluxgate_operator.Connector.Types.{TektonParamValue}

abbrev pub kind_of : Json → String
kind_of null = "null"
kind_of (bool b) = "bool"
kind_of (num n) = "number"
kind_of (str s) = "string"
kind_of (arr xs) = "array"
kind_of (obj fs) = "object"

-- `json.Unmarshal` into a text that holds `old`: null leaves it as it is.
unfoldable pub unmarshal_text : String → Json → Result String
unmarshal_text old (str s) = ok s
unmarshal_text old null = ok old
unmarshal_text old (bool b) = err (failure "json: cannot unmarshal bool")
unmarshal_text old (num n) = err (failure "json: cannot unmarshal number")
unmarshal_text old (arr xs) = err (failure "json: cannot unmarshal array")
unmarshal_text old (obj fs) = err (failure "json: cannot unmarshal object")

abbrev pub zero_value : TektonParamValue
zero_value = record { type = ""; string_val = "" }

-- The field of the struct that a key names: by its exact name, or else by one that differs in case.
pub data Key : Type 0 where
  type_key : Key
  string_val_key : Key
  unknown_key : Key

abbrev pub key_of : Unicode → String → Key
key_of u k =
    if k == "type"
    then type_key
    else if k == "stringVal"
    then string_val_key
    else if equal_fold u k "type"
    then type_key
    else if equal_fold u k "stringVal"
    then string_val_key
    else unknown_key

-- One field of the object; a key that names none is skipped.
unfoldable pub set_field : Key → Json → TektonParamValue → Result TektonParamValue
set_field type_key j v = unmarshal_text v.type j >>= λ s. ok (record v { type = s })
set_field string_val_key j v =
    unmarshal_text v.string_val j >>= λ s. ok (record v { string_val = s })
set_field unknown_key j v = ok v

-- The fields in their order. Go reads on after a value that does not fit, and returns the first error.
unfoldable pub set_fields : Unicode → Fields → TektonParamValue → Result TektonParamValue
set_fields u end v = ok v
set_fields u (field k j fs) v = set_field (key_of u k) j v >>= λ v'. set_fields u fs v'

-- `json.Unmarshal` into the struct; null is taken for a text before.
unfoldable pub unmarshal_raw : Unicode → Json → Result TektonParamValue
unmarshal_raw u (obj fs) = set_fields u fs zero_value
unmarshal_raw u null = ok zero_value
unmarshal_raw u (str s) = err (failure "json: cannot unmarshal string")
unmarshal_raw u (bool b) = err (failure "json: cannot unmarshal bool")
unmarshal_raw u (num n) = err (failure "json: cannot unmarshal number")
unmarshal_raw u (arr xs) = err (failure "json: cannot unmarshal array")

-- `UnmarshalJSON`
unfoldable pub unmarshal_json : Unicode → Json → Result TektonParamValue
unmarshal_json u j = elim (unmarshal_text "" j) [
  | ok s ↦ ok (record { type = "string"; string_val = s })
  | err e ↦ unmarshal_raw u j
]

-- What `json.Marshal` makes of the struct by its tags: an empty text is left out. The program itself
-- only reads the struct.
abbrev pub unless_empty : String → String → Fields → Fields
unless_empty k s fs = if s == "" then fs else field k (str s) fs

unfoldable pub marshal_json : TektonParamValue → Json
marshal_json v = obj (unless_empty "type" v.type (unless_empty "stringVal" v.string_val end))

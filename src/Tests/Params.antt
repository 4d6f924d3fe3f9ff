-- ===== src/Tests/Params.antt =====
-- Defaults of Tekton parameters, read from JSON.
use fluxgate_operator.Prelude.{equal_fold, ok, err, failure, pos, ◌≡◌, ◌↔◌, refl}
use fluxgate_operator.Json.{Json, str, num, obj, arr, item, nil, field, end}
use fluxgate_operator.Connector.Types.{TektonParamValue}
use fluxgate_operator.Connector.Tekton.ParamValue.{
  unmarshal_json, unmarshal_text, unmarshal_raw, set_fields, set_field, marshal_json,
}
use fluxgate_operator.Connector.Tekton.ParamValue.Laws.{
  IsDefault, unmarshal_json-ok_iff, unmarshal_json-marshal_json,
}
use fluxgate_operator.Tests.Memory.{memory}

abbrev git_url : TektonParamValue
git_url = record { type = ""; string_val = "https://github.com/acme/shop" }

unmarshal_json-marshal_json_example :
    unmarshal_json memory.unicode (marshal_json git_url) ≡ ok git_url
unmarshal_json-marshal_json_example = unmarshal_json-marshal_json memory.unicode git_url

-- An object whose keys differ from the fields' in case, and a third that none of the fields has.
abbrev in_capitals : Json
in_capitals = obj (
    field "TYPE" (str "string")
      (field "StringVal" (str "main") (field "description" (num (pos 7)) end)))

unmarshal_json-ok_iff_example :
    ((v : TektonParamValue) × (unmarshal_json memory.unicode in_capitals ≡ ok v))
    ↔ IsDefault memory.unicode in_capitals
unmarshal_json-ok_iff_example = unmarshal_json-ok_iff memory.unicode in_capitals

capitals_read :
    unmarshal_json memory.unicode in_capitals ≡ ok (record { type = "string"; string_val = "main" })
unfolding unmarshal_json unmarshal_text unmarshal_raw set_fields set_field equal_fold
capitals_read = refl

array_refused :
    unmarshal_json memory.unicode (arr (item (str "a") nil))
    ≡ err (failure "json: cannot unmarshal array")
unfolding unmarshal_json unmarshal_text unmarshal_raw
array_refused = refl

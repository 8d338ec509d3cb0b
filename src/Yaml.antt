-- ===== src/Yaml.antt =====
-- frontend/src/utils/yaml.ts: resources as YAML. The library js-yaml is a parameter.
use k8s_platform.Common.{
  String, Bool, true, false, not, ◌&&◌, ◌==◌, Option, none, some, if◌then◌else◌,
}
use k8s_platform.Json.{
  Json, null, bool, number, text, array, object, Fields, end, field, prop?, is_true, as_record,
}

-- `delete o[k]`
abbrev pub del_field : String → Fields → Fields
del_field k end = end
del_field k (field j v fs) = if j == k then del_field k fs else field j v (del_field k fs)

abbrev pub without_managed : Json → Json
without_managed (object fs) = object (del_field "managedFields" fs)
without_managed v = v

abbrev pub clean_metadata : Fields → Fields
clean_metadata end = end
clean_metadata (field k v fs) =
    field k (if k == "metadata" then without_managed v else v) (clean_metadata fs)

-- The object itself, or the one that a wrapper holds in its field `Object`.
abbrev pub unwrap : Option Json → Json → Json
unwrap none raw = raw
unwrap (some wrapped) raw =
    if not (is_true (prop? (some raw) "apiVersion")) && not (is_true (prop? (some raw) "kind"))
    then wrapped
    else raw

abbrev pub cleaned : Json → Json
cleaned (object fs) = object (clean_metadata fs)
cleaned v = v

abbrev pub is_object : Json → Bool
is_object (object fs) = true
is_object (array vs) = true
is_object _ = false

-- `dump` is `yamlDump`, `none` where it throws; `pretty` is `JSON.stringify` with two blanks; `show`
-- is `String`. A copy by `JSON.parse(JSON.stringify(obj))` is the value.
module _ (dump : Json → Option String) (pretty show : Json → String) where
  abbrev written : Json → Option String → String
  written v none = pretty v
  written v (some s) = s

  abbrev write : Json → String
  write v = written v (dump v)

  unfoldable pub resource_to_yaml : Option Json → String
  resource_to_yaml none = ""
  resource_to_yaml (some null) = ""
  resource_to_yaml (some (text s)) = s
  resource_to_yaml (some (bool b)) = show (bool b)
  resource_to_yaml (some (number n)) = show (number n)
  resource_to_yaml (some (array vs)) = write (array vs)
  resource_to_yaml (some (object fs)) =
      write (cleaned (unwrap (as_record (prop? (some (object fs)) "Object")) (object fs)))

-- `load` is `yamlLoad`, `none` where it throws; `null` stands for a text that cannot be read.
unfoldable pub try_parse_yaml : (String → Option Json) → String → Json
try_parse_yaml load s = elim (load s) [ none ↦ null | some v ↦ v ]

-- ===== src/Pages/ResourceList/Template.antt =====
-- frontend/src/pages/resources/list.tsx: the YAML that the form of a new resource starts from.
use Prim.Native.String
use k8s_platform.Common.{
  String, Bool, false, not, ◌&&◌, ◌==◌, Option, none, some, List, [], ◌∷◌, ◌++◌, if◌then◌else◌,
}
use k8s_platform.Common.Dict
use k8s_platform.Text.{opt_truthy, or_text, text_of, join}
use k8s_platform.Kinds.{KindInfo, all_kinds_map}

abbrev is_wide : Option KindInfo → Bool
is_wide none = false
is_wide (some k) = k.cluster_scoped

abbrev pub spec_lines : String → List String
spec_lines kind =
    if kind == "Deployment"
    then "spec:" ∷ "  replicas: 1" ∷ "  selector:" ∷ "    matchLabels:" ∷ "      app: example"
      ∷ "  template:" ∷ "    metadata:" ∷ "      labels:" ∷ "        app: example" ∷ "    spec:"
      ∷ "      containers:" ∷ "        - name: main" ∷ "          image: nginx:alpine"
      ∷ "          ports:" ∷ "            - containerPort: 80" ∷ []
    else if kind == "Service"
    then "spec:" ∷ "  type: ClusterIP" ∷ "  selector:" ∷ "    app: example" ∷ "  ports:"
      ∷ "    - port: 80" ∷ "      targetPort: 80" ∷ []
    else if kind == "ConfigMap"
    then "data:" ∷ "  key1: value1" ∷ "  key2: value2" ∷ []
    else if kind == "Secret"
    then "type: Opaque" ∷ "data:" ∷ "  # 注意：Secret data 需要 base64 编码" ∷ "  password: cGFzc3dvcmQ="
      ∷ []
    else "spec: {}" ∷ []

-- `lower` is `toLowerCase`.
module _ (lower : String → String) where
  abbrev pub name_line : String → Option String → String
  name_line kind name =
      if opt_truthy name
      then String.◌++◌ "  name: " (or_text name "")
      else String.◌++◌ "  name: example-" (lower kind)

  abbrev pub namespace_lines : String → Option String → List String
  namespace_lines kind namespace =
      if not (is_wide (Dict.get all_kinds_map kind))
        && (opt_truthy namespace && not (text_of namespace == "__cluster__"))
      then String.◌++◌ "  namespace: " (text_of namespace) ∷ []
      else []

  unfoldable pub default_yaml_template : String → String → (namespace name : Option String) → String
  default_yaml_template api_version kind namespace name =
      if kind == "Namespace"
      then String.◌++◌ "apiVersion: v1\nkind: Namespace\nmetadata:\n  name: "
          (String.◌++◌ (or_text name "example-namespace") "\n")
      else String.◌++◌
          (join "\n" (
            String.◌++◌ "apiVersion: " api_version
            ∷ String.◌++◌ "kind: " kind
            ∷ "metadata:"
            ∷ name_line kind name
            ∷ (namespace_lines kind namespace
                ++ "  labels:" ∷ ("    app: example" ∷ spec_lines kind))))
          "\n"

-- ===== src/Pages/PodLogs.antt =====
-- frontend/src/pages/pods/logs.tsx: the page of the logs of a pod.
pub mod Containers
use k8s_platform.Common.{
  ℕ, String, Bool, true, false, not, ◌&&◌, ◌||◌, ◌==◌, Option, none, some, List, [], ◌∷◌, ◌++◌,
  find, contains, if◌then◌else◌, coalesce,
}
use k8s_platform.Common.Dict
use k8s_platform.Text.{truthy, opt_truthy, or_text, or_none, text_of}
use k8s_platform.Json.{Json, prop?, as_text}
use k8s_platform.Api.Resource.{KubernetesResource, ListResourcesParams}
use k8s_platform.Pages.ResourceList.{array_of, name_of}

-- The names that are pushed for one list of containers.
abbrev pub push_names : List String → List Json → List String
push_names names [] = names
push_names names (c ∷ cs) =
    push_names
      (if truthy (name_of c) && not (contains names (name_of c))
        then names ++ name_of c ∷ []
        else names)
      cs

unfoldable pub extract_containers : KubernetesResource Json → List String
extract_containers pod =
    let spec = coalesce pod.spec [] in
    push_names (push_names [] (array_of (Dict.get spec "initContainers")))
      (array_of (Dict.get spec "containers"))

pub record LogsState : Type 0 where
  pub cluster_code : String
  pub namespace : String
  pub pod_name : String
  pub container_name : Option String

unfoldable pub initial_state : List (String × String) → Option String → LogsState
initial_state query selected = record {
  cluster_code = or_text (Dict.get query "code") (or_text selected "");
  namespace = or_text (Dict.get query "namespace") "";
  pod_name = or_text (Dict.get query "pod") "";
  container_name = or_none (or_text (Dict.get query "container") "");
}

-- The list of pods that the page asks for, unless it skips it.
unfoldable pub list_params : LogsState → ListResourcesParams
list_params state = record {
  code = state.cluster_code;
  api_version = "v1";
  kind = "Pod";
  namespace = some state.namespace;
  page = none;
  size = some 200;
  keyword = none;
}

abbrev pub skips : LogsState → Bool
skips state = not (truthy state.cluster_code) || not (truthy state.namespace)

abbrev given : String → String → List (String × String)
given key s = if truthy s then (key, s) ∷ [] else []

-- The parameters that the page writes into the URL.
unfoldable pub url_params : LogsState → List (String × String)
url_params state =
    given "code" state.cluster_code
    ++ (given "namespace" state.namespace
        ++ (given "pod" state.pod_name ++ given "container" (text_of state.container_name)))

abbrev named : String → KubernetesResource Json → Bool
named name p = p.metadata.name == name

abbrev options_of : Option (KubernetesResource Json) → List String
options_of none = []
options_of (some pod) = extract_containers pod

unfoldable pub container_options : List (KubernetesResource Json) → String → List String
unfolding extract_containers
container_options pods pod_name = options_of (find (named pod_name) pods)

-- The effect that keeps the chosen container among those of the pod.
unfoldable pub container_effect : List String → Option String → Option String
container_effect [] chosen = chosen
container_effect (c ∷ cs) chosen =
    if opt_truthy chosen && contains (c ∷ cs) (text_of chosen) then chosen else some c

-- The selects: each forgets what hangs on it.
unfoldable pub choose_cluster : Option String → LogsState → LogsState
choose_cluster v state = record {
  cluster_code = or_text v "";
  namespace = "";
  pod_name = "";
  container_name = none;
}

unfoldable pub choose_namespace : Option String → LogsState → LogsState
choose_namespace v state = record state {
  namespace = or_text v "";
  pod_name = "";
  container_name = none;
}

unfoldable pub choose_pod : Option String → LogsState → LogsState
choose_pod v state = record state { pod_name = or_text v ""; container_name = none }

unfoldable pub choose_container : Option String → LogsState → LogsState
choose_container v state = record state { container_name = or_none (or_text v "") }

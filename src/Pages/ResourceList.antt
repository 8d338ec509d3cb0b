-- ===== src/Pages/ResourceList.antt =====
-- frontend/src/pages/resources/list.tsx: the list of the resources of a kind.
pub mod Template
pub mod Actions
pub mod Namespaces
use Prim.Native.String
use k8s_platform.Common.{
  ℕ, String, Bool, true, false, not, ◌&&◌, ◌||◌, ◌==◌, Option, none, some, List, [], ◌∷◌, ◌++◌,
  find, map, contains, if◌then◌else◌, coalesce, opt_eq,
}
use k8s_platform.Common.Dict
use k8s_platform.Text.{truthy, opt_truthy, or_text, or_none, text_of}
use k8s_platform.Slices.User.{CurrentUser}
use k8s_platform.Access.Permission.{has_perm}
use k8s_platform.Json.{Json, array, items, prop?, as_text}
use k8s_platform.Kinds.{
  ResourceTab, workload, network, config, storage, KindItem, KindGroup, KindInfo, kind_groups,
  all_kinds_map, info_of,
}
use k8s_platform.Api.Resource.{
  Mutation, KubernetesResource, ListResourcesParams, CreateResourceParams, GetResourceParams,
  create_resource, delete_resource,
}
use k8s_platform.Pages.{Act, error, warning, success, send, go, reload, if_ok}

abbrev pub cluster_scoped_ns : String
cluster_scoped_ns = "__cluster__"

pub record Perms : Type 0 where
  pub can_view : Bool
  pub can_create : Bool
  pub can_update : Bool
  pub can_delete : Bool
  pub can_backup : Bool

unfoldable pub perms_of : Option CurrentUser → Perms
perms_of user = record {
  can_view =
      has_perm user "resource:view"
      || (has_perm user "resource:get" || has_perm user "resource:list");
  can_create = has_perm user "resource:create";
  can_update = has_perm user "resource:update" || has_perm user "resource:edit";
  can_delete = has_perm user "resource:delete";
  can_backup = has_perm user "backup:create";
}

-- The pod whose log drawer is open.
pub record CurrentPod : Type 0 where
  pub cluster_code : String
  pub namespace : String
  pub name : String
  pub container_name : Option String

-- The `useState` cells of the page. A tab is a text, as the URL may have any.
pub record ListState : Type 0 where
  pub cluster_code : Option String
  pub tab : String
  pub kind : String
  pub namespace : String
  pub keyword : String
  pub page : ℕ
  pub size : ℕ
  pub create_drawer_open : Bool
  pub create_yaml : String
  pub log_drawer_open : Bool
  pub current_pod : Option CurrentPod

abbrev pub tab_text : ResourceTab → String
tab_text workload = "workload"
tab_text network = "network"
tab_text config = "config"
tab_text storage = "storage"

-- `a || b`
abbrev pub or_code : Option String → Option String → Option String
or_code a b = if opt_truthy a then a else b

unfoldable pub initial_state : List (String × String) → Option String → ListState
initial_state query selected = record {
  cluster_code = or_code (Dict.get query "cluster_code") selected;
  tab = or_text (Dict.get query "tab") "workload";
  kind = or_text (Dict.get query "kind") "Deployment";
  namespace = or_text (Dict.get query "namespace") "";
  keyword = "";
  page = 1;
  size = 10;
  create_drawer_open = false;
  create_yaml = "";
  log_drawer_open = false;
  current_pod = none;
}

abbrev if_new : Bool → String → ListState → Option String → ListState × Option String
if_new true new state selected =
    (record state { cluster_code = some new }, if opt_eq selected new then none else some new)
if_new false new state selected = (state, none)

-- The effect that follows the URL and the chosen cluster: the new state, and the cluster that it
-- selects in the store.
unfoldable pub cluster_effect :
    (code_param selected : Option String) → ListState → ListState × Option String
cluster_effect code_param selected state =
    let new = text_of (or_code code_param selected) in
    if_new (truthy new && not (opt_eq state.cluster_code new)) new state selected

abbrev pub given : String → String → List (String × String)
given key s = if truthy s then (key, s) ∷ [] else []

-- The parameters that the page writes into the URL.
unfoldable pub url_params : ListState → List (String × String)
url_params state =
    ("tab", state.tab)
    ∷ ("kind", state.kind)
    ∷ (given "cluster_code" (text_of state.cluster_code) ++ given "namespace" state.namespace)

abbrev first_group : KindGroup
first_group = record { key = workload; label = ""; kinds = [] }

abbrev head_group : List KindGroup → KindGroup
head_group [] = first_group
head_group (g ∷ gs) = g

abbrev pub has_tab : String → KindGroup → Bool
has_tab tab g = tab_text g.key == tab

abbrev pub current_group : String → KindGroup
current_group tab = coalesce (find (has_tab tab) kind_groups) (head_group kind_groups)

-- The first kind of a group; no group is empty.
abbrev pub head_kind : List KindItem → KindItem
head_kind [] = record { label = ""; value = ""; api_version = ""; cluster_scoped = false }
head_kind (k ∷ ks) = k

unfoldable pub kind_meta : (tab kind : String) → KindInfo
kind_meta tab kind =
    coalesce (Dict.get all_kinds_map kind) (info_of (head_kind (current_group tab).kinds))

pub record NamespaceOption : Type 0 where
  pub label : String
  pub value : String

abbrev pub plain : String → NamespaceOption
plain n = record { label = n; value = n }

abbrev or_default : Bool → List String → List String
or_default is_full_cluster [] = if is_full_cluster then "default" ∷ [] else []
or_default is_full_cluster (n ∷ ns) = n ∷ ns

unfoldable pub namespace_options :
    (is_cluster_scoped is_full_cluster : Bool) → List String → List NamespaceOption
namespace_options is_cluster_scoped is_full_cluster names =
    let opts = map plain (or_default is_full_cluster names) in
    if is_cluster_scoped
    then record { label = "（集群级资源，无 Namespace）"; value = cluster_scoped_ns } ∷ []
    else if is_full_cluster
    then record { label = "（全部命名空间）"; value = "" } ∷ opts
    else opts

abbrev first_name : List String → String
first_name [] = ""
first_name (n ∷ ns) = n

-- The two effects on the chosen namespace: the value that each sets, if it sets one. `names` are the
-- namespaces that the user may see.
unfoldable pub kind_effect :
    (is_cluster_scoped is_full_cluster : Bool) → List String → String → Option String
kind_effect is_cluster_scoped is_full_cluster names namespace =
    if is_cluster_scoped && not (namespace == cluster_scoped_ns)
    then some cluster_scoped_ns
    else if not is_cluster_scoped && namespace == cluster_scoped_ns
    then some (if is_full_cluster then "" else first_name names)
    else none

unfoldable pub member_effect :
    (is_cluster_scoped is_full_cluster : Bool) → List String → String → Option String
member_effect is_cluster_scoped is_full_cluster [] namespace = none
member_effect is_cluster_scoped is_full_cluster (n ∷ ns) namespace =
    if not is_cluster_scoped && (not is_full_cluster && not (contains (n ∷ ns) namespace))
    then some n
    else none

-- The namespace after both effects of a render: the last value that was set stands.
unfoldable pub after_effects :
    (is_cluster_scoped is_full_cluster : Bool) → List String → String → String
unfolding kind_effect member_effect
after_effects scoped full names namespace =
    coalesce (member_effect scoped full names namespace)
      (coalesce (kind_effect scoped full names namespace) namespace)

-- The namespace that the list is asked for.
abbrev pub effective_ns : Bool → String → Option String
effective_ns is_cluster_scoped namespace = if is_cluster_scoped then none else or_none namespace

unfoldable pub list_params : ListState → ListResourcesParams
list_params state =
    let meta = kind_meta state.tab state.kind in
    record {
      code = text_of state.cluster_code;
      api_version = meta.api_version;
      kind = state.kind;
      namespace = effective_ns meta.cluster_scoped state.namespace;
      page = some state.page;
      size = some state.size;
      keyword = or_none state.keyword;
    }

-- Whether the list is not asked for.
unfoldable pub skips : Perms → (is_full_cluster : Bool) → ListState → Bool
skips perms is_full_cluster state =
    not perms.can_view
    || (not (opt_truthy state.cluster_code)
        || (not (kind_meta state.tab state.kind).cluster_scoped
            && (not is_full_cluster && not (truthy state.namespace))))

-- The first named container of `spec.initContainers` and then of `spec.containers`.
abbrev pub array_of : Option Json → List Json
array_of (some (array vs)) = items vs
array_of _ = []

abbrev pub name_of : Json → String
name_of c = text_of (as_text (prop? (some c) "name"))

abbrev pub first_named : List Json → Option String
first_named [] = none
first_named (c ∷ cs) = if truthy (name_of c) then some (name_of c) else first_named cs

unfoldable pub first_pod_container : KubernetesResource Json → Option String
first_pod_container item =
    let spec = coalesce item.spec [] in
    first_named (array_of (Dict.get spec "initContainers") ++ array_of (Dict.get spec "containers"))

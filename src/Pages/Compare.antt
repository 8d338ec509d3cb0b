-- ===== src/Pages/Compare.antt =====
-- frontend/src/pages/ops/compare.tsx: the comparison of a resource between two clusters.
pub mod Names
use Prim.Native.String
use k8s_platform.Common.{
  ℕ, String, Bool, true, false, not, ◌&&◌, ◌||◌, ◌==◌, Option, none, some, List, [], ◌∷◌, ◌++◌, map,
  contains, if◌then◌else◌, coalesce,
}
use k8s_platform.Common.Dict
use k8s_platform.Text.{truthy, opt_truthy, or_text, text_of}
use k8s_platform.Kinds.{KindInfo, all_kinds_map}
use k8s_platform.Api.Cluster.{Cluster}
use k8s_platform.Api.Resource.{ListResourcesParams, GetResourceParams}
use k8s_platform.Pages.{Act, error, warning, send}

pub record CompareForm : Type 0 where
  pub left_cluster : String
  pub right_cluster : String
  pub left_namespace : String
  pub right_namespace : String
  pub kind : String
  pub name : String

-- The first of `ALL_KIND_OPTIONS`, for a kind that is not known.
abbrev first_option : KindInfo
first_option = record { api_version = "apps/v1"; cluster_scoped = false }

unfoldable pub kind_meta : String → KindInfo
kind_meta kind = coalesce (Dict.get all_kinds_map kind) first_option

abbrev pub can_list : (cluster kind namespace : Option String) → Bool
can_list cluster kind namespace =
    opt_truthy cluster
    && (opt_truthy kind && ((kind_meta (text_of kind)).cluster_scoped || opt_truthy namespace))

unfoldable pub list_params : (cluster kind namespace : Option String) → ListResourcesParams
list_params cluster kind namespace =
    let meta = kind_meta (text_of kind) in
    record {
      code = or_text cluster "";
      api_version = or_text (some meta.api_version) "apps/v1";
      kind = or_text kind "Deployment";
      namespace = if meta.cluster_scoped then none else namespace;
      page = none;
      size = some 200;
      keyword = none;
    }

-- On which sides a name stands.
pub record Sides : Type 0 where
  pub left : Bool
  pub right : Bool

abbrev pub has_left : Option Sides → Bool
has_left none = false
has_left (some s) = s.left

abbrev pub add_left : List (String × Sides) → List String → List (String × Sides)
add_left m [] = m
add_left m (n ∷ ns) =
    add_left (if truthy n then Dict.put m n (record { left = true; right = false }) else m) ns

abbrev pub add_right : List (String × Sides) → List String → List (String × Sides)
add_right m [] = m
add_right m (n ∷ ns) =
    add_right
      (if truthy n
        then Dict.put m n (record { left = has_left (Dict.get m n); right = true })
        else m)
      ns

-- The names of the two lists, each with its sides.
unfoldable pub sides : (left right : List String) → List (String × Sides)
sides left right = add_right (add_left [] left) right

pub record NameOption : Type 0 where
  pub value : String
  pub label : String

abbrev pub name_option : String × Sides → NameOption
name_option (n, s) = record {
  value = n;
  label =
      if s.left && s.right
      then n
      else String.◌++◌ n (String.◌++◌ "（仅" (String.◌++◌ (if s.left then "左侧" else "右侧") "）"));
}

-- `sort` is `sort` by `localeCompare` of the names.
unfoldable pub name_options :
    (List (String × Sides) → List (String × Sides)) → (left right : List String) → List NameOption
unfolding sides
name_options sort left right = map name_option (sort (sides left right))

abbrev first_code : List Cluster → String
first_code [] = ""
first_code (c ∷ cs) = c.code

abbrev second_code : List Cluster → String
second_code [] = ""
second_code (c ∷ []) = c.code
second_code (c ∷ d ∷ cs) = or_text (some d.code) c.code

-- What the form starts with, from the URL and the clusters; an empty cluster is none.
unfoldable pub initial_values : List (String × String) → List Cluster → CompareForm
initial_values query clusters = record {
  left_cluster = or_text (Dict.get query "left") (first_code clusters);
  right_cluster = or_text (Dict.get query "right") (second_code clusters);
  kind = or_text (Dict.get query "kind") "Deployment";
  name = or_text (Dict.get query "name") "";
  left_namespace = or_text (Dict.get query "left_ns") "default";
  right_namespace = or_text (Dict.get query "right_ns") "default";
}

-- The effect that keeps the namespace of a side among those of the user.
unfoldable pub namespace_effect : (is_full_cluster : Bool) → List String → String → String
namespace_effect is_full_cluster [] current = current
namespace_effect is_full_cluster (n ∷ ns) current =
    if not is_full_cluster && not (contains (n ∷ ns) current) then n else current

-- The cells of the result.
pub record Shown : Type 0 where
  pub left_yaml : String
  pub right_yaml : String
  pub left_error : String
  pub right_error : String
  pub compared : Bool
  pub summary : String

-- How a fetch ends: with the object, as YAML, or with an error that may have a message.
pub data Settled : Type 0 where
  fulfilled : (yaml : String) → Settled
  rejected : (message : Option String) → Settled

abbrev yaml_shown : String → Settled → String
yaml_shown fallback (fulfilled yaml) = yaml
yaml_shown fallback (rejected m) = String.◌++◌ "# " (String.◌++◌ (or_text m fallback) "\n")

abbrev error_shown : String → Settled → String
error_shown fallback (fulfilled yaml) = ""
error_shown fallback (rejected m) = or_text m fallback

abbrev is_fulfilled : Settled → Bool
is_fulfilled (fulfilled yaml) = true
is_fulfilled (rejected m) = false

abbrev loaded_text : Settled → String
loaded_text (fulfilled yaml) = yaml
loaded_text (rejected m) = ""

unfoldable pub summary_of : (left right : Settled) → String
summary_of left right =
    if truthy (loaded_text left) && loaded_text left == loaded_text right
    then "两侧 YAML 完全一致"
    else if is_fulfilled left && is_fulfilled right
    then "两侧 YAML 存在差异"
    else "未能完整加载两侧配置"

unfoldable pub shown : (left right : Settled) → Shown
unfolding summary_of
shown left right = record {
  left_yaml = yaml_shown "左侧集群加载失败" left;
  right_yaml = yaml_shown "右侧集群加载失败" right;
  left_error = error_shown "左侧集群加载失败" left;
  right_error = error_shown "右侧集群加载失败" right;
  compared = true;
  summary = summary_of left right;
}

-- The parameters that a comparison writes into the URL.
unfoldable pub url_params : (is_cluster_scoped : Bool) → CompareForm → List (String × String)
url_params is_cluster_scoped v =
    ("left", v.left_cluster)
    ∷ ("right", v.right_cluster)
    ∷ ("kind", v.kind)
    ∷ ("name", v.name)
    ∷ (if is_cluster_scoped
        then []
        else ("left_ns", v.left_namespace) ∷ ("right_ns", v.right_namespace) ∷ [])

abbrev fetch_of :
    (String → String) → CompareForm → String → (code namespace : String) → GetResourceParams
fetch_of trim v api_version code namespace = record {
  code = code;
  api_version = api_version;
  kind = v.kind;
  namespace = some namespace;
  name = trim v.name;
}

abbrev same_place : CompareForm → Bool → List (Act GetResourceParams)
same_place v is_cluster_scoped =
    if v.left_cluster == v.right_cluster
      && (not is_cluster_scoped && v.left_namespace == v.right_namespace)
    then warning "请选择两个不同的集群，或同一集群下不同命名空间" ∷ []
    else []

abbrev place_of : Bool → String → String
place_of is_cluster_scoped namespace = if is_cluster_scoped then "_" else namespace

-- What a comparison shows and fetches: `is_cluster_scoped` is that of the kind that is watched.
abbrev fetches :
    (String → String) → CompareForm → Bool → Option KindInfo → List (Act GetResourceParams)
fetches trim v is_cluster_scoped none = error "未知资源类型" ∷ []
fetches trim v is_cluster_scoped (some meta) =
    if truthy meta.api_version
    then send (
        fetch_of trim v meta.api_version v.left_cluster
          (place_of is_cluster_scoped v.left_namespace))
      ∷ send (
          fetch_of trim v meta.api_version v.right_cluster
            (place_of is_cluster_scoped v.right_namespace))
      ∷ []
    else error "未知资源类型" ∷ []

unfoldable pub handle_compare :
    (String → String) → (is_cluster_scoped : Bool) → CompareForm → List (Act GetResourceParams)
handle_compare trim is_cluster_scoped v =
    same_place v is_cluster_scoped
    ++ fetches trim v is_cluster_scoped (Dict.get all_kinds_map v.kind)

unfoldable pub swap_clusters : CompareForm → CompareForm
swap_clusters v = record v {
  left_cluster = v.right_cluster;
  right_cluster = v.left_cluster;
  left_namespace = v.right_namespace;
  right_namespace = v.left_namespace;
}

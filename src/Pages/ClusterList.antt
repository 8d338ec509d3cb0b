-- ===== src/Pages/ClusterList.antt =====
-- frontend/src/pages/clusters/list.tsx: the list of the clusters.
use Prim.Native.String
use k8s_platform.Common.{
  ℕ, String, Bool, true, false, Option, none, some, List, [], ◌∷◌, nat_eq, if◌then◌else◌, opt_eq,
}
use k8s_platform.Common.Dict
use k8s_platform.Text.{truthy, or_text}
use k8s_platform.Slices.User.{CurrentUser}
use k8s_platform.Access.Permission.{has_perm}
use k8s_platform.Api.Cluster.{
  Cluster, PingResponse, ListClustersParams, Mutation, ping_cluster, delete_cluster,
}
use k8s_platform.Pages.{Act, error, success, send, go, reload}

pub record Perms : Type 0 where
  pub can_create : Bool
  pub can_update : Bool
  pub can_delete : Bool
  pub can_ping : Bool

unfoldable pub perms_of : Option CurrentUser → Perms
perms_of user = record {
  can_create = has_perm user "cluster:create";
  can_update = has_perm user "cluster:update";
  can_delete = has_perm user "cluster:delete";
  can_ping = has_perm user "cluster:ping";
}

unfoldable pub initial_params : List (String × String) → ListClustersParams
initial_params query = record {
  keyword = some (or_text (Dict.get query "keyword") "");
  page = some 1;
  size = some 10;
}

abbrev pub submit_search : Option String → ListClustersParams → ListClustersParams
submit_search kw p = record p { keyword = some (or_text kw ""); page = some 1 }

abbrev pub reset_search : ListClustersParams → ListClustersParams
reset_search p = record p { keyword = some ""; page = some 1 }

abbrev pub change_page : (page size : ℕ) → ListClustersParams → ListClustersParams
change_page page size p = record p { page = some page; size = some size }

-- `encode` is `encodeURIComponent`, `digits` writes a number.
module _ (encode : String → String) (digits : ℕ → String) where
  unfoldable pub open_resources : Cluster → Option (Option String) × List (Act Mutation)
  open_resources c =
      (some (some c.code), go (String.◌++◌ "/resources/list?cluster_code=" (encode c.code)) ∷ [])

  abbrev ping_text : PingResponse → String
  ping_text res = String.◌++◌ "Ping 成功" (
      String.◌++◌
        (if truthy res.server_version
          then String.◌++◌ " (" (String.◌++◌ res.server_version ")")
          else "")
        (String.◌++◌ (String.◌++◌ " 节点:" (digits res.node_count)) (
          if nat_eq res.cost_ms 0
          then ""
          else String.◌++◌ " 耗时:" (String.◌++◌ (digits res.cost_ms) "ms"))))

  abbrev ping_shown : Option PingResponse → Act Mutation
  ping_shown none = error "Ping 失败"
  ping_shown (some res) = success (ping_text res)

  -- The answer is `none` where the request failed; the list is fetched again in any case.
  unfoldable pub ping : Cluster → Option PingResponse → List (Act Mutation)
  ping c answer = send (ping_cluster c.code) ∷ ping_shown answer ∷ reload ∷ []

abbrev after_delete : Option String → Cluster → Bool → Option (Option String) × List (Act Mutation)
after_delete selected c false = (none, send (delete_cluster c.code) ∷ [])
after_delete selected c true = (
  if opt_eq selected c.code then some none else none,
  send (delete_cluster c.code) ∷ success "删除成功" ∷ reload ∷ [],
)

-- A deletion that the user confirmed; the chosen cluster is left if it is the deleted one.
unfoldable pub delete_item :
    Option String → Cluster → Bool → Option (Option String) × List (Act Mutation)
delete_item selected c ok = after_delete selected c ok

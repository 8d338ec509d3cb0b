-- ===== src/Access/Routes/Table.antt =====
-- frontend/src/app/router.tsx: the table of routes and what each renders.
use k8s_platform.Common.{String, Bool, Option, none, some, List, [], ◌∷◌, find}
use k8s_platform.Slices.User.{UserState}
use k8s_platform.Access.Routes.{
  Page, login, dashboard, cluster_list, cluster_import, resource_list, resource_edit,
  quota_management, backup_list, backup_create, pod_logs, audit_log_list, user_list, role_list,
  helm_list, helm_repos, cluster_compare, View, shown, navigate, require_auth, guarded,
  redirect_if_authed,
}

-- The element of a route; the last two stand below the layout, which `RequireAuth` guards.
pub data Element : Type 0 where
  authed_away : Page → Element
  go_to : String → Element
  inner_go_to : String → Element
  plain : Page → Element
  guarded_at : String → Page → Element

-- A leaf of the route tree, with its path from the root.
pub record Route : Type 0 where
  pub path : String
  pub element : Element

abbrev pub routes : List Route
routes =
    record { path = "/login"; element = authed_away login }
    ∷ record { path = "/"; element = inner_go_to "/dashboard" }
    ∷ record { path = "/dashboard"; element = plain dashboard }
    ∷ record { path = "/clusters"; element = inner_go_to "/clusters/list" }
    ∷ record { path = "/clusters/list"; element = guarded_at "/clusters/list" cluster_list }
    ∷ record { path = "/clusters/import"; element = guarded_at "/clusters/import" cluster_import }
    ∷ record { path = "/resources"; element = inner_go_to "/resources/list" }
    ∷ record { path = "/resources/list"; element = guarded_at "/resources/list" resource_list }
    ∷ record { path = "/resources/quota"; element = guarded_at "/resources/quota" quota_management }
    ∷ record { path = "/resources/workloads"; element = inner_go_to "/resources/list?tab=workload" }
    ∷ record {
      path = "/resources/workloads/:type";
      element = inner_go_to "/resources/list?tab=workload";
    }
    ∷ record {
      path = "/resources/:code/:apiVersion/:kind/:namespace/:name/edit";
      element = guarded_at "/resources/edit" resource_edit;
    }
    ∷ record { path = "/backups"; element = inner_go_to "/backups/list" }
    ∷ record { path = "/backups/list"; element = guarded_at "/backups/list" backup_list }
    ∷ record { path = "/backups/create"; element = guarded_at "/backups/create" backup_create }
    ∷ record { path = "/pods"; element = inner_go_to "/pods/logs" }
    ∷ record { path = "/pods/logs"; element = guarded_at "/pods/logs" pod_logs }
    ∷ record { path = "/ops"; element = inner_go_to "/ops/compare" }
    ∷ record { path = "/ops/compare"; element = guarded_at "/ops/compare" cluster_compare }
    ∷ record { path = "/rbac"; element = inner_go_to "/rbac/users" }
    ∷ record { path = "/rbac/users"; element = guarded_at "/rbac/users" user_list }
    ∷ record { path = "/rbac/roles"; element = guarded_at "/rbac/roles" role_list }
    ∷ record { path = "/audit"; element = inner_go_to "/audit/list" }
    ∷ record { path = "/audit/list"; element = guarded_at "/audit/list" audit_log_list }
    ∷ record { path = "/helm"; element = inner_go_to "/helm/list" }
    ∷ record { path = "/helm/list"; element = guarded_at "/helm/list" helm_list }
    ∷ record { path = "/helm/repos"; element = guarded_at "/helm/repos" helm_repos }
    ∷ record { path = "*"; element = go_to "/dashboard" }
    ∷ []

unfoldable pub render : (String → String) → UserState → String → Element → View
render encode state location (authed_away p) = redirect_if_authed state (shown p)
render encode state location (go_to target) = navigate target
render encode state location (inner_go_to target) =
    require_auth encode state location (navigate target)
render encode state location (plain p) = require_auth encode state location (shown p)
render encode state location (guarded_at path p) =
    require_auth encode state location (guarded path state (shown p))

-- The page at a location: `chosen` is the router library's choice of a route for it.
unfoldable pub visit : (Route → Bool) → (String → String) → UserState → String → Option View
visit chosen encode state location = elim (find chosen routes) [
  | none ↦ none
  | some r ↦ some (render encode state location r.element)
]

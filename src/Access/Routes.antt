-- ===== src/Access/Routes.antt =====
-- frontend/src/app/routePerms.ts and frontend/src/app/router.tsx: which page a user gets to see.
pub mod Redirects
pub mod Allowed
pub mod Table
use Prim.Native.String
use k8s_platform.Common.{
  String, Bool, true, false, not, ◌&&◌, ◌||◌, Option, none, some, List, [], ◌∷◌, if◌then◌else◌,
}
use k8s_platform.Common.Dict
use k8s_platform.Text.{opt_truthy, starts_with, includes}
use k8s_platform.Slices.User.{UserState, CurrentUser, ProfileStatus}
use k8s_platform.Access.Permission.{is_admin, has_any_perm}

abbrev pub route_perms : List (String × List String)
route_perms =
    (
      "/clusters",
      "cluster:list" ∷ "cluster:create" ∷ "cluster:update" ∷ "cluster:delete" ∷ "cluster:ping" ∷ [],
    )
    ∷ ("/clusters/list", "cluster:list" ∷ [])
    ∷ ("/clusters/import", "cluster:create" ∷ [])
    ∷ (
      "/resources",
      "resource:list" ∷ "resource:get" ∷ "resource:create" ∷ "resource:update" ∷ "resource:delete"
          ∷ [],
    )
    ∷ ("/resources/list", "resource:list" ∷ [])
    ∷ ("/resources/edit", "resource:get" ∷ [])
    ∷ ("/resources/quota", "resource:list" ∷ [])
    ∷ ("/backups", "backup:list" ∷ "backup:create" ∷ "backup:restore" ∷ "backup:delete" ∷ [])
    ∷ ("/backups/list", "backup:list" ∷ [])
    ∷ ("/backups/create", "backup:create" ∷ [])
    ∷ ("/rbac", "user:manage" ∷ "role:manage" ∷ [])
    ∷ ("/rbac/users", "user:manage" ∷ [])
    ∷ ("/rbac/roles", "role:manage" ∷ [])
    ∷ ("/audit", "audit:list" ∷ [])
    ∷ ("/audit/list", "audit:list" ∷ [])
    ∷ ("/helm", "helm:view" ∷ "helm:install" ∷ "helm:uninstall" ∷ "helm:rollback" ∷ [])
    ∷ ("/helm/list", "helm:view" ∷ [])
    ∷ ("/helm/repos", "helm:view" ∷ [])
    ∷ ("/pods/logs", "resource:get" ∷ "resource:list" ∷ [])
    ∷ ("/ops/compare", "resource:get" ∷ [])
    ∷ []

unfoldable pub safe_redirect_path : Option String → String
safe_redirect_path none = "/dashboard"
safe_redirect_path (some raw) =
    if not (opt_truthy (some raw))
    then "/dashboard"
    else if not (starts_with raw "/") || starts_with raw "//" || includes raw "://"
    then "/dashboard"
    else raw

-- The pages of the router, and what is rendered.
pub data Page : Type 0 where
  login dashboard cluster_list cluster_import resource_list resource_edit quota_management : Page
  backup_list backup_create pod_logs audit_log_list user_list role_list : Page
  helm_list helm_repos cluster_compare : Page

pub data View : Type 0 where
  shown : Page → View
  navigate : String → View
  page_fallback permission_error forbidden : View

-- `encode` is `encodeURIComponent`; `location` is the path with its query.
unfoldable pub require_auth : (String → String) → UserState → String → View → View
require_auth encode state location children =
    if opt_truthy state.token
    then children
    else navigate (String.◌++◌ "/login?redirect=" (encode location))

unfoldable pub decide_perm : ProfileStatus → Option CurrentUser → List String → View → View
decide_perm ProfileStatus.failed none perms children = permission_error
decide_perm _ none perms children = page_fallback
decide_perm _ (some user) perms children =
    if is_admin (some user) || has_any_perm (some user) perms then children else forbidden

unfoldable pub require_perm : UserState → List String → View → View
unfolding decide_perm
require_perm state perms children =
    decide_perm state.profile_status state.current_user perms children

-- `withPage` only shows a fallback while the code of the page loads.
unfoldable pub guard_with : Option (List String) → UserState → View → View
guard_with none state element = element
guard_with (some perms) state element = require_perm state perms element

unfoldable pub guarded : String → UserState → View → View
unfolding guard_with
guarded path state element = guard_with (Dict.get route_perms path) state element

unfoldable pub redirect_if_authed : UserState → View → View
unfolding safe_redirect_path
redirect_if_authed state children =
    if opt_truthy state.token then navigate (safe_redirect_path (some "/dashboard")) else children

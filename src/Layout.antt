-- ===== src/Layout.antt =====
-- frontend/src/layouts/BasicLayout.tsx: the frame around the pages: the menu that a user sees, the
-- badge of the WebSocket, the effects of the frame and the logout.
pub mod Filter
pub mod Links
pub mod Frame
mod Tests
use k8s_platform.Common.{
  String, Bool, true, false, not, ◌&&◌, ◌||◌, Option, none, some, List, [], ◌∷◌, ◌++◌,
  if◌then◌else◌,
}
use k8s_platform.Common.Dict
use k8s_platform.Slices.User.{CurrentUser}
use k8s_platform.Access.Permission.{is_admin, has_any_perm}
use k8s_platform.Access.Routes.{route_perms}

-- `MenuRoute`, its icon left out; `routes` is `nil` where it is missing.
mutual
  pub data MenuRoute : Type 0 where
    route : (path name : String) → (routes : Menu) → MenuRoute

  pub data Menu : Type 0 where
    nil : Menu
    cons : MenuRoute → Menu → Menu

abbrev pub leaf : String → String → MenuRoute
leaf path name = route path name nil

-- The items of one menu before those of another.
abbrev pub join : Menu → Menu → Menu
join nil m = m
join (cons r rest) m = cons r (join rest m)

abbrev pub leaf_open : (List String → Bool) → Option (List String) → Bool
leaf_open has none = true
leaf_open has (some []) = true
leaf_open has (some (p ∷ ps)) = has (p ∷ ps)

abbrev pub parent_open : (List String → Bool) → Option (List String) → Bool
parent_open has none = false
parent_open has (some []) = false
parent_open has (some (p ∷ ps)) = has (p ∷ ps)

-- A parent whose children are filtered out stands alone, if its own permissions are held.
abbrev pub parent_entry : Bool → String → String → Menu → Menu
parent_entry own path name nil = if own then cons (leaf path name) nil else nil
parent_entry own path name (cons c cs) = cons (route path name (cons c cs)) nil

-- The loop for a user who is no platform administrator, and what it pushes for one route.
unfoldable mutual
  pub filter_routes : (List String → Bool) → Menu → Menu
  filter_routes has nil = nil
  filter_routes has (cons r rest) = join (filter_route has r) (filter_routes has rest)

  pub filter_route : (List String → Bool) → MenuRoute → Menu
  filter_route has (route path name nil) =
      if leaf_open has (Dict.get route_perms path) then cons (leaf path name) nil else nil
  filter_route has (route path name (cons c cs)) =
      parent_entry (parent_open has (Dict.get route_perms path)) path name
        (filter_routes has (cons c cs))

unfoldable pub filter_routes_by_permission : Menu → (List String → Bool) → Bool → Menu
filter_routes_by_permission routes has is_platform_admin =
    if is_platform_admin then routes else filter_routes has routes

abbrev pub raw_routes : Menu
raw_routes = cons (leaf "/dashboard" "概览") (
    cons
      (route "/clusters" "集群管理"
        (cons (leaf "/clusters/list" "集群列表") (cons (leaf "/clusters/import" "导入集群") nil)))
      (cons
        (route "/resources" "资源管理"
          (cons (leaf "/resources/list" "资源列表") (cons (leaf "/resources/quota" "配额管理") nil)))
        (cons
          (route "/backups" "备份管理"
            (cons (leaf "/backups/list" "备份列表") (cons (leaf "/backups/create" "新建备份") nil)))
          (cons
            (route "/ops" "运维工具"
              (cons (leaf "/pods/logs" "Pod 日志") (cons (leaf "/ops/compare" "跨集群对比") nil)))
            (cons
              (route "/rbac" "权限管理"
                (cons (leaf "/rbac/users" "用户管理") (cons (leaf "/rbac/roles" "角色管理") nil)))
              (cons (route "/audit" "审计日志" (cons (leaf "/audit/list" "操作日志") nil)) (
                cons
                  (route "/helm" "Helm 应用"
                    (cons (leaf "/helm/list" "Release 列表") (cons (leaf "/helm/repos" "制品仓库") nil)))
                  nil)))))))

unfoldable pub filtered_route : Option CurrentUser → Menu
unfolding filter_routes_by_permission
filtered_route user = filter_routes_by_permission raw_routes (has_any_perm user) (is_admin user)

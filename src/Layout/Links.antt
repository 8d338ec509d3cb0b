-- ===== src/Layout/Links.antt =====
-- frontend/src/layouts/BasicLayout.tsx and frontend/src/app/router.tsx: the links of the menu and the
-- pages behind them.
use k8s_platform.Common.{
  String, ◌≡◌, sym, ◌∙◌, refl, Bool, true, false, ◌||◌, Option, none, some, List, [], ◌∷◌, arith,
  contains, ◌==◌, All, Bool-cases, inl, inr, if◌then◌else◌,
}
use k8s_platform.Common.Dict
use k8s_platform.Text.{opt_truthy}
use k8s_platform.Slices.User.{UserState, CurrentUser, ProfileStatus}
use k8s_platform.Access.Permission.{is_admin, has_any_perm}
use k8s_platform.Access.Routes
use k8s_platform.Access.Routes.{
  View, shown, route_perms, require_auth, require_perm, guarded, guard_with, decide_perm,
}
use k8s_platform.Access.Routes.Table.{Route, visit, render}
use k8s_platform.Layout.{filtered_route, filter_routes_by_permission, raw_routes, leaf_open}
use k8s_platform.Layout.Filter.{leaves, open_at, filter_routes-leaves, All-contains}

abbrev pub is_shown : Option View → Bool
is_shown (some (Routes.shown p)) = true
is_shown _ = false

-- The route at a path without parameters.
abbrev pub at : String → Route → Bool
at p r = r.path == p

abbrev pub session : String → Option String → ProfileStatus → CurrentUser → UserState
session token refresh status user = record {
  token = some token;
  refresh_token = refresh;
  current_user = some user;
  profile_status = status;
}

module _ (encode : String → String) (token location : String) (refresh : Option String)
    (status : ProfileStatus) (user : CurrentUser) where
  abbrev Opens : String → Type 0
  Opens p =
      is_shown (visit (at p) encode (session token refresh status user) location)
      ≡ open_at (has_any_perm (some user)) p

  behind :
      opt_truthy (some token) ≡ true
      → (perms : List String) (p : Routes.Page)
      → is_shown (
          some (
            require_auth encode (session token refresh status user) location (
              if is_admin (some user) || has_any_perm (some user) perms
              then shown p
              else Routes.forbidden)))
        ≡ has_any_perm (some user) perms
  unfolding require_auth has_any_perm
  behind t perms p = ground arith

  raw-Opens : opt_truthy (some token) ≡ true → All Opens (leaves raw_routes)
  unfolding leaves visit render guarded guard_with require_auth require_perm decide_perm Dict.get
  raw-Opens t = (
    rw t refl,
    (
      behind t ("cluster:list" ∷ []) Routes.cluster_list,
      (
        behind t ("cluster:create" ∷ []) Routes.cluster_import,
        (
          behind t ("resource:list" ∷ []) Routes.resource_list,
          (
            behind t ("resource:list" ∷ []) Routes.quota_management,
            (
              behind t ("backup:list" ∷ []) Routes.backup_list,
              (
                behind t ("backup:create" ∷ []) Routes.backup_create,
                (
                  behind t ("resource:get" ∷ "resource:list" ∷ []) Routes.pod_logs,
                  (
                    behind t ("resource:get" ∷ []) Routes.cluster_compare,
                    (
                      behind t ("user:manage" ∷ []) Routes.user_list,
                      (
                        behind t ("role:manage" ∷ []) Routes.role_list,
                        (
                          behind t ("audit:list" ∷ []) Routes.audit_log_list,
                          (
                            behind t ("helm:view" ∷ []) Routes.helm_list,
                            (behind t ("helm:view" ∷ []) Routes.helm_repos, tt),
                          ),
                        ),
                      ),
                    ),
                  ),
                ),
              ),
            ),
          ),
        ),
      ),
    ),
  )

  leaf_open-admin :
      (o : Option (List String))
      → is_admin (some user) ≡ true
      → leaf_open (has_any_perm (some user)) o ≡ true
  unfolding has_any_perm
  leaf_open-admin none a = refl
  leaf_open-admin (some []) a = refl
  leaf_open-admin (some (c ∷ cs)) a = ground arith

  admin-open :
      (p : String) → is_admin (some user) ≡ true → open_at (has_any_perm (some user)) p ≡ true
  admin-open p a = leaf_open-admin (Dict.get route_perms p) a

  raw-leaves :
      (p : String)
      → contains (leaves raw_routes) p ≡ true
      → contains (leaves (filtered_route (some user))) p ≡ open_at (has_any_perm (some user)) p
  unfolding filtered_route filter_routes_by_permission
  raw-leaves p h = elim (Bool-cases (is_admin (some user))) [
    | inl admin ↦ rw admin (h ∙ sym (admin-open p admin))
    | inr plain ↦ rw plain (filter_routes-leaves (has_any_perm (some user)) raw_routes p h)
  ]

-- A user is signed in and loaded. A link of the full menu stands in the menu that the user sees
-- exactly if the page behind it is shown to the user.
pub filtered_route-visit :
    (encode : String → String) (token location : String) (refresh : Option String)
    (status : ProfileStatus) (user : CurrentUser) (p : String)
    → opt_truthy (some token) ≡ true
    → contains (leaves raw_routes) p ≡ true
    → contains (leaves (filtered_route (some user))) p
      ≡ is_shown (visit (at p) encode (session token refresh status user) location)
filtered_route-visit encode token location refresh status user p t h =
    raw-leaves encode token location refresh status user p h
    ∙ sym (
        All-contains (Opens encode token location refresh status user) (leaves raw_routes) p
          (raw-Opens encode token location refresh status user t) h)

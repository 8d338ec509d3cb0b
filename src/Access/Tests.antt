-- ===== src/Access/Tests.antt =====
-- Permissions, routes and namespaces of a user of one module, and each theorem at a concrete input.
use k8s_platform.Common.{String, ◌≡◌, ◌↔◌, refl, Bool, true, false, none, some, List, [], ◌∷◌, ◌==◌}
use k8s_platform.Text.{starts_with, includes}
use k8s_platform.Common.Dict
use k8s_platform.Slices.User
use k8s_platform.Slices.User.{CurrentUser, CurrentUserRole, UserState}
use k8s_platform.Access.Permission.{has_perm, has_any_perm, has_wildcard, module_of}
use k8s_platform.Access.Permission.Granting.{Grants, has_perm_iff}
use k8s_platform.Access.Routes
use k8s_platform.Access.Routes.{safe_redirect_path, shown}
use k8s_platform.Access.Routes.Redirects.{stays_on_site}
use k8s_platform.Access.Routes.Table.{Route, visit, render}
use k8s_platform.Access.Routes.Allowed.{allowed, visit-allowed}

abbrev viewer_role : CurrentUserRole
viewer_role = record {
  role_id = 3;
  role_code = "viewer";
  role_name = "Viewer";
  scope_type = User.namespace;
  cluster_code = some "c1";
  namespace = some "dev";
}

abbrev viewer : CurrentUser
viewer = record {
  id = some "7";
  username = some "ann";
  display_name = none;
  nickname = none;
  avatar = none;
  email = none;
  phone = none;
  auth_source = none;
  status = some 1;
  last_login_at = none;
  last_login_ip = none;
  roles = some (viewer_role ∷ []);
  perms = some ("cluster:*" ∷ "helm:view" ∷ []);
  is_platform_admin = none;
}

by_wildcard :
    (has_perm (some viewer) "cluster:delete" ≡ true)
    × (has_perm (some viewer) "helm:install" ≡ false)
unfolding has_perm has_wildcard module_of
by_wildcard = (refl, refl)

has_perm_iff_example :
    (has_perm (some viewer) "cluster:delete" ≡ true) ↔ Grants (some viewer) "cluster:delete"
has_perm_iff_example = has_perm_iff (some viewer) "cluster:delete"

-- With a backslash or a tab after the slash, an address of another site passes.
other_site_kept :
    (safe_redirect_path (some "/\\evil.example") ≡ "/\\evil.example")
    × (stays_on_site "/\\evil.example" ≡ false)
    × (safe_redirect_path (some "/\t/evil.example") ≡ "/\t/evil.example")
    × (stays_on_site "/\t/evil.example" ≡ false)
unfolding safe_redirect_path starts_with includes
other_site_kept = (refl, refl, refl, refl)

abbrev session : UserState
session = record {
  token = some "jwt";
  refresh_token = none;
  current_user = some viewer;
  profile_status = User.ready;
}

abbrev at_clusters : Route → Bool
at_clusters r = r.path == "/clusters/list"

abbrev encode : String → String
encode s = s

seen : visit at_clusters encode session "/clusters/list" ≡ some (shown Routes.cluster_list)
unfolding visit render Routes.guarded Routes.guard_with Routes.require_auth Routes.require_perm
    Routes.decide_perm has_any_perm has_perm has_wildcard module_of Dict.get
seen = refl

visit-allowed_example : allowed session Routes.cluster_list ≡ true
visit-allowed_example =
    visit-allowed at_clusters encode session "/clusters/list" Routes.cluster_list seen

abbrev as_is : List String → List String
as_is names = names

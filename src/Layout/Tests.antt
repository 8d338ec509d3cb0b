-- ===== src/Layout/Tests.antt =====
-- The frame of a signed-in user, and each theorem at a concrete input.
use k8s_platform.Common.{String, ◌≡◌, refl, true, false, none, some, [], ◌∷◌, contains}
use k8s_platform.Slices.User
use k8s_platform.Slices.User.{CurrentUser}
use k8s_platform.Access.Permission.{has_perm, has_any_perm, has_wildcard, module_of}
use k8s_platform.Access.Routes.Table.{visit}
use k8s_platform.Common.Dict
use k8s_platform.Layout.{filtered_route, filter_routes_by_permission, raw_routes, filter_routes}
use k8s_platform.Layout.Filter.{leaves}
use k8s_platform.Layout.Links.{is_shown, at, session, filtered_route-visit}
use k8s_platform.Layout.Frame.{handle_logout, handle_logout_lem}
use k8s_platform.Http.{Page, Config}
use k8s_platform.Http.Retry.{Reply, rejected, RefreshAnswer}
use k8s_platform.Store.Logout.{logged_out, no_entries}
use k8s_platform.Storage.{map_storage, empty_store}
use k8s_platform.Common.{ℕ}

abbrev restorer : CurrentUser
restorer = record {
  id = some "7";
  username = some "ann";
  display_name = none;
  nickname = none;
  avatar = none;
  email = none;
  phone = none;
  auth_source = none;
  status = some 1;
  last_login_at = none;
  last_login_ip = none;
  roles = none;
  perms = some ("backup:restore" ∷ "cluster:list" ∷ []);
  is_platform_admin = none;
}

-- The entry of the backups stands alone, and the page that it leads to wants another permission.
links : leaves (filtered_route (some restorer)) ≡ "/dashboard" ∷ "/clusters/list" ∷ "/backups" ∷ []
unfolding leaves filtered_route filter_routes_by_permission filter_routes has_any_perm has_perm
    has_wildcard module_of Dict.get
links = refl

abbrev encode : String → String
encode s = s

in_menu : contains (leaves raw_routes) "/clusters/list" ≡ true
unfolding leaves
in_menu = refl

filtered_route-visit_example :
    contains (leaves (filtered_route (some restorer))) "/clusters/list"
    ≡ is_shown (
        visit
          (at "/clusters/list")
          encode
          (session "jwt" none User.ready restorer)
          "/clusters/list")
filtered_route-visit_example =
    filtered_route-visit encode "jwt" "/clusters/list" none User.ready restorer "/clusters/list"
      refl in_menu

abbrev page : Page map_storage ℕ
page = record {
  root = record {
    user = session "jwt" none User.ready restorer;
    app = record { selected_cluster_code = some "c1"; collapsed = false; theme = "dark" };
    caches = no_entries ℕ;
  };
  store = empty_store;
  has_dispatch = true;
  pathname = "/clusters/list";
  search = "";
  href = none;
  notices = [];
}

abbrev post : String → RefreshAnswer
post rt = none

abbrev unreachable : ℕ → Config → Reply
unreachable k c = rejected none "AxiosError" "Network Error" none

handle_logout_lem_example :
    (after : Page map_storage ℕ) × (handle_logout map_storage encode post unreachable none page
      ≡ some after)
    × (after.root.user ≡ logged_out)
    × (after.root.app.selected_cluster_code ≡ none)
    × (after.root.caches ≡ no_entries ℕ)
    × (User.initial_state map_storage after.store ≡ logged_out)
    × (after.pathname ≡ "/login")
handle_logout_lem_example = handle_logout_lem map_storage ℕ encode post unreachable none page

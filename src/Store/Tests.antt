-- ===== src/Store/Tests.antt =====
-- A logout at a concrete state.
use k8s_platform.Common.{ℕ, ◌≡◌, false, none, some, [], ◌∷◌}
use k8s_platform.Storage.{map_storage, empty_store}
use k8s_platform.Slices.App
use k8s_platform.Slices.User
use k8s_platform.Store.{RootState, dispatch, user}
use k8s_platform.Store.Logout.{logged_out, no_entries, dispatch-logout}

abbrev working : RootState ℕ
working = record {
  user = record {
    token = some "jwt";
    refresh_token = some "again";
    current_user = none;
    profile_status = User.loading;
  };
  app = record { selected_cluster_code = some "c1"; collapsed = false; theme = "dark" };
  caches = record {
    cluster = 1 ∷ [];
    resource = 2 ∷ 3 ∷ [];
    version = [];
    backup = [];
    rbac = 4 ∷ [];
    helm = [];
  };
}

dispatch-logout_example :
    let (after, store') = dispatch map_storage (working, empty_store) (user User.logout) in
    (after.user ≡ logged_out)
    × (after.app.selected_cluster_code ≡ none)
    × (after.caches ≡ no_entries ℕ)
    × (User.initial_state map_storage store' ≡ logged_out)
    × ((App.initial_state map_storage store').selected_cluster_code ≡ none)
dispatch-logout_example = dispatch-logout map_storage ℕ working empty_store

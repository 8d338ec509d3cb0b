-- ===== src/Store/Logout.antt =====
-- frontend/src/app/store.ts: what a logout leaves.
use k8s_platform.Common.{◌≡◌, refl, ◌∙◌, none, []}
use k8s_platform.Storage.{WebStorage}
use k8s_platform.Slices.App
use k8s_platform.Slices.User
use k8s_platform.Slices.User.{UserState, idle, clean, read_stored_token}
use k8s_platform.Store.{RootState, Caches, dispatch, root_reducer, reset_api_state, user}

abbrev pub logged_out : UserState
logged_out = record {
  token = none;
  refresh_token = none;
  current_user = none;
  profile_status = idle;
}

abbrev pub no_entries : (Entry : Type 0) → Caches Entry
no_entries Entry = record {
  cluster = [];
  resource = [];
  version = [];
  backup = [];
  rbac = [];
  helm = [];
}

-- After a logout the user state is that of nobody, no cluster is chosen, and every query cache is
-- empty; and a reload of the page finds nobody logged in and no cluster chosen.
pub dispatch-logout :
    (w : WebStorage) (Entry : Type 0) (state : RootState Entry) (store : w.Store)
    → let (after, store') = dispatch w (state, store) (user User.logout) in
      (after.user ≡ logged_out)
      × (after.app.selected_cluster_code ≡ none)
      × (after.caches ≡ no_entries Entry)
      × (User.initial_state w store' ≡ logged_out)
      × ((App.initial_state w store').selected_cluster_code ≡ none)
unfolding dispatch root_reducer reset_api_state User.reducer App.reducer App.select_cluster
    User.initial_state App.initial_state read_stored_token clean
dispatch-logout w Entry state store =
    let rid = w.remove_item store "token" in
    let gone = w.remove_item rid "refresh_token" in
    let token : w.get_item (w.remove_item gone "selectedClusterCode") "token" ≡ none =
      w.get-remove gone "selectedClusterCode" "token"
      ∙ w.get-remove rid "refresh_token" "token"
      ∙ w.get-remove store "token" "token" in
    let refresh : w.get_item (w.remove_item gone "selectedClusterCode") "refresh_token" ≡ none =
      w.get-remove gone "selectedClusterCode" "refresh_token"
      ∙ w.get-remove rid "refresh_token" "refresh_token" in
    (
      refl,
      refl,
      refl,
      rw (token, refresh) refl,
      w.get-remove gone "selectedClusterCode" "selectedClusterCode",
    )

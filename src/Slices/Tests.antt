-- ===== src/Slices/Tests.antt =====
-- Runs of the slices with a store in the browser, and each theorem at a concrete input.
use k8s_platform.Common.{◌≡◌, refl, none, some, List, [], ◌∷◌}
use k8s_platform.Storage.{map_storage, empty_store}
use k8s_platform.Slices.App
use k8s_platform.Slices.App.Reload
use k8s_platform.Slices.App.Reload.{run-reload}
use k8s_platform.Slices.User
use k8s_platform.Slices.User.Reload.{run-reload_user}

abbrev choices : List App.Action
choices =
    App.set_theme App.dark ∷ App.set_selected_cluster_code (some "c1") ∷ App.toggle_collapsed ∷ []

after_choices :
    ((App.run map_storage (App.initial_state map_storage empty_store, empty_store) choices).1
        "theme"
      ≡ some "dark")
    × ((App.run map_storage
          (App.initial_state map_storage empty_store, empty_store)
          choices).0.selected_cluster_code
        ≡ some "c1")
unfolding App.run App.reducer App.select_cluster App.initial_state
after_choices = (refl, refl)

run-reload_example :
    let (state, store') =
      App.run map_storage (App.initial_state map_storage empty_store, empty_store) choices in
    (Reload.chosen (App.initial_state map_storage store').selected_cluster_code
      ≡ Reload.chosen state.selected_cluster_code)
    × ((App.initial_state map_storage store').theme ≡ state.theme)
run-reload_example = run-reload map_storage empty_store choices

abbrev login : List User.Action
login =
    User.login_fulfilled (record {
      access_token = "jwt";
      refresh_token = some "again";
      token_type = none;
      expires_in = none;
      user = none;
    })
    ∷ User.fetch_rejected
    ∷ []

run-reload_user_example :
    let (state, store') =
      User.run map_storage (User.initial_state map_storage empty_store, empty_store) login in
    ((User.initial_state map_storage store').token ≡ User.clean state.token)
    × ((User.initial_state map_storage store').refresh_token ≡ User.clean state.refresh_token)
    × (map_storage.get_item store' "theme" ≡ map_storage.get_item empty_store "theme")
run-reload_user_example = run-reload_user map_storage empty_store login "theme" refl refl

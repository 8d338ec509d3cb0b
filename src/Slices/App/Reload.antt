-- ===== src/Slices/App/Reload.antt =====
-- frontend/src/slices/appSlice.ts: the state and a reload of the page.
use k8s_platform.Common.{
  String, ◌≡◌, refl, true, Option, none, some, List, [], ◌∷◌, arith, if◌then◌else◌,
}
use k8s_platform.Text.{truthy, opt_truthy}
use k8s_platform.Storage.{WebStorage}
use k8s_platform.Slices.App
use k8s_platform.Slices.App.{
  ThemeType, AppState, Action, initial_state, select_cluster, reducer, run, theme_text,
}

theme_text-truthy : (t : ThemeType) → truthy (theme_text t) ≡ true
theme_text-truthy App.light = refl
theme_text-truthy App.dark = refl

-- The code as a condition reads it: the empty code counts as none.
abbrev pub chosen : Option String → Option String
chosen o = if opt_truthy o then o else none

module _ (w : WebStorage) where
  open w use {Store, get_item, set_item, get-set, get-remove}

  abbrev pub Agrees : AppState × Store → Type 0
  Agrees s =
      (chosen (initial_state w s.1).selected_cluster_code ≡ chosen s.0.selected_cluster_code)
      × ((initial_state w s.1).theme ≡ s.0.theme)

  reducer-Agrees : (s : AppState × Store) (a : Action) → Agrees s → Agrees (reducer w s a)
  unfolding initial_state reducer select_cluster
  reducer-Agrees (state, store) (App.set_selected_cluster_code none) g = ground (
    arith,
    get-remove store "selectedClusterCode" "selectedClusterCode",
    get-remove store "selectedClusterCode" "theme",
  )
  reducer-Agrees (state, store) (App.set_selected_cluster_code (some code)) g = ground (
    arith,
    get-remove store "selectedClusterCode" "selectedClusterCode",
    get-remove store "selectedClusterCode" "theme",
    get-set store "selectedClusterCode" code "selectedClusterCode",
    get-set store "selectedClusterCode" code "theme",
  )
  reducer-Agrees (state, store) (App.set_theme t) g = ground (
    arith,
    get-set store "theme" (theme_text t) "selectedClusterCode",
    get-set store "theme" (theme_text t) "theme",
    theme_text-truthy t,
  )
  reducer-Agrees (state, store) _ g = g

  run-Agrees : (s : AppState × Store) (actions : List Action) → Agrees s → Agrees (run w s actions)
  unfolding run
  run-Agrees s [] g = g
  run-Agrees s (a ∷ rest) g = run-Agrees (reducer w s a) rest (reducer-Agrees s a g)

-- A page is loaded from any store and any actions run: a reload then finds the chosen cluster, an
-- empty code counting as none, and the theme as they were.
pub run-reload :
    (w : WebStorage) (store : w.Store) (actions : List Action)
    → let (state, store') = run w (initial_state w store, store) actions in
      (chosen (initial_state w store').selected_cluster_code ≡ chosen state.selected_cluster_code)
      × ((initial_state w store').theme ≡ state.theme)
run-reload w store actions = run-Agrees w (initial_state w store, store) actions (refl, refl)

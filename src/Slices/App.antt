-- ===== src/Slices/App.antt =====
-- frontend/src/slices/appSlice.ts: the chosen cluster, the sidebar and the theme, of which the first
-- and the last are kept in `localStorage`. The stored theme is cast without a check, so it is a text.
pub mod Reload
use k8s_platform.Common.{
  String, Bool, true, false, not, Option, none, some, List, [], ◌∷◌, if◌then◌else◌,
}
use k8s_platform.Text.{opt_truthy, or_text}
use k8s_platform.Storage.{WebStorage}

pub data ThemeType : Type 0 where
  light dark : ThemeType

abbrev pub theme_text : ThemeType → String
theme_text light = "light"
theme_text dark = "dark"

pub record AppState : Type 0 where
  pub selected_cluster_code : Option String
  pub collapsed : Bool
  pub theme : String

pub data Action : Type 0 where
  set_selected_cluster_code : Option String → Action
  set_collapsed : Bool → Action
  toggle_collapsed : Action
  set_theme : ThemeType → Action

module _ (w : WebStorage) where
  open w use {Store, get_item, set_item, remove_item}

  unfoldable pub initial_state : Store → AppState
  initial_state store = record {
    selected_cluster_code = get_item store "selectedClusterCode";
    collapsed = false;
    theme = or_text (get_item store "theme") "light";
  }

  unfoldable pub select_cluster : AppState × Store → Option String → AppState × Store
  select_cluster (state, store) none =
      (record state { selected_cluster_code = none }, remove_item store "selectedClusterCode")
  select_cluster (state, store) (some code) = (
    record state { selected_cluster_code = some code },
    if opt_truthy (some code)
        then set_item store "selectedClusterCode" code
        else remove_item store "selectedClusterCode",
  )

  unfoldable pub reducer : AppState × Store → Action → AppState × Store
  reducer s (set_selected_cluster_code payload) = select_cluster s payload
  reducer (state, store) (set_collapsed payload) = (record state { collapsed = payload }, store)
  reducer (state, store) toggle_collapsed =
      (record state { collapsed = not state.collapsed }, store)
  reducer (state, store) (set_theme payload) =
      (record state { theme = theme_text payload }, set_item store "theme" (theme_text payload))

  unfoldable pub run : AppState × Store → List Action → AppState × Store
  run s [] = s
  run s (a ∷ rest) = run (reducer s a) rest

-- ===== src/Store.antt =====
-- frontend/src/app/store.ts: the root reducer of the slices with state in `localStorage`, and the
-- middleware that clears the query caches at logout. A cache is a list of entries of any type.
pub mod Logout
mod Tests
use k8s_platform.Common.{String, Option, none, some, List, [], ◌∷◌, map}
use k8s_platform.Storage.{WebStorage}
use k8s_platform.Slices.App
use k8s_platform.Slices.App.{AppState}
use k8s_platform.Slices.User
use k8s_platform.Slices.User.{UserState}

-- `allApis`
pub record Caches (Entry : Type 0) : Type 0 where
  pub cluster : List Entry
  pub resource : List Entry
  pub version : List Entry
  pub backup : List Entry
  pub rbac : List Entry
  pub helm : List Entry

pub record RootState (Entry : Type 0) : Type 0 where
  pub user : UserState
  pub app : AppState
  pub caches : Caches Entry

pub data Action : Type 0 where
  user : User.Action → Action
  app : App.Action → Action

module _ (w : WebStorage) {Entry : Type 0} where
  open w use {Store}

  unfoldable pub root_reducer : RootState Entry × Store → Action → RootState Entry × Store
  root_reducer (state, store) (user a) =
      let (user', store') = User.reducer w (state.user, store) a in
      (record state { user = user' }, store')
  root_reducer (state, store) (app a) =
      let (app', store') = App.reducer w (state.app, store) a in
      (record state { app = app' }, store')

  -- `resetApiState` of each of `allApis`
  unfoldable pub reset_api_state : RootState Entry → RootState Entry
  reset_api_state state = record state {
    caches = record {
      cluster = [];
      resource = [];
      version = [];
      backup = [];
      rbac = [];
      helm = [];
    };
  }

  -- `resetApiCacheOnLogout` around the reducer.
  unfoldable pub dispatch : RootState Entry × Store → Action → RootState Entry × Store
  dispatch s (user User.logout) =
      let (state, store) =
        root_reducer (root_reducer s (user User.logout))
          (app (App.set_selected_cluster_code none)) in
      (reset_api_state state, store)
  dispatch s a = root_reducer s a

  unfoldable pub dispatches : RootState Entry × Store → List Action → RootState Entry × Store
  dispatches s [] = s
  dispatches s (a ∷ rest) = dispatches (dispatch s a) rest

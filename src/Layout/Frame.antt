-- ===== src/Layout/Frame.antt =====
-- frontend/src/layouts/BasicLayout.tsx: the badge of the WebSocket, the effects that fetch the user
-- and choose a cluster, and the logout.
use k8s_platform.Common.{
  ℕ, String, ◌≡◌, refl, Bool, true, false, ◌&&◌, Option, none, some, List, [], ◌∷◌, ◌++◌,
  if◌then◌else◌,
}
use k8s_platform.Text.{opt_truthy, starts_with}
use k8s_platform.Storage.{WebStorage}
use k8s_platform.Slices.App
use k8s_platform.Slices.User
use k8s_platform.Slices.User.{UserState, CurrentUser, ProfileStatus}
use k8s_platform.Slices.Ws.{Status}
use k8s_platform.Store
use k8s_platform.Store.{RootState}
use k8s_platform.Store.Logout.{logged_out, no_entries, dispatch-logout}
use k8s_platform.Http.{Page, Config}
use k8s_platform.Http.Retry.{RefreshAnswer, Ending, Reply, request}
use k8s_platform.Http.Attempts.{request_ends}
use k8s_platform.Api.Cluster.{Cluster}

pub data BadgeStatus : Type 0 where
  success processing warning error default : BadgeStatus

pub record StatusView : Type 0 where
  pub badge : BadgeStatus
  pub label : String

-- `statusMap`, its colours left out, which are not read.
unfoldable pub status_map : Status → StatusView
status_map Status.idle = record { badge = default; label = "未连接" }
status_map Status.connecting = record { badge = processing; label = "连接中" }
status_map Status.opened = record { badge = success; label = "已连接" }
status_map Status.closing = record { badge = default; label = "关闭中" }
status_map Status.closed = record { badge = default; label = "已断开" }
status_map Status.reconnecting = record { badge = warning; label = "重连中" }
status_map Status.error = record { badge = error; label = "连接错误" }

abbrev is_idle : ProfileStatus → Bool
is_idle User.idle = true
is_idle _ = false

abbrev is_none : Option CurrentUser → Bool
is_none none = true
is_none (some u) = false

-- Whether the first effect fetches the current user.
unfoldable pub fetches_user : UserState → Bool
fetches_user state =
    opt_truthy state.token && (is_none state.current_user && is_idle state.profile_status)

-- The second effect: the first cluster of the list, where none is chosen.
unfoldable pub chooses_cluster : Option String → List Cluster → Option App.Action
chooses_cluster selected [] = none
chooses_cluster selected (c ∷ cs) =
    if opt_truthy selected then none else some (App.set_selected_cluster_code (some c.code))

unfoldable pub show_cluster_switcher : String → Bool
unfolding starts_with
show_cluster_switcher pathname = starts_with pathname "/resources"

abbrev pub logout_config : Config
logout_config = record {
  url = some "/auth/logout";
  retried = false;
  authorization = none;
  trace_id = none;
  is_blob = false;
}

module _ (w : WebStorage) {Entry : Type 0} where
  -- What follows the call of the server, whether it succeeded or threw.
  unfoldable pub leave : Page w Entry → Page w Entry
  leave page =
      let (root, store) = Store.dispatch w (page.root, page.store) (Store.user User.logout) in
      record page {
        root = root;
        store = store;
        notices = page.notices ++ "已退出登录" ∷ [];
        pathname = "/login";
        search = "";
      }

  abbrev after_logout : Option (Ending (Page w Entry)) → Option (Page w Entry)
  after_logout none = none
  after_logout (some r) = some (leave r.page)

  unfoldable pub handle_logout :
      (String → String)
      → (String → RefreshAnswer)
      → (ℕ → Config → Reply)
      → Option String
      → Page w Entry
      → Option (Page w Entry)
  handle_logout encode post serve uuid page =
      after_logout (request w encode post serve uuid 2 0 page logout_config)

-- A logout always comes to its end, whatever the server answers: nobody is signed in, no cluster is
-- chosen, the caches are empty, a reload finds nobody, and the login page is open.
pub handle_logout_lem :
    (w : WebStorage) (Entry : Type 0) (encode : String → String) (post : String → RefreshAnswer)
    (serve : ℕ → Config → Reply) (uuid : Option String) (page : Page w Entry)
    → (after : Page w Entry) × (handle_logout w encode post serve uuid page ≡ some after)
      × (after.root.user ≡ logged_out)
      × (after.root.app.selected_cluster_code ≡ none)
      × (after.root.caches ≡ no_entries Entry)
      × (User.initial_state w after.store ≡ logged_out)
      × (after.pathname ≡ "/login")
unfolding handle_logout leave
handle_logout_lem w Entry encode post serve uuid page =
    let (r, ends, _, _, _) = request_ends w Entry encode post serve uuid page logout_config in
    let (u, c, caches, reload, _) = dispatch-logout w Entry r.page.root r.page.store in
    (leave w r.page, rw ends refl, u, c, caches, reload, refl)

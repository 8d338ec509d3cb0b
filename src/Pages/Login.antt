-- ===== src/Pages/Login.antt =====
-- frontend/src/pages/Login/index.tsx: the login, up to the page that it opens.
use k8s_platform.Common.{String, Option, none, some, List, [], ◌∷◌}
use k8s_platform.Storage.{WebStorage}
use k8s_platform.Slices.User
use k8s_platform.Slices.User.{LoginResponse, CurrentUser}
use k8s_platform.Store
use k8s_platform.Store.{RootState}
use k8s_platform.Access.Routes.{safe_redirect_path}
use k8s_platform.Pages.{Act, warning, success, go}

abbrev unloaded : {R : Type 0} → Option CurrentUser → List (Act R) → List (Act R)
unloaded none acts = warning "已登录，但权限信息加载失败，进入后可重试" ∷ acts
unloaded (some u) acts = acts

-- The answer to `/auth/login`, and to `/auth/me`, each `none` where the request failed.
module _ (w : WebStorage) {Entry : Type 0} where
  -- The two dispatches of `fetchCurrentUser`.
  abbrev fetched : RootState Entry × w.Store → Option CurrentUser → RootState Entry × w.Store
  fetched s none =
      Store.dispatches w s (Store.user User.fetch_pending ∷ Store.user User.fetch_rejected ∷ [])
  fetched s (some u) =
      Store.dispatches w s
        (Store.user User.fetch_pending ∷ Store.user (User.fetch_fulfilled u) ∷ [])

  unfoldable pub handle_submit :
      {R : Type 0}
      → (redirect : Option String) → Option LoginResponse
      → Option CurrentUser
      → RootState Entry × w.Store
      → (RootState Entry × w.Store) × List (Act R)
  handle_submit redirect none me s = (s, [])
  handle_submit redirect (some res) me s = (
    fetched (Store.dispatch w s (Store.user (User.login_fulfilled res))) me,
    unloaded me (success "登录成功" ∷ go (safe_redirect_path redirect) ∷ []),
  )

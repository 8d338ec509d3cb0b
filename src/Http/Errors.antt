-- ===== src/Http/Errors.antt =====
-- frontend/src/app/services/request.ts: how an error is reported, and what ends a session.
use Prim.Native.String
use k8s_platform.Common.{
  String, ◌≡◌, refl, ◌∙◌, Bool, true, false, not, ◌&&◌, ◌||◌, ◌==◌, Option, none, some, arith,
  if◌then◌else◌, Bool-cases, inl, inr,
}
use k8s_platform.Text.{or_text, includes, truthy}
use k8s_platform.Storage.{WebStorage}
use k8s_platform.Store
use k8s_platform.Store.Logout.{logged_out, no_entries}
use k8s_platform.Slices.User
use k8s_platform.Slices.App
use k8s_platform.Http
use k8s_platform.Http.{
  AxiosError, Response, Page, status_is, url_of, is_blob_request, error_message, fallback,
  handle_error, handle_unauthorized, is_canceled, notify, field, redirect_to_login, end_session,
}

pub or_text-truthy :
    (o : Option String) (d : String) → truthy d ≡ true → truthy (or_text o d) ≡ true
or_text-truthy o d t = ground arith

if-truthy :
    (b : Bool) (s t : String)
    → truthy s ≡ true
    → truthy t ≡ true
    → truthy (if b then s else t) ≡ true
if-truthy true s t p q = p
if-truthy false s t p q = q

fallback-truthy : (r : Option Response) → truthy (fallback r) ≡ true
unfolding fallback
fallback-truthy r = if-truthy (status_is r 403) "无权限访问" _ refl (
    if-truthy (status_is r 404) "资源不存在" _ refl
      (if-truthy (status_is r 500) "服务器内部错误" "请求失败" refl refl))

error_message-truthy : (r : Option Response) → truthy (error_message r) ≡ true
unfolding error_message
error_message-truthy r =
    let error = or_text-truthy (field (λ d. d.error) r) (fallback r) (fallback-truthy r) in
    let msg = or_text-truthy (field (λ d. d.msg) r) _ error in
    or_text-truthy (field (λ d. d.message) r) _ msg

abbrev pub is_login_call : AxiosError → Bool
is_login_call e =
    includes (url_of e.config) "/auth/login" || includes (url_of e.config) "/auth/refresh"

-- The errors that the user is told of: those of a login or refresh call that was denied, and all but
-- the denied and those of a request for a blob.
abbrev pub is_told : AxiosError → Bool
is_told e = if status_is e.response 401 then is_login_call e else not (is_blob_request e.config)

-- The three ways in which an error is met, each with the errors that are met so: no error is met in
-- two of them.
pub data Met (w : WebStorage) {Entry : Type 0} (encode : String → String) (page : Page w Entry)
    (e : AxiosError) (after : Page w Entry) : Type 0 where
  silently :
      (is_canceled e || (not (status_is e.response 401) && is_blob_request e.config)) ≡ true
      → after ≡ page
      → Met w encode page e after
  by_message :
      (text : String)
      → truthy text ≡ true
      → (not (is_canceled e) && is_told e) ≡ true
      → after ≡ notify w encode page text
      → Met w encode page e after
  by_logout :
      is_canceled e ≡ false
      → (status_is e.response 401 && not (is_login_call e)) ≡ true
      → after ≡ handle_unauthorized w encode page
      → Met w encode page e after

-- Every error is met in exactly one of three ways. A canceled request, and a request for a blob that
-- fails otherwise than with 401, change nothing. A 401 outside the login and refresh calls ends the
-- session. All else shows one message, which is not empty, and changes neither store.
pub handle_error-Met :
    (w : WebStorage) (Entry : Type 0) (encode : String → String) (page : Page w Entry)
    (e : AxiosError)
    → Met w encode page e (handle_error w encode page e)
unfolding handle_error
handle_error-Met w Entry encode page e = elim (Bool-cases (is_canceled e)) [
  | inl canceled ↦ rw (canceled, handle_error) (silently (rw canceled) refl)
  | inr live ↦ elim (Bool-cases (status_is e.response 401)) [
    | inl denied ↦ elim (Bool-cases (is_login_call e)) [
      | inl login ↦
          rw (live, denied, login, handle_error)
            (by_message _ (or_text-truthy (field (λ d. d.message) e.response) "用户名或密码错误" refl)
              (rw (live, denied, login)) refl)
      | inr other ↦
          rw (live, denied, other, handle_error) (by_logout live (rw (denied, other)) refl)
    ]
    | inr failed ↦ elim (Bool-cases (is_blob_request e.config)) [
      | inl blob ↦ rw (live, failed, blob, handle_error) (silently (rw (live, failed, blob)) refl)
      | inr plain ↦
          rw (live, failed, plain, handle_error)
            (by_message _ (error_message-truthy e.response) (rw (live, failed, plain) refl) refl)
    ]
  ]
]

module _ (w : WebStorage) {Entry : Type 0} (encode : String → String) (page : Page w Entry) where
  open w use {get_item, remove_item, get-remove}

  removed_stays :
      (s : w.Store) (j k : String) → get_item s k ≡ none → get_item (remove_item s j) k ≡ none
  removed_stays s j k e = get-remove s j k ∙ ground arith

  redirect_to_login_lem :
      let after = redirect_to_login w encode page in
      (after.root ≡ page.root)
      × (after.store ≡ page.store)
      × (after.notices ≡ page.notices)
      × (after.href ≡ (
          if page.pathname == "/login"
          then page.href
          else some
              (String.◌++◌ "/login?redirect=" (encode (String.◌++◌ page.pathname page.search)))))
  unfolding redirect_to_login
  redirect_to_login_lem = ground arith

  end_session_lem :
      page.has_dispatch ≡ true
      → let after = end_session w encode page in
        (after.root.user ≡ logged_out)
        × (after.root.app.selected_cluster_code ≡ none)
        × (after.root.caches ≡ no_entries Entry)
        × (get_item after.store "token" ≡ none)
        × (get_item after.store "refresh_token" ≡ none)
        × (after.notices ≡ page.notices)
        × (after.pathname ≡ page.pathname)
        × (after.search ≡ page.search)
        × (after.href ≡ page.href)
  unfolding end_session Http.dispatch Store.dispatch Store.root_reducer Store.reset_api_state
      User.reducer App.reducer App.select_cluster
  end_session_lem d =
      rw (d, Http.dispatch)
        (
          refl,
          refl,
          refl,
          after_choice "token"
              (removed_stays _ "refresh_token" "token" (get-remove _ "token" "token")),
          after_choice "refresh_token" (get-remove _ "refresh_token" "refresh_token"),
          refl,
          refl,
          refl,
          refl,
        )
    where
      after_choice :
          {s : w.Store} (k : String)
          → get_item s k ≡ none
          → get_item (remove_item (remove_item s "selectedClusterCode") "selectedClusterCode") k
            ≡ none
      after_choice k e =
          removed_stays _ "selectedClusterCode" k (removed_stays _ "selectedClusterCode" k e)

-- Where `setDispatch` was called, ending the session leaves the user state of nobody, no chosen
-- cluster, empty query caches and no token in the browser's store, and away from the login page
-- it sends the browser there, with the way back. It shows no message.
pub handle_unauthorized_lem :
    (w : WebStorage) (Entry : Type 0) (encode : String → String) (page : Page w Entry)
    → page.has_dispatch ≡ true
    → let after = handle_unauthorized w encode page in
      (after.root.user ≡ logged_out)
      × (after.root.app.selected_cluster_code ≡ none)
      × (after.root.caches ≡ no_entries Entry)
      × (w.get_item after.store "token" ≡ none)
      × (w.get_item after.store "refresh_token" ≡ none)
      × (after.href ≡ (
          if page.pathname == "/login"
          then page.href
          else some
              (String.◌++◌ "/login?redirect=" (encode (String.◌++◌ page.pathname page.search)))))
      × (after.notices ≡ page.notices)
unfolding handle_unauthorized
handle_unauthorized_lem w Entry encode page d = ground (
  arith,
  end_session_lem w encode page d,
  redirect_to_login_lem w encode (end_session w encode page),
)

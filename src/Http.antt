-- ===== src/Http.antt =====
-- frontend/src/app/services/request.ts: the axios instance with its interceptors. What the server
-- and axios answer, `encodeURIComponent` and the random trace id are arguments.
pub mod Retry
pub mod Attempts
pub mod Adoption
pub mod Errors
pub mod SingleFlight
pub mod BaseQuery
pub mod Download
mod Tests
use Prim.Native.String
use k8s_platform.Common.{
  ℕ, ◌+◌, String, Bool, true, false, not, ◌&&◌, ◌||◌, ◌==◌, Option, none, some, List, [], ◌∷◌, ◌++◌,
  nat_eq, if◌then◌else◌, coalesce, opt_eq,
}
use k8s_platform.Text.{truthy, opt_truthy, or_text, includes}
use k8s_platform.Storage.{WebStorage}
use k8s_platform.Store
use k8s_platform.Store.{RootState}
use k8s_platform.Slices.App
use k8s_platform.Slices.User

-- The part of a request's configuration that the interceptors read or write.
pub record Config : Type 0 where
  pub url : Option String
  pub retried : Bool
  pub authorization : Option String
  pub trace_id : Option String
  pub is_blob : Bool

pub record ErrorResponseData : Type 0 where
  pub message : Option String
  pub msg : Option String
  pub error : Option String
  pub trace_id : Option String

pub record Response : Type 0 where
  pub status : ℕ
  pub body : Option ErrorResponseData

pub record AxiosError : Type 0 where
  pub code : Option String
  pub name : String
  pub message : String
  pub response : Option Response
  pub config : Option Config

unfoldable pub is_canceled : AxiosError → Bool
is_canceled e =
    opt_eq e.code "ERR_CANCELED" || (e.name == "CanceledError" || e.message == "canceled")

unfoldable pub is_auth_path : String → Bool
is_auth_path url =
    includes url "/auth/login" || (includes url "/auth/refresh" || includes url "/auth/logout")

abbrev pub status_is : Option Response → ℕ → Bool
status_is none n = false
status_is (some r) n = nat_eq r.status n

abbrev pub field : (ErrorResponseData → Option String) → Option Response → Option String
field f none = none
field f (some r) = elim r.body [ none ↦ none | some d ↦ f d ]

abbrev pub url_of : Option Config → String
url_of none = ""
url_of (some c) = or_text c.url ""

abbrev pub is_blob_request : Option Config → Bool
is_blob_request none = false
is_blob_request (some c) = c.is_blob

abbrev pub bearer : String → String
bearer token = String.◌++◌ "Bearer " token

unfoldable pub fallback : Option Response → String
fallback r =
    if status_is r 403
    then "无权限访问"
    else if status_is r 404
    then "资源不存在"
    else if status_is r 500
    then "服务器内部错误"
    else "请求失败"

-- The message for an error that is neither canceled nor 401.
unfoldable pub error_message : Option Response → String
error_message r =
    or_text (field (λ d. d.message) r)
      (or_text (field (λ d. d.msg) r) (or_text (field (λ d. d.error) r) (fallback r)))

-- What the module acts on: the store of Redux and that of the browser, whether `setDispatch` was
-- called, the page's address, where it is sent, and the messages that it shows.
pub record Page (w : WebStorage) (Entry : Type 0) : Type 0 where
  pub root : RootState Entry
  pub store : w.Store
  pub has_dispatch : Bool
  pub pathname : String
  pub search : String
  pub href : Option String
  pub notices : List String

module _ (w : WebStorage) {Entry : Type 0} (encode : String → String) where
  open w use {get_item, set_item, remove_item}

  unfoldable pub dispatch : Page w Entry → Store.Action → Page w Entry
  dispatch page action =
      let (root, store) = Store.dispatch w (page.root, page.store) action in
      if page.has_dispatch then record page { root = root; store = store } else page

  unfoldable pub notify : Page w Entry → String → Page w Entry
  notify page text = record page { notices = page.notices ++ text ∷ [] }

  unfoldable pub redirect_to_login : Page w Entry → Page w Entry
  redirect_to_login page = if page.pathname == "/login" then page else record page {
    href = some (String.◌++◌ "/login?redirect=" (encode (String.◌++◌ page.pathname page.search)));
  }

  unfoldable pub end_session : Page w Entry → Page w Entry
  end_session page =
      let cleared = record page {
        store = remove_item (remove_item page.store "token") "refresh_token";
      } in
      dispatch (dispatch cleared (Store.user User.logout))
        (Store.app (App.set_selected_cluster_code none))

  unfoldable pub handle_unauthorized : Page w Entry → Page w Entry
  handle_unauthorized page = redirect_to_login (end_session page)

  unfoldable pub handle_error : Page w Entry → AxiosError → Page w Entry
  handle_error page e =
      let url = url_of e.config in
      if is_canceled e
      then page
      else if status_is e.response 401
      then if includes url "/auth/login" || includes url "/auth/refresh"
        then notify page (or_text (field (λ d. d.message) e.response) "用户名或密码错误")
        else handle_unauthorized page
      else if is_blob_request e.config
      then page
      else notify page (error_message e.response)

  -- The request interceptor; `uuid` is what `crypto.randomUUID` gives, where it is there.
  unfoldable pub on_request : Page w Entry → Option String → Config → Config
  on_request page uuid config =
      let token = get_item page.store "token" in
      let authorized =
        if opt_truthy token
        then record config { authorization = some (bearer (coalesce token "")) }
        else config in
      let trace_id = if opt_truthy config.trace_id then config.trace_id else uuid in
      if opt_truthy trace_id then record authorized { trace_id = trace_id } else authorized

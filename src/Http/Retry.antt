-- ===== src/Http/Retry.antt =====
-- frontend/src/app/services/request.ts: the refresh of the access token, the response interceptor,
-- and a request through both interceptors. One request runs at a time here; Http/SingleFlight has
-- the sharing of a refresh among several.
use k8s_platform.Common.{
  ℕ, zero, suc, String, Bool, true, not, ◌&&◌, Option, none, some, if◌then◌else◌, coalesce,
}
use k8s_platform.Text.{opt_truthy}
use k8s_platform.Storage.{WebStorage}
use k8s_platform.Store
use k8s_platform.Slices.User
use k8s_platform.Http
use k8s_platform.Http.{
  Config, AxiosError, Response, Page, is_auth_path, status_is, url_of, bearer, on_request,
  handle_error,
}

-- The answer to `POST /auth/refresh`: none if the call throws, and else the two tokens of `data`,
-- both missing where `data` is.
abbrev pub RefreshAnswer : Type 0
RefreshAnswer = Option (Option String × Option String)

-- How `refreshAccessToken` ends.
pub data Refreshed : Type 0 where
  threw : Refreshed
  gave : Option String → Refreshed

-- What one sending of a request brings: the body of a success is not read here.
pub data Reply : Type 0 where
  fulfilled : ℕ → Reply
  rejected : Option String → String → String → Option Response → Reply

-- What the interceptor makes of a rejection.
pub data Verdict (P : Type 0) : Type 0 where
  again : P → Config → Verdict P
  reject : P → Verdict P

-- How a request ends for its caller, with the page and the number of sendings.
pub record Ending (P : Type 0) : Type 0 where
  pub page : P
  pub sent : ℕ
  pub reply : Reply

-- The error that axios throws, which names the request's configuration.
abbrev pub error_of : Config → Option String → String → String → Option Response → AxiosError
error_of config code name message response = record {
  code = code;
  name = name;
  message = message;
  response = response;
  config = some config;
}

-- Whether a rejection is met by a refresh.
unfoldable pub may_refresh : AxiosError → Config → Bool
may_refresh e config =
    status_is e.response 401 && (not config.retried && not (is_auth_path (url_of (some config))))

abbrev pub Next : Type 0 → Type 0
Next P = P → Config → Option (Ending P)

-- What the caller gets: the interceptor's verdict, or what comes of the next sending.
unfoldable pub follow : {P : Type 0} → Next P → ℕ → Reply → Verdict P → Option (Ending P)
follow next sent reply (reject page) = some (record { page = page; sent = sent; reply = reply })
follow next sent reply (again page config) = next page config

module _ (w : WebStorage) {Entry : Type 0} (encode : String → String)
    (post : String → RefreshAnswer) where
  open w use {get_item, set_item}

  -- The tokens go to the browser's store first and then, if it is known, to the store of Redux.
  unfoldable pub adopt : Page w Entry → String → Option String → Page w Entry
  adopt page access refresh =
      let first = set_item page.store "token" access in
      let second =
        if opt_truthy refresh
        then set_item first "refresh_token" (coalesce refresh "")
        else first in
      let told =
        Http.dispatch w encode (record page { store = second })
          (Store.user (User.set_token (some access))) in
      if opt_truthy refresh
      then Http.dispatch w encode told (Store.user (User.set_refresh_token refresh))
      else told

  unfoldable pub answered : Page w Entry → RefreshAnswer → Page w Entry × Refreshed
  answered page none = (page, threw)
  answered page (some (access, refresh)) =
      if opt_truthy access
      then (adopt page (coalesce access "") refresh, gave access)
      else (page, gave none)

  -- `!rt || rt === 'undefined' || rt === 'null'` is the test of the slice's `readStoredToken`.
  unfoldable pub refresh_access_token : Page w Entry → Page w Entry × Refreshed
  refresh_access_token page = elim (User.clean (get_item page.store "refresh_token")) [
    | none ↦ (page, gave none)
    | some rt ↦ answered page (post rt)
  ]

  unfoldable pub try_again : Config → AxiosError → Page w Entry → Refreshed → Verdict (Page w Entry)
  try_again config e page threw = reject (handle_error w encode page e)
  try_again config e page (gave next) =
      if opt_truthy next
      then again page
          (record config { retried = true; authorization = some (bearer (coalesce next "")) })
      else reject (handle_error w encode page e)

  -- The response interceptor, on a rejection.
  unfoldable pub on_rejected : Page w Entry → AxiosError → Verdict (Page w Entry)
  on_rejected page e = elim e.config [
    | none ↦ reject (handle_error w encode page e)
    | some config ↦
        let refreshed = refresh_access_token page in
        if may_refresh e config
        then try_again config e refreshed.0 refreshed.1
        else reject (handle_error w encode page e)
  ]

  unfoldable pub settle :
      Next (Page w Entry) → ℕ → Page w Entry → Config → Reply → Option (Ending (Page w Entry))
  settle next sent page config (fulfilled status) =
      some (record { page = page; sent = sent; reply = fulfilled status })
  settle next sent page config (rejected code name message response) =
      follow next sent (rejected code name message response)
        (on_rejected page (error_of config code name message response))

  -- `request(config)`: the sending number `k` goes to `serve` behind the request interceptor, and a
  -- rejection through the response interceptor, which may request again. `none` is out of fuel.
  module _ (serve : ℕ → Config → Reply) (uuid : Option String) where
    unfoldable pub request : ℕ → ℕ → Page w Entry → Config → Option (Ending (Page w Entry))
    request zero k page config = none
    request (suc fuel) k page config =
        let next : Next (Page w Entry) = request fuel (suc k) in
        let sending = on_request w encode page uuid config in
        settle next (suc k) page sending (serve k sending)

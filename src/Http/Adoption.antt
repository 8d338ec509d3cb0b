-- ===== src/Http/Adoption.antt =====
-- frontend/src/app/services/request.ts: the tokens that a refresh leaves.
use k8s_platform.Common.{
  String, ◌≡◌, ◌∙◌, true, Option, none, some, arith, coalesce, Option-cases, Bool-cases, inl, inr,
}
use k8s_platform.Text.{opt_truthy, truthy}
use k8s_platform.Storage.{WebStorage}
use k8s_platform.Store
use k8s_platform.Slices.User
use k8s_platform.Http
use k8s_platform.Http.{
  Config, AxiosError, Response, Page, on_request, status_is, is_auth_path, url_of, bearer,
  handle_error, handle_unauthorized, is_canceled, notify, field, redirect_to_login,
}
use k8s_platform.Http.Retry.{RefreshAnswer, gave, adopt, answered, refresh_access_token}

module _ (w : WebStorage) {Entry : Type 0} (encode : String → String) where
  open w use {get_item, set_item, get-set, get-remove}

  dispatch_set_token :
      (page : Page w Entry) (token : String)
      → truthy token ≡ true
      → get_item page.store "token" ≡ some token
      → (get_item
            (Http.dispatch w encode page (Store.user (User.set_token (some token)))).store
            "token"
          ≡ some token)
        × ((Http.dispatch w encode page (Store.user (User.set_token (some token)))).has_dispatch
            ≡ page.has_dispatch)
  unfolding Http.dispatch Store.dispatch Store.root_reducer User.reducer User.persist_token
  dispatch_set_token page token t e = ground (arith, get-set page.store "token" token "token")

  dispatch_set_refresh :
      (page : Page w Entry) (refresh : Option String) (o : Option String)
      → get_item page.store "token" ≡ o
      → get_item
          (Http.dispatch w encode page (Store.user (User.set_refresh_token refresh))).store
          "token"
        ≡ o
  unfolding Http.dispatch Store.dispatch Store.root_reducer User.reducer User.persist_token
  dispatch_set_refresh page none o e = ground (arith, get-remove page.store "refresh_token" "token")
  dispatch_set_refresh page (some r) o e = ground (
    arith,
    get-remove page.store "refresh_token" "token",
    get-set page.store "refresh_token" r "token",
  )

  adopt-token :
      (post : String → RefreshAnswer) (page : Page w Entry) (access : String)
      (refresh : Option String)
      → truthy access ≡ true
      → get_item (adopt w encode post page access refresh).store "token" ≡ some access
  unfolding adopt
  adopt-token post page access refresh t = elim (Bool-cases (opt_truthy refresh)) [
    | inl both ↦ rw both (
        dispatch_set_refresh _ refresh (some access)
          (dispatch_set_token _ access t (
            get-set (set_item page.store "token" access) "refresh_token" (coalesce refresh "")
              "token"
            ∙ get-set page.store "token" access "token")).0)
    | inr one ↦ rw one (dispatch_set_token _ access t (get-set page.store "token" access "token")).0
  ]

  module _ (post : String → RefreshAnswer) (page : Page w Entry) (token : String)
      (t : truthy token ≡ true) where
    answered-token :
        (answer : RefreshAnswer)
        → (answered w encode post page answer).1 ≡ gave (some token)
        → get_item (answered w encode post page answer).0.store "token" ≡ some token
    unfolding answered
    answered-token none g = cc
    answered-token (some (none, refresh)) g = cc
    answered-token (some (some access, refresh)) g = elim (Bool-cases (truthy access)) [
      | inl filled ↦
          let same : some access ≡ some token = ground arith in
          rw filled (adopt-token post page access refresh filled ∙ same)
      | inr empty ↦ let bad : gave none ≡ gave (some token) = rw empty at g in cc
    ]

    refresh-token :
        (refresh_access_token w encode post page).1 ≡ gave (some token)
        → get_item (refresh_access_token w encode post page).0.store "token" ≡ some token
    unfolding refresh_access_token
    refresh-token g = elim (Option-cases (User.clean (get_item page.store "refresh_token"))) [
      | inl e ↦ let bad : gave none ≡ gave (some token) = rw (e, refresh_access_token) at g in cc
      | inr (rt, e) ↦
          rw (e, refresh_access_token)
            (answered-token (post rt) (rw (e, refresh_access_token) at g))
    ]

    -- After a refresh that gave a token, the next request carries that token.
    pub refresh-on_request :
        (uuid : Option String) (config : Config)
        → (refresh_access_token w encode post page).1 ≡ gave (some token)
        → (on_request w encode
            (refresh_access_token w encode post page).0
            uuid
            config).authorization
          ≡ some (bearer token)
    unfolding on_request
    refresh-on_request uuid config g = ground (arith, refresh-token g)

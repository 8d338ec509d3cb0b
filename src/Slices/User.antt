-- ===== src/Slices/User.antt =====
-- frontend/src/slices/userSlice.ts: the session (tokens, current user, state of the profile), whose
-- tokens are kept in `localStorage`.
pub mod Reload
use k8s_platform.Common.{
  ℕ, String, Bool, true, false, not, ◌&&◌, ◌==◌, Option, none, some, List, [], ◌∷◌, if◌then◌else◌,
}
use k8s_platform.Text.{truthy, opt_truthy}
use k8s_platform.Storage.{WebStorage}

pub data ScopeType : Type 0 where
  platform cluster namespace : ScopeType

pub data ProfileStatus : Type 0 where
  idle loading ready failed : ProfileStatus

pub record CurrentUserRole : Type 0 where
  pub role_id : ℕ
  pub role_code : String
  pub role_name : String
  pub scope_type : ScopeType
  pub cluster_code : Option String
  pub namespace : Option String

-- `id` may be a number or a text there; it is held as a text.
pub record CurrentUser : Type 0 where
  pub id : Option String
  pub username : Option String
  pub display_name : Option String
  pub nickname : Option String
  pub avatar : Option String
  pub email : Option String
  pub phone : Option String
  pub auth_source : Option String
  pub status : Option ℕ
  pub last_login_at : Option String
  pub last_login_ip : Option String
  pub roles : Option (List CurrentUserRole)
  pub perms : Option (List String)
  pub is_platform_admin : Option Bool

pub record UserState : Type 0 where
  pub token : Option String
  pub refresh_token : Option String
  pub current_user : Option CurrentUser
  pub profile_status : ProfileStatus

pub record LoginResponse : Type 0 where
  pub access_token : String
  pub refresh_token : Option String
  pub token_type : Option String
  pub expires_in : Option ℕ
  pub user : Option CurrentUser

-- The reducers, and the ends of the two requests that the slice answers to.
pub data Action : Type 0 where
  set_token set_refresh_token : Option String → Action
  set_current_user : Option CurrentUser → Action
  logout : Action
  login_fulfilled : LoginResponse → Action
  fetch_pending fetch_rejected : Action
  fetch_fulfilled : CurrentUser → Action

-- What `readStoredToken` makes of a stored value.
unfoldable pub clean : Option String → Option String
clean none = none
clean (some v) = if truthy v && (not (v == "undefined") && not (v == "null")) then some v else none

module _ (w : WebStorage) where
  open w use {Store, get_item, set_item, remove_item}

  unfoldable pub read_stored_token : Store → String → Option String
  read_stored_token store key = clean (get_item store key)

  unfoldable pub initial_state : Store → UserState
  unfolding read_stored_token
  initial_state store = record {
    token = read_stored_token store "token";
    refresh_token = read_stored_token store "refresh_token";
    current_user = none;
    profile_status = idle;
  }

  unfoldable pub persist_token : Store → String → Option String → Store
  persist_token store key none = remove_item store key
  persist_token store key (some value) =
      if truthy value then set_item store key value else remove_item store key

  unfoldable pub reducer : UserState × Store → Action → UserState × Store
  unfolding persist_token
  reducer (state, store) (set_token payload) =
      (record state { token = payload }, persist_token store "token" payload)
  reducer (state, store) (set_refresh_token payload) =
      (record state { refresh_token = payload }, persist_token store "refresh_token" payload)
  reducer (state, store) (set_current_user payload) =
      (record state { current_user = payload }, store)
  reducer (state, store) logout = (
    record { token = none; refresh_token = none; current_user = none; profile_status = idle },
    remove_item (remove_item store "token") "refresh_token",
  )
  reducer (state, store) (login_fulfilled payload) = (
    record state {
      token = some payload.access_token;
      refresh_token = payload.refresh_token;
      profile_status = loading;
    },
    persist_token (persist_token store "token" (some payload.access_token)) "refresh_token"
        payload.refresh_token,
  )
  reducer (state, store) fetch_pending = (record state { profile_status = loading }, store)
  reducer (state, store) (fetch_fulfilled payload) =
      (record state { current_user = some payload; profile_status = ready }, store)
  reducer (state, store) fetch_rejected = (record state { profile_status = failed }, store)

  unfoldable pub run : UserState × Store → List Action → UserState × Store
  run s [] = s
  run s (a ∷ rest) = run (reducer s a) rest

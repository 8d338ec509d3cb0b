-- ===== src/Pages/Users.antt =====
-- frontend/src/pages/users/list.tsx: the users of the platform and their roles.
use Prim.Native.String
use k8s_platform.Common.{
  ℕ, String, Bool, false, not, ◌||◌, Option, none, some, List, [], ◌∷◌, nat_eq, gtb, if◌then◌else◌,
}
use k8s_platform.Text.{truthy, opt_truthy, or_text, or_none}
use k8s_platform.Slices.User.{ScopeType, CurrentUser, platform, cluster, namespace}
use k8s_platform.Access.Permission.{has_perm}
use k8s_platform.Api.Rbac.{
  User, ListUsersParams, CreateUserBody, UpdateUserBody, UserRole, BindUserRoleBody,
}
use k8s_platform.Api.Rbac.Endpoints.{
  Mutation, create_user, update_user, update_user_status, reset_password, bind_user_role,
  unbind_user_role,
}
use k8s_platform.Pages.{Act, error, success, send, reload, if_ok}

-- The permission that every part of the page asks for.
unfoldable pub can_manage : Option CurrentUser → Bool
can_manage user = has_perm user "user:manage"

pub record StatusTag : Type 0 where
  pub label : String
  pub color : String

abbrev pub status_tag : ℕ → StatusTag
status_tag n =
    if nat_eq n 1
    then record { label = "启用"; color = "success" }
    else if nat_eq n 2
    then record { label = "禁用"; color = "error" }
    else if nat_eq n 3
    then record { label = "锁定"; color = "warning" }
    else record { label = "-"; color = "default" }

abbrev pub scope_label : ScopeType → String
scope_label platform = "平台"
scope_label cluster = "集群"
scope_label namespace = "命名空间"

abbrev pub initial_filters : ListUsersParams
initial_filters = record { page = some 1; page_size = some 10; keyword = none; status = none }

abbrev pub search : String → ListUsersParams → ListUsersParams
search keyword f = record f { keyword = or_none keyword; page = some 1 }

abbrev pub change_page : (page size : ℕ) → ListUsersParams → ListUsersParams
change_page page size f = record f { page = some page; page_size = some size }

-- The drawers of the page.
pub record UsersState : Type 0 where
  pub filters : ListUsersParams
  pub create_open : Bool
  pub editing_user : Option User
  pub roles_user : Option User

abbrev Outcome : Type 0
Outcome = UsersState × List (Act Mutation)

-- How a creation ends: refused, or with the message of the server, if any.
pub data Created : Type 0 where
  refused : Created
  created : (message : Option String) → Created

abbrev pub created_acts : String → Created → List (Act Mutation)
created_acts username refused = []
created_acts username (created m) =
    success (or_text m (String.◌++◌ "用户 " (String.◌++◌ username " 创建成功"))) ∷ reload ∷ []

abbrev pub close_created : Created → UsersState → UsersState
close_created refused state = state
close_created (created m) state = record state { create_open = false }

-- The values of a form are `none` where it is not valid.
unfoldable pub handle_create :
    UsersState → Option CreateUserBody → Created → UsersState × List (Act Mutation)
handle_create state none answer = (state, [])
handle_create state (some v) answer =
    (close_created answer state, send (create_user v) ∷ created_acts v.username answer)

unfoldable pub handle_open_edit : UsersState → User → UsersState × UpdateUserBody
handle_open_edit state u = (
  record state { editing_user = some u },
  record { display_name = u.display_name; email = u.email; phone = u.phone; status = none },
)

abbrev edited : Bool → UsersState → UsersState
edited ok state = if ok then record state { editing_user = none } else state

abbrev edit_user :
    UsersState → Option User → Option UpdateUserBody → Bool → UsersState × List (Act Mutation)
edit_user state (some u) (some v) ok =
    (edited ok state, send (update_user u.id v) ∷ if_ok ok (success "用户信息已更新" ∷ reload ∷ []))
edit_user state _ _ ok = (state, [])

unfoldable pub handle_edit :
    UsersState → Option UpdateUserBody → Bool → UsersState × List (Act Mutation)
handle_edit state values ok = edit_user state state.editing_user values ok

abbrev pub next_status : ℕ → ℕ
next_status status = if nat_eq status 1 then 2 else 1

unfoldable pub handle_toggle_status : User → Bool → List (Act Mutation)
handle_toggle_status u ok =
    let next = next_status u.status in
    send (update_user_status u.id next)
    ∷ if_ok ok (
        success (
          String.◌++◌ "已"
            (String.◌++◌ (if nat_eq next 1 then "启用" else "禁用") (String.◌++◌ "用户 " u.username)))
        ∷ reload
        ∷ [])

-- `size` is the length of a text. The dialog stays open where the password is refused.
unfoldable pub handle_reset_password :
    (String → ℕ) → User → (password : String) → Bool → List (Act Mutation)
handle_reset_password size u password ok =
    if not (truthy password) || gtb 8 (size password)
    then error "密码至少 8 位" ∷ []
    else send (reset_password u.id password) ∷ if_ok ok (success "密码已重置" ∷ [])

abbrev lacks_place : BindUserRoleBody → ScopeType → Option String
lacks_place v platform = none
lacks_place v cluster = if opt_truthy v.cluster_code then none else some "集群级权限需填写集群"
lacks_place v namespace =
    if not (opt_truthy v.cluster_code) || not (opt_truthy v.namespace)
    then some "命名空间级权限需填写集群与命名空间"
    else none

abbrev bind_or : Option String → ℕ → BindUserRoleBody → Bool → List (Act Mutation)
bind_or (some text) id v ok = error text ∷ []
bind_or none id v ok = send (bind_user_role id v) ∷ if_ok ok (success "角色绑定成功" ∷ [])

unfoldable pub handle_bind : User → Option BindUserRoleBody → Bool → List (Act Mutation)
handle_bind u none ok = []
handle_bind u (some v) ok = bind_or (lacks_place v v.scope_type) u.id v ok

unfoldable pub handle_unbind : User → UserRole → Bool → List (Act Mutation)
handle_unbind u r ok =
    send (
      unbind_user_role u.id (record {
        role_id = r.role_id;
        scope_type = r.scope_type;
        cluster_code = r.cluster_code;
        namespace = r.namespace;
      }))
    ∷ if_ok ok (success "已解绑角色" ∷ [])

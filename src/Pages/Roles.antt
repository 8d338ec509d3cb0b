-- ===== src/Pages/Roles.antt =====
-- frontend/src/pages/roles/list.tsx: the roles of the platform.
use Prim.Native.String
use k8s_platform.Common.{
  ℕ, String, Bool, false, Option, none, some, List, [], ◌∷◌, nat_eq, if◌then◌else◌,
}
use k8s_platform.Text.{or_text, or_none}
use k8s_platform.Slices.User.{CurrentUser}
use k8s_platform.Access.Permission.{has_perm}
use k8s_platform.Api.Rbac.{Role, ListRolesParams, CreateRoleBody, UpdateRoleBody}
use k8s_platform.Api.Rbac.Endpoints.{Mutation, create_role, update_role, delete_role}
use k8s_platform.Pages.{Act, error, success, send, reload, if_ok}
use k8s_platform.Pages.Users.{Created, refused, created}

unfoldable pub can_manage : Option CurrentUser → Bool
can_manage user = has_perm user "role:manage"

abbrev pub initial_filters : ListRolesParams
initial_filters = record { page = some 1; page_size = some 10; keyword = none; status = none }

abbrev pub search : String → ListRolesParams → ListRolesParams
search keyword f = record f { keyword = or_none keyword; page = some 1 }

abbrev pub change_page : (page size : ℕ) → ListRolesParams → ListRolesParams
change_page page size f = record f { page = some page; page_size = some size }

pub record RolesState : Type 0 where
  pub filters : ListRolesParams
  pub create_open : Bool
  pub editing_role : Option Role
  pub perms_role : Option Role

abbrev created_acts : String → Created → List (Act Mutation)
created_acts code refused = []
created_acts code (created m) =
    success (or_text m (String.◌++◌ "角色 " (String.◌++◌ code " 创建成功"))) ∷ reload ∷ []

abbrev close_created : Created → RolesState → RolesState
close_created refused state = state
close_created (created m) state = record state { create_open = false }

unfoldable pub handle_create :
    RolesState → Option CreateRoleBody → Created → RolesState × List (Act Mutation)
handle_create state none answer = (state, [])
handle_create state (some v) answer =
    (close_created answer state, send (create_role v) ∷ created_acts v.code answer)

unfoldable pub handle_open_edit : RolesState → Role → RolesState × UpdateRoleBody
handle_open_edit state r = (
  record state { editing_role = some r },
  record { name = some r.name; description = r.description; status = none },
)

abbrev edited : Bool → RolesState → RolesState
edited ok state = if ok then record state { editing_role = none } else state

abbrev edit_role :
    RolesState → Option Role → Option UpdateRoleBody → Bool → RolesState × List (Act Mutation)
edit_role state (some r) (some v) ok =
    (edited ok state, send (update_role r.id v) ∷ if_ok ok (success "角色已更新" ∷ reload ∷ []))
edit_role state _ _ ok = (state, [])

unfoldable pub handle_edit :
    RolesState → Option UpdateRoleBody → Bool → RolesState × List (Act Mutation)
handle_edit state values ok = edit_role state state.editing_role values ok

unfoldable pub handle_toggle_status : Role → Bool → List (Act Mutation)
handle_toggle_status r ok =
    let next : ℕ = if nat_eq r.status 1 then 0 else 1 in
    send (update_role r.id (record { name = none; description = none; status = some next }))
    ∷ if_ok ok (
        success (
          String.◌++◌ "已"
            (String.◌++◌ (if nat_eq next 1 then "启用" else "禁用") (String.◌++◌ "角色 " r.name)))
        ∷ reload
        ∷ [])

unfoldable pub handle_delete : Role → Bool → List (Act Mutation)
handle_delete r ok =
    if nat_eq r.builtin 1
    then error "内置角色不可删除" ∷ []
    else send (delete_role r.id)
      ∷ if_ok ok (success (String.◌++◌ "角色 " (String.◌++◌ r.name " 已删除")) ∷ reload ∷ [])

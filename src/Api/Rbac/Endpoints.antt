-- ===== src/Api/Rbac/Endpoints.antt =====
-- frontend/src/app/services/rbac.ts: the endpoints of `rbacApi`.
pub mod Freshness
use Prim.Native.String
use k8s_platform.Common.{ℕ, String, Option, none, some, List, [], ◌∷◌, ◌++◌, map}
use k8s_platform.Api
use k8s_platform.Api.{Request, Method, Tag, number, text, list_of}
use k8s_platform.Api.Rbac.{
  PagedResponse, Permission, Role, ListRolesParams, CreateRoleBody, UpdateRoleBody, RolePermissions,
  User, ListUsersParams, CreateUserBody, UpdateUserBody, UserRole, BindUserRoleBody, AuditLog,
  ListAuditLogsParams,
}

pub data Query : Type 0 where
  list_permissions : Option (Option String) → Query
  list_roles : Option ListRolesParams → Query
  get_role_permissions : ℕ → Query
  list_users : Option ListUsersParams → Query
  list_user_roles : ℕ → Query
  list_audit_logs : Option ListAuditLogsParams → Query

pub data Mutation : Type 0 where
  create_role : CreateRoleBody → Mutation
  update_role : ℕ → UpdateRoleBody → Mutation
  delete_role : ℕ → Mutation
  set_role_permissions : ℕ → List String → Mutation
  create_user : CreateUserBody → Mutation
  update_user : ℕ → UpdateUserBody → Mutation
  update_user_status : ℕ → (status : ℕ) → Mutation
  reset_password : ℕ → (password : String) → Mutation
  bind_user_role : ℕ → BindUserRoleBody → Mutation
  unbind_user_role : ℕ → BindUserRoleBody → Mutation

pub data Params : Type 0 where
  module_params : Option String → Params
  role_params : ListRolesParams → Params
  user_params : ListUsersParams → Params
  audit_params : ListAuditLogsParams → Params

pub data Body : Type 0 where
  new_role : CreateRoleBody → Body
  role_change : UpdateRoleBody → Body
  perms_body : List String → Body
  new_user : CreateUserBody → Body
  user_change : UpdateUserBody → Body
  status_body : ℕ → Body
  password_body : String → Body
  role_binding : BindUserRoleBody → Body

-- What a query answers with.
abbrev pub Answer : Query → Type 0
Answer (list_permissions p) = List Permission
Answer (list_roles p) = PagedResponse Role
Answer (get_role_permissions id) = RolePermissions
Answer (list_users p) = PagedResponse User
Answer (list_user_roles id) = List UserRole
Answer (list_audit_logs p) = PagedResponse AuditLog

abbrev pub role_tag : ℕ → Tag
role_tag id = record { of_type = "Role"; id = number id }

abbrev pub user_tag : ℕ → Tag
user_tag id = record { of_type = "User"; id = number id }

abbrev wrap {ℓ κ} : {A : Type ℓ} {B : Type κ} → (A → B) → Option A → Option B
wrap f none = none
wrap f (some a) = some (f a)

abbrev get_from : String → Option Params → Request Params Body
get_from u params = record { url = u; method = Api.get_; params = params; body = none }

abbrev send : Method → String → Option Body → Request Params Body
send m u body = record { url = u; method = m; params = none; body = body }

module _ (show : ℕ → String) where
  abbrev pub role_perms_tag : ℕ → Tag
  role_perms_tag id = record { of_type = "Permission"; id = text (String.◌++◌ "ROLE-" (show id)) }

  abbrev pub user_roles_tag : ℕ → Tag
  user_roles_tag id = record { of_type = "User"; id = text (String.◌++◌ "ROLES-" (show id)) }

  abbrev under : String → ℕ → String → String
  under base id rest = String.◌++◌ base (String.◌++◌ (show id) rest)

  unfoldable pub query_request : Query → Request Params Body
  query_request (list_permissions params) = get_from "/permissions" (wrap module_params params)
  query_request (list_roles params) = get_from "/roles" (wrap role_params params)
  query_request (get_role_permissions id) = get_from (under "/roles/" id "/permissions") none
  query_request (list_users params) = get_from "/users" (wrap user_params params)
  query_request (list_user_roles id) = get_from (under "/users/" id "/roles") none
  query_request (list_audit_logs params) = get_from "/audit-logs" (wrap audit_params params)

  -- The tags of a query's answer, none where the query failed.
  unfoldable pub provides : (q : Query) → Option (Answer q) → List Tag
  provides (list_permissions params) result = list_of "Permission" ∷ []
  provides (list_roles params) none = list_of "Role" ∷ []
  provides (list_roles params) (some result) =
      map (λ (r : Role). role_tag r.id) result.items ++ list_of "Role" ∷ []
  provides (get_role_permissions id) result = role_perms_tag id ∷ []
  provides (list_users params) none = list_of "User" ∷ []
  provides (list_users params) (some result) =
      map (λ (u : User). user_tag u.id) result.items ++ list_of "User" ∷ []
  provides (list_user_roles id) result = user_roles_tag id ∷ []
  provides (list_audit_logs params) result = list_of "AuditLog" ∷ []

  unfoldable pub mutation_request : Mutation → Request Params Body
  mutation_request (create_role body) = send Api.post "/roles" (some (new_role body))
  mutation_request (update_role id body) =
      send Api.put (under "/roles/" id "") (some (role_change body))
  mutation_request (delete_role id) = send Api.delete (under "/roles/" id "") none
  mutation_request (set_role_permissions id perms) =
      send Api.post (under "/roles/" id "/permissions") (some (perms_body perms))
  mutation_request (create_user body) = send Api.post "/users" (some (new_user body))
  mutation_request (update_user id body) =
      send Api.put (under "/users/" id "") (some (user_change body))
  mutation_request (update_user_status id status) =
      send Api.patch (under "/users/" id "/status") (some (status_body status))
  mutation_request (reset_password id password) =
      send Api.post (under "/users/" id "/reset-password") (some (password_body password))
  mutation_request (bind_user_role id body) =
      send Api.post (under "/users/" id "/roles") (some (role_binding body))
  mutation_request (unbind_user_role id body) =
      send Api.delete (under "/users/" id "/roles") (some (role_binding body))

  unfoldable pub invalidates : Mutation → List Tag
  invalidates (create_role body) = list_of "Role" ∷ []
  invalidates (update_role id body) = role_tag id ∷ list_of "Role" ∷ []
  invalidates (delete_role id) = role_tag id ∷ list_of "Role" ∷ []
  invalidates (set_role_permissions id perms) =
      role_perms_tag id ∷ role_tag id ∷ list_of "Role" ∷ []
  invalidates (create_user body) = list_of "User" ∷ []
  invalidates (update_user id body) = user_tag id ∷ list_of "User" ∷ []
  invalidates (update_user_status id status) = user_tag id ∷ list_of "User" ∷ []
  invalidates (reset_password id password) = []
  invalidates (bind_user_role id body) = user_roles_tag id ∷ user_tag id ∷ list_of "User" ∷ []
  invalidates (unbind_user_role id body) = user_roles_tag id ∷ user_tag id ∷ list_of "User" ∷ []

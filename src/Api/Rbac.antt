-- ===== src/Api/Rbac.antt =====
-- frontend/src/app/services/rbac.ts: permissions, roles, users and the audit log. An id is a natural
-- number, and `show` is its text in a template.
pub mod Endpoints
use k8s_platform.Common.{ℕ, String, Option, List}
use k8s_platform.Slices.User.{ScopeType}

pub record PagedResponse (A : Type 0) : Type 0 where
  pub items : List A
  pub total : ℕ

pub record Permission : Type 0 where
  pub code : String
  pub name : String
  pub module_name : String
  pub description : Option String
  pub action : Option String

pub record Role : Type 0 where
  pub id : ℕ
  pub code : String
  pub name : String
  pub description : Option String
  pub builtin : ℕ
  pub status : ℕ
  pub perm_count : Option ℕ
  pub user_count : Option ℕ
  pub created_at : Option String

pub record ListRolesParams : Type 0 where
  pub page : Option ℕ
  pub page_size : Option ℕ
  pub keyword : Option String
  pub status : Option ℕ

pub record CreateRoleBody : Type 0 where
  pub code : String
  pub name : String
  pub description : Option String
  pub perms : Option (List String)

pub record UpdateRoleBody : Type 0 where
  pub name : Option String
  pub description : Option String
  pub status : Option ℕ

pub record RolePermissions : Type 0 where
  pub role_id : ℕ
  pub perms : List String

pub record User : Type 0 where
  pub id : ℕ
  pub username : String
  pub display_name : Option String
  pub email : Option String
  pub phone : Option String
  pub auth_source : Option String
  pub status : ℕ
  pub last_login_at : Option String
  pub created_at : Option String
  pub role_count : Option ℕ

pub record ListUsersParams : Type 0 where
  pub page : Option ℕ
  pub page_size : Option ℕ
  pub keyword : Option String
  pub status : Option ℕ

pub record CreateUserBody : Type 0 where
  pub username : String
  pub display_name : Option String
  pub email : Option String
  pub phone : Option String
  pub password : String
  pub auth_source : Option String
  pub status : Option ℕ

pub record UpdateUserBody : Type 0 where
  pub display_name : Option String
  pub email : Option String
  pub phone : Option String
  pub status : Option ℕ

pub record UserRole : Type 0 where
  pub id : ℕ
  pub user_id : ℕ
  pub role_id : ℕ
  pub role_code : String
  pub role_name : String
  pub scope_type : ScopeType
  pub cluster_code : Option String
  pub namespace : Option String
  pub created_at : Option String

pub record BindUserRoleBody : Type 0 where
  pub role_id : ℕ
  pub scope_type : ScopeType
  pub cluster_code : Option String
  pub namespace : Option String

pub record AuditLog : Type 0 where
  pub id : Option ℕ
  pub trace_id : Option String
  pub user_id : Option ℕ
  pub username : Option String
  pub client_ip : Option String
  pub user_agent : Option String
  pub module_name : Option String
  pub action : Option String
  pub target_type : Option String
  pub target_id : Option String
  pub cluster_code : Option String
  pub namespace : Option String
  pub status : Option String
  pub error_msg : Option String
  pub request_method : Option String
  pub request_uri : Option String
  pub request_body : Option String
  pub response_code : Option ℕ
  pub cost_ms : Option ℕ
  pub created_at : Option String

pub record ListAuditLogsParams : Type 0 where
  pub page : Option ℕ
  pub page_size : Option ℕ
  pub username : Option String
  pub module_name : Option String
  pub action : Option String
  pub status : Option String
  pub cluster_code : Option String
  pub namespace : Option String
  pub target_type : Option String
  pub target_id : Option String
  pub trace_id : Option String
  pub start_time : Option String
  pub end_time : Option String

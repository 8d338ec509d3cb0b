-- ===== src/Pages/Audit.antt =====
-- frontend/src/pages/audit/list.tsx: the filters of the audit log.
use k8s_platform.Common.{ℕ, String, Bool, Option, none, some, List, [], ◌∷◌}
use k8s_platform.Text.{or_text, or_none}
use k8s_platform.Slices.User.{CurrentUser}
use k8s_platform.Access.Permission.{has_perm}
use k8s_platform.Api.Rbac.{ListAuditLogsParams}

unfoldable pub can_view : Option CurrentUser → Bool
can_view user = has_perm user "audit:list"

abbrev pub status_label_map : List (String × String)
status_label_map = ("success", "成功") ∷ ("failed", "失败") ∷ ("error", "异常") ∷ ("pending", "进行中") ∷ []

abbrev pub method_color_map : List (String × String)
method_color_map =
    ("GET", "blue")
    ∷ ("POST", "green")
    ∷ ("PUT", "orange")
    ∷ ("PATCH", "gold")
    ∷ ("DELETE", "red")
    ∷ []

-- A moment of the library dayjs is a value of `Moment`.
pub record FilterFormValues (Moment : Type 0) : Type 0 where
  pub username : Option String
  pub module_name : Option String
  pub action : Option String
  pub status : Option String
  pub cluster_code : Option String
  pub namespace : Option String
  pub target_type : Option String
  pub target_id : Option String
  pub trace_id : Option String
  pub time_range : Option (Moment × Moment)

abbrev pub initial_filters : ListAuditLogsParams
initial_filters = record {
  page = some 1;
  page_size = some 10;
  username = none;
  module_name = none;
  action = none;
  status = none;
  cluster_code = none;
  namespace = none;
  target_type = none;
  target_id = none;
  trace_id = none;
  start_time = none;
  end_time = none;
}

-- `o || undefined`
abbrev given : Option String → Option String
given o = or_none (or_text o "")

module _ {Moment : Type 0} (format : Moment → String) where
  abbrev start_of : Option (Moment × Moment) → Option String
  start_of none = none
  start_of (some (a, b)) = some (format a)

  abbrev end_of : Option (Moment × Moment) → Option String
  end_of none = none
  end_of (some (a, b)) = some (format b)

  unfoldable pub handle_search : FilterFormValues Moment → ListAuditLogsParams → ListAuditLogsParams
  handle_search values f = record {
    page = some 1;
    page_size = f.page_size;
    username = given values.username;
    module_name = given values.module_name;
    action = given values.action;
    status = given values.status;
    cluster_code = given values.cluster_code;
    namespace = given values.namespace;
    target_type = given values.target_type;
    target_id = given values.target_id;
    trace_id = given values.trace_id;
    start_time = start_of values.time_range;
    end_time = end_of values.time_range;
  }

abbrev pub handle_reset : ListAuditLogsParams → ListAuditLogsParams
handle_reset f = initial_filters

abbrev pub handle_page_change : (page size : ℕ) → ListAuditLogsParams → ListAuditLogsParams
handle_page_change page size f = record f { page = some page; page_size = some size }

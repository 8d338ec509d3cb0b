-- ===== src/Pages/ClusterEdit.antt =====
-- frontend/src/pages/clusters/list.tsx: the drawer that edits a cluster.
mod Tests
use Prim.Native.String
use k8s_platform.Common.{
  ℕ, String, Bool, true, false, not, ◌&&◌, Option, none, some, List, [], ◌∷◌, if◌then◌else◌,
}
use k8s_platform.Text.{truthy, text_of}
use k8s_platform.Api.Cluster.{
  Cluster, PingResponse, UpdateClusterData, Mutation, temp_ping, update_cluster,
}
use k8s_platform.Pages.ClusterImport.{PingResult, succeeded, ping_info}
use k8s_platform.Pages.ClusterList.{Perms}
use k8s_platform.Pages.{Act, error, warning, success, send, reload}

pub record EditFormValues : Type 0 where
  pub name : String
  pub description : Option String
  pub labels : Option String
  pub kubeconfig_text : Option String

-- The cells of the drawer, and the fields of its form.
pub record EditState : Type 0 where
  pub editing_cluster : Option Cluster
  pub form : EditFormValues
  pub edit_ping_result : Option PingResult
  pub edit_ping_loading : Bool

-- `setEditingCluster(record)`, with the fields of the form.
unfoldable pub open_edit : Cluster → EditState → EditState
open_edit c s = record s {
  editing_cluster = some c;
  form = record {
    name = c.name;
    description = c.description;
    labels = some "";
    kubeconfig_text = some "";
  };
  edit_ping_result = none;
}

abbrev pub close_edit : EditState → EditState
close_edit s = record s { editing_cluster = none }

-- The answer to the test of the connection, `none` where it failed; `digits` writes a number.
unfoldable pub answered :
    (digits : ℕ → String) → EditState → Option PingResponse → EditState × List (Act Mutation)
answered digits s none = (
  record s {
    edit_ping_loading = false;
    edit_ping_result = some (record { success = false; message = some "连接校验失败" });
  },
  [],
)
answered digits s (some res) = (
  record s {
    edit_ping_loading = false;
    edit_ping_result = some (record { success = true; message = some (ping_info digits res) });
  },
  success "连接校验通过" ∷ [],
)

-- `trim` is that of texts.
module _ (trim : String → String) where
  -- Whether a field is neither missing nor blank.
  abbrev pub filled : Option String → Bool
  filled none = false
  filled (some s) = truthy s && truthy (trim s)

  abbrev pub test_of : Option Cluster → EditState → EditState × List (Act Mutation)
  test_of none s = (s, [])
  test_of (some c) s =
      if filled s.form.kubeconfig_text
      then (
        record s { edit_ping_loading = true; edit_ping_result = none },
        send (temp_ping (record { kubeconfig_text = s.form.kubeconfig_text })) ∷ [],
      )
      else (s, warning "请先在「更新 Kubeconfig」字段粘贴内容后再测试连接" ∷ [])

  -- The test of the connection, up to its request.
  unfoldable pub test_connection : EditState → EditState × List (Act Mutation)
  test_connection s = test_of s.editing_cluster s

  -- What is changed: labels and kubeconfig only where they are filled in.
  abbrev pub payload : EditFormValues → UpdateClusterData
  payload v = record {
    name = some v.name;
    description = v.description;
    kubeconfig_text = if filled v.kubeconfig_text then v.kubeconfig_text else none;
    kubeconfig_base64 = none;
    labels = if filled v.labels then v.labels else none;
  }

  abbrev pub update_of : Cluster → EditState → Bool → EditState × List (Act Mutation)
  update_of c s true =
      (close_edit s, send (update_cluster c.code (payload s.form)) ∷ success "更新成功" ∷ reload ∷ [])
  update_of c s false = (s, send (update_cluster c.code (payload s.form)) ∷ [])

  abbrev pub save_of :
      (parses : String → Bool) → Option Cluster → EditState → Bool → EditState × List (Act Mutation)
  save_of parses none s ok = (s, [])
  save_of parses (some c) s ok =
      if filled s.form.labels && not (parses (text_of s.form.labels))
      then (s, error "labels 必须是合法 JSON" ∷ [])
      else if filled s.form.kubeconfig_text && not (succeeded s.edit_ping_result)
      then (s, warning "更新 Kubeconfig 后建议先点击「校验连接」并确认成功后再保存" ∷ [])
      else update_of c s ok

  -- The button that saves; `parses` says whether JSON.parse returns, `valid` whether the rules of the
  -- form let it pass.
  unfoldable pub save :
      (parses : String → Bool)
      → Perms
      → EditState
      → (valid ok : Bool) → EditState × List (Act Mutation)
  save parses perms s valid ok =
      if not perms.can_update
      then (s, error "无集群编辑权限" ∷ [])
      else if valid
      then save_of parses s.editing_cluster s ok
      else (s, [])

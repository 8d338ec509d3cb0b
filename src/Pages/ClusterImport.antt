-- ===== src/Pages/ClusterImport.antt =====
-- frontend/src/pages/clusters/import.tsx: the import of a cluster, with the test of its kubeconfig.
pub mod Tested
mod Tests
use Prim.Native.String
use k8s_platform.Common.{
  ℕ, String, Bool, true, false, not, ◌&&◌, ◌||◌, Option, none, some, List, [], ◌∷◌, any,
  if◌then◌else◌,
}
use k8s_platform.Text.{truthy, or_text, or_none}
use k8s_platform.Api.Cluster.{Mutation, PingResponse, import_cluster, temp_ping}
use k8s_platform.Pages.{Act, error, success, send, go, if_ok}

pub data KubeconfigMode : Type 0 where
  file_mode text_mode : KubeconfigMode

pub record ImportFormValues : Type 0 where
  pub name : String
  pub code : String
  pub description : Option String
  pub labels : Option String

pub record PingResult : Type 0 where
  pub success : Bool
  pub message : Option String

-- The cells of the page; `kubeconfig` is the field of the form.
pub record ImportState : Type 0 where
  pub mode : KubeconfigMode
  pub kubeconfig : Option String
  pub file_content : String
  pub file_list : List String
  pub ping_loading : Bool
  pub ping_result : Option PingResult

abbrev pub initial_state : ImportState
initial_state = record {
  mode = text_mode;
  kubeconfig = none;
  file_content = "";
  file_list = [];
  ping_loading = false;
  ping_result = none;
}

-- The messages that a refused request may carry.
pub record PingError : Type 0 where
  pub data_message : Option String
  pub data_msg : Option String
  pub message : Option String

unfoldable pub extract_error_message : PingError → String
extract_error_message e = or_text e.data_message (or_text e.data_msg (or_text e.message "连接请求失败"))

-- What the validation of the form throws: no message.
abbrev no_message : PingError
no_message = record { data_message = none; data_msg = none; message = none }

pub data PingAnswer : Type 0 where
  connected : PingResponse → PingAnswer
  failed : PingError → PingAnswer

-- What happens on the page. A file that cannot be read is `none`.
pub data Event : Type 0 where
  edit_text : String → Event
  set_mode : KubeconfigMode → Event
  upload : (file_name : String) → Option String → Event
  remove_file : Event
  test_connection : (valid : Bool) → Event
  answered : PingAnswer → Event

abbrev pub succeeded : Option PingResult → Bool
succeeded none = false
succeeded (some r) = r.success

-- What a successful test says; `digits` writes a number.
abbrev pub ping_info : (ℕ → String) → PingResponse → String
ping_info digits res = String.◌++◌ (or_text (some res.server_version) "未知版本") (
    String.◌++◌ " · 节点 " (
      String.◌++◌ (digits res.node_count)
        (String.◌++◌ " · " (String.◌++◌ (digits res.cost_ms) "ms"))))

-- `trim` and `lower` are those of texts, `ends_with name ext` is `endsWith`, `digits` writes a number.
module _ (trim lower : String → String) (ends_with : String → String → Bool)
    (digits : ℕ → String) where
  abbrev pub extract_from : KubeconfigMode → Option String → String → Option String
  extract_from text_mode none content = none
  extract_from text_mode (some v) content = if truthy (trim v) then some v else none
  extract_from file_mode field content = or_none content

  abbrev pub extract_kubeconfig : ImportState → Option String
  extract_kubeconfig s = extract_from s.mode s.kubeconfig s.file_content

  abbrev pub allowed : String → Bool
  allowed name = any (ends_with (lower name)) (".yaml" ∷ ".yml" ∷ ".kubeconfig" ∷ [])

  abbrev pub read_file : ImportState → String → Option String → ImportState × List (Act Mutation)
  read_file s name none = (s, error "读取文件失败" ∷ [])
  read_file s name (some text) =
      (record s { file_content = text; kubeconfig = some text; file_list = name ∷ [] }, [])

  abbrev pub before_upload :
      ImportState → String → Option String → ImportState × List (Act Mutation)
  before_upload s name content =
      if allowed name
      then read_file s name content
      else (s, error "仅支持 .yaml/.yml/.kubeconfig 文件" ∷ [])

  abbrev pub start_test : ImportState → Option String → ImportState × List (Act Mutation)
  start_test s none = (record s { ping_loading = false }, error "请提供 Kubeconfig 内容" ∷ [])
  start_test s (some kc) = (
    record s { ping_loading = true; ping_result = none },
    send (temp_ping (record { kubeconfig_text = some kc })) ∷ [],
  )

  -- `handleTestConnection` up to its request, and what follows the answer.
  abbrev pub test : ImportState → Bool → ImportState × List (Act Mutation)
  test s true = start_test s (extract_kubeconfig s)
  test s false = (
    record s {
      ping_loading = false;
      ping_result =
          some (record { success = false; message = some (extract_error_message no_message) });
    },
    [],
  )

  abbrev pub answer : ImportState → PingAnswer → ImportState × List (Act Mutation)
  answer s (connected res) = (
    record s {
      ping_loading = false;
      ping_result = some (record { success = true; message = some (ping_info digits res) });
    },
    success "连接成功" ∷ [],
  )
  answer s (failed err) = (
    record s {
      ping_loading = false;
      ping_result = some (record { success = false; message = some (extract_error_message err) });
    },
    [],
  )

  unfoldable pub step : ImportState → Event → ImportState × List (Act Mutation)
  step s (edit_text text) = (record s { kubeconfig = some text; ping_result = none }, [])
  step s (set_mode mode) = (record s { mode = mode }, [])
  step s (upload name content) = before_upload s name content
  step s remove_file =
      (record s { file_list = []; file_content = ""; kubeconfig = some ""; ping_result = none }, [])
  step s (test_connection valid) = test s valid
  step s (answered a) = answer s a

  abbrev pub import_body : ImportFormValues → String → Mutation
  import_body values kc = import_cluster (record {
    name = values.name;
    code = values.code;
    description = values.description;
    kubeconfig_text = some kc;
    kubeconfig_base64 = none;
    labels = values.labels;
  })

  abbrev pub submit_with : ImportFormValues → Bool → Bool → Option String → List (Act Mutation)
  submit_with values ok tested none = error "请提供 Kubeconfig 内容" ∷ []
  submit_with values ok tested (some kc) =
      if tested
      then send (import_body values kc) ∷ if_ok ok (success "集群导入成功" ∷ go "/clusters/list" ∷ [])
      else error "请先点击「测试连接」并确保连接成功后再导入" ∷ []

  unfoldable pub handle_submit : ImportState → ImportFormValues → Bool → List (Act Mutation)
  handle_submit s values ok = submit_with values ok (succeeded s.ping_result) (extract_kubeconfig s)

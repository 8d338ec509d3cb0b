-- ===== src/Pages/Backups.antt =====
-- frontend/src/pages/backups/list.tsx: the list of the backups, with their restoration, their
-- download and their progress.
pub mod Progress
use Prim.Native.String
use k8s_platform.Common.{
  ℕ, String, Bool, true, false, not, ◌&&◌, ◌||◌, ◌==◌, Option, none, some, List, [], ◌∷◌, gtb,
  if◌then◌else◌,
}
use k8s_platform.Common.Dict
use k8s_platform.Text.{truthy, opt_truthy, or_text, or_none}
use k8s_platform.Slices.User.{CurrentUser}
use k8s_platform.Slices.Ws.{Stage, TaskProgressPayload}
use k8s_platform.Access.Permission.{has_perm}
use k8s_platform.Api.Cluster.{Cluster}
use k8s_platform.Api.Backup
use k8s_platform.Api.Backup.{
  Backup, BackupStatus, RestoreMode, ListBackupsParams, RestoreBackupBody, Mutation, restore_backup,
  Download,
}
use k8s_platform.Pages.{Act, error, warning, success, send, reload, if_ok}

pub record Perms : Type 0 where
  pub can_view : Bool
  pub can_create : Bool
  pub can_restore : Bool
  pub can_download : Bool
  pub can_delete : Bool

unfoldable pub perms_of : Option CurrentUser → Perms
perms_of user = record {
  can_view = has_perm user "backup:list";
  can_create = has_perm user "backup:create";
  can_restore = has_perm user "backup:restore";
  can_download = has_perm user "backup:list";
  can_delete = has_perm user "backup:delete";
}

pub record ClusterOption : Type 0 where
  pub label : String
  pub value : String

abbrev pub cluster_option : Cluster → ClusterOption
cluster_option c = record {
  label =
      if truthy c.name
      then String.◌++◌ c.name (String.◌++◌ " (" (String.◌++◌ c.code ")"))
      else c.code;
  value = c.code;
}

unfoldable pub initial_filters : List (String × String) → ListBackupsParams
initial_filters query = record {
  keyword = some "";
  cluster_code = or_none (or_text (Dict.get query "code") "");
  status = none;
  backup_type = none;
  page = some 1;
  size = some 10;
}

pub record RestoreForm : Type 0 where
  pub target_cluster : Option String
  pub target_namespace : Option String
  pub mode : RestoreMode

pub record RestoreState : Type 0 where
  pub restore_open : Bool
  pub restoring_record : Option Backup
  pub form : Option RestoreForm

unfoldable pub handle_open_restore : Perms → Backup → RestoreState → RestoreState
handle_open_restore perms r state =
    if perms.can_restore
    then record {
      restore_open = true;
      restoring_record = some r;
      form = some (record {
        target_cluster = some r.cluster_code;
        target_namespace = or_none (or_text r.namespace "");
        mode = Backup.create_new;
      });
    }
    else state

-- How a restoration ends: refused, or with the number of the new task.
pub data Restored : Type 0 where
  refused : Restored
  submitted : (id : ℕ) → Restored

module _ (digits : ℕ → String) where
  abbrev restored_acts : String → Restored → List (Act Mutation)
  restored_acts target refused = []
  restored_acts target (submitted id) =
      success (
        String.◌++◌ "恢复任务 #"
          (String.◌++◌ (digits id) (String.◌++◌ " 已提交，切到集群 " (String.◌++◌ target " 查看进度"))))
      ∷ reload
      ∷ []

  abbrev close_restored : Restored → RestoreState → RestoreState
  close_restored refused state = state
  close_restored (submitted id) state = record state { restore_open = false }

  abbrev restore_one :
      Perms
      → Option Backup
      → Option RestoreForm
      → Restored
      → RestoreState
      → RestoreState × List (Act Mutation)
  restore_one perms (some r) (some v) answer state =
      if perms.can_restore
      then (
        close_restored answer state,
        send (
              restore_backup r.id (
                some (record {
                  target_cluster_code = v.target_cluster;
                  target_namespace = or_none (or_text v.target_namespace "");
                  mode = some v.mode;
                })))
            ∷ restored_acts (or_text v.target_cluster r.cluster_code) answer,
      )
      else (state, [])
  restore_one perms _ _ answer state = (state, [])

  -- The values are `none` where the form is not valid.
  unfoldable pub handle_confirm_restore :
      Perms → Option RestoreForm → Restored → RestoreState → RestoreState × List (Act Mutation)
  handle_confirm_restore perms values answer state =
      restore_one perms state.restoring_record values answer state

-- The download of a backup, and what is shown: `ok` is whether the file came.
pub data Fetch : Type 0 where
  download : Backup → Fetch

unfoldable pub handle_download : Perms → Backup → Bool → List (Act Fetch)
handle_download perms r ok =
    if not perms.can_download
    then error "无备份下载权限" ∷ []
    else if r.backup_type == "namespace_batch"
    then warning "批量备份暂不支持下载（尚未打包为单个文件）" ∷ []
    else send (download r) ∷ if_ok ok (success "开始下载" ∷ [])

abbrev pub storage_color_map : List (String × String)
storage_color_map = ("local", "geekblue") ∷ ("s3", "orange") ∷ ("nfs", "purple") ∷ []

abbrev pub mode_label_map : List (String × String)
mode_label_map = ("single", "单对象") ∷ ("namespace_batch", "命名空间批量") ∷ ("restore", "恢复任务") ∷ []

unfoldable pub mode_label : Backup → String
mode_label r =
    let display = or_text (some r.backup_type) "single" in
    or_text (Dict.get mode_label_map display) display

abbrev pub status_color : BackupStatus → String
status_color Backup.running = "processing"
status_color Backup.success = "success"
status_color Backup.failed = "error"
status_color Backup.pending = "warning"
status_color Backup.cancelled = "default"

abbrev pub status_label : BackupStatus → String
status_label Backup.running = "运行中"
status_label Backup.success = "成功"
status_label Backup.failed = "失败"
status_label Backup.pending = "等待中"
status_label Backup.cancelled = "已取消"

-- What the cell of a backup's status shows: a tag, and a bar where the task is running.
pub record Cell : Type 0 where
  pub color : String
  pub label : String
  pub percent : Option ℕ
  pub message : Option String
  pub error_text : Option String

-- `Math.min(100, Math.max(0, p))`
abbrev pub clamp : ℕ → ℕ
clamp p = if gtb p 100 then 100 else p

abbrev running_cell : String → String → TaskProgressPayload → Cell
running_cell color label live = record {
  color = color;
  label = label;
  percent = some (clamp live.progress);
  message = live.message;
  error_text = live.error;
}

abbrev final_cell : String → String → TaskProgressPayload → Cell
final_cell color label live = record {
  color = color;
  label = label;
  percent = none;
  message = live.message;
  error_text = live.error;
}

abbrev pub live_cell : TaskProgressPayload → Stage → Cell
live_cell live Stage.pending = running_cell "warning" "等待中" live
live_cell live Stage.exporting = running_cell "processing" "导出中" live
live_cell live Stage.uploading = running_cell "purple" "上传中" live
live_cell live Stage.restoring = running_cell "orange" "恢复中" live
live_cell live Stage.completed = final_cell "success" "已完成" live
live_cell live Stage.failed = final_cell "error" "失败" live

unfoldable pub status_cell : Backup → Option TaskProgressPayload → Cell
status_cell r none = record {
  color = status_color r.status;
  label = status_label r.status;
  percent = none;
  message = none;
  error_text = none;
}
status_cell r (some live) = live_cell live live.stage

-- The buttons of a row that cannot be used.
abbrev pub is_batch : Backup → Bool
is_batch r = r.backup_type == "namespace_batch" || r.backup_type == "restore"

abbrev is_success : BackupStatus → Bool
is_success Backup.success = true
is_success _ = false

unfoldable pub restore_disabled : Perms → Backup → Bool
restore_disabled perms r = not (is_success r.status) || (is_batch r || not perms.can_restore)

unfoldable pub download_disabled : Perms → Backup → Bool
download_disabled perms r = not (is_success r.status) || (is_batch r || not perms.can_download)

module _ (encode : String → String) where
  abbrev param : String → Option String → String
  param name o = if opt_truthy o then String.◌++◌ name (encode (or_text o "")) else ""

  -- Where the button for the versions of a backup's object leads.
  unfoldable pub versions_url : Backup → String
  versions_url r = String.◌++◌ "/resources/list?cluster_code=" (
      String.◌++◌ (encode r.cluster_code)
        (String.◌++◌ (param "&kind=" r.target_kind) (param "&namespace=" r.namespace)))

unfoldable pub delete_item : Perms → Backup → Bool → List (Act Mutation)
delete_item perms r ok =
    if perms.can_delete
    then send (Backup.delete_backup r.id) ∷ if_ok ok (success "删除成功" ∷ reload ∷ [])
    else []

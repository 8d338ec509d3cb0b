-- ===== src/Pages/Widgets.antt =====
-- frontend/src/components/ws: the viewer of a pod's log, the list of the events of a cluster, and the
-- panel of the progress of backups.
use Prim.Native.String
use Prim.Native.Nat.{◌/◌}
use mathlib.Core.List.{reverse}
use k8s_platform.Common.{
  ℕ, ◌-◌, ◌≤◌, String, Bool, true, false, not, ◌&&◌, ◌||◌, Option, none, some, List, [], ◌∷◌,
  length, drop, leb, if◌then◌else◌, ◌≡◌, arith, length-drop, Bool-cases, inl, inr, refl, get_last,
}
use k8s_platform.Text.{truthy, opt_truthy, or_text}
use k8s_platform.Slices.Ws.{Stage, Status, TaskProgressPayload, ClusterEventPayload}
use k8s_platform.Pages.{Act, warning, send}

pub record ViewerProps : Type 0 where
  pub cluster_code : String
  pub namespace : String
  pub pod_name : String
  pub container_name : Option String
  pub auto_trigger : Bool
  pub follow : Bool
  pub tail_lines : ℕ

-- A value of a parameter.
pub data Value : Type 0 where
  number : ℕ → Value
  text : String → Value

pub record Trigger : Type 0 where
  pub url : String
  pub params : List (String × Value)

abbrev container_param : Option String → List (String × Value)
container_param o = if opt_truthy o then ("container", text (or_text o "")) ∷ [] else []

-- The request that starts the stream, if the pod is known; `encode` is `encodeURIComponent`.
module _ (encode : String → String) where
  unfoldable pub trigger_stream : ViewerProps → Option Trigger
  trigger_stream p =
      if not (truthy p.cluster_code) || (not (truthy p.namespace) || not (truthy p.pod_name))
      then none
      else some (record {
        url = String.◌++◌ "/clusters/" (
            String.◌++◌ (encode p.cluster_code) (
              String.◌++◌ "/pods/" (
                String.◌++◌ (encode p.namespace)
                  (String.◌++◌ "/" (String.◌++◌ (encode p.pod_name) "/logs")))));
        params =
            ("follow", number (if p.follow then 1 else 0))
            ∷ ("tail", number p.tail_lines)
            ∷ container_param p.container_name;
      })

-- What the viewer shows where the request fails; `none` is an error without a message.
abbrev pub trigger_error : Option String → String
trigger_error m = or_text m "触发日志流失败"

abbrev is_open : Status → Bool
is_open Status.opened = true
is_open _ = false

-- Whether the effect starts the timer of the stream.
unfoldable pub starts_timer : ViewerProps → Status → Bool
starts_timer p status = p.auto_trigger && is_open status

abbrev pub ws_tag : Status → Option String
ws_tag Status.opened = none
ws_tag Status.connecting = some "WebSocket 连接中"
ws_tag Status.reconnecting = some "WebSocket 连接中"
ws_tag _ = some "WebSocket 未连接"

-- A file of logs is `none` where there is nothing to download; `now` is the time as a text.
unfoldable pub handle_download : ViewerProps → (now log : String) → List (Act (String × String))
handle_download p now log =
    if truthy log
    then send (
      String.◌++◌ p.pod_name (
          String.◌++◌ "-" (
            String.◌++◌ p.namespace (
              String.◌++◌ "-"
                (String.◌++◌ p.cluster_code (String.◌++◌ "-" (String.◌++◌ now ".log")))))),
      log,
    )
      ∷ []
    else warning "暂无日志可下载" ∷ []

-- The lines that fit a viewer of that height: 18 for a line, below a bar of 40.
abbrev pub max_visible_lines : ℕ → ℕ
max_visible_lines height = (height - 40) / 18

unfoldable pub visible_lines {ℓ} : {A : Type ℓ} → ℕ → List A → List A
visible_lines n lines = if leb (length lines) n then lines else drop (length lines - n) lines

-- The viewer renders a suffix of the lines, and at most as many as fit.
pub visible_lines_lem {ℓ} :
    {A : Type ℓ} (n : ℕ) (lines : List A)
    → (length (visible_lines n lines) ≤ n)
      × (visible_lines n lines ≡ drop (length lines - length (visible_lines n lines)) lines)
unfolding visible_lines
visible_lines_lem n lines = elim (Bool-cases (leb (length lines) n)) [
  | inl fits ↦
      let none_left : length lines - length lines ≡ 0 = omega arith in
      rw fits (ground arith, rw none_left refl)
  | inr long ↦
      let shown : length (drop (length lines - n) lines) ≡ n =
        ground (arith, length-drop (length lines - n) lines) in
      rw (long, shown) (omega arith, refl)
]

-- The last `n` of a list; 0 limits nothing, as `slice(-0)` is the whole list.
abbrev last_of {ℓ} : {A : Type ℓ} → ℕ → List A → List A
last_of n xs = if leb n 0 then xs else drop (length xs - n) xs

unfoldable pub sorted_events : ℕ → List ClusterEventPayload → List ClusterEventPayload
sorted_events max_items listed = reverse (last_of max_items listed)

abbrev pub stage_color : Stage → String
stage_color Stage.pending = "#8c8c8c"
stage_color Stage.exporting = "#1677ff"
stage_color Stage.uploading = "#722ed1"
stage_color Stage.restoring = "#fa8c16"
stage_color Stage.completed = "#52c41a"
stage_color Stage.failed = "#ff4d4f"

abbrev pub stage_label : Stage → String
stage_label Stage.pending = "等待中"
stage_label Stage.exporting = "导出中"
stage_label Stage.uploading = "上传中"
stage_label Stage.restoring = "恢复中"
stage_label Stage.completed = "已完成"
stage_label Stage.failed = "失败"

abbrev pub progress_status : Stage → String
progress_status Stage.completed = "success"
progress_status Stage.failed = "exception"
progress_status _ = "active"

abbrev last_only : Option TaskProgressPayload → List TaskProgressPayload
last_only none = []
last_only (some p) = p ∷ []

-- `sort` sorts by the timestamps.
unfoldable pub sorted_progress :
    (List TaskProgressPayload → List TaskProgressPayload)
    → (compact : Bool) → List TaskProgressPayload
    → List TaskProgressPayload
sorted_progress sort compact listed =
    if compact then last_only (get_last (sort listed)) else reverse (sort listed)

-- ===== src/Streams.antt =====
-- frontend/src/hooks: what the hooks over the streams (useSubscribeTaskProgress, useBackupProgress,
-- useClusterEvents, usePodLogs, useSubscribePodLogs) make of the queues of the WebSocket slice. Their
-- subscriptions are those of Socket/Hub.
pub mod Grouping
pub mod Selection
pub mod Effects
mod Tests
use Prim.Native.String
use k8s_platform.Common.{
  ℕ, String, Bool, true, false, not, ◌&&◌, ◌||◌, ◌==◌, Option, none, some, List, [], ◌∷◌, ◌++◌,
  keep, any, get_last, coalesce, if◌then◌else◌, opt_eq, length, gtb, nat_eq,
}
use k8s_platform.Common.Dict.{get, put}
use k8s_platform.Text.{truthy, opt_truthy, or_text}
use k8s_platform.Slices.Ws
use k8s_platform.Slices.Ws.{
  TaskProgressPayload, ClusterEventPayload, PodLogLinePayload, WsState, Severity,
  build_pod_log_channel,
}

-- `String(o)`
abbrev pub text_of : Option String → String
text_of none = "undefined"
text_of (some s) = s

-- `a ?? b`
abbrev pub or_else : Option String → Option String → Option String
or_else none b = b
or_else (some a) b = some a

abbrev pub matches_backup : Option String → TaskProgressPayload → Bool
matches_backup none p = true
matches_backup (some id) p = text_of p.task_id == id || text_of p.backup_id == id

-- `useSubscribeTaskProgress`: all events, or those of one backup or task, and the latest of them. The
-- id is a text already.
unfoldable pub subscribe_task_progress :
    Option String → List TaskProgressPayload → List TaskProgressPayload × Option TaskProgressPayload
subscribe_task_progress none all = (all, get_last all)
subscribe_task_progress (some id) all =
    let matched = keep (matches_backup (some id)) all in (matched, get_last matched)

abbrev pub in_cluster : Option String → TaskProgressPayload → Bool
in_cluster cluster p =
    if opt_truthy cluster
    then not (opt_truthy p.cluster_code) || opt_eq p.cluster_code (or_text cluster "")
    else true

unfoldable pub filter_cluster : Option String → List TaskProgressPayload → List TaskProgressPayload
filter_cluster cluster all = if opt_truthy cluster then keep (in_cluster cluster) all else all

abbrev pub task_key : TaskProgressPayload → String
task_key p = text_of (or_else p.task_id p.backup_id)

-- The loop that fills the map; an event without a key is passed over.
unfoldable pub fill :
    List (String × TaskProgressPayload)
    → List TaskProgressPayload
    → List (String × TaskProgressPayload)
fill m [] = m
fill m (p ∷ ps) = let next = if truthy (task_key p) then put m (task_key p) p else m in fill next ps

unfoldable pub by_task_id : List TaskProgressPayload → List (String × TaskProgressPayload)
by_task_id filtered = fill [] filtered

pub data Mode : Type 0 where
  per_stage latest_per_task : Mode

-- `useBackupProgress`: the list and the map. `values` is `Object.values` and `sort` the sort by
-- timestamp.
module _ (values : List (String × TaskProgressPayload) → List TaskProgressPayload)
    (sort : List TaskProgressPayload → List TaskProgressPayload) where
  unfoldable pub backup_progress :
      Option String
      → Option String
      → Mode
      → List TaskProgressPayload
      → List TaskProgressPayload × List (String × TaskProgressPayload)
  backup_progress cluster backup mode queue =
      let filtered = filter_cluster cluster (subscribe_task_progress backup queue).0 in
      let map = by_task_id filtered in
      (elim mode [ per_stage ↦ sort filtered | latest_per_task ↦ sort (values map) ], map)

-- A filter that is missing or empty lets everything through.
abbrev pub passes : Option String → Option String → Bool
passes wanted found = if opt_truthy wanted then opt_eq found (or_text wanted "") else true

abbrev pub is_warning : Option Severity → Bool
is_warning (some Severity.warning) = true
is_warning _ = false

abbrev pub is_error : Option Severity → Bool
is_error (some Severity.error) = true
is_error _ = false

pub record ClusterEvents : Type 0 where
  pub listed : List ClusterEventPayload
  pub latest : Option ClusterEventPayload
  pub warnings : List ClusterEventPayload
  pub errors : List ClusterEventPayload

-- `useClusterEvents`
unfoldable pub cluster_events :
    Option String → Option String → Option String → List ClusterEventPayload → ClusterEvents
cluster_events cluster namespace kind all =
    let filtered =
      keep
        (λ e.
          passes cluster (some e.cluster_code)
          && (passes namespace e.namespace && passes kind (some e.kind)))
        all in
    record {
      listed = filtered;
      latest = get_last filtered;
      warnings = keep (λ e. is_warning e.severity) filtered;
      errors = keep (λ e. is_error e.severity) filtered;
    }

abbrev pub join_lines : List PodLogLinePayload → String
join_lines [] = ""
join_lines (l ∷ []) = l.line
join_lines (l ∷ k ∷ ls) = String.◌++◌ l.line (String.◌++◌ "\n" (join_lines (k ∷ ls)))

abbrev pub line_eof : PodLogLinePayload → Bool
line_eof l = coalesce l.eof false

abbrev pub last_eof : Option PodLogLinePayload → Bool
last_eof none = false
last_eof (some l) = line_eof l

pub record PodLogs : Type 0 where
  pub channel : String
  pub lines : List PodLogLinePayload
  pub text : String
  pub eof : Bool
  pub is_empty : Bool

-- `usePodLogs`: `selectPodLogs` is the bucket of the channel, or nothing.
unfoldable pub pod_logs : String → String → String → WsState → PodLogs
pod_logs cluster namespace pod s =
    let channel = build_pod_log_channel cluster namespace pod in
    let lines = coalesce (get s.pod_logs channel) [] in
    record {
      channel = channel;
      lines = lines;
      text = join_lines lines;
      eof = gtb (length lines) 0 && last_eof (get_last lines);
      is_empty = nat_eq (length lines) 0;
    }

pub record SubscribedLogs : Type 0 where
  pub channel : String
  pub lines : List PodLogLinePayload
  pub last_line : Option PodLogLinePayload
  pub has_eof : Bool

-- `useSubscribePodLogs`
unfoldable pub subscribe_pod_logs : String → String → String → WsState → SubscribedLogs
subscribe_pod_logs cluster namespace pod s =
    let channel = build_pod_log_channel cluster namespace pod in
    let lines = coalesce (get s.pod_logs channel) [] in
    record {
      channel = channel;
      lines = lines;
      last_line = get_last lines;
      has_eof = any line_eof lines;
    }

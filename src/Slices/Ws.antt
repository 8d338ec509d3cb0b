-- ===== src/Slices/Ws.antt =====
-- frontend/src/slices/wsSlice.ts: the state behind the WebSocket, and its reducers.
-- A payload is parsed JSON, cast without a check. `new Date().toISOString()` is the argument `now`.
pub mod Reducer
pub mod Rings
pub mod Validity
pub mod Channels
pub mod Routing
pub mod Lifecycle
mod Tests
use k8s_platform.Common.{
  ℕ, ◌+◌, ◌-◌, String, Bool, true, false, not, Option, none, some, List, [], ◌∷◌, ◌++◌, ◌==◌, gtb,
  if◌then◌else◌, coalesce, length, drop, keep, contains, ◌&&◌,
}
use k8s_platform.Common.Dict.{get, put, del}
use k8s_platform.Text.{truthy, opt_truthy, or_text, starts_with, includes}
use Prim.Native.String

pub data Status : Type 0 where
  idle connecting opened closing closed reconnecting error : Status

pub data Stage : Type 0 where
  pending exporting uploading completed failed restoring : Stage

pub record TaskProgressPayload : Type 0 where
  pub task_id : Option String
  pub backup_id : Option String
  pub cluster_code : Option String
  pub namespace : Option String
  pub kind : Option String
  pub name : Option String
  pub stage : Stage
  pub progress : ℕ
  pub message : Option String
  pub error : Option String
  pub timestamp : Option String

pub data EventType : Type 0 where
  added modified deleted error : EventType

pub data Severity : Type 0 where
  normal warning error : Severity

pub record ClusterEventPayload : Type 0 where
  pub cluster_code : String
  pub kind : String
  pub namespace : Option String
  pub name : String
  pub event_type : EventType
  pub reason : Option String
  pub message : Option String
  pub severity : Option Severity
  pub timestamp : Option String

pub record PodLogLinePayload : Type 0 where
  pub cluster_code : String
  pub namespace : String
  pub pod_name : String
  pub container_name : Option String
  pub line : String
  pub follow : Option Bool
  pub eof : Option Bool

-- The cases of `msg.type`, each with `msg.data` as it is cast there. An error's data is its
-- optional object with an optional message.
pub data Body : Type 0 where
  pong unknown : Body
  error : Option (Option String) → Body
  task_progress : Option TaskProgressPayload → Body
  cluster_event : Option ClusterEventPayload → Body
  pod_logs : Option PodLogLinePayload → Body

pub record WsMessage : Type 0 where
  pub channel : Option String
  pub body : Body

pub record WsState : Type 0 where
  pub status : Status
  pub last_error : Option String
  pub last_connected_at : Option String
  pub reconnect_count : ℕ
  pub subscriptions : List String
  pub task_progress : List TaskProgressPayload
  pub cluster_events : List ClusterEventPayload
  pub pod_logs : List (String × List PodLogLinePayload)
  pub last_pong_at : Option String

abbrev pub max_task_progress : ℕ
max_task_progress = 200

abbrev pub max_cluster_events : ℕ
max_cluster_events = 200

abbrev pub max_pod_log_lines : ℕ
max_pod_log_lines = 1000

abbrev pub initial_state : WsState
initial_state = record {
  status = idle;
  last_error = none;
  last_connected_at = none;
  reconnect_count = 0;
  subscriptions = [];
  task_progress = [];
  cluster_events = [];
  pod_logs = [];
  last_pong_at = none;
}

-- `splice(0, length - max)` drops the oldest.
unfoldable pub ring_push {ℓ} : {T : Type ℓ} → List T → T → ℕ → List T
ring_push arr item max =
    let pushed = arr ++ item ∷ [] in
    if gtb (length pushed) max then drop (length pushed - max) pushed else pushed

unfoldable pub build_pod_log_channel : String → String → String → String
build_pod_log_channel cluster_code namespace pod_name =
    String.◌++◌ "pod_logs:" (
      String.◌++◌ cluster_code (String.◌++◌ ":" (String.◌++◌ namespace (String.◌++◌ ":" pod_name))))

pub is_open : Status → Bool
is_open opened = true
is_open _ = false

pub set_status : String → WsState → Status → WsState
unfolding is_open
set_status now state status =
    if is_open status
    then record state { status = status; last_connected_at = some now; last_error = none }
    else record state { status = status }

pub set_last_error : WsState → Option String → WsState
set_last_error state payload =
    if opt_truthy payload
    then record state { last_error = payload; status = error }
    else record state { last_error = payload }

pub set_reconnecting : WsState → WsState
set_reconnecting state = record state {
  status = reconnecting;
  reconnect_count = state.reconnect_count + 1;
}

pub bump_reconnect : WsState → WsState
bump_reconnect state = record state { reconnect_count = state.reconnect_count + 1 }

unfoldable pub add_subscription : WsState → String → WsState
add_subscription state ch =
    if truthy ch && not (contains state.subscriptions ch)
    then record state { subscriptions = state.subscriptions ++ ch ∷ [] }
    else state

unfoldable pub remove_subscription : WsState → String → WsState
remove_subscription state ch =
    let kept = record state { subscriptions = keep (λ c. not (c == ch)) state.subscriptions } in
    if starts_with ch "pod_logs:" then record kept { pod_logs = del state.pod_logs ch } else kept

pub clear_subscriptions : WsState → WsState
clear_subscriptions state = record state { subscriptions = []; pod_logs = [] }

-- The bucket of a log line: the message's channel if it names a pod, else built from the payload.
unfoldable pub log_channel : Option String → PodLogLinePayload → String
log_channel none p = build_pod_log_channel p.cluster_code p.namespace p.pod_name
log_channel (some ch) p =
    if truthy ch && includes ch ":"
    then ch
    else build_pod_log_channel p.cluster_code p.namespace p.pod_name

unfoldable pub push_log : WsState → String → PodLogLinePayload → WsState
push_log state channel p =
    if truthy channel
    then record state {
      pod_logs =
          put state.pod_logs channel
            (ring_push (coalesce (get state.pod_logs channel) []) p max_pod_log_lines);
    }
    else state

error_message : Option (Option String) → String
error_message none = "WebSocket 频道订阅失败"
error_message (some message) = or_text message "WebSocket 频道订阅失败"

unfoldable pub on_message : String → WsState → WsMessage → WsState
unfolding error_message
on_message now state msg = elim msg.body [
  | pong ↦ record state { last_pong_at = some now }
  | unknown ↦ state
  | error payload ↦ record state { last_error = some (error_message payload) }
  | task_progress none ↦ state
  | task_progress (some p) ↦ record state {
    task_progress = ring_push state.task_progress p max_task_progress;
  }
  | cluster_event none ↦ state
  | cluster_event (some p) ↦ record state {
    cluster_events = ring_push state.cluster_events p max_cluster_events;
  }
  | pod_logs none ↦ state
  | pod_logs (some p) ↦ push_log state (log_channel msg.channel p) p
]

pub clear_task_progress : WsState → WsState
clear_task_progress state = record state { task_progress = [] }

pub clear_cluster_events : WsState → WsState
clear_cluster_events state = record state { cluster_events = [] }

pub clear_pod_logs : WsState → Option String → WsState
clear_pod_logs state none = record state { pod_logs = [] }
clear_pod_logs state (some ch) =
    if truthy ch
    then record state { pod_logs = del state.pod_logs ch }
    else record state { pod_logs = [] }

-- `lastConnectedAt` is not among the fields that the source resets.
pub reset_ws : WsState → WsState
reset_ws state = record state {
  status = idle;
  last_error = none;
  reconnect_count = 0;
  subscriptions = [];
  task_progress = [];
  cluster_events = [];
  pod_logs = [];
  last_pong_at = none;
}

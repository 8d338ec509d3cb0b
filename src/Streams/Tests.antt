-- ===== src/Streams/Tests.antt =====
-- The hooks over small queues, and each theorem at a concrete input.
use k8s_platform.Common.{
  ℕ, ◌+◌, ◌≤◌, String, ◌≡◌, refl, true, false, not, ◌&&◌, ◌==◌, none, some, List, [], ◌∷◌, keep,
  map, get_last, length,
}
use k8s_platform.Common.Dict.{get, put}
use k8s_platform.Slices.Ws
use k8s_platform.Slices.Ws.{
  TaskProgressPayload, ClusterEventPayload, PodLogLinePayload, WsState, initial_state,
  build_pod_log_channel,
}
use k8s_platform.Text.{free}
use k8s_platform.Streams
use k8s_platform.Streams.{
  Mode, task_key, backup_progress, by_task_id, fill, filter_cluster, subscribe_task_progress,
  cluster_events, pod_logs, subscribe_pod_logs,
}
use k8s_platform.Streams.Grouping.{relevant, backup_progress-latest}
use k8s_platform.Socket.Hub.{Hub}
use k8s_platform.Socket.Counting.{count}
use k8s_platform.Streams.Effects
use k8s_platform.Streams.Effects.{mount, unmount, unmount-mount}
use k8s_platform.Streams.Selection.{cluster_events-split, pod_logs-on_message}

abbrev progress_of : String → ℕ → TaskProgressPayload
progress_of id percent = record {
  task_id = some id;
  backup_id = none;
  cluster_code = some "c1";
  namespace = none;
  kind = none;
  name = none;
  stage = Ws.exporting;
  progress = percent;
  message = none;
  error = none;
  timestamp = none;
}

abbrev queue : List TaskProgressPayload
queue = progress_of "1" 10 ∷ progress_of "2" 50 ∷ progress_of "1" 90 ∷ []

abbrev values : List (String × TaskProgressPayload) → List TaskProgressPayload
values m = map (λ e. e.1) m

abbrev as_is : List TaskProgressPayload → List TaskProgressPayload
as_is ps = ps

latest_of_each :
    (backup_progress values as_is (some "c1") none Streams.latest_per_task queue).0
    ≡ progress_of "1" 90 ∷ progress_of "2" 50 ∷ []
unfolding backup_progress by_task_id fill filter_cluster subscribe_task_progress put
latest_of_each = refl

backup_progress-latest_example :
    get (backup_progress values as_is (some "c1") none Streams.latest_per_task queue).1 "1"
    ≡ get_last (keep (λ p. relevant (some "c1") none p && task_key p == "1") queue)
backup_progress-latest_example =
    backup_progress-latest values as_is (some "c1") none Streams.latest_per_task queue "1" refl

abbrev event_of : Ws.Severity → ClusterEventPayload
event_of severity = record {
  cluster_code = "c1";
  kind = "Pod";
  namespace = some "dev";
  name = "web";
  event_type = Ws.modified;
  reason = none;
  message = none;
  severity = some severity;
  timestamp = none;
}

abbrev events : List ClusterEventPayload
events =
    event_of Ws.Severity.warning ∷ event_of Ws.Severity.error ∷ event_of Ws.Severity.normal ∷ []

listed_events :
    let r = cluster_events (some "c1") none none events in
    (length r.warnings + length r.errors ≤ length r.listed) × (length r.listed ≤ length events)
listed_events = cluster_events-split (some "c1") none none events

abbrev ended : WsState
ended = record initial_state {
  pod_logs =
      (
        "pod_logs:c1:dev:web",
        record {
          cluster_code = "c1";
          namespace = "dev";
          pod_name = "web";
          container_name = none;
          line = "bye";
          follow = none;
          eof = some true;
        }
            ∷ [],
      )
      ∷ [];
}

eof_seen : (pod_logs "c1" "dev" "web" ended).eof ≡ true
unfolding pod_logs get build_pod_log_channel
eof_seen = refl

abbrev going_on : PodLogLinePayload
going_on = record {
  cluster_code = "c1";
  namespace = "dev";
  pod_name = "web";
  container_name = none;
  line = "hello";
  follow = none;
  eof = none;
}

-- A line that follows an end mark: the log goes on.
abbrev resumed : WsState
resumed =
    Ws.on_message "t" ended
      (record { channel = some "pod_logs:c1:dev:web"; body = Ws.pod_logs (some going_on) })

pod_logs-on_message_example :
    (get_last (pod_logs "c1" "dev" "web" resumed).lines ≡ some going_on)
    × ((pod_logs "c1" "dev" "web" resumed).is_empty ≡ false)
    × ((pod_logs "c1" "dev" "web" resumed).eof ≡ false)
    × ((subscribe_pod_logs "c1" "dev" "web" resumed).last_line ≡ some going_on)
    × ((false && not (subscribe_pod_logs "c1" "dev" "web" resumed).has_eof) ≡ false)
unfolding build_pod_log_channel free
pod_logs-on_message_example =
    pod_logs-on_message "t" ended (some "pod_logs:c1:dev:web") going_on refl

abbrev down : Hub
down = record {
  instance_ = none;
  retired = [];
  env = record {
    ready = false;
    refs = ("cluster_event", 2) ∷ [];
    redux = initial_state;
    sent = [];
  };
}

unmount-mount_example :
    count
      (unmount
        (Effects.use_cluster_events true true)
        (mount (Effects.use_cluster_events true true) down))
      "cluster_event"
    ≡ count down "cluster_event"
unmount-mount_example =
    unmount-mount (Effects.use_cluster_events true true) down "cluster_event" refl

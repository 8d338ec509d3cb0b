-- ===== src/Slices/Ws/Tests.antt =====
-- Runs of the slice on small inputs, and each theorem at a concrete input.
use k8s_platform.Common.{
  String, ◌≡◌, refl, true, not, ◌&&◌, ◌||◌, ◌==◌, some, none, List, [], ◌∷◌, ◌++◌, arith, contains,
  if◌then◌else◌,
}
use k8s_platform.Common.Dict.{get, put, del}
use k8s_platform.Text.{truthy, starts_with, includes}
use k8s_platform.Slices.Ws
use k8s_platform.Slices.Ws.{
  WsState, TaskProgressPayload, PodLogLinePayload, Stage, pod_logs, task_progress, initial_state,
  log_channel, ring_push, build_pod_log_channel,
}
use k8s_platform.Slices.Ws.Reducer
use k8s_platform.Slices.Ws.Reducer.{Action, run}
use k8s_platform.Slices.Ws.Rings.{newest, progress_log, run-task_progress}
use k8s_platform.Slices.Ws.Validity.{IsValid, run-initial_state-IsValid}
use k8s_platform.Slices.Ws.Channels.{build_pod_log_channel-injective}
use k8s_platform.Slices.Ws.Routing.{
  bucket_of, on_message-routes, remove_subscription_lem, add_subscription_lem,
}

abbrev exporting : TaskProgressPayload
exporting = record {
  task_id = some "t1";
  backup_id = none;
  cluster_code = some "c1";
  namespace = none;
  kind = none;
  name = none;
  stage = Stage.exporting;
  progress = 40;
  message = none;
  error = none;
  timestamp = some "2024-01-01T00:00:00Z";
}

abbrev log_line : PodLogLinePayload
log_line = record {
  cluster_code = "c1";
  namespace = "default";
  pod_name = "nginx";
  container_name = none;
  line = "GET /";
  follow = some true;
  eof = none;
}

abbrev session : List (String × Action)
session =
    ("t0", Reducer.add_subscription "task_progress")
    ∷ ("t1", Reducer.add_subscription "pod_logs:c1:default:nginx")
    ∷ ("t2", Reducer.on_message (record { channel = none; body = task_progress (some exporting) }))
    ∷ (
      "t3",
      Reducer.on_message (record { channel = some "pod_logs"; body = pod_logs (some log_line) }),
    )
    ∷ ("t4", Reducer.remove_subscription "task_progress")
    ∷ []

slice : Unit {0}
unfolding run Reducer.reducer Ws.add_subscription Ws.remove_subscription Ws.on_message Ws.push_log
    log_channel ring_push build_pod_log_channel get put del starts_with includes
slice = tt

session_state :
    ((run initial_state session).subscriptions ≡ "pod_logs:c1:default:nginx" ∷ [])
    × ((run initial_state session).task_progress ≡ exporting ∷ [])
    × (get (run initial_state session).pod_logs "pod_logs:c1:default:nginx" ≡ some (log_line ∷ []))
unfolding slice
session_state = (refl, refl, refl)

run-initial_state-IsValid_example : IsValid (run initial_state session)
run-initial_state-IsValid_example = run-initial_state-IsValid session

run-task_progress_example :
    (run initial_state session).task_progress ≡ newest 200 (progress_log [] session)
run-task_progress_example = run-task_progress initial_state session (omega arith)

on_message-routes_example :
    get
      (Ws.on_message "t" initial_state
        (record { channel = some "pod_logs"; body = pod_logs (some log_line) })).pod_logs
      "pod_logs:c1:default:nginx"
    ≡ (if bucket_of (some "pod_logs") log_line == "pod_logs:c1:default:nginx"
        then some (newest 1000 ([] ++ log_line ∷ []))
        else none)
unfolding get
on_message-routes_example =
    on_message-routes "t" initial_state (some "pod_logs") log_line "pod_logs:c1:default:nginx"

other_kept :
    (contains (Ws.remove_subscription (run initial_state session) "a").subscriptions "b"
      ≡ (not ("b" == "a") && contains (run initial_state session).subscriptions "b"))
    × (get (Ws.remove_subscription (run initial_state session) "a").pod_logs "b" ≡ (
        if starts_with "a" "pod_logs:" && "a" == "b"
        then none
        else get (run initial_state session).pod_logs "b"))
other_kept = remove_subscription_lem (run initial_state session) "a" "b"

twice_subscribed :
    contains (Ws.add_subscription initial_state "a").subscriptions "a"
    ≡ (contains [] "a" || (truthy "a" && "a" == "a"))
twice_subscribed = add_subscription_lem initial_state "a" "a"

build_pod_log_channel-injective_example :
    (◌≡◌ {A = String} "c1" "c1") × (◌≡◌ {A = String} "ns" "ns") × (◌≡◌ {A = String} "a:b" "a:b")
build_pod_log_channel-injective_example =
    build_pod_log_channel-injective "c1" "c1" "ns" "ns" "a:b" "a:b" refl refl refl refl refl

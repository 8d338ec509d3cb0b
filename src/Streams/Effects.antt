-- ===== src/Streams/Effects.antt =====
-- frontend/src/hooks: the effects of the hooks over the streams, when a component with the hook is
-- mounted and when it is unmounted (or its arguments change).
use k8s_platform.Common.{
  String, ◌≡◌, refl, ◌∙◌, Bool, true, false, ◌&&◌, some, [], ◌∷◌, arith, if◌then◌else◌,
}
use k8s_platform.Text.{truthy}
use k8s_platform.Slices.Ws
use k8s_platform.Slices.Ws.{WsState, build_pod_log_channel}
use k8s_platform.Socket.{with_redux}
use k8s_platform.Socket.Hub.{Hub, subscribe_channel, unsubscribe_channel}
use k8s_platform.Socket.Counting
use k8s_platform.Socket.Counting.{count, calls, tally, count-calls}

-- A hook with the options that its effects read.
pub data Hook : Type 0 where
  use_task_progress : Hook
  use_backup_progress : (clear_on_mount : Bool) → Hook
  use_cluster_events : (enabled clear_on_mount : Bool) → Hook
  use_pod_logs : (enabled clear_on_mount : Bool) → (cluster_code namespace pod_name : String) → Hook
  use_subscribe_pod_logs :
      (clear_before_subscribe : Bool) → (cluster_code namespace pod_name : String) → Hook

-- `dispatch` of an action of the WebSocket slice, where `wanted`.
abbrev pub clearing : Bool → (WsState → WsState) → Hub → Hub
clearing wanted f h = if wanted then record h { env = with_redux h.env (f h.env.redux) } else h

abbrev pub named : String → String → String → Bool
named cluster namespace pod = truthy cluster && (truthy namespace && truthy pod)

unfoldable pub mount : Hook → Hub → Hub
mount use_task_progress h = subscribe_channel h "task_progress"
mount (use_backup_progress clear) h =
    clearing clear Ws.clear_task_progress (subscribe_channel h "task_progress")
mount (use_cluster_events enabled clear) h =
    if enabled
    then subscribe_channel (clearing clear Ws.clear_cluster_events h) "cluster_event"
    else h
mount (use_pod_logs enabled clear cluster namespace pod) h =
    let channel = build_pod_log_channel cluster namespace pod in
    if enabled && named cluster namespace pod
    then subscribe_channel (clearing clear (λ s. Ws.clear_pod_logs s (some channel)) h) channel
    else h
mount (use_subscribe_pod_logs clear cluster namespace pod) h =
    let channel = build_pod_log_channel cluster namespace pod in
    if truthy channel
    then subscribe_channel (clearing clear (λ s. Ws.clear_pod_logs s (some channel)) h) channel
    else h

-- The cleanup of the effect, if it had one.
unfoldable pub unmount : Hook → Hub → Hub
unmount use_task_progress h = unsubscribe_channel h "task_progress"
unmount (use_backup_progress clear) h = unsubscribe_channel h "task_progress"
unmount (use_cluster_events enabled clear) h =
    if enabled then unsubscribe_channel h "cluster_event" else h
unmount (use_pod_logs enabled clear cluster namespace pod) h =
    let channel = build_pod_log_channel cluster namespace pod in
    if enabled && named cluster namespace pod then unsubscribe_channel h channel else h
unmount (use_subscribe_pod_logs clear cluster namespace pod) h =
    let channel = build_pod_log_channel cluster namespace pod in
    if truthy channel then unsubscribe_channel h channel else h

count-clearing :
    (wanted : Bool) (f : WsState → WsState) (h : Hub) (ch : String)
    → count (clearing wanted f h) ch ≡ count h ch
count-clearing true f h ch = refl
count-clearing false f h ch = refl

-- A subscription and its end leave every count as it was, also with a clearing in between.
balanced :
    (wanted : Bool) (f : WsState → WsState) (h : Hub) (a ch : String)
    → truthy ch ≡ true
    → count (unsubscribe_channel (clearing wanted f (subscribe_channel h a)) a) ch ≡ count h ch
balanced wanted f h a ch t =
    let joined = subscribe_channel h a in
    ground (
      arith,
      count-calls h (Counting.subscribes a ∷ []) ch t,
      count-calls (clearing wanted f joined) (Counting.unsubscribes a ∷ []) ch t,
      count-clearing wanted f joined ch,
    )

balanced_after :
    (wanted : Bool) (f : WsState → WsState) (h : Hub) (a ch : String)
    → truthy ch ≡ true
    → count (unsubscribe_channel (subscribe_channel (clearing wanted f h) a) a) ch ≡ count h ch
balanced_after wanted f h a ch t =
    balanced false f (clearing wanted f h) a ch t ∙ count-clearing wanted f h ch

-- The same, where the effect and its cleanup stand under one test.
balanced_if :
    (test wanted : Bool) (f : WsState → WsState) (h : Hub) (a ch : String)
    → truthy ch ≡ true
    → let mounted = if test then subscribe_channel (clearing wanted f h) a else h in
      count (if test then unsubscribe_channel mounted a else mounted) ch ≡ count h ch
balanced_if true wanted f h a ch t = balanced_after wanted f h a ch t
balanced_if false wanted f h a ch t = refl

-- A component that is mounted with any of the hooks and unmounted again leaves the number of
-- subscribers of every channel but the empty one as it was.
pub unmount-mount :
    (hook : Hook) (h : Hub) (ch : String)
    → truthy ch ≡ true
    → count (unmount hook (mount hook h)) ch ≡ count h ch
unfolding mount unmount
unmount-mount use_task_progress h ch t =
    balanced false Ws.clear_task_progress h "task_progress" ch t
unmount-mount (use_backup_progress clear) h ch t =
    balanced clear Ws.clear_task_progress h "task_progress" ch t
unmount-mount (use_cluster_events enabled clear) h ch t =
    balanced_if enabled clear Ws.clear_cluster_events h "cluster_event" ch t
unmount-mount (use_pod_logs enabled clear cluster namespace pod) h ch t =
    let channel = build_pod_log_channel cluster namespace pod in
    balanced_if (enabled && named cluster namespace pod) clear
      (λ s. Ws.clear_pod_logs s (some channel)) h channel ch t
unmount-mount (use_subscribe_pod_logs clear cluster namespace pod) h ch t =
    let channel = build_pod_log_channel cluster namespace pod in
    balanced_if (truthy channel) clear (λ s. Ws.clear_pod_logs s (some channel)) h channel ch t

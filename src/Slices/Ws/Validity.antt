-- ===== src/Slices/Ws/Validity.antt =====
-- frontend/src/slices/wsSlice.ts: the bounds and the set of subscriptions.
use k8s_platform.Common.{
  ◌≤◌, String, ◌≡◌, true, some, none, List, [], ◌∷◌, not, ◌==◌, arith, coalesce, length, contains,
  keep, All, All-append, All-keep, Distinct, append-Distinct, keep-Distinct, Option, Bool,
  Bool-cases, inl, inr, ◌&&◌,
}
use k8s_platform.Common.Dict.{get, put-AllValues, del-AllValues, AllValues}
use k8s_platform.Text.{truthy, starts_with}
use k8s_platform.Slices.Ws
use k8s_platform.Slices.Ws.{WsState, WsMessage, Body, PodLogLinePayload, Status, initial_state}
use k8s_platform.Slices.Ws.Reducer.{Action, reducer, run}
use k8s_platform.Slices.Ws.Rings.{length-ring_push}

abbrev pub Fits : List PodLogLinePayload → Type 0
Fits lines = length lines ≤ 1000

-- The queues are within their limits; the subscriptions are a set of non-empty names.
pub record IsValid (s : WsState) : Type 0 where
  pub tasks : length s.task_progress ≤ 200
  pub events : length s.cluster_events ≤ 200
  pub buckets : AllValues Fits s.pod_logs
  pub distinct : Distinct s.subscriptions
  pub filled : All (λ c. truthy c ≡ true) s.subscriptions

-- What an action does to the queues and to the set of subscriptions, one field at a time.
module _ {s : WsState} (v : IsValid s) where
  with_subscriptions :
      {subs : List String}
      → Distinct subs
      → All (λ c. truthy c ≡ true) subs
      → IsValid (record s { subscriptions = subs })
  with_subscriptions d f = record {
    tasks = v.tasks;
    events = v.events;
    buckets = v.buckets;
    distinct = d;
    filled = f;
  }

  with_pod_logs :
      {logs : List (String × List PodLogLinePayload)}
      → AllValues Fits logs
      → IsValid (record s { pod_logs = logs })
  with_pod_logs b = record {
    tasks = v.tasks;
    events = v.events;
    buckets = b;
    distinct = v.distinct;
    filled = v.filled;
  }

add_subscription-IsValid :
    (s : WsState) (ch : String) → IsValid s → IsValid (Ws.add_subscription s ch)
unfolding Ws.add_subscription
add_subscription-IsValid s ch v = elim (Bool-cases (truthy ch && not (contains subscriptions ch))) [
  | inl fresh ↦
      rw (fresh, Ws.add_subscription)
        (with_subscriptions v (append-Distinct subscriptions ch (ground arith) v.distinct)
          (All-append (λ c. truthy c ≡ true) subscriptions (ch ∷ []) v.filled (ground arith, tt)))
  | inr old ↦ rw (old, Ws.add_subscription) v
]
  where
    open s use {subscriptions}

remove_subscription-IsValid :
    (s : WsState) (ch : String) → IsValid s → IsValid (Ws.remove_subscription s ch)
unfolding Ws.remove_subscription
remove_subscription-IsValid s ch v = elim (Bool-cases (starts_with ch "pod_logs:")) [
  | inl log ↦
      rw (log, Ws.remove_subscription)
        (with_pod_logs kept (del-AllValues Fits s.pod_logs ch v.buckets))
  | inr other ↦ rw (other, Ws.remove_subscription) kept
]
  where
    rest : String → Bool
    rest c = not (c == ch)

    kept : IsValid (record s { subscriptions = keep rest s.subscriptions })
    kept =
        with_subscriptions v (keep-Distinct rest s.subscriptions v.distinct)
          (All-keep (λ c. truthy c ≡ true) rest s.subscriptions v.filled)

push_log-IsValid :
    (s : WsState) (ch : String) (p : PodLogLinePayload) → IsValid s → IsValid (Ws.push_log s ch p)
unfolding Ws.push_log
push_log-IsValid s ch p v = elim (Bool-cases (truthy ch)) [
  | inl named ↦
      rw (named, Ws.push_log)
        (with_pod_logs v (
          put-AllValues Fits s.pod_logs ch _ v.buckets
            (length-ring_push (coalesce (get s.pod_logs ch) []) p 1000)))
  | inr empty ↦ rw (empty, Ws.push_log) v
]

clear_pod_logs-IsValid :
    (s : WsState) (o : Option String) → IsValid s → IsValid (Ws.clear_pod_logs s o)
unfolding Ws.clear_pod_logs
clear_pod_logs-IsValid s none v = with_pod_logs v tt
clear_pod_logs-IsValid s (some ch) v = elim (Bool-cases (truthy ch)) [
  | inl named ↦
      rw (named, Ws.clear_pod_logs) (with_pod_logs v (del-AllValues Fits s.pod_logs ch v.buckets))
  | inr empty ↦ rw (empty, Ws.clear_pod_logs) (with_pod_logs v tt)
]

on_message-IsValid :
    (now : String) (s : WsState) (ch : Option String) (b : Body)
    → IsValid s
    → IsValid (Ws.on_message now s (record { channel = ch; body = b }))
unfolding Ws.on_message
on_message-IsValid now s ch (Body.task_progress (some p)) v =
    ground (arith, length-ring_push s.task_progress p 200)
on_message-IsValid now s ch (Body.cluster_event (some p)) v =
    ground (arith, length-ring_push s.cluster_events p 200)
on_message-IsValid now s ch (Body.pod_logs (some p)) v = push_log-IsValid s _ p v
on_message-IsValid now s ch _ v = ground arith

reducer-IsValid : (now : String) (s : WsState) (a : Action) → IsValid s → IsValid (reducer now s a)
unfolding reducer Ws.set_status Ws.set_last_error Ws.set_reconnecting Ws.bump_reconnect
    Ws.clear_subscriptions Ws.clear_task_progress Ws.clear_cluster_events Ws.reset_ws
reducer-IsValid now s (Action.add_subscription ch) v = add_subscription-IsValid s ch v
reducer-IsValid now s (Action.remove_subscription ch) v = remove_subscription-IsValid s ch v
reducer-IsValid now s (Action.on_message msg) v = on_message-IsValid now s msg.channel msg.body v
reducer-IsValid now s (Action.clear_pod_logs o) v = clear_pod_logs-IsValid s o v
reducer-IsValid now s _ v = ground arith

run-IsValid : (s : WsState) (actions : List (String × Action)) → IsValid s → IsValid (run s actions)
unfolding run
run-IsValid s [] v = v
run-IsValid s ((now, a) ∷ rest) v = run-IsValid (reducer now s a) rest (reducer-IsValid now s a v)

-- From the initial state, every run of actions keeps the task and event queues within 200 entries
-- and each pod's log bucket within 1000, and the subscriptions a set of non-empty names.
pub run-initial_state-IsValid :
    (actions : List (String × Action)) → IsValid (run initial_state actions)
run-initial_state-IsValid actions = run-IsValid initial_state actions (omega arith)

-- ===== src/Slices/Ws/Lifecycle.antt =====
-- frontend/src/slices/wsSlice.ts: what the reducers that are not about channels leave alone.
use k8s_platform.Common.{String, ◌≡◌, Option, refl, [], arith, some}
use k8s_platform.Slices.Ws
use k8s_platform.Slices.Ws.{
  WsState, WsMessage, Body, Status, pod_logs, task_progress, cluster_event,
}

pub set_status-subscriptions :
    (now : String) (s : WsState) (status : Status)
    → (Ws.set_status now s status).subscriptions ≡ s.subscriptions
unfolding Ws.set_status
set_status-subscriptions now s status = ground arith

pub set_last_error-subscriptions :
    (s : WsState) (payload : Option String)
    → (Ws.set_last_error s payload).subscriptions ≡ s.subscriptions
unfolding Ws.set_last_error
set_last_error-subscriptions s payload = ground arith

pub set_reconnecting-subscriptions :
    (s : WsState) → (Ws.set_reconnecting s).subscriptions ≡ s.subscriptions
unfolding Ws.set_reconnecting
set_reconnecting-subscriptions s = ground arith

on_body-subscriptions :
    (now : String) (s : WsState) (o : Option String) (b : Body)
    → (Ws.on_message now s (record { channel = o; body = b })).subscriptions ≡ s.subscriptions
unfolding Ws.on_message Ws.push_log
on_body-subscriptions now s o (pod_logs (some p)) = ground arith
on_body-subscriptions now s o (task_progress (some p)) = ground arith
on_body-subscriptions now s o (cluster_event (some p)) = ground arith
on_body-subscriptions now s o _ = ground arith

pub on_message-subscriptions :
    (now : String) (s : WsState) (msg : WsMessage)
    → (Ws.on_message now s msg).subscriptions ≡ s.subscriptions
on_message-subscriptions now s msg = on_body-subscriptions now s msg.channel msg.body

pub reset_ws-subscriptions : (s : WsState) → (Ws.reset_ws s).subscriptions ≡ []
unfolding Ws.reset_ws
reset_ws-subscriptions s = refl

pub set_status-status :
    (now : String) (s : WsState) (status : Status) → (Ws.set_status now s status).status ≡ status
unfolding Ws.set_status
set_status-status now s status = ground arith

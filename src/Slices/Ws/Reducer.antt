-- ===== src/Slices/Ws/Reducer.antt =====
-- frontend/src/slices/wsSlice.ts: the actions, the reducer that takes one, and a run of actions.
use k8s_platform.Common.{String, Option, List, [], ◌∷◌}
use k8s_platform.Slices.Ws
use k8s_platform.Slices.Ws.{WsState, WsMessage, Status}

pub data Action : Type 0 where
  set_status : Status → Action
  set_last_error : Option String → Action
  set_reconnecting bump_reconnect clear_subscriptions : Action
  clear_task_progress clear_cluster_events reset_ws : Action
  add_subscription remove_subscription : String → Action
  on_message : WsMessage → Action
  clear_pod_logs : Option String → Action

unfoldable pub reducer : String → WsState → Action → WsState
reducer now state (set_status status) = Ws.set_status now state status
reducer now state (set_last_error payload) = Ws.set_last_error state payload
reducer now state set_reconnecting = Ws.set_reconnecting state
reducer now state bump_reconnect = Ws.bump_reconnect state
reducer now state clear_subscriptions = Ws.clear_subscriptions state
reducer now state clear_task_progress = Ws.clear_task_progress state
reducer now state clear_cluster_events = Ws.clear_cluster_events state
reducer now state reset_ws = Ws.reset_ws state
reducer now state (add_subscription ch) = Ws.add_subscription state ch
reducer now state (remove_subscription ch) = Ws.remove_subscription state ch
reducer now state (on_message msg) = Ws.on_message now state msg
reducer now state (clear_pod_logs payload) = Ws.clear_pod_logs state payload

-- Each action comes with the time at which it is dispatched.
unfoldable pub run : WsState → List (String × Action) → WsState
run state [] = state
run state ((now, action) ∷ rest) = run (reducer now state action) rest

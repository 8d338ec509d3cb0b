-- ===== src/Socket/Tests.antt =====
-- Runs of the client on small inputs, and each theorem at a concrete input.
use k8s_platform.Text.{split, includes, starts_with}
use k8s_platform.Access.Permission.{module_of}
use k8s_platform.Common.{◌≡◌, ◌&&◌, refl, true, false, none, some, List, [], ◌∷◌, ◌++◌, contains}
use k8s_platform.Common.Dict.{get, put, del}
use k8s_platform.Slices.Ws
use k8s_platform.Slices.Ws.{initial_state, Status}
use k8s_platform.Socket.{
  Client, subscribe, unsubscribe, close, send_raw, subscribe_to, unsubscribe_from, restore, resend,
  on_open, buffer, set_add, set_delete,
}
use k8s_platform.Socket.Hub.{
  Hub, new_client, connect_web_socket, subscribe_channel, unsubscribe_channel, lifecycle_effect,
  lifecycle_cleanup, late_close, on_instance, with_refs,
}
use k8s_platform.Socket.Counting.{Call, count, calls, tally, count-calls}
use k8s_platform.Socket.Counting
use k8s_platform.Socket.Frames.{subscriptions}
use k8s_platform.Socket.Server.{
  PermissionTree, namespace_scope, has_perm, has_namespace_scope, authorize_channel, read_frame,
  read_pump, server,
}
use k8s_platform.Socket.Restoring.{has}
use k8s_platform.Socket.Sync
use k8s_platform.Socket.Sync.{Event, step, steps}
use k8s_platform.Socket.Recovery.{steps-served, token_change-served}
use k8s_platform.Socket.Stale.{late_close-stale}

abbrev down : Hub
down = record {
  instance_ = none;
  retired = [];
  env = record { ready = false; refs = []; redux = initial_state; sent = [] };
}

abbrev history : List Event
history =
    Sync.subscribes "task_progress"
    ∷ Sync.opened "t1"
    ∷ Sync.subscribes "cluster_event"
    ∷ Sync.subscribes "task_progress"
    ∷ Sync.unsubscribes "cluster_event"
    ∷ []

abbrev joined : Hub
joined = connect_web_socket "t0" none "jwt" down

client : Unit {0}
unfolding steps step connect_web_socket new_client subscribe_channel unsubscribe_channel on_instance
    with_refs subscribe_to unsubscribe_from send_raw restore resend on_open buffer set_add
    set_delete get put del Ws.add_subscription Ws.remove_subscription
client = tt

frames :
    ((steps joined history).env.sent
      ≡ subscribe "task_progress"
        ∷ subscribe "task_progress"
        ∷ subscribe "cluster_event"
        ∷ unsubscribe "cluster_event"
        ∷ [])
    × ((steps joined history).env.refs ≡ ("task_progress", 2) ∷ [])
    × ((steps joined history).env.ready ≡ true)
unfolding client
frames = (refl, refl, refl)

count-calls_example :
    count (calls down (Counting.subscribes "a" ∷ Counting.unsubscribes "a" ∷ [])) "a"
    ≡ tally 0 "a" (Counting.subscribes "a" ∷ Counting.unsubscribes "a" ∷ [])
unfolding get
count-calls_example =
    count-calls down (Counting.subscribes "a" ∷ Counting.unsubscribes "a" ∷ []) "a" refl

-- A user with two permissions and one namespace.
abbrev developer : PermissionTree
developer = record {
  perms = "backup:list" ∷ "cluster:list" ∷ [];
  scopes = record { scope_type = namespace_scope; cluster_code = "c1"; namespace = "dev" } ∷ [];
  is_platform_admin = false;
}

channels_authorized :
    (authorize_channel (some developer) "task_progress" ≡ true)
    × (authorize_channel (some developer) "pod_logs:c1:kube-system:nginx" ≡ false)
    × (authorize_channel (some developer) "pod_logs:c1:dev:nginx" ≡ true)
    × (authorize_channel (some developer) "pod_logs:*" ≡ false)
    × (authorize_channel none "task_progress" ≡ false)
unfolding authorize_channel has_perm has_namespace_scope split includes starts_with module_of
channels_authorized = (refl, refl, refl, refl, refl)

-- The server refuses one of the two channels that are asked for.
refused :
    (server
        (some developer)
        (subscribe "pod_logs:c1:kube-system:nginx" ∷ subscribe "task_progress" ∷ [])
        "pod_logs:c1:kube-system:nginx"
      ≡ false)
    × (server
          (some developer)
          (subscribe "pod_logs:c1:kube-system:nginx" ∷ subscribe "task_progress" ∷ [])
          "task_progress"
        ≡ true)
unfolding channels_authorized server read_pump read_frame set_add
refused = (refl, refl)

steps-served_example :
    (server (some developer) (steps joined history).env.sent "task_progress" ≡ (
      has (steps joined history).env.refs "task_progress"
      && authorize_channel (some developer) "task_progress"))
    × (contains (subscriptions (steps joined history).env) "task_progress"
        ≡ has (steps joined history).env.refs "task_progress")
steps-served_example =
    steps-served "t0" none "jwt" "task_progress" down history (some developer) refl
      (record { no_client = refl; counted = refl; unlisted = refl }) frames.2

abbrev held : Client
held = record {
  token = "jwt";
  protocol = "access_token.jwt";
  attached = true;
  heartbeat = true;
  explicitly_closed = false;
  pending = [];
}

abbrev up : Hub
up = record {
  instance_ = some held;
  retired = [];
  env = record {
    ready = true;
    refs = ("task_progress", 1) ∷ [];
    redux = initial_state;
    sent = subscribe "task_progress" ∷ [];
  };
}

token_change-served_example :
    (server
        (some developer)
        (step
          (lifecycle_effect "t2" (some "new") (lifecycle_cleanup up))
          (Sync.opened "t3")).env.sent
        "task_progress"
      ≡ (has up.env.refs "task_progress" && authorize_channel (some developer) "task_progress"))
    × (contains
          (subscriptions
            (step
              (lifecycle_effect "t2" (some "new") (lifecycle_cleanup up))
              (Sync.opened "t3")).env)
          "task_progress"
        ≡ has up.env.refs "task_progress")
token_change-served_example =
    token_change-served "t2" "t3" "new" "task_progress" up held (some developer) refl refl refl refl

late_close-stale_example :
    let h' = step (lifecycle_effect "t2" (some "new") (lifecycle_cleanup up)) (Sync.opened "t3") in
    let h'' = late_close "t4" h' (close held) 1000 in
    (h'.retired ≡ [] ++ close held ∷ [])
    × (h''.env.redux.status ≡ Status.closed)
    × (h''.env.ready ≡ true)
late_close-stale_example = late_close-stale "t2" "t3" "t4" "new" up held 1000 refl refl refl

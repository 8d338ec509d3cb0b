-- ===== src/Socket/Recovery.antt =====
-- frontend/src/app/services/websocket.ts and frontend/src/hooks/useWebSocket.ts: the
-- subscriptions through connections and tokens.
use k8s_platform.Common.{
  String, ◌≡◌, refl, ap, ◌∙◌, true, Option, none, some, List, [], ◌∷◌, ◌&&◌, arith, contains,
}
use k8s_platform.Text.{truthy}
use k8s_platform.Slices.Ws.{Status}
use k8s_platform.Slices.Ws.Lifecycle.{set_status-subscriptions, reset_ws-subscriptions}
use k8s_platform.Socket.{Client}
use k8s_platform.Socket.Hub.{
  Hub, new_client, connect_web_socket, disconnect_web_socket, lifecycle_effect, lifecycle_cleanup,
  on_instance,
}
use k8s_platform.Socket.Frames.{subscriptions}
use k8s_platform.Socket.Server.{PermissionTree, server, authorize_channel, server-asked}
use k8s_platform.Socket.Restoring.{has, positive, on_open_lem}
use k8s_platform.Socket.Sync.{Event, opened, Linked, step, steps, steps-Linked, connection}

-- A hub without a client, as `disconnectWebSocket` and `resetWS` leave it.
pub record IsDown (h : Hub) : Type 0 where
  pub no_client : h.instance_ ≡ none
  pub counted : positive h.env.refs ≡ true
  pub unlisted : subscriptions h.env ≡ []

pub connect-Linked :
    (now : String) (fresh : Option String) (token x : String) (h : Hub)
    → IsDown h
    → Linked x (connect_web_socket now fresh token h)
unfolding connect_web_socket new_client
connect-Linked now fresh token x h d =
    rw (d.no_client, connect_web_socket)
      (
        _,
        refl,
        ground (
          arith,
          set_status-subscriptions now h.env.redux Status.connecting,
          ap (λ xs. contains xs x) d.unlisted,
        ),
      )

-- Through any history of a connected client (calls, connections that open, drop and fail, frames,
-- beats), whenever the connection is open the server has a channel for it exactly if the channel has
-- a subscriber on the page and the user of the connection may have it, and the store lists exactly
-- the channels with a subscriber. This holds for every channel but the empty one, from a hub without
-- a client whose counts are positive and whose store lists none.
pub steps-served :
    (now : String) (fresh : Option String) (token x : String) (h : Hub) (evs : List Event)
    → (pt : Option PermissionTree) → truthy x ≡ true
    → IsDown h
    → let e = (steps (connect_web_socket now fresh token h) evs).env in
      e.ready ≡ true
      → (server pt e.sent x ≡ (has e.refs x && authorize_channel pt x))
        × (contains (subscriptions e) x ≡ has e.refs x)
steps-served now fresh token x h evs pt t d open_now =
    let h' = connect_web_socket now fresh token h in
    let (c, _, v) = steps-Linked x h' evs t (connect-Linked now fresh token x h d) in
    (ground (arith, v.served, server-asked pt x t (steps h' evs).env.sent), ground (arith, v.shown))

pub cleanup-IsDown :
    (h : Hub) (c : Client)
    → h.instance_ ≡ some c
    → positive h.env.refs ≡ true
    → IsDown (lifecycle_cleanup h) × ((lifecycle_cleanup h).env.refs ≡ h.env.refs)
unfolding lifecycle_cleanup disconnect_web_socket
cleanup-IsDown h c linked p =
    rw (linked, disconnect_web_socket)
      (
        record { no_client = refl; counted = p; unlisted = reset_ws-subscriptions h.env.redux },
        refl,
      )

pub effect-connects :
    (now token : String) (h : Hub)
    → truthy token ≡ true
    → lifecycle_effect now (some token) h ≡ connect_web_socket now (some token) token h
unfolding lifecycle_effect
effect-connects now token h f = rw f

connect-refs :
    (now : String) (fresh : Option String) (token : String) (h : Hub)
    → h.instance_ ≡ none
    → (connect_web_socket now fresh token h).env.refs ≡ h.env.refs
unfolding connect_web_socket new_client
connect-refs now fresh token h down = rw (down, connect_web_socket)

pub opened_lem :
    (now x : String) (h : Hub)
    → truthy x ≡ true
    → Linked x h
    → ((step h (opened now)).env.ready ≡ true) × ((step h (opened now)).env.refs ≡ h.env.refs)
unfolding step on_instance
opened_lem now x h t (c, linked, v) =
    let up = on_open_lem now c (connection true h.env) x v.attached refl t v.counted in
    rw (linked, on_instance) (up.2, up.3)

-- The token changes while a client is connected (the effect's cleanup, then the effect), and the new
-- connection opens: with no call of the page in between, the server then has, on the new connection,
-- exactly those of the channels with subscribers that the user of the new token may have, and the
-- store lists all of them. It holds for every channel but the empty one and every new token but the
-- empty one.
pub token_change-served :
    (now now' : String) (token x : String) (h : Hub) (c : Client) (pt : Option PermissionTree)
    → truthy x ≡ true
    → truthy token ≡ true
    → h.instance_ ≡ some c
    → positive h.env.refs ≡ true
    → let h' = step (lifecycle_effect now (some token) (lifecycle_cleanup h)) (opened now') in
      (server pt h'.env.sent x ≡ (has h.env.refs x && authorize_channel pt x))
      × (contains (subscriptions h'.env) x ≡ has h.env.refs x)
unfolding steps
token_change-served now now' token x h c pt t f linked p =
    let (down, kept) = cleanup-IsDown h c linked p in
    let joined = connect-Linked now (some token) token x (lifecycle_cleanup h) down in
    let (up, same) = opened_lem now' x _ t joined in
    let (served, shown) =
      steps-served now (some token) token x (lifecycle_cleanup h) (opened now' ∷ []) pt t down up in
    let refs = same ∙ connect-refs now (some token) token _ down.no_client ∙ kept in
    rw (effect-connects now token (lifecycle_cleanup h) f)
      (served ∙ ap (λ m. has m x && authorize_channel pt x) refs, shown ∙ ap (λ m. has m x) refs)

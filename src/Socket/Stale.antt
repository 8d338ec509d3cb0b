-- ===== src/Socket/Stale.antt =====
-- frontend/src/app/services/websocket.ts: the close of an old socket, reported late.
use k8s_platform.Common.{ℕ, String, ◌≡◌, refl, ◌∙◌, true, some, [], ◌∷◌, ◌++◌, arith}
use k8s_platform.Text.{truthy}
use k8s_platform.Slices.Ws.{Status}
use k8s_platform.Slices.Ws.Lifecycle.{set_status-status}
use k8s_platform.Socket.{Client, Env, close, on_close}
use k8s_platform.Socket.Hub.{
  Hub, lifecycle_effect, lifecycle_cleanup, disconnect_web_socket, connect_web_socket, late_close,
  on_instance, new_client,
}
use k8s_platform.Socket.Restoring.{positive}
use k8s_platform.Socket.Sync.{step, opened}
use k8s_platform.Socket.Recovery.{connect-Linked, opened_lem, effect-connects, cleanup-IsDown}

late_close-status :
    (now : String) (h : Hub) (c : Client) (code : ℕ)
    → c.explicitly_closed ≡ true
    → ((late_close now h c code).env.redux.status ≡ Status.closed)
      × ((late_close now h c code).env.ready ≡ h.env.ready)
unfolding late_close on_close
late_close-status now h c code e =
    rw (e, on_close) (set_status-status now h.env.redux Status.closed, refl)

retired-on_instance :
    (f : Client → Env → Client × Env) (h : Hub) → (on_instance f h).retired ≡ h.retired
unfolding on_instance
retired-on_instance f h = ground arith

retired-change :
    (now now' token : String) (h : Hub) (c : Client)
    → truthy token ≡ true
    → h.instance_ ≡ some c
    → (step (lifecycle_effect now (some token) (lifecycle_cleanup h)) (opened now')).retired
      ≡ h.retired ++ close c ∷ []
unfolding step lifecycle_effect lifecycle_cleanup connect_web_socket disconnect_web_socket
    new_client
retired-change now now' token h c f linked =
    retired-on_instance _ (lifecycle_effect now (some token) (lifecycle_cleanup h))
    ∙ rw (f, linked, disconnect_web_socket) refl

-- The token changes, the new connection opens, and then the old socket reports its end: the store
-- says that the connection is closed while it is open. The old client is the one retired last.
pub late_close-stale :
    (now now' later : String) (token : String) (h : Hub) (c : Client) (code : ℕ)
    → truthy token ≡ true
    → h.instance_ ≡ some c
    → positive h.env.refs ≡ true
    → let h' = step (lifecycle_effect now (some token) (lifecycle_cleanup h)) (opened now') in
      let h'' = late_close later h' (close c) code in
      (h'.retired ≡ h.retired ++ close c ∷ [])
      × (h''.env.redux.status ≡ Status.closed)
      × (h''.env.ready ≡ true)
unfolding close
late_close-stale now now' later token h c code f linked p =
    let h' = step (lifecycle_effect now (some token) (lifecycle_cleanup h)) (opened now') in
    let (down, _) = cleanup-IsDown h c linked p in
    let joined = connect-Linked now (some token) token "x" (lifecycle_cleanup h) down in
    let up =
      opened_lem now' "x" (connect_web_socket now (some token) token (lifecycle_cleanup h)) refl
        joined in
    let (status, ready) = late_close-status later h' (close c) code refl in
    (
      retired-change now now' token h c f linked,
      status,
      ready ∙ rw (effect-connects now token (lifecycle_cleanup h) f) up.0,
    )

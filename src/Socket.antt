-- ===== src/Socket.antt =====
-- frontend/src/app/services/websocket.ts: the one WebSocket client of the page, its handlers, and
-- the reference-counted subscriptions. The socket itself (reconnecting-websocket) is outside: what
-- it does is told by the events below, and its `readyState === OPEN` is the field `ready`.
pub mod Hub
pub mod Counting
pub mod Frames
pub mod Server
pub mod Restoring
pub mod Sync
pub mod Recovery
pub mod Stale
mod Tests
use k8s_platform.Common.{
  ℕ, String, Bool, true, false, not, ◌&&◌, ◌||◌, ◌==◌, Option, none, some, List, [], ◌∷◌, ◌++◌, gtb,
  nat_eq, if◌then◌else◌, contains, keep,
}
use k8s_platform.Text.{truthy, opt_truthy}
use k8s_platform.Slices.Ws
use k8s_platform.Slices.Ws.{WsState, WsMessage, Status}

-- What the client sends: `WSClientAction`.
pub data ClientAction : Type 0 where
  subscribe unsubscribe : String → ClientAction
  ping : ClientAction

-- An instance of the class `WebSocketClient`. `attached` is `rws !== null`, and `protocol` the text
-- that the socket is made with.
pub record Client : Type 0 where
  pub token : String
  pub protocol : String
  pub attached : Bool
  pub heartbeat : Bool
  pub explicitly_closed : Bool
  pub pending : List String

-- What the client shares: the socket's readiness, the counts of `channelRefs`, the Redux state, and
-- the frames given to the present connection.
pub record Env : Type 0 where
  pub ready : Bool
  pub refs : List (String × ℕ)
  pub redux : WsState
  pub sent : List ClientAction

abbrev pub with_redux : Env → WsState → Env
with_redux e s = record e { redux = s }

-- `Set.add` and `Set.delete`
unfoldable pub set_add : List String → String → List String
set_add xs s = if contains xs s then xs else xs ++ s ∷ []

unfoldable pub set_delete : List String → String → List String
set_delete xs s = keep (λ x. not (x == s)) xs

unfoldable pub buffer : List String → ClientAction → List String
buffer pending (subscribe ch) = if truthy ch then set_add pending ch else pending
buffer pending (unsubscribe ch) = if truthy ch then set_delete pending ch else pending
buffer pending ping = pending

-- A frame that `send` throws on is lost, and is not told from one that is sent.
unfoldable pub send_raw : Client → Env → ClientAction → Client × Env
send_raw c e action =
    if c.attached && e.ready
    then (c, record e { sent = e.sent ++ action ∷ [] })
    else (record c { pending = buffer c.pending action }, e)

unfoldable pub subscribe_to : Client → Env → String → Client × Env
subscribe_to c e ch =
    if truthy ch
    then send_raw c (with_redux e (Ws.add_subscription e.redux ch)) (subscribe ch)
    else (c, e)

unfoldable pub unsubscribe_from : Client → Env → String → Client × Env
unsubscribe_from c e ch =
    let (c', e') = send_raw c (with_redux e (Ws.remove_subscription e.redux ch)) (unsubscribe ch) in
    if truthy ch then (record c' { pending = set_delete c'.pending ch }, e') else (c, e)

-- The loop of `onopen` over `channelRefs`.
unfoldable pub restore : Client → Env → List (String × ℕ) → Client × Env
restore c e [] = (c, e)
restore c e ((ch, count) ∷ rest) =
    let step =
      if gtb count 0
      then send_raw c (with_redux e (Ws.add_subscription e.redux ch)) (subscribe ch)
      else (c, e) in
    restore step.0 step.1 rest

-- The loop of `onopen` over `pendingSubscriptions`.
unfoldable pub resend : Client → Env → List String → Client × Env
resend c e [] = (c, e)
resend c e (ch ∷ rest) = let step = send_raw c e (subscribe ch) in resend step.0 step.1 rest

unfoldable pub on_open : String → Client → Env → Client × Env
on_open now c e =
    let (c', e') = restore c (with_redux e (Ws.set_status now e.redux Status.opened)) e.refs in
    let (c'', e'') = resend c' e' c'.pending in (record c'' { pending = []; heartbeat = true }, e'')

auth_failure : ℕ → String
auth_failure code =
    if nat_eq code 1008
    then "WebSocket 鉴权失败 (close code 1008)，已停止重连"
    else "WebSocket 鉴权失败 (close code 4001)，已停止重连"

-- After an authentication failure the source also tells the socket not to reconnect.
unfoldable pub on_close : String → Client → Env → ℕ → Client × Env
unfolding auth_failure
on_close now c e code =
    let stopped = record c { heartbeat = false } in
    if c.explicitly_closed
    then (stopped, with_redux e (Ws.set_status now e.redux Status.closed))
    else if nat_eq code 1008 || nat_eq code 4001
    then (stopped, with_redux e (Ws.set_last_error e.redux (some (auth_failure code))))
    else (stopped, with_redux e (Ws.set_reconnecting e.redux))

unfoldable pub on_error : String → Env → Env
on_error now e = with_redux e (Ws.set_status now e.redux Status.error)

-- A frame that is no JSON text is `none`.
unfoldable pub handle_message : String → Env → Option WsMessage → Env
handle_message now e none = e
handle_message now e (some msg) = with_redux e (Ws.on_message now e.redux msg)

-- One beat of the interval timer.
unfoldable pub beat : Client → Env → Client × Env
beat c e = if c.heartbeat && (c.attached && e.ready) then send_raw c e ping else (c, e)

unfoldable pub close : Client → Client
close c = record c { explicitly_closed = true; heartbeat = false; pending = []; attached = false }

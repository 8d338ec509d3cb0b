-- ===== src/Socket/Hub.antt =====
-- frontend/src/app/services/websocket.ts: the singleton and `channelRefs`;
-- frontend/src/hooks/useWebSocket.ts: their life with the token.
use Prim.Native.String
use k8s_platform.Common.{
  ℕ, ◌+◌, ◌-◌, String, true, false, not, ◌&&◌, ◌==◌, Option, none, some, List, [], ◌∷◌, ◌++◌, leb,
  nat_eq, if◌then◌else◌, coalesce,
}
use k8s_platform.Common.Dict.{get, put, del}
use k8s_platform.Text.{truthy, opt_truthy, or_text}
use k8s_platform.Slices.Ws
use k8s_platform.Slices.Ws.{Status}
use k8s_platform.Socket.{Client, Env, with_redux, close, on_close, subscribe_to, unsubscribe_from}

-- The module's state: `instance`, what it shares with its methods, and the closed instances, whose
-- sockets may still report their end.
pub record Hub : Type 0 where
  pub instance_ : Option Client
  pub retired : List Client
  pub env : Env

-- The constructor. `fresh` is the token in the store at that time.
unfoldable pub new_client : String → Option String → String → Env → Client × Env
new_client now fresh token e = (
  record {
    token = token;
    protocol = String.◌++◌ "access_token." (or_text fresh token);
    attached = true;
    heartbeat = false;
    explicitly_closed = false;
    pending = [];
  },
  record e { ready = false; sent = []; redux = Ws.set_status now e.redux Status.connecting },
)

unfoldable pub disconnect_web_socket : Hub → Hub
disconnect_web_socket h = elim h.instance_ [
  | none ↦ h
  | some c ↦ record h { instance_ = none; retired = h.retired ++ close c ∷ [] }
]

make : String → Option String → String → Hub → Hub
make now fresh token h =
    let (c, e) = new_client now fresh token h.env in record h { instance_ = some c; env = e }

unfoldable pub connect_web_socket : String → Option String → String → Hub → Hub
unfolding make
connect_web_socket now fresh token h = elim h.instance_ [
  | none ↦ make now fresh token h
  | some c ↦
      if not c.explicitly_closed && c.token == token
      then h
      else make now fresh token (disconnect_web_socket h)
]

unfoldable pub on_instance : (Client → Env → Client × Env) → Hub → Hub
on_instance f h = elim h.instance_ [
  | none ↦ h
  | some c ↦ let (c', e) = f c h.env in record h { instance_ = some c'; env = e }
]

unfoldable pub with_refs : Hub → List (String × ℕ) → Hub
with_refs h refs = record h { env = record (h.env) { refs = refs } }

unfoldable pub subscribe_channel : Hub → String → Hub
unfolding on_instance with_refs
subscribe_channel h ch =
    let next = coalesce (get h.env.refs ch) 0 + 1 in
    let counted = with_refs h (put h.env.refs ch next) in
    if truthy ch
    then (if nat_eq next 1 then on_instance (λ c e. subscribe_to c e ch) counted else counted)
    else h

unfoldable pub unsubscribe_channel : Hub → String → Hub
unfolding on_instance with_refs
unsubscribe_channel h ch =
    let cur = coalesce (get h.env.refs ch) 0 in
    if truthy ch
    then if leb cur 1
      then on_instance (λ c e. unsubscribe_from c e ch) (with_refs h (del h.env.refs ch))
      else with_refs h (put h.env.refs ch (cur - 1))
    else h

unfoldable pub reset_channel_refs : Hub → Hub
unfolding with_refs
reset_channel_refs h = with_refs h []

-- The end of a retired instance's socket.
unfoldable pub late_close : String → Hub → Client → ℕ → Hub
late_close now h c code = let (c', e) = on_close now c h.env code in record h { env = e }

-- The effect of `useWebSocketLifecycle` for a token, and its cleanup.
reset_redux : Hub → Hub
reset_redux h = record h { env = with_redux (h.env) (Ws.reset_ws (h.env.redux)) }

unfoldable pub lifecycle_effect : String → Option String → Hub → Hub
unfolding reset_redux
lifecycle_effect now token h =
    if opt_truthy token
    then connect_web_socket now token (coalesce token "") h
    else reset_redux (reset_channel_refs (disconnect_web_socket h))

unfoldable pub lifecycle_cleanup : Hub → Hub
unfolding reset_redux
lifecycle_cleanup h = reset_redux (disconnect_web_socket h)

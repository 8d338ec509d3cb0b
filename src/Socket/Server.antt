-- ===== src/Socket/Server.antt =====
-- backend/internal/websocket: what the server makes of the frames of one connection (readPump of
-- handler.go, channel_auth.go, hub.go), with backend/internal/auth for the permissions.
use Prim.Native.String
use k8s_platform.Common.{
  String, ◌≡◌, refl, Bool, true, false, not, ◌&&◌, ◌||◌, ◌==◌, Option, none, some, List, [], ◌∷◌,
  any, contains, arith, eq_iff, if◌then◌else◌,
}
use k8s_platform.Text.{truthy, starts_with, includes, split}
use k8s_platform.Access.Permission.{colon, module_of}
use k8s_platform.Socket.{ClientAction, subscribe, unsubscribe, ping, set_add, set_delete}
use k8s_platform.Socket.Frames.{react, asked, asked_from, contains-set_add, contains-set_delete}

pub data ScopeType : Type 0 where
  platform_scope cluster_scope namespace_scope : ScopeType

pub record Scope : Type 0 where
  pub scope_type : ScopeType
  pub cluster_code : String
  pub namespace : String

pub record PermissionTree : Type 0 where
  pub perms : List String
  pub scopes : List Scope
  pub is_platform_admin : Bool

abbrev has_wildcard : List String → Option String → Bool
has_wildcard perms none = false
has_wildcard perms (some m) = contains perms (String.◌++◌ m ":*")

unfoldable pub has_perm : PermissionTree → String → Bool
has_perm pt code =
    pt.is_platform_admin
    || (contains pt.perms "*:*"
        || (contains pt.perms code || has_wildcard pt.perms (module_of code)))

abbrev covers : String → String → Scope → ScopeType → Bool
covers cluster namespace sc platform_scope = true
covers cluster namespace sc cluster_scope = sc.cluster_code == cluster
covers cluster namespace sc namespace_scope =
    sc.cluster_code == cluster && sc.namespace == namespace

unfoldable pub has_namespace_scope : PermissionTree → String → String → Bool
has_namespace_scope pt cluster namespace =
    pt.is_platform_admin || any (λ sc. covers cluster namespace sc sc.scope_type) pt.scopes

abbrev authorize_logs : PermissionTree → List String → Bool
authorize_logs pt (_ ∷ cluster ∷ namespace ∷ pod ∷ []) =
    (truthy cluster && (truthy namespace && truthy pod))
    && ((has_perm pt "cluster:list" || has_perm pt "resource:get")
        && has_namespace_scope pt cluster namespace)
authorize_logs pt _ = false

-- `authorizeChannel`; a user without a tree is `none`.
unfoldable pub authorize_channel : Option PermissionTree → String → Bool
authorize_channel none channel = false
authorize_channel (some pt) channel =
    if not (truthy channel)
    then false
    else if includes channel "*"
    then false
    else if channel == "task_progress"
    then has_perm pt "backup:list"
    else if channel == "cluster_event"
    then has_perm pt "cluster:list"
    else if starts_with channel "pod_logs:"
    then authorize_logs pt (split colon channel)
    else false

-- The channels of the connection after a frame. A refusal is answered, and changes nothing.
unfoldable pub read_frame : Option PermissionTree → List String → ClientAction → List String
read_frame pt channels (subscribe ch) =
    if authorize_channel pt ch
    then if truthy ch then set_add channels ch else channels
    else channels
read_frame pt channels (unsubscribe ch) = set_delete channels ch
read_frame pt channels ping = channels

unfoldable pub read_pump : Option PermissionTree → List String → List ClientAction → List String
read_pump pt channels [] = channels
read_pump pt channels (a ∷ as') = read_pump pt (read_frame pt channels a) as'

-- Whether the server, after these frames of a connection, has the channel for it.
unfoldable pub server : Option PermissionTree → List ClientAction → String → Bool
server pt sent ch = contains (read_pump pt [] sent) ch

module _ (pt : Option PermissionTree) (x : String) (t : truthy x ≡ true) where
  read_frame-react :
      (on : Bool) (channels : List String) (a : ClientAction)
      → contains channels x ≡ (on && authorize_channel pt x)
      → contains (read_frame pt channels a) x ≡ (react on a x && authorize_channel pt x)
  unfolding read_frame
  read_frame-react on channels (subscribe ch) h =
      ground (arith, contains-set_add channels ch x, eq_iff ch x)
  read_frame-react on channels (unsubscribe ch) h =
      ground (arith, contains-set_delete channels ch x, eq_iff ch x, eq_iff x ch)
  read_frame-react on channels ping h = h

  read_pump-asked_from :
      (on : Bool) (channels : List String) (sent : List ClientAction)
      → contains channels x ≡ (on && authorize_channel pt x)
      → contains (read_pump pt channels sent) x ≡ (asked_from on sent x && authorize_channel pt x)
  unfolding read_pump
  read_pump-asked_from on channels [] h = h
  read_pump-asked_from on channels (a ∷ as') h =
      read_pump-asked_from (react on a x) (read_frame pt channels a) as'
        (read_frame-react on channels a h)

  -- The server has the channels that are asked for and that the user may have.
  pub server-asked :
      (sent : List ClientAction) → server pt sent x ≡ (asked sent x && authorize_channel pt x)
  unfolding server
  server-asked sent = read_pump-asked_from false [] sent refl

-- ===== src/Slices/Ws/Channels.antt =====
-- frontend/src/slices/wsSlice.ts: the channel names of `buildPodLogChannel`.
use Prim.Native.Char.{Char}
use Prim.Native.String
use text.Mathlib.TextLemmas.{append_cancel_left, cons-append, nil-append}
use k8s_platform.Common.{String, true, ◌≡◌, ap, sym, ◌∙◌}
use k8s_platform.Text.{free, split_free}
use k8s_platform.Slices.Ws.{build_pod_log_channel}

abbrev pub colon : Char
colon = ":"

colon-append : (s : String) → String.◌++◌ ":" s ≡ String.◌∷◌ colon s
colon-append s = cons-append colon "" s ∙ ap (String.◌∷◌ colon) (nil-append s)

-- Two texts that agree up to a colon, and behind it.
split_colon :
    {a b r s : String}
    → free colon a ≡ true
    → free colon b ≡ true
    → String.◌++◌ a (String.◌++◌ ":" r) ≡ String.◌++◌ b (String.◌++◌ ":" s)
    → (a ≡ b) × (r ≡ s)
split_colon {a} {b} {r} {s} f g e =
    split_free colon a b r s f g
      (ap (String.◌++◌ a) (sym (colon-append r)) ∙ e ∙ ap (String.◌++◌ b) (colon-append s))

-- Two pods share a channel only if cluster, namespace and pod agree, where neither cluster code
-- nor namespace holds a colon. The pod names are any.
pub build_pod_log_channel-injective :
    (cluster cluster' namespace namespace' pod pod' : String)
    → free colon cluster ≡ true
    → free colon cluster' ≡ true
    → free colon namespace ≡ true
    → free colon namespace' ≡ true
    → build_pod_log_channel cluster namespace pod ≡ build_pod_log_channel cluster' namespace' pod'
    → (cluster ≡ cluster') × (namespace ≡ namespace') × (pod ≡ pod')
unfolding build_pod_log_channel
build_pod_log_channel-injective cluster cluster' namespace namespace' pod pod' f f' g g' e =
    let (clusters, rest) = split_colon f f' (append_cancel_left "pod_logs:" _ _ e) in
    let (namespaces, pods) = split_colon g g' rest in (clusters, namespaces, pods)

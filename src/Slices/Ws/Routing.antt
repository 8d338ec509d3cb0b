-- ===== src/Slices/Ws/Routing.antt =====
-- frontend/src/slices/wsSlice.ts: where a log line goes, and what a subscription leaves behind.
use k8s_platform.Common.{
  String, ◌≡◌, refl, true, not, ◌&&◌, ◌||◌, ◌==◌, some, none, Option, [], ◌∷◌, ◌++◌, arith,
  coalesce, contains, contains-keep, contains-append, eq_iff, if◌then◌else◌, Bool-cases, inl, inr,
}
use k8s_platform.Common.Dict.{get, get-put, get-del}
use k8s_platform.Text.{truthy, truthy-append, starts_with, includes, free, includes-free}
use k8s_platform.Slices.Ws.Channels.{colon}
use k8s_platform.Slices.Ws.Rings.{newest, ring_push-eq-newest}
use k8s_platform.Slices.Ws
use k8s_platform.Slices.Ws.{
  WsState, PodLogLinePayload, pod_logs, log_channel, ring_push, build_pod_log_channel,
}

-- Every channel that a log line is put under is non-empty.
log_channel-truthy : (o : Option String) (p : PodLogLinePayload) → truthy (log_channel o p) ≡ true
unfolding log_channel build_pod_log_channel
log_channel-truthy none p = truthy-append "pod_logs:" _ refl
log_channel-truthy (some ch) p = elim (Bool-cases (truthy ch && includes ch ":")) [
  | inl named ↦ rw named (ground arith)
  | inr other ↦ rw other (truthy-append "pod_logs:" _ refl)
]

-- The bucket that a log line belongs in: that of the channel that the message names, where this is
-- one of a pod, with a colon in it, and otherwise that of the pod that the line itself names.
abbrev pub bucket_of : Option String → PodLogLinePayload → String
bucket_of none p = build_pod_log_channel p.cluster_code p.namespace p.pod_name
bucket_of (some ch) p =
    if free colon ch then build_pod_log_channel p.cluster_code p.namespace p.pod_name else ch

free_nil : (ch : String) → (truthy ch && not (free colon ch)) ≡ not (free colon ch)
free_nil String.[] = refl
free_nil (String.◌∷◌ c s) = refl

log_channel-eq-bucket_of :
    (o : Option String) (p : PodLogLinePayload) → log_channel o p ≡ bucket_of o p
unfolding log_channel
log_channel-eq-bucket_of none p = refl
log_channel-eq-bucket_of (some ch) p = ground (arith, includes-free colon ch, free_nil ch)

-- A log line goes to the bucket where it belongs and to no other: to that of the message's channel,
-- where the channel holds a colon, and else to that of the pod that the line names. The bucket then
-- holds the newest 1000 of the lines it held and this one, and every other bucket stays.
pub on_message-routes :
    (now : String) (s : WsState) (o : Option String) (p : PodLogLinePayload) (ch : String)
    → get (Ws.on_message now s (record { channel = o; body = pod_logs (some p) })).pod_logs ch ≡ (
        if bucket_of o p == ch
        then some (newest 1000 (coalesce (get s.pod_logs ch) [] ++ p ∷ []))
        else get s.pod_logs ch)
unfolding Ws.on_message Ws.push_log
on_message-routes now s o p ch =
    let old = λ (c : String). coalesce (get s.pod_logs c) [] in
    rw (log_channel-truthy o p, Ws.push_log)
      (rw (get-put s.pod_logs (log_channel o p) ch (ring_push (old (log_channel o p)) p 1000)) (
        ground (
          arith,
          log_channel-eq-bucket_of o p,
          eq_iff (log_channel o p) ch,
          ring_push-eq-newest (old ch) p 1000,
        )))

-- Unsubscribing removes the channel and no other, and drops the channel's log bucket, if it has
-- the prefix of one, and no other bucket.
pub remove_subscription_lem :
    (s : WsState) (ch c : String)
    → (contains (Ws.remove_subscription s ch).subscriptions c
        ≡ (not (c == ch) && contains s.subscriptions c))
      × (get (Ws.remove_subscription s ch).pod_logs c
          ≡ (if starts_with ch "pod_logs:" && ch == c then none else get s.pod_logs c))
unfolding Ws.remove_subscription
remove_subscription_lem s ch c = (
  ground (arith, contains-keep (λ x. not (x == ch)) s.subscriptions c),
  ground (arith, get-del s.pod_logs ch c),
)

-- Subscribing adds the channel, unless it is empty, and keeps the others.
pub add_subscription_lem :
    (s : WsState) (ch c : String)
    → contains (Ws.add_subscription s ch).subscriptions c
      ≡ (contains s.subscriptions c || (truthy ch && ch == c))
unfolding Ws.add_subscription
add_subscription_lem s ch c =
    ground (arith, contains-append s.subscriptions (ch ∷ []) c, eq_iff ch c)

-- ===== src/Streams/Selection.antt =====
-- frontend/src/hooks: what the selections of events and log lines have in common.
use k8s_platform.Slices.Ws
use k8s_platform.Slices.Ws.Rings.{newest, get_last-newest}
use k8s_platform.Slices.Ws.Routing.{bucket_of, on_message-routes}
use k8s_platform.Common.{
  ◌-◌, ◌≢◌, ◌∙◌, ◌++◌, some, nat_eq, gtb, length-drop, length-append, eq_refl, ◌+◌, ◌≤◌, String,
  ◌≡◌, Bool, true, false, not, ◌&&◌, Option, List, [], ◌∷◌, arith, keep, any, all, length, get_last,
  coalesce,
}
use k8s_platform.Common.Dict.{get}
use k8s_platform.Slices.Ws.{ClusterEventPayload, PodLogLinePayload, WsState, build_pod_log_channel}
use k8s_platform.Streams.{
  is_warning, is_error, cluster_events, line_eof, last_eof, pod_logs, subscribe_pod_logs,
}

length-keep :
    (p : ClusterEventPayload → Bool) (es : List ClusterEventPayload)
    → length (keep p es) ≤ length es
length-keep p [] = omega arith
length-keep p (e ∷ es) = ground (arith, length-keep p es)

severities :
    (es : List ClusterEventPayload)
    → length (keep (λ e. is_warning e.severity) es) + length (keep (λ e. is_error e.severity) es)
      ≤ length es
severities [] = omega arith
severities (e ∷ es) = ground (arith, severities es)

-- The warnings and the errors of the listed events are no more than the events, since none is both,
-- and the events listed no more than those of the queue.
pub cluster_events-split :
    (cluster namespace kind : Option String) (all : List ClusterEventPayload)
    → let r = cluster_events cluster namespace kind all in
      (length r.warnings + length r.errors ≤ length r.listed) × (length r.listed ≤ length all)
unfolding cluster_events
cluster_events-split cluster namespace kind all = (severities _, length-keep _ all)

last_eof-any :
    (ls : List PodLogLinePayload) → last_eof (get_last ls) ≡ true → any line_eof ls ≡ true
last_eof-any [] h = cc
last_eof-any (l ∷ []) h = ground arith
last_eof-any (l ∷ k ∷ ls) h = ground (arith, last_eof-any (k ∷ ls))

-- What both hooks over a pod's log make of its lines `ls`, of which `p` is the newest.
record IsRead (p : PodLogLinePayload) (ls : List PodLogLinePayload) : Type 0 where
  newest_line : get_last ls ≡ some p
  some_lines : nat_eq (length ls) 0 ≡ false
  eof : (gtb (length ls) 0 && last_eof (get_last ls)) ≡ coalesce p.eof false
  has_eof : (coalesce p.eof false && not (any line_eof ls)) ≡ false

newest-IsRead :
    (xs : List PodLogLinePayload) (p : PodLogLinePayload) → IsRead p (newest 1000 (xs ++ p ∷ []))
newest-IsRead xs p =
    let ls = newest 1000 (xs ++ p ∷ []) in
    let last = get_last-newest 1000 xs p (omega arith) in
    let long : length ls ≢ 0 = omega (
      arith,
      length-drop (length (xs ++ p ∷ []) - 1000) (xs ++ p ∷ []),
      length-append xs (p ∷ []),
    ) in
    record {
      newest_line = last;
      some_lines = ground arith;
      eof = rw last (ground arith);
      has_eof = ground (arith, last_eof-any ls);
    }

-- A log line arrives whose message names the line's own pod, or no pod. The two hooks over the log
-- of this pod then show it as their newest line. `usePodLogs` says that the stream has ended exactly
-- if this line is an end mark, whatever came before; `useSubscribePodLogs` says so at the least then.
pub pod_logs-on_message :
    (now : String) (s : WsState) (o : Option String) (p : PodLogLinePayload)
    → bucket_of o p ≡ build_pod_log_channel p.cluster_code p.namespace p.pod_name
    → let after = Ws.on_message now s (record { channel = o; body = Ws.pod_logs (some p) }) in
      let page = pod_logs p.cluster_code p.namespace p.pod_name after in
      let subscribed = subscribe_pod_logs p.cluster_code p.namespace p.pod_name after in
      (get_last page.lines ≡ some p)
      × (page.is_empty ≡ false)
      × (page.eof ≡ coalesce p.eof false)
      × (subscribed.last_line ≡ some p)
      × ((coalesce p.eof false && not subscribed.has_eof) ≡ false)
unfolding pod_logs subscribe_pod_logs
pod_logs-on_message now s o p own =
    let ch = build_pod_log_channel p.cluster_code p.namespace p.pod_name in
    let read = newest-IsRead (coalesce (get s.pod_logs ch) []) p in
    let arrived : get
          (Ws.on_message now s (record { channel = o; body = Ws.pod_logs (some p) })).pod_logs ch
        ≡ some (newest 1000 (coalesce (get s.pod_logs ch) [] ++ p ∷ [])) =
      on_message-routes now s o p ch ∙ ground (arith, own, eq_refl ch) in
    rw arrived (read.newest_line, read.some_lines, read.eof, read.newest_line, read.has_eof)

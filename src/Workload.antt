-- ===== src/Workload.antt =====
-- frontend/src/utils/workloadStatus.ts: the status of a resource as the list of resources shows it.
pub mod Pod
pub mod Shown
mod Tests
use Prim.Native.String
use k8s_platform.Common.{
  ℕ, zero, suc, String, Bool, true, false, ◌&&◌, ◌||◌, ◌==◌, Option, none, some, List, [], ◌∷◌, not,
  gtb, leb, nat_eq, if◌then◌else◌, coalesce, length,
}
use k8s_platform.Common.Dict
use k8s_platform.Text.{truthy, opt_truthy, or_text}
use k8s_platform.Api.Resource.{KubernetesResource}
use k8s_platform.Json.{
  Json, null, bool, number, text, array, object, Eval, value, type_error, ◌>>=◌, prop?, prop,
  is_true, has_key, as_text, as_record, elements?, find_in, keep_in, items,
}

pub record WorkloadStatusView : Type 0 where
  pub text : String
  pub color : String
  pub extra : Option String

abbrev pub pod_phase_color : List (String × String)
pod_phase_color =
    ("Pending", "warning")
    ∷ ("Running", "success")
    ∷ ("Succeeded", "blue")
    ∷ ("Failed", "error")
    ∷ ("Unknown", "default")
    ∷ []

-- `s && s` of an optional text: it, where it is not empty.
abbrev pub filled : Option String → Option String
filled none = none
filled (some s) = if truthy s then some s else none

-- The first of two that is there.
abbrev pub first_of : Option String → Option String → Option String
first_of none o = o
first_of (some s) o = some s

abbrev pub tagged_init : Option String → Option String
tagged_init none = none
tagged_init (some s) = some (String.◌++◌ "Init: " s)

-- `c.state && 'waiting' in c.state`
abbrev pub is_waiting : Json → Eval Bool
is_waiting c = prop (some c) "state" >>= λ state.
    if is_true state then has_key "waiting" state else value false

abbrev pub find_in? : (Json → Eval Bool) → Option (List Json) → Eval (Option Json)
find_in? p none = value none
find_in? p (some vs) = find_in p vs

-- Here and below a `reason` is a text, as the types in the source say.
-- The reason in the `waiting` state of the first container that waits.
unfoldable pub waiting_reason : Option Json → Eval (Option String)
waiting_reason containers = do
  cs ← elements? containers
  waiting ← find_in? is_waiting cs
  value (filled (as_text (prop? (as_record (prop? (prop? waiting "state") "waiting")) "reason")))

abbrev pub is_text : String → Option Json → Bool
is_text s (some (text t)) = t == s
is_text s _ = false

abbrev pub is_scheduled : Json → Eval Bool
is_scheduled c = prop (some c) "type" >>= λ type. value (is_text "PodScheduled" type)

-- The reason of the condition `PodScheduled`, if that is `False` and has one.
unfoldable pub unscheduled_reason : Option Json → Eval (Option String)
unscheduled_reason conditions = do
  cs ← elements? conditions
  scheduled ← find_in? is_scheduled cs
  value (
      if is_text "False" (prop? scheduled "status")
      then filled (as_text (prop? scheduled "reason"))
      else none)

abbrev or_else : Option String → Eval (Option String) → Eval (Option String)
or_else none rest = rest
or_else (some s) rest = value (some s)

abbrev Status : Type 0
Status = List (String × Json)

unfoldable pub pod_waiting_reason : List (String × Json) → Eval (Option String)
unfolding waiting_reason unscheduled_reason
pod_waiting_reason status = do
  waiting ← waiting_reason (Dict.get status "containerStatuses")
  or_else waiting (do
    init ← waiting_reason (Dict.get status "initContainerStatuses")
    or_else (tagged_init init) (do
      scheduled ← unscheduled_reason (Dict.get status "conditions")
      or_else scheduled (value (filled (as_text (Dict.get status "reason"))))))

abbrev is_ready : Json → Eval Bool
is_ready c = prop (some c) "ready" >>= λ ready. value (is_true ready)

abbrev keep_in? : Option (List Json) → Eval (List Json)
keep_in? none = value []
keep_in? (some cs) = keep_in is_ready cs

abbrev size : Option (List Json) → ℕ
size none = 0
size (some cs) = length cs

-- `when(s) ? t : undefined`
abbrev pub given : Bool → String → Option String
given b s = if b then some s else none

abbrev pub replicas_color : ℕ → ℕ → String
replicas_color desired ready =
    if nat_eq desired 0
    then "default"
    else if nat_eq ready desired
    then "success"
    else if nat_eq ready 0
    then "error"
    else "warning"

-- `digits` writes a number; `to_number` is `Number` on a text, `none` where that is no number.
module _ (digits : ℕ → String) (to_number : String → Option ℕ) where
  abbrev pub num : Option Json → Option ℕ
  num (some (number n)) = some n
  num (some (text s)) = if truthy s then to_number s else none
  num _ = none

  -- `${a}/${b}`
  abbrev pub ratio : ℕ → ℕ → String
  ratio a b = String.◌++◌ (digits a) (String.◌++◌ "/" (digits b))

  abbrev pub available_text : Option ℕ → Option String
  available_text none = none
  available_text (some n) = some (String.◌++◌ "可用 " (digits n))

  unfoldable pub pod_view : List (String × Json) → Eval WorkloadStatusView
  unfolding pod_waiting_reason
  pod_view status = do
    let phase = coalesce (filled (as_text (Dict.get status "phase"))) "Unknown"
    cs ← elements? (Dict.get status "containerStatuses")
    ready ← keep_in? cs
    reason ← pod_waiting_reason status
    let shown =
        given (not (nat_eq (size cs) 0)) (String.◌++◌ (ratio (length ready) (size cs)) " Ready")
    value (record {
      text = phase;
      color = or_text (Dict.get pod_phase_color phase) "default";
      extra = if phase == "Running" then shown else first_of reason shown;
    })

  unfoldable pub replicas_view : (status spec : List (String × Json)) → WorkloadStatusView
  replicas_view status spec =
      let desired =
        coalesce (num (Dict.get status "replicas")) (coalesce (num (Dict.get spec "replicas")) 0) in
      let ready = coalesce (num (Dict.get status "readyReplicas")) 0 in
      record {
        text = ratio ready desired;
        color = replicas_color desired ready;
        extra = available_text (num (Dict.get status "availableReplicas"));
      }

  unfoldable pub daemon_view : List (String × Json) → WorkloadStatusView
  daemon_view status =
      let desired = coalesce (num (Dict.get status "desiredNumberScheduled")) 0 in
      let ready = coalesce (num (Dict.get status "numberReady")) 0 in
      let unavailable = coalesce (num (Dict.get status "numberUnavailable")) 0 in
      record {
        text = ratio ready desired;
        color = replicas_color desired ready;
        extra = given (not (nat_eq unavailable 0)) (String.◌++◌ "不可用 " (digits unavailable));
      }

  abbrev pub job_of : (succeeded failed active completions : ℕ) → WorkloadStatusView
  job_of succeeded failed active completions =
      if gtb failed 0 && gtb completions succeeded
      then record {
        text = "Failed";
        color = "error";
        extra = some (String.◌++◌ "失败 " (digits failed));
      }
      else if leb completions succeeded
      then record {
        text = "Complete";
        color = "success";
        extra = some (ratio succeeded completions);
      }
      else if gtb active 0
      then record {
        text = "Running";
        color = "processing";
        extra = some (String.◌++◌ "进行中 " (digits active));
      }
      else record { text = "Pending"; color = "warning"; extra = none }

  unfoldable pub job_view : (status spec : List (String × Json)) → WorkloadStatusView
  job_view status spec =
      job_of (coalesce (num (Dict.get status "succeeded")) 0)
        (coalesce (num (Dict.get status "failed")) 0) (coalesce (num (Dict.get status "active")) 0)
        (coalesce (num (Dict.get spec "completions")) 1)

  -- The length of an array, 0 for any other value.
  abbrev pub array_length : Option Json → ℕ
  array_length (some (array vs)) = length (items vs)
  array_length _ = 0

  abbrev pub last_schedule : Option String → Option String
  last_schedule none = none
  last_schedule (some s) = given (truthy s) (String.◌++◌ "上次调度 " s)

  abbrev pub cron_of :
      (suspended : Bool) → (active : ℕ) → (last : Option String) → WorkloadStatusView
  cron_of suspended active last =
      if suspended
      then record { text = "Suspended"; color = "default"; extra = none }
      else if gtb active 0
      then record {
        text = "Active";
        color = "processing";
        extra = some (String.◌++◌ (digits active) " 个任务");
      }
      else record { text = "Idle"; color = "success"; extra = last_schedule last }

  unfoldable pub cron_view : (status spec : List (String × Json)) → WorkloadStatusView
  cron_view status spec =
      cron_of (is_true (Dict.get spec "suspend")) (array_length (Dict.get status "active"))
        (as_text (Dict.get status "lastScheduleTime"))

  -- `matches words s` is the test of `s` by the regular expression of those words, without case.
  module _ (matches : List String → String → Bool) where
    abbrev pub phase_color : String → String
    phase_color phase =
        if matches ("bound" ∷ "ready" ∷ "available" ∷ "active" ∷ "running" ∷ "complete" ∷ []) phase
        then "success"
        else if matches ("pending" ∷ "wait" ∷ "progress" ∷ []) phase
        then "warning"
        else if matches ("fail" ∷ "error" ∷ "lost" ∷ "term" ∷ "lost" ∷ []) phase
        then "error"
        else "default"

    abbrev pub other_view : Option String → WorkloadStatusView
    other_view none = record { text = "-"; color = "default"; extra = none }
    other_view (some phase) = record { text = phase; color = phase_color phase; extra = none }

    unfoldable pub get_workload_status : String → KubernetesResource Json → Eval WorkloadStatusView
    get_workload_status kind resource =
        let status = coalesce resource.status [] in
        let spec = coalesce resource.spec [] in
        if kind == "Pod"
        then pod_view status
        else if kind == "Deployment" || (kind == "StatefulSet" || kind == "ReplicaSet")
        then value (replicas_view status spec)
        else if kind == "DaemonSet"
        then value (daemon_view status)
        else if kind == "Job"
        then value (job_view status spec)
        else if kind == "CronJob"
        then value (cron_view status spec)
        else value (other_view (filled (as_text (Dict.get status "phase"))))

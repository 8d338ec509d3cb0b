-- ===== src/Workload/Tests.antt =====
-- frontend/src/utils/workloadStatus.ts: a pod that waits, a finished job.
use k8s_platform.Common.{ℕ, String, ◌≡◌, refl, Bool, false, Option, none, some, List, [], ◌∷◌}
use k8s_platform.Common.Dict
use k8s_platform.Api.Resource.{KubernetesResource}
use k8s_platform.Json.{Json, bool, number, text, array, object, nil, cons, end, field, value}
use k8s_platform.Workload.{get_workload_status, pod_view, pod_waiting_reason, job_view}
use k8s_platform.Workload.Pod.{Ensures, IsPodStatus}
use k8s_platform.Workload.Shown.{IsShown, get_workload_status-IsShown}

abbrev digits : ℕ → String
digits n = "1"

abbrev to_number : String → Option ℕ
to_number s = none

abbrev matches : List String → String → Bool
matches words s = false

-- One container that waits for its image.
abbrev waiting_status : List (String × Json)
waiting_status =
    ("phase", text "Pending")
    ∷ (
      "containerStatuses",
      array (
          cons
            (object (
              field "ready" (bool false) (
                field "state"
                  (object
                    (field "waiting" (object (field "reason" (text "ImagePullBackOff") end)) end))
                  end)))
            nil),
    )
    ∷ []

abbrev waiting_pod : KubernetesResource Json
waiting_pod = record {
  api_version = "v1";
  kind = "Pod";
  metadata = record {
    name = "web-0";
    namespace = some "prod";
    uid = none;
    resource_version = none;
    creation_timestamp = none;
    labels = none;
    annotations = none;
    others = [];
  };
  spec = none;
  status = some waiting_status;
  others = [];
}

waiting_pod_view :
    get_workload_status digits to_number matches "Pod" waiting_pod
    ≡ value (record { text = "Pending"; color = "warning"; extra = some "ImagePullBackOff" })
unfolding get_workload_status pod_view pod_waiting_reason Dict.get
waiting_pod_view = refl

waiting_status-IsPodStatus : IsPodStatus waiting_status
unfolding Dict.get
waiting_status-IsPodStatus = record {
  containers = ((tt, tt), tt);
  init_containers = tt;
  conditions = tt;
}

get_workload_status-IsShown_example :
    Ensures IsShown (get_workload_status digits to_number matches "Pod" waiting_pod)
get_workload_status-IsShown_example =
    get_workload_status-IsShown digits to_number matches "Pod" waiting_pod
      waiting_status-IsPodStatus

job_finished :
    job_view digits to_number (("succeeded", number 1) ∷ ("failed", number 1) ∷ []) []
    ≡ record { text = "Complete"; color = "success"; extra = some "1/1" }
unfolding job_view Dict.get
job_finished = refl

-- ===== src/Workload/Shown.antt =====
-- frontend/src/utils/workloadStatus.ts: when the view of a status exists.
use Prim.Native.String
use Prim.Native.String.append
use k8s_platform.Common.{
  ℕ, String, ◌≡◌, refl, Bool, true, ◌&&◌, ◌||◌, ◌==◌, Option, none, some, List, [], ◌∷◌, arith,
  contains, coalesce, Bool-cases, inl, inr, if-both, nat_eq, gtb, leb,
}
use k8s_platform.Common.Dict
use k8s_platform.Text.{truthy, or_text, truthy-append}
use k8s_platform.Api.Resource.{KubernetesResource}
use k8s_platform.Json.{Json, is_true, as_text, elements?}
use k8s_platform.Workload.{
  WorkloadStatusView, filled, pod_waiting_reason, keep_in?, pod_phase_color, replicas_color, ratio,
  pod_view, replicas_view, daemon_view, num, array_length, job_of, cron_of, job_view, cron_view,
  other_view, get_workload_status,
}
use k8s_platform.Workload.Pod.{
  Ensures, bind, after, AllOf, elements?-AllOf, keep_in?-returns, pod_waiting_reason-returns,
  IsContainer, IsPodStatus,
}

truthy-append_right : (s t : String) → truthy t ≡ true → truthy (String.◌++◌ s t) ≡ true
truthy-append_right String.[] t h = rw (append.nil t) h
truthy-append_right (String.◌∷◌ c s) t h = rw (append.cons c s t)

filled-truthy :
    (o : Option String) (d : String) → truthy d ≡ true → truthy (coalesce (filled o) d) ≡ true
filled-truthy none d h = h
filled-truthy (some s) d h = ground arith

abbrev pub palette : List String
palette = "default" ∷ "success" ∷ "warning" ∷ "error" ∷ "blue" ∷ "processing" ∷ []

-- A view with a text and one of the colours of the tags.
pub record IsShown (v : WorkloadStatusView) : Type 0 where
  pub filled_text : truthy v.text ≡ true
  pub known_color : contains palette v.color ≡ true

pod_color-palette :
    (phase : String) → contains palette (or_text (Dict.get pod_phase_color phase) "default") ≡ true
unfolding Dict.get
pod_color-palette phase =
    let P = λ (o : Option String). contains palette (or_text o "default") ≡ true in
    if-both P ("Pending" == phase) _ _ refl (
      if-both P ("Running" == phase) _ _ refl (
        if-both P ("Succeeded" == phase) _ _ refl
          (if-both P ("Failed" == phase) _ _ refl (if-both P ("Unknown" == phase) _ _ refl refl))))

replicas_color-palette :
    (desired ready : ℕ) → contains palette (replicas_color desired ready) ≡ true
replicas_color-palette desired ready =
    let P = λ (c : String). contains palette c ≡ true in
    if-both P (nat_eq desired 0) _ _ refl
      (if-both P (nat_eq ready desired) _ _ refl (if-both P (nat_eq ready 0) _ _ refl refl))

module _ (digits : ℕ → String) (to_number : String → Option ℕ) where
  ratio-truthy : (a b : ℕ) → truthy (ratio digits to_number a b) ≡ true
  ratio-truthy a b =
      truthy-append_right (digits a) (String.◌++◌ "/" (digits b))
        (truthy-append "/" (digits b) refl)

  ratio-IsShown :
      (desired ready : ℕ) (extra : Option String)
      → IsShown (record {
        text = ratio digits to_number ready desired;
        color = replicas_color desired ready;
        extra = extra;
      })
  ratio-IsShown desired ready extra = record {
    filled_text = ratio-truthy ready desired;
    known_color = replicas_color-palette desired ready;
  }

  pod_view-IsShown :
      (status : List (String × Json))
      → IsPodStatus status
      → Ensures IsShown (pod_view digits to_number status)
  unfolding pod_view
  pod_view-IsShown status h =
      bind (AllOf IsContainer) IsShown (elements? (Dict.get status "containerStatuses")) _
        (elements?-AllOf IsContainer _ h.containers)
        λ cs all. after IsShown (keep_in? cs) _ (keep_in?-returns cs all) λ ready.
          after IsShown (pod_waiting_reason status) _ (pod_waiting_reason-returns status h)
            λ reason. record {
              filled_text = filled-truthy (as_text (Dict.get status "phase")) "Unknown" refl;
              known_color = pod_color-palette _;
            }

  job_of-IsShown :
      (succeeded failed active completions : ℕ)
      → IsShown (job_of digits to_number succeeded failed active completions)
  job_of-IsShown succeeded failed active completions =
      if-both IsShown (gtb failed 0 && gtb completions succeeded) _ _
        (record { filled_text = refl; known_color = refl })
        (if-both IsShown (leb completions succeeded) _ _
          (record { filled_text = refl; known_color = refl })
          (if-both IsShown (gtb active 0) _ _ (record { filled_text = refl; known_color = refl })
            (record { filled_text = refl; known_color = refl })))

  cron_of-IsShown :
      (suspended : Bool) (active : ℕ) (last : Option String)
      → IsShown (cron_of digits to_number suspended active last)
  cron_of-IsShown suspended active last =
      if-both IsShown suspended _ _ (record { filled_text = refl; known_color = refl })
        (if-both IsShown (gtb active 0) _ _ (record { filled_text = refl; known_color = refl })
          (record { filled_text = refl; known_color = refl }))

  job_view-IsShown :
      (status spec : List (String × Json)) → IsShown (job_view digits to_number status spec)
  unfolding job_view
  job_view-IsShown status spec =
      let count = λ (o : Option Json). num digits to_number o in
      job_of-IsShown (coalesce (count (Dict.get status "succeeded")) 0)
        (coalesce (count (Dict.get status "failed")) 0)
        (coalesce (count (Dict.get status "active")) 0)
        (coalesce (count (Dict.get spec "completions")) 1)

  cron_view-IsShown :
      (status spec : List (String × Json)) → IsShown (cron_view digits to_number status spec)
  unfolding cron_view
  cron_view-IsShown status spec =
      cron_of-IsShown (is_true (Dict.get spec "suspend"))
        (array_length digits to_number (Dict.get status "active"))
        (as_text (Dict.get status "lastScheduleTime"))

  other_view-IsShown :
      (matches : List String → String → Bool) (o : Option String)
      → IsShown (other_view digits to_number matches (filled o))
  other_view-IsShown matches none = record { filled_text = refl; known_color = refl }
  other_view-IsShown matches (some s) = elim (Bool-cases (truthy s)) [
    | inl full ↦
        let P = λ (c : String). contains palette c ≡ true in
        rw full (record {
          filled_text = full;
          known_color =
              if-both P (matches _ s) _ _ refl
                (if-both P (matches _ s) _ _ refl (if-both P (matches _ s) _ _ refl refl));
        })
    | inr empty ↦ rw empty (record { filled_text = refl; known_color = refl })
  ]

  -- No view is missing: the status of a resource of any kind is shown by a text that is not empty,
  -- in one of the colours of the tags, and the code does not throw, where the lists of a pod's
  -- status are missing or lists of objects whose `state` is missing or an object.
  pub get_workload_status-IsShown :
      (matches : List String → String → Bool) (kind : String) (resource : KubernetesResource Json)
      → IsPodStatus (coalesce resource.status [])
      → Ensures IsShown (get_workload_status digits to_number matches kind resource)
  unfolding get_workload_status replicas_view daemon_view
  get_workload_status-IsShown matches kind resource h =
      let P = Ensures IsShown in
      let status = coalesce resource.status [] in
      let spec = coalesce resource.spec [] in
      if-both P (kind == "Pod") _ _ (pod_view-IsShown status h) (
        if-both P (kind == "Deployment" || (kind == "StatefulSet" || kind == "ReplicaSet")) _ _
          (ratio-IsShown _ _ _)
          (if-both P (kind == "DaemonSet") _ _ (ratio-IsShown _ _ _) (
            if-both P (kind == "Job") _ _ (job_view-IsShown status spec) (
              if-both P (kind == "CronJob") _ _ (cron_view-IsShown status spec)
                (other_view-IsShown matches (as_text (Dict.get status "phase")))))))

-- ===== src/Pages/Tests.antt =====
-- frontend/src/pages: the pages at concrete inputs.
use k8s_platform.Common.{
  String, ◌≡◌, ◌||◌, refl, true, false, Option, none, some, List, [], ◌∷◌, contains, if◌then◌else◌,
  Distinct, All,
}
use k8s_platform.Common.Dict
use k8s_platform.Text.{truthy}
use k8s_platform.Json.{Json, object, array, text, nil, cons, end, field}
use k8s_platform.Slices.Ws.{Stage, TaskProgressPayload}
use k8s_platform.Api.Backup
use k8s_platform.Api.Backup.{Mutation}
use k8s_platform.Api.Resource.{KubernetesResource}
use k8s_platform.Pages.{sent}
use k8s_platform.Pages.BackupCreate.{
  CreateFormValues, batch, local_disk, initial_values, handle_submit,
}
use k8s_platform.Pages.BackupCreate.Submitted.{Submission, handle_submit-Submission}
use k8s_platform.Pages.BackupCreate.Prefilled.{backup_of, backup_url-handle_submit}
use k8s_platform.Pages.ResourceList.{ListState, after_effects, first_pod_container}
use k8s_platform.Pages.ResourceList.Actions.{backup_url, backup_params}
use k8s_platform.Pages.ResourceList.Namespaces.{Fits, after_effects-Fits}
use k8s_platform.Pages.PodLogs.{extract_containers}
use k8s_platform.Pages.PodLogs.Containers.{head, extract_containers_lem}
use k8s_platform.Pages.Compare.{sides}
use k8s_platform.Pages.Compare.Names.{sides-get}
use k8s_platform.Pages.Backups.{status_cell}
use k8s_platform.Pages.Backups.Progress.{AtMost, has_bar, is_running, status_cell-percent}

abbrev same : String → String
same s = s

abbrev joined : List (String × String) → String
joined l = "q"

abbrev template : String → String → Option String → String
template api_version kind namespace = ""

after_effects-Fits_example :
    Fits false false
      ("dev" ∷ "prod" ∷ [])
      (after_effects false false ("dev" ∷ "prod" ∷ []) "__cluster__")
    × (after_effects false false
          ("dev" ∷ "prod" ∷ [])
          (after_effects false false ("dev" ∷ "prod" ∷ []) "__cluster__")
        ≡ after_effects false false ("dev" ∷ "prod" ∷ []) "__cluster__")
after_effects-Fits_example = after_effects-Fits false false ("dev" ∷ "prod" ∷ []) "__cluster__" refl

abbrev nightly : CreateFormValues
nightly = record {
  code = "east";
  namespace = none;
  namespaces = some ("dev" ∷ "prod" ∷ []);
  scope = batch;
  kind = "";
  kind_filter = some ("Deployment" ∷ []);
  name = none;
  storage_type = local_disk;
}

handle_submit-Submission_example : Submission nightly (handle_submit same true nightly)
handle_submit-Submission_example = handle_submit-Submission same true nightly

-- A pod with an init container, two containers of which one has the same name, and one without.
abbrev container : String → Json
container name = object (field "name" (text name) end)

abbrev pod_row : KubernetesResource Json
pod_row = record {
  api_version = "v1";
  kind = "Pod";
  metadata = record {
    name = "web-0";
    namespace = some "prod";
    uid = none;
    resource_version = none;
    creation_timestamp = none;
    labels = none;
    annotations = none;
    others = [];
  };
  spec = some (
      ("initContainers", array (cons (object end) (cons (container "init") nil)))
      ∷ ("containers", array (cons (container "init") (cons (container "web") nil)))
      ∷ []);
  status = none;
  others = [];
}

abbrev pods : ListState
pods = record {
  cluster_code = some "east";
  tab = "workload";
  kind = "Pod";
  namespace = "prod";
  keyword = "";
  page = 1;
  size = 10;
  create_drawer_open = false;
  create_yaml = "";
  log_drawer_open = false;
  current_pod = none;
}

extract_containers_lem_example :
    Distinct (extract_containers pod_row)
    × All (λ s. truthy s ≡ true) (extract_containers pod_row)
    × (head (extract_containers pod_row) ≡ first_pod_container pod_row)
extract_containers_lem_example = extract_containers_lem pod_row

pod_containers : extract_containers pod_row ≡ "init" ∷ "web" ∷ []
unfolding extract_containers Dict.get
pod_containers = refl

abbrev read : String → List (String × String)
read url = backup_params same joined same template pods pod_row

backup_url-handle_submit_example :
    sent (
      handle_submit same true
        (initial_values (read (backup_url same joined same template pods pod_row)) none))
    ≡ backup_of "east" "Pod" "web-0" "prod" ∷ []
backup_url-handle_submit_example =
    backup_url-handle_submit same joined same template read true none pods pod_row refl refl refl
      refl

sides-get_example : Dict.get (sides ("a" ∷ "b" ∷ []) ("" ∷ "b" ∷ [])) "b" ≡ (
    if contains ("a" ∷ "b" ∷ []) "b" || contains ("" ∷ "b" ∷ []) "b"
    then some
        (record { left = contains ("a" ∷ "b" ∷ []) "b"; right = contains ("" ∷ "b" ∷ []) "b" })
    else none)
sides-get_example = sides-get "b" refl ("a" ∷ "b" ∷ []) ("" ∷ "b" ∷ [])

abbrev stored : Backup.Backup
stored = record {
  id = 7;
  cluster_code = "east";
  namespace = some "prod";
  target_kind = some "Pod";
  target_name = some "web-0";
  backup_type = "single";
  storage_type = "local";
  storage_path = none;
  status = Backup.running;
  size_bytes = none;
  operator = none;
  operator_id = none;
  started_at = none;
  completed_at = none;
  error_message = none;
  object_count = none;
  created_at = none;
  updated_at = none;
}

abbrev uploading : TaskProgressPayload
uploading = record {
  task_id = some "7";
  backup_id = none;
  cluster_code = some "east";
  namespace = none;
  kind = none;
  name = none;
  stage = Stage.uploading;
  progress = 120;
  message = none;
  error = none;
  timestamp = none;
}

uploading_cell :
    AtMost 100 (status_cell stored (some uploading)).percent
    × (has_bar (status_cell stored (some uploading)).percent ≡ is_running (some uploading))
uploading_cell = status_cell-percent stored (some uploading)

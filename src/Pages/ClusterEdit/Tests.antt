-- ===== src/Pages/ClusterEdit/Tests.antt =====
-- frontend/src/pages/clusters/list.tsx: edits of a cluster, one of which saves a kubeconfig that no
-- test has seen.
use k8s_platform.Common.{ℕ, String, ◌≡◌, refl, Bool, true, false, none, some, [], ◌∷◌}
use k8s_platform.Api.Cluster.{Cluster, PingResponse, update_cluster}
use k8s_platform.Pages.{sent}
use k8s_platform.Pages.ClusterList.{Perms}
use k8s_platform.Pages.ClusterEdit.{
  EditFormValues, EditState, open_edit, test_connection, answered, save,
}

abbrev same : String → String
same s = s

abbrev digits : ℕ → String
digits n = "3"

abbrev any_json : String → Bool
any_json text = true

abbrev server : PingResponse
server = record { server_version = "v1.30"; node_count = 3; cost_ms = 3 }

abbrev editor : Perms
editor = record { can_create = false; can_update = true; can_delete = false; can_ping = true }

abbrev edge : Cluster
edge = record {
  id = none;
  code = "edge";
  name = "Edge";
  description = none;
  api_server = none;
  status = 1;
  version = none;
  node_count = none;
  last_sync_at = none;
  labels = none;
  creator_id = none;
  created_at = none;
  updated_at = none;
}

abbrev form_with : String → EditFormValues
form_with kc = record {
  name = "Edge";
  description = none;
  labels = some "";
  kubeconfig_text = some kc;
}

abbrev closed : EditState
closed = record {
  editing_cluster = none;
  form = form_with "";
  edit_ping_result = none;
  edit_ping_loading = false;
}

abbrev typed : EditState → String → EditState
typed s kc = record s { form = form_with kc }

-- A kubeconfig that is typed in and not tested is not saved.
untested_refused :
    sent ((save same any_json editor (typed (open_edit edge closed) "a") true true).1) ≡ []
unfolding save open_edit
untested_refused = refl

-- The cells after `a` was typed in and tested.
abbrev tested : EditState
unfolding open_edit test_connection answered
tested =
    (answered digits ((test_connection same (typed (open_edit edge closed) "a")).0) (some server)).0

-- The kubeconfig `a` is tested, then replaced by `b`, which is saved.
retyped_saved :
    sent ((save same any_json editor (typed tested "b") true true).1)
    ≡ update_cluster "edge" (record {
      name = some "Edge";
      description = none;
      kubeconfig_text = some "b";
      kubeconfig_base64 = none;
      labels = none;
    })
      ∷ []
unfolding save open_edit test_connection answered
retyped_saved = refl

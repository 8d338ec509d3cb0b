-- ===== src/Pages/ClusterImport/Tests.antt =====
-- frontend/src/pages/clusters/import.tsx: a pasted kubeconfig that is tested and imported, and a file
-- that is imported without a test.
use k8s_platform.Common.{ℕ, String, ◌≡◌, refl, Bool, true, none, some, List, [], ◌∷◌}
use k8s_platform.Api.Cluster.{PingResponse}
use k8s_platform.Pages.{sent}
use k8s_platform.Pages.ClusterImport.{
  file_mode, initial_state, ImportFormValues, Event, edit_text, set_mode, upload, test_connection,
  answered, connected, step, handle_submit, import_body,
}
use k8s_platform.Pages.ClusterImport.Tested.{
  CalmHistory, ImportsOnly, after, watched, handle_submit-ImportsOnly,
}

abbrev same : String → String
same s = s

abbrev any_end : String → String → Bool
any_end name ext = true

abbrev digits : ℕ → String
digits n = "3"

abbrev server : PingResponse
server = record { server_version = "v1.30"; node_count = 3; cost_ms = 3 }

abbrev values : ImportFormValues
values = record { name = "edge"; code = "edge"; description = none; labels = none }

abbrev pasted : List Event
pasted = edit_text "a" ∷ test_connection true ∷ answered (connected server) ∷ []

pasted-CalmHistory : CalmHistory same same any_end digits initial_state pasted
unfolding step
pasted-CalmHistory = (refl, (refl, (refl, tt)))

handle_submit-ImportsOnly_example :
    ImportsOnly same same any_end digits values
      (watched same same any_end digits initial_state
        (record { pending = none; passed = none })
        pasted).passed
      (handle_submit same same any_end digits
        (after same same any_end digits initial_state pasted)
        values
        true)
handle_submit-ImportsOnly_example =
    handle_submit-ImportsOnly same same any_end digits pasted values true pasted-CalmHistory

pasted_imported :
    sent (
      handle_submit same same any_end digits
        (after same same any_end digits initial_state pasted)
        values
        true)
    ≡ import_body same same any_end digits values "a" ∷ []
unfolding handle_submit step
pasted_imported = refl

-- The file `b` replaces the tested file `a`, and is imported without a test of its own.
uploaded_untested :
    sent (
      handle_submit same same any_end digits
        (after same same any_end digits initial_state (
          set_mode file_mode
          ∷ upload "a.yaml" (some "a")
          ∷ test_connection true
          ∷ answered (connected server)
          ∷ upload "b.yaml" (some "b")
          ∷ []))
        values
        true)
    ≡ import_body same same any_end digits values "b" ∷ []
unfolding handle_submit step
uploaded_untested = refl

-- ===== src/Pages.antt =====
-- frontend/src/pages and frontend/src/components/ws: what the pages do. A handler returns what it
-- shows, sends and opens, in order.
pub mod BackupCreate
pub mod ResourceList
pub mod Login
mod Tests
pub mod Quota
pub mod Widgets
pub mod ClusterList
pub mod ClusterEdit
pub mod HelmRepos
pub mod RolePermissions
pub mod Backups
pub mod HelmList
pub mod Users
pub mod Roles
pub mod Audit
pub mod Compare
pub mod ClusterImport
pub mod PodLogs
pub mod ResourceEdit
use k8s_platform.Common.{String, Bool, true, false, Option, none, some, List, [], ◌∷◌, ◌++◌}

-- `message.error`, `message.warning` and `message.success`, a request, `navigate`, a refetch of what
-- the page lists.
pub data Act (R : Type 0) : Type 0 where
  error warning success : String → Act R
  send : R → Act R
  go : String → Act R
  reload : Act R

-- The requests among the acts.
abbrev pub sent : {R : Type 0} → List (Act R) → List R
sent [] = []
sent (send r ∷ acts) = r ∷ sent acts
sent (error s ∷ acts) = sent acts
sent (warning s ∷ acts) = sent acts
sent (success s ∷ acts) = sent acts
sent (go s ∷ acts) = sent acts
sent (reload ∷ acts) = sent acts

-- What follows an awaited request in a `try` whose `catch` does nothing.
abbrev pub if_ok : {R : Type 0} → Bool → List (Act R) → List (Act R)
if_ok true acts = acts
if_ok false acts = []

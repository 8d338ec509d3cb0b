-- ===== src/Pages/Backups/Progress.antt =====
-- frontend/src/pages/backups/list.tsx: the progress that a row shows.
use k8s_platform.Common.{ℕ, ◌≡◌, ◌≤◌, refl, Bool, true, false, Option, none, some, arith}
use k8s_platform.Slices.Ws.{Stage, TaskProgressPayload}
use k8s_platform.Api.Backup.{Backup}
use k8s_platform.Pages.Backups.{status_cell, live_cell, clamp}

abbrev pub AtMost : ℕ → Option ℕ → Type 0
AtMost n none = Unit
AtMost n (some p) = p ≤ n

abbrev pub has_bar : Option ℕ → Bool
has_bar none = false
has_bar (some p) = true

-- The task has reported, and not its end.
abbrev pub is_running_stage : Stage → Bool
is_running_stage Stage.completed = false
is_running_stage Stage.failed = false
is_running_stage _ = true

abbrev pub is_running : Option TaskProgressPayload → Bool
is_running none = false
is_running (some live) = is_running_stage live.stage

clamp-le : (p : ℕ) → clamp p ≤ 100
clamp-le p = ground arith

live_cell_cases :
    (live : TaskProgressPayload) (stage : Stage)
    → AtMost 100 (live_cell live stage).percent
      × (has_bar (live_cell live stage).percent ≡ is_running_stage stage)
live_cell_cases live Stage.pending = (clamp-le live.progress, refl)
live_cell_cases live Stage.exporting = (clamp-le live.progress, refl)
live_cell_cases live Stage.uploading = (clamp-le live.progress, refl)
live_cell_cases live Stage.restoring = (clamp-le live.progress, refl)
live_cell_cases live Stage.completed = (tt, refl)
live_cell_cases live Stage.failed = (tt, refl)

-- A row shows a bar exactly while its task reports and has not ended, and the bar is at most full,
-- whatever number the server reports.
pub status_cell-percent :
    (r : Backup) (o : Option TaskProgressPayload)
    → AtMost 100 (status_cell r o).percent × (has_bar (status_cell r o).percent ≡ is_running o)
unfolding status_cell
status_cell-percent r none = (tt, refl)
status_cell-percent r (some live) = live_cell_cases live live.stage

-- ===== src/Pages/HelmRepos.antt =====
-- frontend/src/pages/helm/repos.tsx: the repositories of charts.
use Prim.Native.String
use k8s_platform.Common.{
  String, Bool, true, false, not, ◌||◌, Option, none, some, List, [], ◌∷◌, map, if◌then◌else◌,
}
use k8s_platform.Text.{opt_truthy, or_text, or_none}
use k8s_platform.Slices.User.{CurrentUser}
use k8s_platform.Access.Permission.{has_perm}
use k8s_platform.Api.Helm.{HelmRepo, AddRepoBody, Mutation, add_repo, remove_repo, update_repos}
use k8s_platform.Pages.{Act, success, send, reload, if_ok}
use k8s_platform.Pages.ResourceList.{NamespaceOption, plain}

unfoldable pub can_view : Option CurrentUser → Bool
can_view user = has_perm user "helm:view"

unfoldable pub can_manage : Option CurrentUser → Bool
can_manage user = has_perm user "helm:install"

abbrev is_empty : List HelmRepo → Bool
is_empty [] = true
is_empty (r ∷ rs) = false

abbrev pub skips_charts : Bool → List HelmRepo → Bool
skips_charts view repos = not view || is_empty repos

abbrev repo_option : HelmRepo → NamespaceOption
repo_option r = plain r.name

unfoldable pub repo_options : List HelmRepo → List NamespaceOption
repo_options repos = record { label = "全部仓库"; value = "" } ∷ map repo_option repos

module _ (trim : String → String) where
  abbrev trimmed : Option String → Option String
  trimmed none = none
  trimmed (some s) = or_none (trim s)

  -- The values are `none` where the form is not valid.
  unfoldable pub handle_add : Option AddRepoBody → Bool → List (Act Mutation)
  handle_add none ok = []
  handle_add (some v) ok =
      send (
        add_repo (record {
          name = trim v.name;
          url = trim v.url;
          username = trimmed v.username;
          password = or_none (or_text v.password "");
        }))
      ∷ if_ok ok (success (String.◌++◌ "仓库「" (String.◌++◌ (trim v.name) "」已添加")) ∷ [])

unfoldable pub handle_update : Option String → Bool → List (Act Mutation)
handle_update name ok =
    send (update_repos (or_none (or_text name "")))
    ∷ if_ok ok (
        success (
          if opt_truthy name
          then String.◌++◌ "仓库「" (String.◌++◌ (or_text name "") "」索引已更新")
          else "全部仓库索引已更新")
        ∷ reload
        ∷ [])

unfoldable pub handle_remove : Bool → HelmRepo → Bool → List (Act Mutation)
handle_remove manage r ok =
    if manage
    then send (remove_repo r.name)
      ∷ if_ok ok (success (String.◌++◌ "已移除仓库「" (String.◌++◌ r.name "」")) ∷ [])
    else []

-- ===== src/Pages/HelmList.antt =====
-- frontend/src/pages/helm/list.tsx: the releases of a cluster.
use Prim.Native.String
use k8s_platform.Common.{
  ℕ, String, Bool, true, false, not, ◌&&◌, ◌||◌, Option, none, some, List, [], ◌∷◌, map, contains,
  nat_eq, if◌then◌else◌,
}
use k8s_platform.Common.Dict
use k8s_platform.Text.{truthy, opt_truthy, or_text, or_none, text_of}
use k8s_platform.Slices.User.{CurrentUser}
use k8s_platform.Access.Permission.{has_perm}
use k8s_platform.Api.Helm.{
  HelmRelease, ListReleasesParams, InstallReleaseBody, Mutation, install_release, uninstall_release,
  rollback_release,
}
use k8s_platform.Pages.{Act, error, warning, success, send, reload, if_ok}
use k8s_platform.Pages.ResourceList.{NamespaceOption, plain}

abbrev pub status_color_map : List (String × String)
status_color_map =
    ("deployed", "success")
    ∷ ("failed", "error")
    ∷ ("pending", "warning")
    ∷ ("superseded", "default")
    ∷ ("uninstalled", "default")
    ∷ ("uninstalling", "processing")
    ∷ ("pending_install", "warning")
    ∷ ("pending_upgrade", "warning")
    ∷ ("pending_rollback", "warning")
    ∷ []

abbrev pub status_label_map : List (String × String)
status_label_map =
    ("deployed", "已部署")
    ∷ ("failed", "失败")
    ∷ ("pending", "等待中")
    ∷ ("superseded", "已废弃")
    ∷ ("uninstalled", "已卸载")
    ∷ ("uninstalling", "卸载中")
    ∷ ("pending_install", "安装中")
    ∷ ("pending_upgrade", "升级中")
    ∷ ("pending_rollback", "回滚中")
    ∷ []

abbrev pub default_values_yaml : String
default_values_yaml =
    "# Helm values.yaml\n# 示例：\n# replicaCount: 1\n# image:\n#   repository: nginx\n#   tag: alpine\n# service:\n#   type: ClusterIP\n#   port: 80\n"

pub record InstallFormValues : Type 0 where
  pub release_name : String
  pub namespace : String
  pub chart_ref : String
  pub repo_url : Option String
  pub version : Option String
  pub values : Option String
  pub wait : Bool
  pub dry_run : Bool

pub record Perms : Type 0 where
  pub can_view : Bool
  pub can_install : Bool
  pub can_uninstall : Bool
  pub can_rollback : Bool

unfoldable pub perms_of : Option CurrentUser → Perms
perms_of user = record {
  can_view = has_perm user "helm:view";
  can_install = has_perm user "helm:install";
  can_uninstall = has_perm user "helm:uninstall";
  can_rollback = has_perm user "helm:rollback";
}

-- The cells of the page; `form` is the form of an installation.
pub record HelmState : Type 0 where
  pub cluster_code : Option String
  pub namespace : String
  pub install_open : Bool
  pub form : Option InstallFormValues
  pub history_open : Bool
  pub history_record : Option HelmRelease

-- The effect that takes over a chosen cluster where the page has none.
unfoldable pub cluster_effect : Option String → HelmState → HelmState
cluster_effect selected state =
    if opt_truthy selected && not (opt_truthy state.cluster_code)
    then record state { cluster_code = selected }
    else state

unfoldable pub namespace_options : (is_full_cluster : Bool) → List String → List NamespaceOption
namespace_options is_full_cluster names =
    if is_full_cluster
    then record { label = "（全部命名空间）"; value = "" } ∷ map plain names
    else map plain names

unfoldable pub namespace_effect : (is_full_cluster : Bool) → List String → HelmState → HelmState
namespace_effect is_full_cluster [] state = state
namespace_effect is_full_cluster (n ∷ ns) state =
    if not is_full_cluster && not (contains (n ∷ ns) state.namespace)
    then record state { namespace = n }
    else state

abbrev pub list_params : HelmState → ListReleasesParams
list_params state = record {
  cluster_code = text_of state.cluster_code;
  namespace = or_none state.namespace;
}

abbrev pub skips : Perms → (is_full_cluster : Bool) → HelmState → Bool
skips perms is_full_cluster state =
    not perms.can_view
    || (not (opt_truthy state.cluster_code)
        || (not is_full_cluster && not (truthy state.namespace)))

unfoldable pub open_install_drawer :
    Perms → List (String × String) → HelmState → HelmState × List (Act Mutation)
open_install_drawer perms query state =
    if not (opt_truthy state.cluster_code)
    then (state, warning "请先选择集群" ∷ [])
    else if not perms.can_install
    then (state, error "无 Helm 安装权限" ∷ [])
    else (
      record state {
        install_open = true;
        form = some (record {
          release_name = "";
          namespace = or_text (some state.namespace) "default";
          chart_ref = or_text (Dict.get query "chart_ref") "";
          repo_url = some "";
          version = some (or_text (Dict.get query "version") "");
          values = some default_values_yaml;
          wait = false;
          dry_run = false;
        });
      },
      [],
    )

-- The effect that opens the form for a chart of the URL.
unfoldable pub chart_effect :
    Perms → List (String × String) → HelmState → HelmState × List (Act Mutation)
unfolding open_install_drawer
chart_effect perms query state =
    if opt_truthy (Dict.get query "chart_ref")
      && (opt_truthy state.cluster_code && perms.can_install)
    then open_install_drawer perms query state
    else (state, [])

module _ (trim : String → String) where
  abbrev trimmed : Option String → Option String
  trimmed none = none
  trimmed (some s) = or_none (trim s)

  abbrev pub install_body : InstallFormValues → InstallReleaseBody
  install_body v = record {
    release_name = trim v.release_name;
    namespace = trim v.namespace;
    chart_ref = trim v.chart_ref;
    repo_url = trimmed v.repo_url;
    values = trimmed v.values;
    version = trimmed v.version;
    wait = some v.wait;
    dry_run = some v.dry_run;
  }

  abbrev install_tip : InstallFormValues → String
  install_tip v =
      if v.dry_run
      then "Dry-run 验证完成"
      else String.◌++◌ "Release「" (String.◌++◌ (trim v.release_name) "」安装/升级已提交")

  abbrev after_install : Bool → Bool → HelmState → HelmState
  after_install ok dry_run state =
      if ok && not dry_run then record state { install_open = false } else state

  abbrev install_acts : Bool → List (Act Mutation)
  install_acts dry_run = if dry_run then [] else reload ∷ []

  -- The values are `none` where the form is not valid.
  unfoldable pub handle_install_confirm :
      Bool → Option InstallFormValues → HelmState → HelmState × List (Act Mutation)
  handle_install_confirm ok none state = (state, [])
  handle_install_confirm ok (some v) state =
      if opt_truthy state.cluster_code
      then (
        after_install ok v.dry_run state,
        send (
              install_release
                (record { cluster_code = text_of state.cluster_code; body = install_body v }))
            ∷ if_ok ok (success (install_tip v) ∷ install_acts v.dry_run),
      )
      else (state, [])

unfoldable pub handle_uninstall : Perms → HelmState → HelmRelease → Bool → List (Act Mutation)
handle_uninstall perms state r ok =
    if not (opt_truthy state.cluster_code) || not perms.can_uninstall
    then []
    else send (
        uninstall_release (record {
          cluster_code = text_of state.cluster_code;
          namespace = r.namespace;
          name = r.name;
        }))
      ∷ if_ok ok (success (String.◌++◌ "Release「" (String.◌++◌ r.name "」已卸载")) ∷ reload ∷ [])

-- A revision 0 is none.
abbrev rollback_tip : (ℕ → String) → HelmRelease → Option ℕ → String
rollback_tip digits r none = String.◌++◌ "Release「" (String.◌++◌ r.name "」已回滚到上一版本")
rollback_tip digits r (some n) =
    if nat_eq n 0
    then String.◌++◌ "Release「" (String.◌++◌ r.name "」已回滚到上一版本")
    else String.◌++◌ "已回滚 Release「" (String.◌++◌ r.name (String.◌++◌ "」到 revision " (digits n)))

unfoldable pub handle_rollback :
    (ℕ → String) → Perms → HelmState → HelmRelease → Option ℕ → Bool → List (Act Mutation)
handle_rollback digits perms state r revision ok =
    if not (opt_truthy state.cluster_code) || not perms.can_rollback
    then []
    else send (
        rollback_release
          (record {
            cluster_code = text_of state.cluster_code;
            namespace = r.namespace;
            name = r.name;
          })
          revision)
      ∷ if_ok ok (success (rollback_tip digits r revision) ∷ reload ∷ [])

unfoldable pub open_history_drawer :
    Perms → HelmState → HelmRelease → HelmState × List (Act Mutation)
open_history_drawer perms state r =
    if perms.can_view
    then (record state { history_record = some r; history_open = true }, [])
    else (state, error "无 Helm 查看权限" ∷ [])

pub record StatusTag : Type 0 where
  pub color : String
  pub label : String

-- The tag of a status; `lower` is `toLowerCase`.
unfoldable pub status_tag : (String → String) → String → StatusTag
status_tag lower status = record {
  color = or_text (Dict.get status_color_map (lower status)) "default";
  label = or_text (Dict.get status_label_map (lower status)) (or_text (some status) "-");
}

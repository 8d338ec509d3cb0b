-- ===== src/Pages/ResourceList/Actions.antt =====
-- frontend/src/pages/resources/list.tsx: what the user does in the list of the resources.
use Prim.Native.String
use k8s_platform.Common.{
  ℕ, String, Bool, true, false, not, ◌||◌, Option, none, some, List, [], ◌∷◌, find, if◌then◌else◌,
  coalesce,
}
use k8s_platform.Text.{truthy, opt_truthy, or_text, text_of}
use k8s_platform.Json.{Json}
use k8s_platform.Kinds.{KindItem, KindGroup, kind_groups}
use k8s_platform.Api.Resource.{Mutation, KubernetesResource, create_resource, delete_resource}
use k8s_platform.Pages.{Act, error, warning, success, send, go, reload, if_ok}
use k8s_platform.Pages.ResourceList.{
  Perms, ListState, given, kind_meta, first_pod_container, head_kind, has_tab,
}

-- What the user does on the page. `ok` is the answer to the request that the act sends, if any.
pub data Event : Type 0 where
  change_tab : String → Event
  change_namespace change_kind search : String → Event
  change_page : (page size : ℕ) → Event
  open_create close_create : Event
  edit_create : String → Event
  confirm_create : (ok : Bool) → Event
  view view_versions view_logs backup : KubernetesResource Json → Event
  delete : KubernetesResource Json → (ok : Bool) → Event
  close_logs : Event

-- `encode` is `encodeURIComponent`, `query` writes `URLSearchParams`, `trim` is that of texts, and
-- `template` is `defaultYamlTemplate`.
module _ (encode : String → String) (query : List (String × String) → String)
    (trim : String → String) (template : String → String → Option String → String) where
  abbrev slashed : String → String → String
  slashed s rest = String.◌++◌ s (String.◌++◌ "/" rest)

  unfoldable pub edit_url : ListState → KubernetesResource Json → String
  edit_url state item =
      let ns = or_text item.metadata.namespace "_" in
      let api_version = (kind_meta state.tab state.kind).api_version in
      String.◌++◌ "/resources/" (
        slashed (coalesce state.cluster_code "null") (
          slashed (encode api_version) (
            slashed (encode state.kind)
              (slashed (encode ns) (slashed (encode item.metadata.name) "edit")))))

  unfoldable pub backup_params : ListState → KubernetesResource Json → List (String × String)
  backup_params state item =
      ("code", text_of state.cluster_code)
      ∷ ("kind", state.kind)
      ∷ ("apiVersion", (kind_meta state.tab state.kind).api_version)
      ∷ ("name", item.metadata.name)
      ∷ given "namespace" (or_text item.metadata.namespace "")

  unfoldable pub backup_url : ListState → KubernetesResource Json → String
  unfolding backup_params
  backup_url state item = String.◌++◌ "/backups/create?" (query (backup_params state item))

  abbrev pub open_create_drawer : Perms → ListState → ListState × List (Act Mutation)
  open_create_drawer perms state =
      let meta = kind_meta state.tab state.kind in
      if not (opt_truthy state.cluster_code)
      then (state, warning "请先选择一个集群" ∷ [])
      else if not perms.can_create
      then (state, error "无创建资源权限" ∷ [])
      else (
        record state {
          create_drawer_open = true;
          create_yaml = template meta.api_version state.kind (
              if meta.cluster_scoped
              then none
              else some (or_text (some state.namespace) "default"));
        },
        [],
      )

  abbrev created : Bool → ListState → ListState
  created ok state = if ok then record state { create_drawer_open = false } else state

  abbrev pub handle_create_confirm : Bool → ListState → ListState × List (Act Mutation)
  handle_create_confirm ok state =
      if not (opt_truthy state.cluster_code)
      then (state, [])
      else if not (truthy (trim state.create_yaml))
      then (state, error "YAML 内容不能为空" ∷ [])
      else (
        created ok state,
        send (
              create_resource (record {
                code = text_of state.cluster_code;
                api_version = (kind_meta state.tab state.kind).api_version;
                kind = state.kind;
                yaml = state.create_yaml;
              }))
            ∷ if_ok ok (success "创建成功" ∷ reload ∷ []),
      )

  abbrev pub open_url : Perms → ListState → String → ListState × List (Act Mutation)
  open_url perms state url =
      if perms.can_view || perms.can_update
      then (state, go url ∷ [])
      else (state, error "无查看资源权限" ∷ [])

  abbrev pub open_logs :
      Perms → ListState → KubernetesResource Json → ListState × List (Act Mutation)
  open_logs perms state item =
      if not (perms.can_view || perms.can_update)
      then (state, error "无查看资源权限" ∷ [])
      else if not (opt_truthy state.cluster_code)
      then (state, warning "请先选择集群" ∷ [])
      else (
        record state {
          current_pod = some (record {
            cluster_code = text_of state.cluster_code;
            namespace = or_text item.metadata.namespace "";
            name = item.metadata.name;
            container_name = first_pod_container item;
          });
          log_drawer_open = true;
        },
        [],
      )

  abbrev pub open_backup :
      Perms → ListState → KubernetesResource Json → ListState × List (Act Mutation)
  open_backup perms state item =
      if perms.can_backup
      then (state, go (backup_url state item) ∷ [])
      else (state, error "无创建备份权限" ∷ [])

  -- The deletion, once the user has confirmed it.
  abbrev pub delete_item :
      Perms → ListState → KubernetesResource Json → Bool → ListState × List (Act Mutation)
  delete_item perms state item ok =
      if perms.can_delete
      then (
        state,
        send (
              delete_resource (record {
                code = text_of state.cluster_code;
                api_version = (kind_meta state.tab state.kind).api_version;
                kind = state.kind;
                namespace = item.metadata.namespace;
                name = item.metadata.name;
              }))
            ∷ if_ok ok (success "删除成功" ∷ reload ∷ []),
      )
      else (state, error "无删除资源权限" ∷ [])

  abbrev kinds_of : Option KindGroup → List KindItem
  kinds_of none = []
  kinds_of (some g) = g.kinds

  unfoldable pub step : Perms → ListState → Event → ListState × List (Act Mutation)
  step perms state (change_tab tab) = (
    record state {
      tab = tab;
      kind =
          or_text (some (head_kind (kinds_of (find (has_tab tab) kind_groups))).value) "Deployment";
      page = 1;
    },
    [],
  )
  step perms state (change_namespace v) = (record state { namespace = v; page = 1 }, [])
  step perms state (change_kind v) = (record state { kind = v; page = 1 }, [])
  step perms state (search v) = (record state { keyword = v; page = 1 }, [])
  step perms state (change_page p s) = (record state { page = p; size = s }, [])
  step perms state open_create = open_create_drawer perms state
  step perms state close_create = (record state { create_drawer_open = false }, [])
  step perms state (edit_create yaml) = (record state { create_yaml = yaml }, [])
  step perms state (confirm_create ok) = handle_create_confirm ok state
  step perms state (view item) = open_url perms state (edit_url state item)
  step perms state (view_versions item) =
      open_url perms state (String.◌++◌ (edit_url state item) "?tab=versions")
  step perms state (view_logs item) = open_logs perms state item
  step perms state (backup item) = open_backup perms state item
  step perms state (delete item ok) = delete_item perms state item ok
  step perms state close_logs = (record state { log_drawer_open = false; current_pod = none }, [])

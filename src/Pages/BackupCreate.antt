-- ===== src/Pages/BackupCreate.antt =====
-- frontend/src/pages/backups/create.tsx: the form of a new backup.
pub mod Submitted
pub mod Prefilled
use Prim.Native.String
use k8s_platform.Common.{
  String, Bool, true, false, not, ◌&&◌, ◌||◌, Option, none, some, List, [], ◌∷◌, keep, map,
  contains, if◌then◌else◌, coalesce,
}
use k8s_platform.Common.Dict
use k8s_platform.Text.{truthy, opt_truthy, or_text, or_none}
use k8s_platform.Api.Backup.{
  StorageType, BackupMode, CreateBackupBody, Mutation, local, nfs, s3, single, namespace_batch,
  create_backup,
}
use k8s_platform.Pages.{Act, error, success, send, go, if_ok}

-- `BackupMode` of the form.
pub data Scope : Type 0 where
  object namespace batch : Scope

pub data FormStorage : Type 0 where
  local_disk s3_bucket nfs_share : FormStorage

pub record CreateFormValues : Type 0 where
  pub code : String
  pub namespace : Option String
  pub namespaces : Option (List String)
  pub scope : Scope
  pub kind : String
  pub kind_filter : Option (List String)
  pub name : Option String
  pub storage_type : FormStorage

pub record CommonKind : Type 0 where
  pub api_version : String
  pub kind : String
  pub cluster_scoped : Bool

abbrev kind_in : String → String → CommonKind
kind_in api_version kind = record { api_version = api_version; kind = kind; cluster_scoped = false }

abbrev wide_in : String → String → CommonKind
wide_in api_version kind = record { api_version = api_version; kind = kind; cluster_scoped = true }

abbrev pub common_kinds : List CommonKind
common_kinds =
    kind_in "apps/v1" "Deployment"
    ∷ kind_in "apps/v1" "StatefulSet"
    ∷ kind_in "apps/v1" "DaemonSet"
    ∷ kind_in "batch/v1" "Job"
    ∷ kind_in "batch/v1" "CronJob"
    ∷ kind_in "v1" "ConfigMap"
    ∷ kind_in "v1" "Secret"
    ∷ kind_in "v1" "Service"
    ∷ wide_in "v1" "Namespace"
    ∷ wide_in "v1" "PersistentVolume"
    ∷ kind_in "v1" "PersistentVolumeClaim"
    ∷ wide_in "storage.k8s.io/v1" "StorageClass"
    ∷ wide_in "storage.k8s.io/v1" "VolumeAttachment"
    ∷ kind_in "networking.k8s.io/v1" "Ingress"
    ∷ kind_in "networking.k8s.io/v1" "NetworkPolicy"
    ∷ []

abbrev kind_name : CommonKind → String
kind_name k = k.kind

abbrev pub cluster_scoped_kinds : List String
cluster_scoped_kinds = map kind_name (keep (λ k. k.cluster_scoped) common_kinds)

unfoldable pub is_cluster_scoped_kind : Option String → Bool
is_cluster_scoped_kind none = false
is_cluster_scoped_kind (some kind) = truthy kind && contains cluster_scoped_kinds kind

-- The first value of a query parameter, the empty text where it is missing.
abbrev pub param : List (String × String) → String → String
param query key = or_text (Dict.get query key) ""

abbrev pub one : String → List String
one s = if truthy s then s ∷ [] else []

abbrev pub only : String → Option (List String)
only s = if truthy s then some (s ∷ []) else none

unfoldable pub initial_values : List (String × String) → Option String → CreateFormValues
initial_values query selected =
    let pre_namespace = param query "namespace" in
    let pre_kind = param query "kind" in
    record {
      code = or_text (Dict.get query "code") (or_text selected "");
      namespace = or_none pre_namespace;
      namespaces = only pre_namespace;
      scope = object;
      kind = pre_kind;
      kind_filter = only pre_kind;
      name = some (param query "name");
      storage_type = local_disk;
    }

-- `toLowerCase` of the storage type of the form.
abbrev pub storage_of : FormStorage → StorageType
storage_of local_disk = local
storage_of s3_bucket = s3
storage_of nfs_share = nfs

abbrev pub is_batch : Scope → Bool
is_batch object = false
is_batch namespace = true
is_batch batch = true

abbrev pub singleton : Option String → List String
singleton o = if opt_truthy o then or_text o "" ∷ [] else []

abbrev pub ns_list : CreateFormValues → Scope → List String
ns_list values batch = coalesce values.namespaces []
ns_list values _ = singleton values.namespace

abbrev pub kf_list : CreateFormValues → Scope → List String
kf_list values batch = coalesce values.kind_filter []
kf_list values _ = one values.kind

abbrev no_namespace : Scope → String
no_namespace batch = "请至少选择一个命名空间"
no_namespace _ = "请选择命名空间"

abbrev no_kind : Scope → String
no_kind batch = "请至少选择一种资源类型"
no_kind _ = "请选择对象类别"

-- The body, or the message of the first field that is missing.
pub data Built : Type 0 where
  body : CreateBackupBody → Built
  refused : String → Built

abbrev pub batch_body : StorageType → Scope → List String → List String → Built
batch_body storage scope [] kinds = refused (no_namespace scope)
batch_body storage scope (n ∷ ns) [] = refused (no_kind scope)
batch_body storage scope (n ∷ ns) (k ∷ ks) = body (record {
  mode = some namespace_batch;
  namespace = none;
  namespaces = some (n ∷ ns);
  target_kind = none;
  target_name = none;
  kind_filter = some (k ∷ ks);
  storage_type = some storage;
})

abbrev pub single_body : StorageType → CreateFormValues → Built
single_body storage values =
    if not (truthy values.kind) || not (truthy (or_text values.name ""))
    then refused "单对象模式需要填写对象类别和名称"
    else body (record {
      mode = some single;
      namespace = some (or_text values.namespace "");
      namespaces = none;
      target_kind = some values.kind;
      target_name = some (or_text values.name "");
      kind_filter = none;
      storage_type = some storage;
    })

unfoldable pub build : CreateFormValues → Built
build values =
    if is_batch values.scope
    then batch_body (storage_of values.storage_type) values.scope (ns_list values values.scope)
        (kf_list values values.scope)
    else single_body (storage_of values.storage_type) values

-- `encode` is `encodeURIComponent`; `ok` says whether the server took the backup.
module _ (encode : String → String) (ok : Bool) where
  abbrev pub submit_built : String → Built → List (Act Mutation)
  submit_built code (refused text) = error text ∷ []
  submit_built code (body b) =
      send (create_backup code b)
      ∷ if_ok ok
          (success "备份任务已提交，刷新列表查看状态" ∷ go (String.◌++◌ "/backups/list?code=" (encode code)) ∷ [])

  unfoldable pub handle_submit : CreateFormValues → List (Act Mutation)
  unfolding build
  handle_submit values =
      if truthy values.code then submit_built values.code (build values) else error "请选择集群" ∷ []

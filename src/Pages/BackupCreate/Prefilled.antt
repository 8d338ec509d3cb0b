-- ===== src/Pages/BackupCreate/Prefilled.antt =====
-- frontend/src/pages/resources/list.tsx and frontend/src/pages/backups/create.tsx: the backup form
-- that a row of the list opens.
use Prim.Native.String
use k8s_platform.Common.{String, ◌≡◌, refl, ap, ◌∙◌, Bool, true, Option, none, some, List, [], ◌∷◌}
use k8s_platform.Common.Dict
use k8s_platform.Text.{
  truthy, or_text, or_none, text_of, opt_truthy, or_text-some, or_text-none, or_text-truthy,
}
use k8s_platform.Json.{Json}
use k8s_platform.Api.Resource.{KubernetesResource}
use k8s_platform.Api.Backup.{Mutation, create_backup, single, local}
use k8s_platform.Pages.{sent}
use k8s_platform.Pages.BackupCreate.Submitted.{sent-if_ok}
use k8s_platform.Pages.ResourceList.{ListState, given}
use k8s_platform.Pages.ResourceList.Actions.{backup_params, backup_url}
use k8s_platform.Pages.BackupCreate.{
  CreateFormValues, object, local_disk, initial_values, handle_submit, build, only, param,
}

-- The backup of one object.
abbrev pub backup_of : (code kind name namespace : String) → Mutation
backup_of code kind name namespace = create_backup code (record {
  mode = some single;
  namespace = some namespace;
  namespaces = none;
  target_kind = some kind;
  target_name = some name;
  kind_filter = none;
  storage_type = some local;
})

-- What the form starts with.
abbrev pub prefilled : (code kind name namespace : String) → CreateFormValues
prefilled code kind name namespace = record {
  code = code;
  namespace = or_none namespace;
  namespaces = only namespace;
  scope = object;
  kind = kind;
  kind_filter = only kind;
  name = some name;
  storage_type = local_disk;
}

-- The parameter of the namespace, written only where there is one.
namespace_param :
    (code kind api_version name ns : String)
    → param
        (("code", code)
          ∷ ("kind", kind)
          ∷ ("apiVersion", api_version)
          ∷ ("name", name)
          ∷ given "namespace" ns)
        "namespace"
      ≡ ns
unfolding Dict.get
namespace_param code kind api_version name String.[] = refl
namespace_param code kind api_version name (String.◌∷◌ c ns) = refl

initial_values-prefilled :
    (code kind api_version name ns : String) (selected : Option String)
    → truthy code ≡ true
    → initial_values
        (("code", code)
          ∷ ("kind", kind)
          ∷ ("apiVersion", api_version)
          ∷ ("name", name)
          ∷ given "namespace" ns)
        selected
      ≡ prefilled code kind name ns
unfolding initial_values Dict.get
initial_values-prefilled code kind api_version name ns selected chosen =
    let ns_back = namespace_param code kind api_version name ns in
    λ i. record {
      code = or_text-truthy code (or_text selected "") chosen i;
      namespace = or_none (ns_back i);
      namespaces = only (ns_back i);
      scope = object;
      kind = or_text-some kind i;
      kind_filter = only (or_text-some kind i);
      name = some (or_text-some name i);
      storage_type = local_disk;
    }

module _ (encode : String → String) (ok : Bool) where
  handle_submit-prefilled :
      (code kind name ns : String)
      → truthy code ≡ true
      → truthy kind ≡ true
      → truthy name ≡ true
      → sent (handle_submit encode ok (prefilled code kind name ns))
        ≡ backup_of code kind name ns ∷ []
  unfolding handle_submit build
  handle_submit-prefilled code kind name ns c k n =
      rw (c, k, n, n, or_text-none ns)
        (ap (◌∷◌ (backup_of code kind name ns)) (
          sent-if_ok encode ok "备份任务已提交，刷新列表查看状态"
            (String.◌++◌ "/backups/list?code=" (encode code))))

or_text_truthy_of : (o : Option String) → opt_truthy o ≡ true → truthy (text_of o) ≡ true
or_text_truthy_of none h = cc
or_text_truthy_of (some s) h = h

module _ (encode : String → String) (query : List (String × String) → String)
    (trim : String → String) (template : String → String → Option String → String)
    (read : String → List (String × String)) where
  -- A form that a row of the list opened, submitted as it is, asks for one backup, of the object of
  -- the row: where the cluster, the kind and the name are not empty and the parameters of the
  -- URL are read back as they were written.
  pub backup_url-handle_submit :
      (ok : Bool) (selected : Option String) (state : ListState) (item : KubernetesResource Json)
      → read (backup_url encode query trim template state item)
        ≡ backup_params encode query trim template state item
      → opt_truthy state.cluster_code ≡ true
      → truthy state.kind ≡ true
      → truthy item.metadata.name ≡ true
      → sent (
          handle_submit encode ok
            (initial_values (read (backup_url encode query trim template state item)) selected))
        ≡ backup_of
            (text_of state.cluster_code)
            state.kind
            item.metadata.name
            (or_text item.metadata.namespace "")
          ∷ []
  unfolding backup_url backup_params
  backup_url-handle_submit ok selected state item back chosen kind name =
      let code = or_text_truthy_of state.cluster_code chosen in
      let ns = or_text item.metadata.namespace "" in
      ap (λ l. sent (handle_submit encode ok (initial_values l selected))) back
      ∙ ap (λ v. sent (handle_submit encode ok v))
          (initial_values-prefilled (text_of state.cluster_code) state.kind _ item.metadata.name ns
            selected code)
      ∙ handle_submit-prefilled encode ok (text_of state.cluster_code) state.kind item.metadata.name
          ns code kind name

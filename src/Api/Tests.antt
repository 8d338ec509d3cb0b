-- ===== src/Api/Tests.antt =====
-- The endpoints at concrete inputs.
use Prim.Native.Char.{code}
use package.text.Mathlib.TextEquality.{Char-path}
use k8s_platform.Common.{
  ℕ, zero, suc, String, ◌≡◌, refl, ap, Bool, true, false, none, some, [], ◌∷◌, nat_eq,
  if◌then◌else◌, arith,
}
use k8s_platform.Text.{free, or_text}
use k8s_platform.Api.{refetched}
use k8s_platform.Slices.User
use k8s_platform.Api.Rbac.{BindUserRoleBody}
use k8s_platform.Api.Rbac.Endpoints
use k8s_platform.Api.Rbac.Endpoints.Freshness.{rbac_refetched}
use k8s_platform.Api.Cluster
use k8s_platform.Api.Cluster.{cluster_refetched}
use k8s_platform.Api.Backup
use k8s_platform.Api.Backup.{backup_refetched}
use k8s_platform.Api.Helm
use k8s_platform.Api.Helm.{helm_refetched}
use k8s_platform.Api.Version.{version_seq_label-injective}
use k8s_platform.Api.Resource
use k8s_platform.Api.Resource.{GetResourceParams, ListResourcesParams, resource_refetched}
use k8s_platform.Api.Resource.Paths.{slash, object_url-injective}

-- A number as so many strokes.
abbrev strokes : ℕ → String
strokes zero = ""
strokes (suc n) = String.◌∷◌ "|" (strokes n)

abbrev binding : BindUserRoleBody
binding = record {
  role_id = 3;
  scope_type = User.cluster;
  cluster_code = some "c1";
  namespace = none;
}

-- A binding leaves the numbers of users in the list of roles as they were.
rbac_refetched_example :
    refetched
      (Endpoints.invalidates strokes (Endpoints.bind_user_role 7 binding))
      (Endpoints.provides strokes (Endpoints.list_roles none) none)
    ≡ false
rbac_refetched_example =
    rbac_refetched strokes (Endpoints.bind_user_role 7 binding) (Endpoints.list_roles none) none
      refl

permissions_refetched :
    refetched
      (Endpoints.invalidates strokes (Endpoints.set_role_permissions 3 []))
      (Endpoints.provides strokes (Endpoints.get_role_permissions 3) none)
    ≡ true
permissions_refetched =
    rbac_refetched strokes (Endpoints.set_role_permissions 3 []) (Endpoints.get_role_permissions 3)
      none refl

abbrev answer : Cluster.ListClustersResponse
answer = record {
  items =
      record {
        id = none;
        code = "c1";
        name = "one";
        description = none;
        api_server = none;
        status = 1;
        version = none;
        node_count = none;
        last_sync_at = none;
        labels = none;
        creator_id = none;
        created_at = none;
        updated_at = none;
      }
      ∷ [];
  total = 1;
}

cluster_refetched_example :
    refetched
      (Cluster.invalidates (Cluster.ping_cluster "c1"))
      (Cluster.provides (Cluster.list_clusters none) (some answer))
    ≡ true
cluster_refetched_example =
    cluster_refetched (Cluster.ping_cluster "c1") (Cluster.list_clusters none) (some answer) refl

deleted_refetched :
    refetched
      (Backup.invalidates (Backup.delete_backup 5))
      (Backup.provides (Backup.get_backup 5) none)
    ≡ true
deleted_refetched = backup_refetched (Backup.delete_backup 5) (Backup.get_backup 5) none refl

charts_refetched :
    refetched
      (Helm.invalidates (Helm.remove_repo "r"))
      (Helm.provides (Helm.search_charts none (some "web")))
    ≡ Helm.shows (Helm.search_charts none (some "web")) (Helm.subject_of (Helm.remove_repo "r"))
charts_refetched = helm_refetched (Helm.remove_repo "r") (Helm.search_charts none (some "web"))

abbrev pod : GetResourceParams
pod = record {
  code = "c1";
  api_version = "apps/v1";
  kind = "Deployment";
  namespace = some "dev";
  name = "web";
}

abbrev deployments : ListResourcesParams
deployments = record {
  code = "c1";
  api_version = "apps/v1";
  kind = "Deployment";
  namespace = none;
  page = none;
  size = none;
  keyword = none;
}

resource_refetched_example :
    (refetched
        (Resource.invalidates (Resource.delete_resource pod))
        (Resource.provides (Resource.list_resources deployments))
      ≡ true)
    × (refetched
          (Resource.invalidates (Resource.delete_resource pod))
          (Resource.of_changed (Resource.changes (Resource.delete_resource pod)))
        ≡ Resource.is_some (Resource.changes (Resource.delete_resource pod)))
resource_refetched_example = resource_refetched (Resource.delete_resource pod) deployments

strokes_inj : (a b : ℕ) → strokes a ≡ strokes b → a ≡ b
strokes_inj zero zero e = refl
strokes_inj zero (suc b) e = cc
strokes_inj (suc a) zero e = cc
strokes_inj (suc a) (suc b) e = ap suc (strokes_inj a b cc)

one_label : ◌≡◌ {A = ℕ} 4 4
one_label = version_seq_label-injective strokes strokes_inj 4 4 refl

-- The escapes of two of the characters: "%1" for a slash, "%0" for a percent sign.
abbrev escape : String → String
escape String.[] = ""
escape (String.◌∷◌ c s) =
    if nat_eq (code c) (code "/")
    then String.◌∷◌ "%" (String.◌∷◌ "1" (escape s))
    else if nat_eq (code c) (code "%")
    then String.◌∷◌ "%" (String.◌∷◌ "0" (escape s))
    else String.◌∷◌ c (escape s)

-- The flag is set right after a percent sign.
abbrev unescape : Bool → String → String
unescape flag String.[] = ""
unescape false (String.◌∷◌ c s) =
    if nat_eq (code c) (code "%") then unescape true s else String.◌∷◌ c (unescape false s)
unescape true (String.◌∷◌ c s) =
    String.◌∷◌ (if nat_eq (code c) (code "1") then "/" else "%") (unescape false s)

escape-clean : (s : String) → free slash (escape s) ≡ true
escape-clean String.[] = refl
escape-clean (String.◌∷◌ c s) = ground (arith, escape-clean s)

escape-back : (s : String) → unescape false (escape s) ≡ s
escape-back String.[] = refl
escape-back (String.◌∷◌ c s) = ground (arith, escape-back s, Char-path c "/", Char-path c "%")

object_url-injective_example :
    (pod.code ≡ pod.code)
    × (pod.api_version ≡ pod.api_version)
    × (pod.kind ≡ pod.kind)
    × (or_text pod.namespace "" ≡ or_text pod.namespace "")
    × (pod.name ≡ pod.name)
object_url-injective_example =
    object_url-injective escape (unescape false) escape-clean escape-back pod pod refl

-- ===== src/Api/Helm.antt =====
-- frontend/src/app/services/helm.ts: the releases, repositories and charts of Helm.
use Prim.Native.String
use k8s_platform.Common.{
  ℕ, String, ◌≡◌, Bool, true, false, Option, none, some, List, [], ◌∷◌, ◌++◌, arith, nat_eq,
  if◌then◌else◌,
}
use k8s_platform.Text.{truthy}
use k8s_platform.Api
use k8s_platform.Api.{
  Request, Method, Tag, number, text, list_of, refetched, same_tag, same_tag_refl, any-append_last,
}

pub record HelmRelease : Type 0 where
  pub name : String
  pub namespace : String
  pub revision : String
  pub status : String
  pub chart : String
  pub app_version : String
  pub updated : String

pub record ListReleasesParams : Type 0 where
  pub cluster_code : String
  pub namespace : Option String

pub record ListReleasesResponse : Type 0 where
  pub items : List HelmRelease
  pub total : ℕ

pub record InstallReleaseBody : Type 0 where
  pub release_name : String
  pub namespace : String
  pub chart_ref : String
  pub repo_url : Option String
  pub values : Option String
  pub version : Option String
  pub wait : Option Bool
  pub dry_run : Option Bool

pub record InstallReleaseParams : Type 0 where
  pub cluster_code : String
  pub body : InstallReleaseBody

pub record HelmHistoryItem : Type 0 where
  pub revision : ℕ
  pub status : String
  pub chart : String
  pub app_version : String
  pub description : String
  pub updated : String

pub record HelmRepo : Type 0 where
  pub name : String
  pub url : String

pub record AddRepoBody : Type 0 where
  pub name : String
  pub url : String
  pub username : Option String
  pub password : Option String

pub record HelmChart : Type 0 where
  pub name : String
  pub version : String
  pub app_version : String
  pub description : String

-- A release of a cluster, as most endpoints name it.
pub record ReleaseName : Type 0 where
  pub cluster_code : String
  pub namespace : String
  pub name : String

pub data Query : Type 0 where
  list_releases : ListReleasesParams → Query
  list_history : ReleaseName → Query
  list_repos : Query
  search_charts : (repo keyword : Option String) → Query

pub data Mutation : Type 0 where
  install_release : InstallReleaseParams → Mutation
  uninstall_release : ReleaseName → Mutation
  rollback_release : ReleaseName → (revision : Option ℕ) → Mutation
  add_repo : AddRepoBody → Mutation
  remove_repo : (name : String) → Mutation
  update_repos : (name : Option String) → Mutation

abbrev pub Answer : Query → Type 0
Answer (list_releases p) = ListReleasesResponse
Answer (list_history p) = List HelmHistoryItem
Answer list_repos = List HelmRepo × ℕ
Answer (search_charts repo keyword) = List HelmChart × ℕ

-- The query string, a missing or empty value left out.
pub data Value : Type 0 where
  of_text : String → Value
  of_number : ℕ → Value

abbrev Fields : Type 0
Fields = List (String × Value)

pub data Body : Type 0 where
  install_body : InstallReleaseBody → Body
  repo_body : AddRepoBody → Body

abbrev text_field : String → Option String → Fields
text_field key none = []
text_field key (some s) = if truthy s then (key, of_text s) ∷ [] else []

abbrev filled : Fields → Option Fields
filled [] = none
filled (f ∷ fs) = some (f ∷ fs)

abbrev revision_field : Option ℕ → Option Fields
revision_field none = none
revision_field (some n) = if nat_eq n 0 then none else some (("revision", of_number n) ∷ [])

-- `encode` is `encodeURIComponent`.
module _ (encode : String → String) where
  abbrev releases_url : String → String → String
  releases_url code rest =
      String.◌++◌ "/clusters/" (String.◌++◌ (encode code) (String.◌++◌ "/helm/releases" rest))

  abbrev release_url : ReleaseName → String → String
  release_url r rest = releases_url r.cluster_code (
      String.◌++◌ "/"
        (String.◌++◌ (encode r.namespace) (String.◌++◌ "/" (String.◌++◌ (encode r.name) rest))))

  unfoldable pub query_request : Query → Request Fields Body
  query_request (list_releases p) = record {
    url = releases_url p.cluster_code "";
    method = Api.get_;
    params = filled (text_field "namespace" p.namespace);
    body = none;
  }
  query_request (list_history r) = record {
    url = release_url r "/history";
    method = Api.get_;
    params = none;
    body = none;
  }
  query_request list_repos = record {
    url = "/helm/repos";
    method = Api.get_;
    params = none;
    body = none;
  }
  query_request (search_charts repo keyword) = record {
    url = "/helm/charts";
    method = Api.get_;
    params = some (text_field "repo" repo ++ text_field "keyword" keyword);
    body = none;
  }

  unfoldable pub mutation_request : Mutation → Request Fields Body
  mutation_request (install_release p) = record {
    url = releases_url p.cluster_code "";
    method = Api.post;
    params = none;
    body = some (install_body p.body);
  }
  mutation_request (uninstall_release r) = record {
    url = release_url r "";
    method = Api.delete;
    params = none;
    body = none;
  }
  mutation_request (rollback_release r revision) = record {
    url = release_url r "/rollback";
    method = Api.post;
    params = revision_field revision;
    body = none;
  }
  mutation_request (add_repo form) = record {
    url = "/helm/repos";
    method = Api.post;
    params = none;
    body = some (repo_body form);
  }
  mutation_request (remove_repo name) = record {
    url = String.◌++◌ "/helm/repos/" (encode name);
    method = Api.delete;
    params = none;
    body = none;
  }
  mutation_request (update_repos name) = record {
    url = "/helm/repos/update";
    method = Api.post;
    params = filled (text_field "name" name);
    body = none;
  }

unfoldable pub provides : Query → List Tag
provides (list_releases p) = list_of "HelmRelease" ∷ []
provides (list_history r) = []
provides list_repos = list_of "HelmRepo" ∷ []
provides (search_charts repo keyword) = list_of "HelmChart" ∷ []

unfoldable pub invalidates : Mutation → List Tag
invalidates (install_release p) = list_of "HelmRelease" ∷ []
invalidates (uninstall_release r) = list_of "HelmRelease" ∷ []
invalidates (rollback_release r revision) = list_of "HelmRelease" ∷ []
invalidates (add_repo form) = list_of "HelmRepo" ∷ list_of "HelmChart" ∷ []
invalidates (remove_repo name) = list_of "HelmRepo" ∷ list_of "HelmChart" ∷ []
invalidates (update_repos name) = list_of "HelmRepo" ∷ list_of "HelmChart" ∷ []

-- What a mutation works on, and what a query shows.
pub data Subject : Type 0 where
  releases repositories : Subject

abbrev pub subject_of : Mutation → Subject
subject_of (install_release _) = releases
subject_of (uninstall_release _) = releases
subject_of (rollback_release _ _) = releases
subject_of _ = repositories

-- The charts of a search are those of the repositories; the history is fetched anew at each opening.
abbrev pub shows : Query → Subject → Bool
shows (list_releases _) releases = true
shows list_repos repositories = true
shows (search_charts _ _) repositories = true
shows _ _ = false

-- A mutation refetches the lists of releases, or the list of the repositories and the chart
-- searches, exactly as it works on releases or on repositories; the history of a release never.
pub helm_refetched :
    (m : Mutation) (q : Query) → refetched (invalidates m) (provides q) ≡ shows q (subject_of m)
unfolding invalidates provides
helm_refetched m q = ground arith

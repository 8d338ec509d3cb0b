-- ===== src/Api/Cluster.antt =====
-- frontend/src/app/services/cluster.ts: the clusters.
use Prim.Native.String
use k8s_platform.Common.{
  ℕ, String, ◌≡◌, Bool, true, false, ◌==◌, Option, none, some, List, [], ◌∷◌, ◌++◌, map, arith, any,
  eq_refl, eq_iff, gtb, if◌then◌else◌,
}
use k8s_platform.Text.{truthy}
use k8s_platform.Api
use k8s_platform.Api.{
  Request, Method, Tag, number, text, list_of, refetched, same_tag, same_tag_refl, any-append_last,
}

pub record Cluster : Type 0 where
  pub id : Option ℕ
  pub code : String
  pub name : String
  pub description : Option String
  pub api_server : Option String
  pub status : ℕ
  pub version : Option String
  pub node_count : Option ℕ
  pub last_sync_at : Option String
  pub labels : Option (List (String × String))
  pub creator_id : Option ℕ
  pub created_at : Option String
  pub updated_at : Option String

pub record ListClustersParams : Type 0 where
  pub keyword : Option String
  pub page : Option ℕ
  pub size : Option ℕ

pub record ListClustersResponse : Type 0 where
  pub items : List Cluster
  pub total : ℕ

pub record ImportClusterData : Type 0 where
  pub name : String
  pub code : String
  pub description : Option String
  pub kubeconfig_text : Option String
  pub kubeconfig_base64 : Option String
  pub labels : Option String

pub record UpdateClusterData : Type 0 where
  pub name : Option String
  pub description : Option String
  pub kubeconfig_text : Option String
  pub kubeconfig_base64 : Option String
  pub labels : Option String

pub record PingResponse : Type 0 where
  pub server_version : String
  pub node_count : ℕ
  pub cost_ms : ℕ

pub record TempPingData : Type 0 where
  pub kubeconfig_text : Option String

pub record StreamPodLogsParams : Type 0 where
  pub cluster_code : String
  pub namespace : String
  pub pod : String
  pub container : Option String
  pub follow : Option Bool
  pub tail : Option ℕ

pub record StreamPodLogsResponse : Type 0 where
  pub channel : String
  pub follow : Bool
  pub tail : ℕ
  pub container : String
  pub pod : String
  pub namespace : String
  pub cluster : String
  pub ws_endpoint : String
  pub action : String
  pub hint : String

pub data Query : Type 0 where
  list_clusters : Option ListClustersParams → Query
  get_cluster : (code : String) → Query
  stream_pod_logs : StreamPodLogsParams → Query

pub data Mutation : Type 0 where
  import_cluster : ImportClusterData → Mutation
  update_cluster : (code : String) → UpdateClusterData → Mutation
  delete_cluster : (code : String) → Mutation
  ping_cluster : (code : String) → Mutation
  temp_ping : TempPingData → Mutation

pub data Params : Type 0 where
  cluster_params : ListClustersParams → Params
  log_params : List (String × String) → Params

pub data Body : Type 0 where
  import_body : ImportClusterData → Body
  update_body : UpdateClusterData → Body
  ping_body : TempPingData → Body

abbrev pub Answer : Query → Type 0
Answer (list_clusters p) = ListClustersResponse
Answer (get_cluster code) = Cluster
Answer (stream_pod_logs p) = StreamPodLogsResponse

abbrev pub cluster_tag : String → Tag
cluster_tag code = record { of_type = "Cluster"; id = text code }

abbrev cluster_url : String → String → String
cluster_url code rest = String.◌++◌ "/clusters/" (String.◌++◌ code rest)

abbrev container_param : Option String → List (String × String)
container_param none = []
container_param (some c) = if truthy c then ("container", c) ∷ [] else []

abbrev follow_param : Option Bool → List (String × String)
follow_param none = []
follow_param (some f) = ("follow", if f then "1" else "0") ∷ []

abbrev list_params : Option ListClustersParams → Option Params
list_params none = none
list_params (some p) = some (cluster_params p)

-- The query string of the pod logs: an empty container and a tail of 0 are left out.
module _ (show : ℕ → String) where
  abbrev tail_param : Option ℕ → List (String × String)
  tail_param none = []
  tail_param (some n) = if gtb n 0 then ("tail", show n) ∷ [] else []

  unfoldable pub query_request : Query → Request Params Body
  query_request (list_clusters params) = record {
    url = "/clusters";
    method = Api.get_;
    params = list_params params;
    body = none;
  }
  query_request (get_cluster code) = record {
    url = cluster_url code "";
    method = Api.get_;
    params = none;
    body = none;
  }
  query_request (stream_pod_logs p) = record {
    url = cluster_url p.cluster_code (
        String.◌++◌ "/pods/"
          (String.◌++◌ p.namespace (String.◌++◌ "/" (String.◌++◌ p.pod "/logs"))));
    method = Api.get_;
    params =
        some
          (log_params (container_param p.container ++ follow_param p.follow ++ tail_param p.tail));
    body = none;
  }

unfoldable pub provides : (q : Query) → Option (Answer q) → List Tag
provides (list_clusters params) none = list_of "Cluster" ∷ []
provides (list_clusters params) (some result) =
    map (λ (c : Cluster). cluster_tag c.code) result.items ++ list_of "Cluster" ∷ []
provides (get_cluster code) result = cluster_tag code ∷ []
provides (stream_pod_logs p) result = []

unfoldable pub mutation_request : Mutation → Request Params Body
mutation_request (import_cluster form) = record {
  url = "/clusters";
  method = Api.post;
  params = none;
  body = some (import_body form);
}
mutation_request (update_cluster code form) = record {
  url = cluster_url code "";
  method = Api.put;
  params = none;
  body = some (update_body form);
}
mutation_request (delete_cluster code) = record {
  url = cluster_url code "";
  method = Api.delete;
  params = none;
  body = none;
}
mutation_request (ping_cluster code) = record {
  url = cluster_url code "/ping";
  method = Api.post;
  params = none;
  body = none;
}
mutation_request (temp_ping form) = record {
  url = "/clusters/_/ping";
  method = Api.post;
  params = none;
  body = some (ping_body form);
}

unfoldable pub invalidates : Mutation → List Tag
invalidates (import_cluster form) = list_of "Cluster" ∷ []
invalidates (update_cluster code form) = cluster_tag code ∷ list_of "Cluster" ∷ []
invalidates (delete_cluster code) = cluster_tag code ∷ list_of "Cluster" ∷ []
invalidates (ping_cluster code) = cluster_tag code ∷ []
invalidates (temp_ping form) = []

-- A ping updates the version and the number of nodes of one cluster, which a list shows where the
-- cluster is among its items.
abbrev pub listed : String → Option ListClustersResponse → Bool
listed code none = false
listed code (some result) = any (λ (c : Cluster). c.code == code) result.items

abbrev pub stale : Mutation → (q : Query) → Option (Answer q) → Bool
stale (import_cluster _) (list_clusters _) result = true
stale (update_cluster _ _) (list_clusters _) result = true
stale (delete_cluster _) (list_clusters _) result = true
stale (ping_cluster code) (list_clusters _) result = listed code result
stale (update_cluster code _) (get_cluster of) result = code == of
stale (delete_cluster code) (get_cluster of) result = code == of
stale (ping_cluster code) (get_cluster of) result = code == of
stale _ _ _ = false

listed-tagged :
    (code : String) (items : List Cluster) (rest : List Tag)
    → any (λ (c : Cluster). c.code == code) items ≡ true
    → any (same_tag (cluster_tag code)) (map (λ (c : Cluster). cluster_tag c.code) items ++ rest)
      ≡ true
listed-tagged code [] rest h = cc
listed-tagged code (c ∷ items) rest h =
    ground (arith, eq_iff c.code code, eq_refl code, listed-tagged code items rest)

list_tagged :
    (items : List Cluster)
    → any
        (same_tag (list_of "Cluster"))
        (map (λ (c : Cluster). cluster_tag c.code) items ++ list_of "Cluster" ∷ [])
      ≡ true
list_tagged items =
    any-append_last (same_tag (list_of "Cluster")) (map (λ (c : Cluster). cluster_tag c.code) items)
      (list_of "Cluster") (same_tag_refl (list_of "Cluster"))

-- A mutation of clusters refetches every query whose answer it makes stale: a list of clusters after
-- an import, a change or a removal, and after a ping if it lists the pinged cluster; and the cluster
-- itself.
pub cluster_refetched :
    (m : Mutation) (q : Query) (result : Option (Answer q))
    → stale m q result ≡ true
    → refetched (invalidates m) (provides q result) ≡ true
unfolding invalidates provides
cluster_refetched m (get_cluster of) result h = ground (arith, eq_refl of)
cluster_refetched m (stream_pod_logs p) result h = ground arith
cluster_refetched m (list_clusters p) none h = ground arith
cluster_refetched (ping_cluster code) (list_clusters p) (some result) h =
    ground (arith, listed-tagged code result.items (list_of "Cluster" ∷ []))
cluster_refetched (import_cluster form) (list_clusters p) (some result) h =
    ground (arith, list_tagged result.items)
cluster_refetched (update_cluster code form) (list_clusters p) (some result) h =
    ground (arith, list_tagged result.items)
cluster_refetched (delete_cluster code) (list_clusters p) (some result) h =
    ground (arith, list_tagged result.items)
cluster_refetched (temp_ping form) (list_clusters p) (some result) h =
    ground (arith, list_tagged result.items)

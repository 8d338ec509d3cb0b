-- ===== src/Api/Resource.antt =====
-- frontend/src/app/services/resource.ts: the resources of a cluster. The open fields of an object
-- (`spec`, `status`, labels) are values of a type of their own.
pub mod Paths
use Prim.Native.String
use k8s_platform.Common.{
  ℕ, String, ◌≡◌, refl, Bool, true, false, ◌&&◌, ◌||◌, ◌==◌, Option, none, some, List, [], ◌∷◌,
  ◌++◌, map, arith, any, nat_eq, eq_refl, eq_iff, gtb, if◌then◌else◌, coalesce, Option-cases,
  Bool-cases, contains,
}
use k8s_platform.Text.{truthy, opt_truthy, or_text}
use k8s_platform.Api
use k8s_platform.Api.{
  Request, Method, Tag, number, text, list_of, refetched, same_tag, same_tag_refl, any-append_last,
}

pub record ListResourcesParams : Type 0 where
  pub code : String
  pub api_version : String
  pub kind : String
  pub namespace : Option String
  pub page : Option ℕ
  pub size : Option ℕ
  pub keyword : Option String

pub record GetResourceParams : Type 0 where
  pub code : String
  pub api_version : String
  pub kind : String
  pub namespace : Option String
  pub name : String

pub record CreateResourceParams : Type 0 where
  pub code : String
  pub api_version : String
  pub kind : String
  pub yaml : String

pub record UpdateResourceParams : Type 0 where
  pub code : String
  pub api_version : String
  pub kind : String
  pub namespace : Option String
  pub name : String
  pub yaml : String

pub record Metadata (J : Type 0) : Type 0 where
  pub name : String
  pub namespace : Option String
  pub uid : Option String
  pub resource_version : Option String
  pub creation_timestamp : Option String
  pub labels : Option (List (String × String))
  pub annotations : Option (List (String × String))
  pub others : List (String × J)

pub record KubernetesResource (J : Type 0) : Type 0 where
  pub api_version : String
  pub kind : String
  pub metadata : Metadata J
  pub spec : Option (List (String × J))
  pub status : Option (List (String × J))
  pub others : List (String × J)

pub record ListResourcesResponse (J : Type 0) : Type 0 where
  pub items : List (KubernetesResource J)
  pub total : ℕ
  pub page : ℕ
  pub size : ℕ

pub data Query : Type 0 where
  list_resources : ListResourcesParams → Query
  get_resource : GetResourceParams → Query
  list_namespaces : (code : String) → Query

pub data Mutation : Type 0 where
  create_resource : CreateResourceParams → Mutation
  update_resource : UpdateResourceParams → Mutation
  delete_resource : GetResourceParams → Mutation

-- The parameters of a list, and the body `{ yaml }`.
pub record PageParams : Type 0 where
  pub namespace : Option String
  pub page : Option ℕ
  pub size : Option ℕ
  pub keyword : Option String

pub record YamlBody : Type 0 where
  pub yaml : String

-- `params` without its text.
abbrev pub object_of : UpdateResourceParams → GetResourceParams
object_of p = record {
  code = p.code;
  api_version = p.api_version;
  kind = p.kind;
  namespace = p.namespace;
  name = p.name;
}

abbrev then_ : String → String → String → String
then_ a sep b = String.◌++◌ a (String.◌++◌ sep b)

abbrev pub resource_tag : GetResourceParams → Tag
resource_tag p = record {
  of_type = "Resource";
  id = text (
      then_ p.code "-"
        (then_ p.api_version "-" (then_ p.kind "-" (then_ (or_text p.namespace "") "-" p.name))));
}

-- `encode` is `encodeURIComponent`.
module _ (encode : String → String) where
  abbrev pub kind_url : String → String → String → String → String
  kind_url code api_version kind rest = String.◌++◌ "/clusters/" (
      then_ (encode code) "/resources/"
        (then_ (encode api_version) "/" (String.◌++◌ (encode kind) rest)))

  -- The path of an object, with its namespace where it has one.
  unfoldable pub object_url : GetResourceParams → String
  object_url p =
      if opt_truthy p.namespace
      then kind_url p.code p.api_version p.kind
          (String.◌++◌ "/" (then_ (encode (or_text p.namespace "")) "/" (encode p.name)))
      else kind_url p.code p.api_version p.kind (String.◌++◌ "/" (encode p.name))

  unfoldable pub query_request : Query → Request PageParams YamlBody
  unfolding object_url
  query_request (list_resources p) = record {
    url = kind_url p.code p.api_version p.kind "";
    method = Api.get_;
    params =
        some
          (record { namespace = p.namespace; page = p.page; size = p.size; keyword = p.keyword });
    body = none;
  }
  query_request (get_resource p) = record {
    url = object_url p;
    method = Api.get_;
    params = none;
    body = none;
  }
  query_request (list_namespaces code) = record {
    url = String.◌++◌ "/clusters/" (String.◌++◌ (encode code) "/resources/v1/Namespace");
    method = Api.get_;
    params = none;
    body = none;
  }

  unfoldable pub mutation_request : Mutation → Request PageParams YamlBody
  unfolding object_url
  mutation_request (create_resource p) = record {
    url = kind_url p.code p.api_version p.kind "";
    method = Api.post;
    params = none;
    body = some (record { yaml = p.yaml });
  }
  mutation_request (update_resource p) = record {
    url = object_url (object_of p);
    method = Api.put;
    params = none;
    body = some (record { yaml = p.yaml });
  }
  mutation_request (delete_resource p) = record {
    url = object_url p;
    method = Api.delete;
    params = none;
    body = none;
  }

unfoldable pub provides : Query → List Tag
provides (list_resources p) = list_of "Resource" ∷ []
provides (get_resource p) = resource_tag p ∷ []
provides (list_namespaces code) = []

unfoldable pub invalidates : Mutation → List Tag
invalidates (create_resource p) = list_of "Resource" ∷ []
invalidates (update_resource p) = list_of "Resource" ∷ resource_tag (object_of p) ∷ []
invalidates (delete_resource p) = list_of "Resource" ∷ resource_tag p ∷ []

-- `transformResponse` of the namespaces, none where the answer has no `items`.
unfoldable pub namespace_names : {J : Type 0} → Option (List (KubernetesResource J)) → List String
namespace_names {J = J} response =
    map (λ (ns : KubernetesResource J). ns.metadata.name) (coalesce response [])

-- The object that a mutation changes, none for a new one, whose name stands in its text.
abbrev pub changes : Mutation → Option GetResourceParams
changes (create_resource p) = none
changes (update_resource p) = some (object_of p)
changes (delete_resource p) = some p

-- The tags of the last answer about the changed object.
abbrev pub of_changed : Option GetResourceParams → List Tag
of_changed none = []
of_changed (some p) = provides (get_resource p)

abbrev pub is_some : Option GetResourceParams → Bool
is_some none = false
is_some (some p) = true

-- Every mutation of resources refetches every list of resources, and the object that it changes.
pub resource_refetched :
    (m : Mutation) (l : ListResourcesParams)
    → (refetched (invalidates m) (provides (list_resources l)) ≡ true)
      × (refetched (invalidates m) (of_changed (changes m)) ≡ is_some (changes m))
unfolding invalidates provides
resource_refetched (create_resource p) l = ground arith
resource_refetched (update_resource p) l =
    ground (arith, same_tag_refl (resource_tag (object_of p)))
resource_refetched (delete_resource p) l = ground (arith, same_tag_refl (resource_tag p))

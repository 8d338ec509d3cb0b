-- ===== src/Pages/ResourceEdit/Addressed.antt =====
-- frontend/src/pages/resources: a row of the list, the page that it opens, and the backup form that
-- it opens.
use Prim.Native.String
use k8s_platform.Common.{
  String, ◌≡◌, refl, ap, ◌∙◌, true, false, ◌==◌, ◌&&◌, Option, none, some, List, if◌then◌else◌,
  coalesce, arith,
}
use k8s_platform.Text.{free, truthy, or_text, text_of, opt_truthy, or_text-some, or_text-truthy}
use k8s_platform.Json.{Json}
use k8s_platform.Api.Resource.Paths.{slash}
use k8s_platform.Api.Resource.{KubernetesResource, GetResourceParams}
use k8s_platform.Pages.ResourceList.{ListState, kind_meta}
use k8s_platform.Pages.ResourceList.Actions.{edit_url}
use k8s_platform.Pages.ResourceEdit.{EditPageParams, object_of}

-- The object of a row of the list.
abbrev pub object_of_row : ListState → KubernetesResource Json → GetResourceParams
object_of_row state item = record {
  code = text_of state.cluster_code;
  api_version = (kind_meta state.tab state.kind).api_version;
  kind = state.kind;
  namespace = some (or_text item.metadata.namespace "");
  name = item.metadata.name;
}

-- The path of an edit page, by the texts between its slashes.
abbrev pub edit_path : (code api_version kind namespace name : String) → String
edit_path code api_version kind namespace name = String.◌++◌ "/resources/" (
    String.◌++◌ code (
      String.◌++◌ "/" (
        String.◌++◌ api_version (
          String.◌++◌ "/" (
            String.◌++◌ kind (
              String.◌++◌ "/" (
                String.◌++◌ namespace
                  (String.◌++◌ "/" (String.◌++◌ name (String.◌++◌ "/" "edit"))))))))))

-- The router decodes each part of the path of an edit page; a part has no slash.
abbrev pub Routes : (decode : String → String) → (match_path : String → EditPageParams) → Type 0
Routes decode match_path =
    (code api_version kind namespace name : String)
    → (free slash code
        && (free slash api_version
            && (free slash kind && (free slash namespace && free slash name))))
      ≡ true
    → match_path (edit_path code api_version kind namespace name) ≡ record {
      code = some (decode code);
      api_version = some (decode api_version);
      kind = some (decode kind);
      namespace = some (decode namespace);
      name = some (decode name);
    }

or_text_mark : (o : Option String) → or_text (some (or_text o "_")) "_" ≡ or_text o "_"
or_text_mark none = refl
or_text_mark (some String.[]) = refl
or_text_mark (some (String.◌∷◌ c s)) = refl

-- The namespace of the page: the mark stands for none.
namespace_back :
    (o : Option String)
    → (or_text o "" == "_") ≡ false
    → (if or_text o "_" == "_" then "" else or_text o "_") ≡ or_text o ""
namespace_back none h = refl
namespace_back (some String.[]) h = refl
namespace_back (some (String.◌∷◌ c s)) h = rw h refl

-- A text that `encodeURIComponent` writes without a slash and decoding reads back, and that decoding
-- leaves alone, since it has no `%`.
abbrev pub Coded : (encode decode : String → String) → String → Type 0
Coded encode decode s = (free slash (encode s) ≡ true) × (decode (encode s) ≡ s) × (decode s ≡ s)

-- What a row says of its object is so coded, and no namespace is called `_`, as no name of
-- Kubernetes is.
pub record IsPlain (encode decode : String → String) (state : ListState)
    (item : KubernetesResource Json) : Type 0 where
  pub code : decode (coalesce state.cluster_code "null") ≡ coalesce state.cluster_code "null"
  pub one_part : free slash (coalesce state.cluster_code "null") ≡ true
  pub api_version : Coded encode decode (kind_meta state.tab state.kind).api_version
  pub some_api_version : truthy (kind_meta state.tab state.kind).api_version ≡ true
  pub kind : Coded encode decode state.kind
  pub namespace : Coded encode decode (or_text item.metadata.namespace "_")
  pub no_mark : (or_text item.metadata.namespace "" == "_") ≡ false
  pub name : Coded encode decode item.metadata.name

-- A parameter with the default `d`, read back by decoding twice.
param_back :
    (decode : String → String) (raw s d : String)
    → decode raw ≡ s
    → decode s ≡ s
    → or_text (some s) d ≡ s
    → decode (or_text (some (decode raw)) d) ≡ s
param_back decode raw s d e f g = rw e (ap decode g ∙ f)

chosen_text : (o : Option String) → opt_truthy o ≡ true → coalesce o "null" ≡ text_of o
chosen_text none h = cc
chosen_text (some s) h = refl

-- The page that a row opens is about the object of the row, where the router decodes the parts of a
-- path, what the row says is coded plainly, and a cluster is chosen whose code has no slash.
pub edit_url-object_of :
    (encode decode trim : String → String) (query : List (String × String) → String)
    (template : String → String → Option String → String) (match_path : String → EditPageParams)
    (state : ListState) (item : KubernetesResource Json)
    → Routes decode match_path
    → opt_truthy state.cluster_code ≡ true
    → IsPlain encode decode state item
    → object_of decode (match_path (edit_url encode query trim template state item))
      ≡ object_of_row state item
unfolding object_of edit_url
edit_url-object_of encode decode trim query template match_path state item routes chosen plain =
    let api = (kind_meta state.tab state.kind).api_version in
    let ns = or_text item.metadata.namespace "_" in
    let at_code =
      param_back decode (coalesce state.cluster_code "null") (coalesce state.cluster_code "null") ""
        plain.code plain.code (or_text-some _) in
    let at_api =
      param_back decode (encode api) api "apps%2Fv1" plain.api_version.1 plain.api_version.2
        (or_text-truthy api _ plain.some_api_version) in
    let at_kind =
      param_back decode (encode state.kind) state.kind "" plain.kind.1 plain.kind.2
        (or_text-some _) in
    let at_ns =
      param_back decode (encode ns) ns "_" plain.namespace.1 plain.namespace.2
        (or_text_mark item.metadata.namespace) in
    let at_name =
      param_back decode (encode item.metadata.name) item.metadata.name "" plain.name.1 plain.name.2
        (or_text-some _) in
    let opened =
      routes (coalesce state.cluster_code "null") (encode api) (encode state.kind) (encode ns)
        (encode item.metadata.name)
        (ground (
          arith, plain.one_part, plain.api_version.0, plain.kind.0, plain.namespace.0, plain.name.0,
        )) in
    let namespace =
      ap (λ (n : String). if n == "_" then "" else n) at_ns
      ∙ namespace_back item.metadata.namespace plain.no_mark in
    ap (object_of decode) opened ∙ (λ i. record {
      code = (at_code ∙ chosen_text state.cluster_code chosen) i;
      api_version = at_api i;
      kind = at_kind i;
      namespace = some (namespace i);
      name = at_name i;
    })

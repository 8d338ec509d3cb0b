-- ===== src/Pages/ResourceEdit/Tests.antt =====
-- frontend/src/pages/resources: a router that splits a path at its slashes, and a row whose page it
-- opens.
use Prim.Native.Char.{Char, code}
use Prim.Native.String
use Prim.Native.String.append
use package.text.Mathlib.TextLemmas.{append_assoc}
use k8s_platform.Common.{
  ℕ, String, ◌≡◌, refl, ap, ◌∙◌, true, false, Option, none, some, List, [], ◌∷◌, nat_eq, arith,
  if◌then◌else◌,
}
use k8s_platform.Common.Dict
use k8s_platform.Text.{free}
use k8s_platform.Json.{Json}
use k8s_platform.Api.Resource.{KubernetesResource}
use k8s_platform.Api.Resource.Paths.{slash}
use k8s_platform.Pages.ResourceEdit.{
  EditPageParams, no_compare, toggle_seq, run_compare, open_compare, ordered_compare_seqs,
}
use k8s_platform.Pages.ResourceEdit.Selection
use k8s_platform.Pages.ResourceEdit.Selection.{
  Event, toggle, open_ticked, IsSelection, history, history-IsSelection,
}
use k8s_platform.Pages.ResourceEdit.Opening.{Opens, open_compare-Opens}
use k8s_platform.Pages.ResourceEdit.Addressed.{Routes, IsPlain, object_of_row, edit_url-object_of}
use k8s_platform.Pages.ResourceEdit.{object_of}
use k8s_platform.Pages.ResourceList.{ListState, kind_meta}
use k8s_platform.Pages.ResourceList.Actions.{edit_url}
use k8s_platform.Kinds.{all_kinds_map}

abbrev to_head : Char → List String → List String
to_head c [] = String.◌∷◌ c "" ∷ []
to_head c (s ∷ rest) = String.◌∷◌ c s ∷ rest

-- The parts of a text between its slashes.
parts : String → List String
parts String.[] = "" ∷ []
parts (String.◌∷◌ c s) = if nat_eq (code c) (code slash) then "" ∷ parts s else to_head c (parts s)

slash_first : (r : String) → String.◌++◌ "/" r ≡ String.◌∷◌ slash r
slash_first r = append.cons slash "" r ∙ ap (String.◌∷◌ slash) (append.nil r)

parts-append :
    (a r : String) → free slash a ≡ true → parts (String.◌++◌ a (String.◌++◌ "/" r)) ≡ a ∷ parts r
unfolding parts
parts-append String.[] r f = ap parts (append.nil (String.◌++◌ "/" r) ∙ slash_first r)
parts-append (String.◌∷◌ c a) r f =
    let miss : nat_eq (code c) (code slash) ≡ false = ground arith in
    let ih = parts-append a r (ground arith) in
    ap parts (append.cons c a (String.◌++◌ "/" r)) ∙ rw (miss, ih) refl

parts_last : (a : String) → free slash a ≡ true → parts a ≡ a ∷ []
unfolding parts
parts_last String.[] f = refl
parts_last (String.◌∷◌ c a) f =
    let miss : nat_eq (code c) (code slash) ≡ false = ground arith in
    rw (miss, parts_last a (ground arith)) refl

-- The parameters of the route `/resources/:code/:apiVersion/:kind/:namespace/:name/edit`.
abbrev of_parts : List String → EditPageParams
of_parts (_ ∷ _ ∷ code ∷ api_version ∷ kind ∷ namespace ∷ name ∷ rest) = record {
  code = some code;
  api_version = some api_version;
  kind = some kind;
  namespace = some namespace;
  name = some name;
}
of_parts _ = record { code = none; api_version = none; kind = none; namespace = none; name = none }

abbrev match_path : String → EditPageParams
match_path s = of_parts (parts s)

abbrev same : String → String
same s = s

resources_first : (r : String) → parts (String.◌++◌ "/resources/" r) ≡ "" ∷ "resources" ∷ parts r
unfolding parts
resources_first r =
    let whole : String.◌++◌ "/resources/" r
        ≡ String.◌∷◌ slash (String.◌++◌ "resources" (String.◌++◌ "/" r)) =
      append_assoc "/resources" "/" r
      ∙ append_assoc "/" "resources" (String.◌++◌ "/" r)
      ∙ slash_first (String.◌++◌ "resources" (String.◌++◌ "/" r)) in
    ap parts whole ∙ ap (◌∷◌ "") (parts-append "resources" r refl)

match_path-Routes : Routes same match_path
match_path-Routes a b c d e f = ap of_parts (
    resources_first _
    ∙ ap (λ l. "" ∷ "resources" ∷ l)
        (parts-append a _ (ground arith)
          ∙ ap (◌∷◌ a) (
              parts-append b _ (ground arith)
              ∙ ap (◌∷◌ b) (
                  parts-append c _ (ground arith)
                  ∙ ap (◌∷◌ c) (
                      parts-append d _ (ground arith)
                      ∙ ap (◌∷◌ d) (parts-append e "edit" (ground arith)))))))

abbrev pod_row : KubernetesResource Json
pod_row = record {
  api_version = "v1";
  kind = "Pod";
  metadata = record {
    name = "web-0";
    namespace = some "prod";
    uid = none;
    resource_version = none;
    creation_timestamp = none;
    labels = none;
    annotations = none;
    others = [];
  };
  spec = none;
  status = none;
  others = [];
}

abbrev pods : ListState
pods = record {
  cluster_code = some "east";
  tab = "workload";
  kind = "Pod";
  namespace = "prod";
  keyword = "";
  page = 1;
  size = 10;
  create_drawer_open = false;
  create_yaml = "";
  log_drawer_open = false;
  current_pod = none;
}

abbrev joined : List (String × String) → String
joined l = "q"

abbrev template : String → String → Option String → String
template api_version kind namespace = ""

pod_row-IsPlain : IsPlain same same pods pod_row
unfolding kind_meta all_kinds_map Dict.get Dict.put
pod_row-IsPlain = record {
  code = refl;
  one_part = refl;
  api_version = (refl, refl, refl);
  some_api_version = refl;
  kind = (refl, refl, refl);
  namespace = (refl, refl, refl);
  no_mark = refl;
  name = (refl, refl, refl);
}

edit_url-object_of_example :
    object_of same (match_path (edit_url same joined same template pods pod_row))
    ≡ object_of_row pods pod_row
edit_url-object_of_example =
    edit_url-object_of same same same joined template match_path pods pod_row match_path-Routes refl
      pod_row-IsPlain

digits : ℕ → String
digits n = "n"

-- The versions 2 and 5 are ticked and compared.
abbrev compared : List Event
compared = toggle 5 ∷ toggle 3 ∷ toggle 2 ∷ toggle 3 ∷ toggle 5 ∷ open_ticked ∷ []

history-IsSelection_example :
    IsSelection (history digits (object_of_row pods pod_row) no_compare compared)
history-IsSelection_example = history-IsSelection digits (object_of_row pods pod_row) compared

compared_pair :
    (history digits (object_of_row pods pod_row) no_compare compared).compare_pair ≡ some (2, 5)
unfolding Selection.step toggle_seq open_compare run_compare ordered_compare_seqs
compared_pair = refl

-- The versions 2 and 5 are ticked, and the button is clicked next.
abbrev ticked : List Event
ticked = toggle 5 ∷ toggle 3 ∷ toggle 2 ∷ toggle 3 ∷ []

open_compare-Opens_example :
    Opens
      (object_of_row pods pod_row)
      (history digits (object_of_row pods pod_row) no_compare ticked)
      (history digits (object_of_row pods pod_row) no_compare ticked).checked_seqs
      (open_compare
        (object_of_row pods pod_row)
        (history digits (object_of_row pods pod_row) no_compare ticked))
open_compare-Opens_example = open_compare-Opens (object_of_row pods pod_row) digits ticked
